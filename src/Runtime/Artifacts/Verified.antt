-- ===== src/Runtime/Artifacts/Verified.antt =====
-- The check of one artifact.
use smart_ids.Base.{
  string_eq, ◌==◌, ℕ, ◌≡◌, refl, sym, ◌∙◌, false, true, none, some, List, String, inl, inr,
  Bool-cases, Option-cases,
}
use smart_ids.Text.{strip}
use smart_ids.Runtime.Artifacts.{
  Contents, absent, unreadable, bytes, compute_sha256, checksum_path, first_word, missing_checksum,
  unreadable_checksum, empty_checksum, checksum_mismatch, other_exception, Libraries,
  compare_checksum, verify_artifact_checksum,
}

module _ {S M E : Type 0} (l : Libraries S M E) (files : String → Contents) where
  -- The file beside the artifact names the digest of the artifact's content.
  pub record IsVerified (path : String) : Type 0 where
    pub content : List ℕ
    pub listed : List ℕ
    pub text : String
    pub holds : files path ≡ bytes content
    pub beside : files (checksum_path path) ≡ bytes listed
    pub decoded : l.decode listed ≡ some text
    pub named : (first_word (strip text) == "") ≡ false
    pub same_digest : l.lower (compute_sha256 l.sha256 content) ≡ l.lower (first_word (strip text))

  -- What `compare_checksum` makes of a file's content.
  Compared : String → Contents → Type 0
  Compared expected found =
      (content : List ℕ) × (found ≡ bytes content)
      × (l.lower (compute_sha256 l.sha256 content) ≡ l.lower expected)

  compare_checksum-Compared :
      (path sidecar expected : String)
      → compare_checksum l files path sidecar expected ≡ none
      → ((expected == "") ≡ false) × Compared expected (files path)
  unfolding compare_checksum Compared
  compare_checksum-Compared path sidecar expected h = elim (Bool-cases (expected == "")) [
    | inl e ↦
        let refused : compare_checksum l files path sidecar expected
            ≡ some (empty_checksum sidecar) =
          rw (compare_checksum, e) refl in
        absurd (cc)
    | inr e ↦ (e, found (files path) refl e)
  ]
    where
      found :
          (c : Contents)
          → files path ≡ c
          → (expected == "") ≡ false
          → Compared expected (files path)
      found absent f e =
          let refused : compare_checksum l files path sidecar expected ≡ some other_exception =
            rw (compare_checksum, e, f) refl in
          absurd (cc)
      found unreadable f e =
          let refused : compare_checksum l files path sidecar expected ≡ some other_exception =
            rw (compare_checksum, e, f) refl in
          absurd (cc)
      found (bytes content) f e =
          elim (Bool-cases (l.lower (compute_sha256 l.sha256 content) == l.lower expected)) [
            | inl g ↦ (
              content,
              f,
              (string_eq.beq_iff (l.lower (compute_sha256 l.sha256 content)) (l.lower expected)).0
                  g,
            )
            | inr g ↦
                let refused : compare_checksum l files path sidecar expected
                    ≡ some (checksum_mismatch path expected (compute_sha256 l.sha256 content)) =
                  rw (compare_checksum, e, f, g) refl in
                absurd (cc)
          ]

  pub verify-IsVerified :
      (path : String)
      → verify_artifact_checksum l files path (checksum_path path) ≡ none
      → IsVerified path
  unfolding verify_artifact_checksum Compared
  verify-IsVerified path h = read (files (checksum_path path)) refl
    where
      read : (c : Contents) → files (checksum_path path) ≡ c → IsVerified path
      read absent f =
          let refused : verify_artifact_checksum l files path (checksum_path path)
              ≡ some (missing_checksum (checksum_path path)) =
            rw (verify_artifact_checksum, f) refl in
          absurd (cc)
      read unreadable f =
          let refused : verify_artifact_checksum l files path (checksum_path path)
              ≡ some (unreadable_checksum (checksum_path path)) =
            rw (verify_artifact_checksum, f) refl in
          absurd (cc)
      read (bytes listed) f = elim (Option-cases (l.decode listed)) [
        | inl g ↦
            let refused : verify_artifact_checksum l files path (checksum_path path)
                ≡ some other_exception =
              rw (verify_artifact_checksum, f, g) refl in
            absurd (cc)
        | inr (text, g) ↦
            let compared : verify_artifact_checksum l files path (checksum_path path)
                ≡ compare_checksum l files path (checksum_path path) (first_word (strip text)) =
              rw (verify_artifact_checksum, f, g) refl in
            let (named, (content, holds, same)) =
              compare_checksum-Compared path (checksum_path path) (first_word (strip text))
                (sym compared ∙ h) in
            record {
              content = content;
              listed = listed;
              text = text;
              holds = holds;
              beside = f;
              decoded = g;
              named = named;
              same_digest = same;
            }
      ]

  IsVerified-compare :
      (path word : String) (content : List ℕ)
      → (word == "") ≡ false
      → files path ≡ bytes content
      → (l.lower (compute_sha256 l.sha256 content) == l.lower word) ≡ true
      → compare_checksum l files path (checksum_path path) word ≡ none
  unfolding compare_checksum
  IsVerified-compare path word content named holds same =
      rw (compare_checksum, named, holds, same) refl

  pub IsVerified-verify :
      (path : String)
      → IsVerified path
      → verify_artifact_checksum l files path (checksum_path path) ≡ none
  unfolding verify_artifact_checksum
  IsVerified-verify path v =
      let word : String = first_word (strip v.text) in
      let digest : String = compute_sha256 l.sha256 v.content in
      let read : verify_artifact_checksum l files path (checksum_path path)
          ≡ compare_checksum l files path (checksum_path path) word =
        rw (verify_artifact_checksum, v.beside, v.decoded) refl in
      read
      ∙ IsVerified-compare path word v.content v.named v.holds
          ((string_eq.beq_iff (l.lower digest) (l.lower word)).1 v.same_digest)
