-- ===== src/Runtime/Artifacts/Sidecars.antt =====
-- The files that `generate_checksums` writes.
use Prim.Native.Char.{code}
use text.Mathlib.TextLemmas.{append_cancel_right, append_cancel_left, append-nil, cons-append}
use smart_ids.Base.{
  string_eq, ◌==◌, beq_refl, ℕ, ◌≡◌, refl, subst, ap, ◌∙◌, true, false, Option, none, some, List,
  [], ◌∷◌, String, ◌⊎◌, inl, inr, ◌≢◌, ◌≢◌, All, Bool-cases, All-imp, length,
}
use smart_ids.Text.{is_space, strip, lstrip, rstrip, concat}
use smart_ids.Runtime.Artifacts.{
  Contents, absent, unreadable, bytes, compute_sha256, checksum_path, first_word, Libraries,
  update_chunks, compare_checksum, verify_artifact_checksum,
}
use smart_ids.Runtime.Artifacts.Generate.{write, add_done, generate_checksums}

-- No character of the text is a blank.
abbrev pub NoBlank : String → Type 0
NoBlank String.[] = Unit
NoBlank (String.◌∷◌ c s) = (is_space (code c) ≡ false) × NoBlank s

rstrip-line : (s : String) → NoBlank s → rstrip (concat s "\n") ≡ s
unfolding rstrip is_space
rstrip-line String.[] h = refl
rstrip-line (String.◌∷◌ c s) (h, rest) =
    rw (cons-append c s "\n", rstrip, rstrip-line s rest, h) refl

lstrip-line : (s : String) → NoBlank s → (s == "") ≡ false → lstrip (concat s "\n") ≡ concat s "\n"
unfolding lstrip
lstrip-line String.[] h filled = absurd (cc)
lstrip-line (String.◌∷◌ c s) (h, rest) filled = rw (cons-append c s "\n", lstrip, h) refl

first_word-NoBlank : (s : String) → NoBlank s → first_word s ≡ s
unfolding first_word
first_word-NoBlank String.[] h = refl
first_word-NoBlank (String.◌∷◌ c s) (h, rest) =
    rw (first_word, h) (ap (String.◌∷◌ c) (first_word-NoBlank s rest))

-- A word on a line of its own is read back.
first_word-line :
    (s : String) → NoBlank s → (s == "") ≡ false → first_word (strip (concat s "\n")) ≡ s
unfolding strip
first_word-line s h filled =
    ap (λ t. first_word (rstrip t)) (lstrip-line s h filled)
    ∙ ap first_word (rstrip-line s h)
    ∙ first_word-NoBlank s h

beq_false : (s t : String) → s ≢ t → (s == t) ≡ false
beq_false s t h = elim (Bool-cases (s == t)) [
  | inl e ↦ absurd (h ((string_eq.beq_iff s t).0 e))
  | inr e ↦ e
]

checksum_path-other : (p : String) → (p == checksum_path p) ≡ false
checksum_path-other p = beq_false p (checksum_path p) (λ e.
    let impossible : false ≡ true =
      (string_eq.beq_iff "" ".sha256").1 (append_cancel_left p "" ".sha256" (append-nil p ∙ e)) in
    absurd (cc))

checksum_path-apart :
    (p q : String) → (p == q) ≡ false → (checksum_path p == checksum_path q) ≡ false
checksum_path-apart p q h = beq_false (checksum_path p) (checksum_path q) (λ e.
    let same : (p == q) ≡ true = (string_eq.beq_iff p q).1 (append_cancel_right p q ".sha256" e) in
    absurd (cc))

Contents-cases :
    (c : Contents) → (c ≡ absent) ⊎ (c ≡ unreadable) ⊎ ((content : List ℕ) × (c ≡ bytes content))
Contents-cases absent = inl refl
Contents-cases unreadable = inr (inl refl)
Contents-cases (bytes content) = inr (inr (content, refl))

-- The artifacts are distinct, and none is the checksum's file of one that comes later.
abbrev pub Apart : List String → Type 0
Apart [] = Unit
Apart (p ∷ ps) = All (λ q. ((p == q) ≡ false) × ((p == checksum_path q) ≡ false)) ps × Apart ps

module _ {S M E : Type 0} (l : Libraries S M E) where
  abbrev pub line_of : List ℕ → List ℕ
  line_of content = l.encode (concat (compute_sha256 l.sha256 content) "\n")

  -- A path that is no artifact's checksum file is left as it is.
  untouched :
      (files : String → Contents) (target : String) (paths : List String)
      → All (λ q. (target == checksum_path q) ≡ false) paths
      → (generate_checksums l files paths).0 target ≡ files target
  unfolding generate_checksums
  untouched files target [] h = refl
  untouched files target (p ∷ ps) (apart, rest) = elim (Contents-cases (files p)) [
    | inl e ↦ rw (generate_checksums, e) (untouched files target ps rest)
    | inr (inl e) ↦ rw (generate_checksums, e) refl
    | inr (inr (content, e)) ↦
        let written : String → Contents = write files (checksum_path p) (line_of content) in
        let kept : written target ≡ files target = rw apart refl in
        rw (generate_checksums, e) (untouched written target ps rest ∙ kept)
  ]

  -- The file beside the artifact has the line with the digest.
  pub record Listed (files : String → Contents) (path : String) : Type 0 where
    pub content : List ℕ
    pub holds : files path ≡ bytes content
    pub beside : files (checksum_path path) ≡ bytes (line_of content)

  AllListed : (String → Contents) → Option (List String) → Type 0
  AllListed files none = Unit
  AllListed files (some done) = All (Listed files) done

  AllListed-add_done :
      (files : String → Contents) (path : String) (updated : Option (List String))
      → Listed files path
      → AllListed files updated
      → AllListed files (add_done path updated)
  unfolding AllListed
  AllListed-add_done files path none listed rest = tt
  AllListed-add_done files path (some done) listed rest = (listed, rest)

  later_checksums :
      (p : String) (ps : List String)
      → All (λ q. ((p == q) ≡ false) × ((p == checksum_path q) ≡ false)) ps
      → All (λ q. (p == checksum_path q) ≡ false) ps
        × All (λ q. (checksum_path p == checksum_path q) ≡ false) ps
  later_checksums p [] others = (tt, tt)
  later_checksums p (q ∷ qs) ((other, unlike), others) =
      let (paths, checksums) = later_checksums p qs others in
      ((unlike, paths), (checksum_path-apart p q other, checksums))

  generate_checksums-AllListed :
      (files : String → Contents) (paths : List String)
      → Apart paths
      → AllListed (generate_checksums l files paths).0 (generate_checksums l files paths).1
  unfolding generate_checksums AllListed
  generate_checksums-AllListed files [] apart = tt
  generate_checksums-AllListed files (p ∷ ps) (others, apart) = elim (Contents-cases (files p)) [
    | inl e ↦ rw (generate_checksums, e) (generate_checksums-AllListed files ps apart)
    | inr (inl e) ↦ rw (generate_checksums, e) tt
    | inr (inr (content, e)) ↦
        let written : String → Contents = write files (checksum_path p) (line_of content) in
        let (paths, checksums) = later_checksums p ps others in
        let kept : written p ≡ files p = rw (checksum_path-other p) refl in
        let new : written (checksum_path p) ≡ bytes (line_of content) =
          rw (beq_refl (checksum_path p)) refl in
        let listed : Listed (generate_checksums l written ps).0 p = record {
          content = content;
          holds = untouched written p ps paths ∙ kept ∙ e;
          beside = untouched written (checksum_path p) ps checksums ∙ new;
        } in
        let same : generate_checksums l files (p ∷ ps) ≡ (
          (generate_checksums l written ps).0,
          add_done p (generate_checksums l written ps).1,
        ) =
          rw (generate_checksums, e) refl in
        rw same (
          AllListed-add_done (generate_checksums l written ps).0 p
            (generate_checksums l written ps).1 listed
            (generate_checksums-AllListed written ps apart))
  ]

  Listed-verified :
      (files : String → Contents) (path : String)
      → ((digest : S)
          → l.decode (l.encode (concat (l.sha256.hexdigest digest) "\n"))
            ≡ some (concat (l.sha256.hexdigest digest) "\n"))
      → ((digest : S)
          → NoBlank (l.sha256.hexdigest digest) × ((l.sha256.hexdigest digest == "") ≡ false))
      → Listed files path
      → verify_artifact_checksum l files path (checksum_path path) ≡ none
  unfolding verify_artifact_checksum compare_checksum compute_sha256
  Listed-verified files path round hex listed =
      let digest : String = compute_sha256 l.sha256 listed.content in
      let state : S = update_chunks l.sha256 (length listed.content) l.sha256.init listed.content in
      let (no_blank, filled) = hex state in
      let read : verify_artifact_checksum l files path (checksum_path path)
          ≡ compare_checksum l files path (checksum_path path)
              (first_word (strip (concat digest "\n"))) =
        rw (verify_artifact_checksum, listed.beside, round state) refl in
      let compared : compare_checksum l files path (checksum_path path) digest ≡ none =
        rw (compare_checksum, filled, listed.holds, beq_refl (l.lower digest)) refl in
      read
      ∙ ap (compare_checksum l files path (checksum_path path))
          (first_word-line digest no_blank filled)
      ∙ compared

  -- The checksum files that are written pass the check: where the line of a digest is decoded to
  -- what was encoded, and a digest is a text that is not empty and has no blanks, every artifact that
  -- `generate_checksums` reports is verified against the files that it leaves. The artifacts are
  -- distinct, and none is the checksum file of one that comes later.
  pub generate_checksums_verified :
      (files : String → Contents) (paths done : List String)
      → ((digest : S)
          → l.decode (l.encode (concat (l.sha256.hexdigest digest) "\n"))
            ≡ some (concat (l.sha256.hexdigest digest) "\n"))
      → ((digest : S)
          → NoBlank (l.sha256.hexdigest digest) × ((l.sha256.hexdigest digest == "") ≡ false))
      → Apart paths
      → (generate_checksums l files paths).1 ≡ some done
      → All
          (λ path.
            verify_artifact_checksum l
              (generate_checksums l files paths).0
              path
              (checksum_path path)
            ≡ none)
          done
  unfolding AllListed
  generate_checksums_verified files paths done round hex apart h =
      let after : String → Contents = (generate_checksums l files paths).0 in
      All-imp (Listed after)
        (λ path. verify_artifact_checksum l after path (checksum_path path) ≡ none)
        (λ path. Listed-verified after path round hex) done
        (subst (AllListed after) h (generate_checksums-AllListed files paths apart))
