-- ===== src/Runtime/Artifacts.antt =====
-- ml/runtime/artifact_integrity.py and artifact_validation.py. A file
-- system is a function of the path; SHA-256, UTF-8, JSON, `str.lower` and joblib are parameters.
pub mod Digest
pub mod Verified
pub mod Loading
pub mod Exact
pub mod Generate
pub mod Sidecars
pub mod Names
use smart_ids.Base.{
  string_eq, ◌==◌, ℕ, zero, suc, Bool, true, false, not, Option, none, some, List, [], ◌∷◌, ◌++◌,
  String, ◌⊎◌, inl, inr, if◌then◌else◌, length, take, drop, filter, is_empty,
}
use Prim.Native.Char.{code}
use smart_ids.Text.{is_space, strip, concat}
use smart_ids.Capture.Extractor.{feature_columns}

pub Bytes : Type 0
Bytes = List ℕ

-- What a path leads to.
pub data Contents : Type 0 where
  absent unreadable : Contents
  bytes : List ℕ → Contents

pub record Sha256 (S : Type 0) : Type 0 where
  pub init : S
  pub feed : S → List ℕ → S
  pub hexdigest : S → String

abbrev pub chunk_size : ℕ
chunk_size = 65_536

module _ {S : Type 0} (sha : Sha256 S) where
  -- The loop over the chunks, as often as the file has bytes.
  unfoldable pub update_chunks : ℕ → S → List ℕ → S
  update_chunks zero digest rest = digest
  update_chunks (suc n) digest rest = elim (take chunk_size rest) [
    | [] ↦ digest
    | x ∷ xs ↦ update_chunks n (sha.feed digest (x ∷ xs)) (drop chunk_size rest)
  ]

  unfoldable pub compute_sha256 : List ℕ → String
  unfolding update_chunks
  compute_sha256 content = sha.hexdigest (update_chunks (length content) sha.init content)

-- `path.with_name(path.name + ".sha256")`
abbrev pub checksum_path : String → String
checksum_path path = concat path ".sha256"

-- The text up to its first blank: `split()[0]` of a text that begins with none.
unfoldable pub first_word : String → String
unfolding is_space
first_word String.[] = String.[]
first_word (String.◌∷◌ c s) = if is_space (code c) then String.[] else String.◌∷◌ c (first_word s)

-- What makes the loading fail: the messages of `RuntimeArtifactError`, and an exception of another
-- class.
pub data LoadError : Type 0 where
  missing_artifacts : List String → LoadError
  schema_mismatch : LoadError
  missing_checksum : String → LoadError
  unreadable_checksum : String → LoadError
  empty_checksum : String → LoadError
  checksum_mismatch : String → String → String → LoadError
  unable_to_load : LoadError
  names_mismatch : LoadError
  missing_classes : LoadError
  other_exception : LoadError

-- What `json.load` makes of the feature columns.
pub data SavedColumns : Type 0 where
  invalid : SavedColumns
  other_value : SavedColumns
  columns : List String → SavedColumns

-- What the code calls: M is a model, E a label encoder.
pub record Libraries (S M E : Type 0) : Type 0 where
  pub sha256 : Sha256 S
  pub lower : String → String
  pub encode : String → List ℕ
  pub decode : List ℕ → Option String
  pub load_json : List ℕ → SavedColumns
  pub load_model : List ℕ → Option M
  pub load_encoder : List ℕ → Option E
  pub feature_names : M → Option (List String)
  pub has_classes : E → Bool

abbrev pub exists : Contents → Bool
exists absent = false
exists unreadable = true
exists (bytes content) = true

-- `joblib.load`, which fails also where the file cannot be read.
abbrev pub load_bytes : {A : Type 0} → (List ℕ → Option A) → Contents → Option A
load_bytes load absent = none
load_bytes load unreadable = none
load_bytes load (bytes content) = load content

abbrev pub same_names : List String → List String → Bool
same_names [] [] = true
same_names [] (y ∷ ys) = false
same_names (x ∷ xs) [] = false
same_names (x ∷ xs) (y ∷ ys) = let rest = same_names xs ys in if x == y then rest else false

abbrev pub names_agree : Option (List String) → Bool
names_agree none = true
names_agree (some names) = same_names names feature_columns

abbrev pub columns_of : {S M E : Type 0} → Libraries S M E → Contents → SavedColumns
columns_of l absent = invalid
columns_of l unreadable = invalid
columns_of l (bytes content) = l.load_json content

module _ {S M E : Type 0} (l : Libraries S M E) (files : String → Contents) where
  -- The comparison with the word in the checksum's file.
  unfoldable pub compare_checksum : String → String → String → Option LoadError
  unfolding compute_sha256
  compare_checksum path sidecar expected =
      if expected == "" then some (empty_checksum sidecar) else elim (files path) [
        | absent ↦ some other_exception
        | unreadable ↦ some other_exception
        | bytes content ↦
            let actual : String = compute_sha256 l.sha256 content in
            if l.lower actual == l.lower expected
            then none
            else some (checksum_mismatch path expected actual)
      ]

  -- `verify_artifact_checksum`: what it raises.
  unfoldable pub verify_artifact_checksum : String → String → Option LoadError
  unfolding first_word strip compare_checksum
  verify_artifact_checksum path sidecar = elim (files sidecar) [
    | absent ↦ some (missing_checksum sidecar)
    | unreadable ↦ some (unreadable_checksum sidecar)
    | bytes content ↦ elim (l.decode content) [
      | none ↦ some other_exception
      | some text ↦ compare_checksum path sidecar (first_word (strip text))
    ]
  ]

  -- The checks of what was loaded.
  unfoldable pub check_loaded : M → E → LoadError ⊎ (M × E)
  check_loaded model label_encoder =
      if not (names_agree (l.feature_names model))
      then inl names_mismatch
      else if not (l.has_classes label_encoder)
      then inl missing_classes
      else inr (model, label_encoder)

  -- The two calls of `joblib.load`: the paths that are deserialized, in order, and the outcome.
  unfoldable pub deserialize : String → String → List String × (LoadError ⊎ (M × E))
  unfolding check_loaded
  deserialize model_path encoder_path = elim (load_bytes l.load_model (files model_path)) [
    | none ↦ (model_path ∷ [], inl unable_to_load)
    | some model ↦ elim (load_bytes l.load_encoder (files encoder_path)) [
      | none ↦ (model_path ∷ encoder_path ∷ [], inl unable_to_load)
      | some label_encoder ↦ (model_path ∷ encoder_path ∷ [], check_loaded model label_encoder)
    ]
  ]

  unfoldable pub load_verified : String → String → List String × (LoadError ⊎ (M × E))
  unfolding verify_artifact_checksum deserialize
  load_verified model_path encoder_path =
      elim (verify_artifact_checksum model_path (checksum_path model_path)) [
        | some error ↦ ([], inl error)
        | none ↦ elim (verify_artifact_checksum encoder_path (checksum_path encoder_path)) [
          | some error ↦ ([], inl error)
          | none ↦ deserialize model_path encoder_path
        ]
      ]

  -- After the feature columns are read.
  unfoldable pub load_with_columns :
      String → String → SavedColumns → List String × (LoadError ⊎ (M × E))
  unfolding load_verified
  load_with_columns model_path encoder_path invalid = ([], inl other_exception)
  load_with_columns model_path encoder_path other_value = ([], inl schema_mismatch)
  load_with_columns model_path encoder_path (columns saved) =
      if same_names saved feature_columns
      then load_verified model_path encoder_path
      else ([], inl schema_mismatch)

  unfoldable pub missing_paths : String → String → String → List String
  missing_paths model_path encoder_path feature_columns_path =
      filter (λ path. not (exists (files path)))
        (model_path ∷ encoder_path ∷ feature_columns_path ∷ [])

  -- `load_runtime_model_artifacts`
  unfoldable pub load_runtime_model_artifacts :
      String → String → String → List String × (LoadError ⊎ (M × E))
  unfolding load_with_columns missing_paths
  load_runtime_model_artifacts model_path encoder_path feature_columns_path =
      let missing : List String = missing_paths model_path encoder_path feature_columns_path in
      if not (is_empty missing)
      then ([], inl (missing_artifacts missing))
      else load_with_columns model_path encoder_path (columns_of l (files feature_columns_path))
