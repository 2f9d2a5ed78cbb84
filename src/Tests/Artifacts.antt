-- ===== src/Tests/Artifacts.antt =====
-- The artifacts of the models, with a toy digest: files of numbers, of which the digest counts the bytes.
use smart_ids.Base.{
  string_eq, ◌==◌, ◌||◌, if◌then◌else◌, ℕ, zero, suc, ◌+◌, ◌≡◌, ◌↔◌, refl, true, false, Option,
  none, some, List, [], ◌∷◌, String, inr, All, length, length-append, arith,
}
use smart_ids.Capture.Extractor.{feature_columns}
use smart_ids.Text.{is_space, concat}
use smart_ids.Runtime.Artifacts.{
  Contents, absent, bytes, Sha256, compute_sha256, checksum_path, Libraries, columns,
  verify_artifact_checksum, load_runtime_model_artifacts,
}
use smart_ids.Runtime.Artifacts.Generate.{write, generate_checksums}
use smart_ids.Runtime.Artifacts.Digest.{compute_sha256-whole}
use smart_ids.Runtime.Artifacts.Verified.{IsVerified}
use smart_ids.Runtime.Artifacts.Exact.{Passes, load_runtime_model_artifacts_exact}
use smart_ids.Runtime.Artifacts.Sidecars.{NoBlank, generate_checksums_verified}

abbrev name_of : ℕ → String
name_of zero = "zero"
name_of (suc n) = "more"

-- The digest is the number of the bytes.
abbrev counting : Sha256 ℕ
counting = record { init = 0; feed = λ n xs. n + length xs; hexdigest = name_of }

abbrev content : List ℕ
content = 1 ∷ 2 ∷ []

compute_sha256-whole_example :
    compute_sha256 counting content ≡ counting.hexdigest (counting.feed counting.init content)
compute_sha256-whole_example =
    compute_sha256-whole counting (λ n. omega arith) (λ n xs ys. omega (arith, length-append xs ys))
      content

abbrev encode_line : String → List ℕ
encode_line text = if text == "zero\n" then [] else 1 ∷ []

abbrev decode_line : List ℕ → Option String
decode_line [] = some "zero\n"
decode_line (x ∷ xs) = some "more\n"

-- A model is a number, and so is an encoder.
abbrev libraries : Libraries ℕ ℕ ℕ
libraries = record {
  sha256 = counting;
  lower = λ text. text;
  encode = encode_line;
  decode = decode_line;
  load_json = λ xs. columns feature_columns;
  load_model = λ xs. some 7;
  load_encoder = λ xs. some 8;
  feature_names = λ model. some feature_columns;
  has_classes = λ label_encoder. true;
}

abbrev before : String → Contents
before path =
    if path == "model.pkl" || path == "encoder.pkl" || path == "columns.json"
    then bytes content
    else absent

abbrev artifacts : List String
artifacts = "encoder.pkl" ∷ "model.pkl" ∷ []

abbrev after : String → Contents
after = write (write before "encoder.pkl.sha256" (1 ∷ [])) "model.pkl.sha256" (1 ∷ [])

generated : (generate_checksums libraries before artifacts).1 ≡ some artifacts
unfolding generate_checksums
generated = refl

decoded :
    (n : ℕ) → decode_line (encode_line (concat (name_of n) "\n")) ≡ some (concat (name_of n) "\n")
decoded zero = refl
decoded (suc n) = refl

is_word : (n : ℕ) → NoBlank (name_of n) × ((name_of n == "") ≡ false)
unfolding is_space
is_word zero = ((refl, (refl, (refl, (refl, tt)))), refl)
is_word (suc n) = ((refl, (refl, (refl, (refl, tt)))), refl)

generate_checksums_verified_example :
    All
      (λ path.
        verify_artifact_checksum libraries
          (generate_checksums libraries before artifacts).0
          path
          (checksum_path path)
        ≡ none)
      artifacts
generate_checksums_verified_example =
    generate_checksums_verified libraries before artifacts artifacts decoded is_word
      (((refl, refl), tt), (tt, tt)) generated

both_loaded :
    load_runtime_model_artifacts libraries after "model.pkl" "encoder.pkl" "columns.json"
    ≡ ("model.pkl" ∷ "encoder.pkl" ∷ [], inr (7, 8))
unfolding load_runtime_model_artifacts feature_columns
both_loaded = refl

load_runtime_model_artifacts_exact_example :
    All
      (IsVerified libraries after)
      (load_runtime_model_artifacts libraries after "model.pkl" "encoder.pkl" "columns.json").0
    × ((model label_encoder : ℕ)
        → (load_runtime_model_artifacts libraries after "model.pkl" "encoder.pkl" "columns.json"
            ≡ ("model.pkl" ∷ "encoder.pkl" ∷ [], inr (model, label_encoder)))
          ↔ Passes libraries after "model.pkl" "encoder.pkl" "columns.json" model label_encoder)
load_runtime_model_artifacts_exact_example =
    load_runtime_model_artifacts_exact libraries after "model.pkl" "encoder.pkl" "columns.json"
