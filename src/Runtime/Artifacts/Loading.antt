-- ===== src/Runtime/Artifacts/Loading.antt =====
-- What is deserialized.
use smart_ids.Base.{
  string_eq, ◌≡◌, refl, subst, sym, ap, ◌∙◌, true, not, none, some, List, [], ◌∷◌, String, ◌⊎◌, inl,
  inr, All, Bool-cases, Option-cases, is_empty,
}
use smart_ids.Capture.Extractor.{feature_columns}
use smart_ids.Runtime.Artifacts.{
  Contents, checksum_path, LoadError, unable_to_load, names_mismatch, missing_classes,
  missing_artifacts, schema_mismatch, SavedColumns, invalid, other_value, columns, Libraries,
  load_bytes, same_names, names_agree, columns_of, verify_artifact_checksum, check_loaded,
  deserialize, load_verified, load_with_columns, missing_paths, load_runtime_model_artifacts,
}
use smart_ids.Runtime.Artifacts.Names.{same_names_eq, names_agree_eq}
use smart_ids.Runtime.Artifacts.Verified.{IsVerified, verify-IsVerified}

module _ {S M E : Type 0} (l : Libraries S M E) (files : String → Contents) where
  -- A model and an encoder that the two files hold, and that pass the checks.
  pub record Loaded (model_path encoder_path : String) (model : M) (label_encoder : E)
      : Type 0 where
    pub model_names :
        (l.feature_names model ≡ none) ⊎ (l.feature_names model ≡ some feature_columns)
    pub classes : l.has_classes label_encoder ≡ true
    pub model_loaded : load_bytes l.load_model (files model_path) ≡ some model
    pub encoder_loaded : load_bytes l.load_encoder (files encoder_path) ≡ some label_encoder

  -- Only verified artifacts are deserialized, and a success has loaded both.
  Guarded : String → String → List String × (LoadError ⊎ (M × E)) → Type 0
  Guarded model_path encoder_path (paths, result) =
      All (IsVerified l files) paths
      × ((model : M) (label_encoder : E)
          → result ≡ inr (model, label_encoder)
          → (paths ≡ model_path ∷ encoder_path ∷ [])
            × Loaded model_path encoder_path model label_encoder)

  check_loaded-inr :
      (model : M) (label_encoder : E) (found : M × E)
      → check_loaded l files model label_encoder ≡ inr found
      → (found ≡ (model, label_encoder))
        × (names_agree (l.feature_names model) ≡ true)
        × (l.has_classes label_encoder ≡ true)
  unfolding check_loaded
  check_loaded-inr model label_encoder found h =
      elim (Bool-cases (names_agree (l.feature_names model))) [
        | inr e ↦
            let refused : check_loaded l files model label_encoder ≡ inl names_mismatch =
              rw (check_loaded, e) refl in
            absurd (cc)
        | inl e ↦ elim (Bool-cases (l.has_classes label_encoder)) [
          | inr f ↦
              let refused : check_loaded l files model label_encoder ≡ inl missing_classes =
                rw (check_loaded, e, f) refl in
              absurd (cc)
          | inl f ↦
              let passed : check_loaded l files model label_encoder ≡ inr (model, label_encoder) =
                rw (check_loaded, e, f) refl in
              (cc, e, f)
        ]
      ]

  deserialize-Guarded :
      (model_path encoder_path : String)
      → IsVerified l files model_path
      → IsVerified l files encoder_path
      → Guarded model_path encoder_path (deserialize l files model_path encoder_path)
  unfolding deserialize Guarded
  deserialize-Guarded model_path encoder_path v w =
      elim (Option-cases (load_bytes l.load_model (files model_path))) [
        | inl e ↦
            let same : deserialize l files model_path encoder_path
                ≡ (model_path ∷ [], inl unable_to_load) =
              rw (deserialize, e) refl in
            subst (Guarded model_path encoder_path) (sym same) ((v, tt), λ m c h. absurd (cc))
        | inr (model, e) ↦ elim (Option-cases (load_bytes l.load_encoder (files encoder_path))) [
          | inl f ↦
              let same : deserialize l files model_path encoder_path
                  ≡ (model_path ∷ encoder_path ∷ [], inl unable_to_load) =
                rw (deserialize, e, f) refl in
              subst (Guarded model_path encoder_path) (sym same)
                ((v, (w, tt)), λ m c h. absurd (cc))
          | inr (label_encoder, f) ↦
              let same : deserialize l files model_path encoder_path
                  ≡ (model_path ∷ encoder_path ∷ [], check_loaded l files model label_encoder) =
                rw (deserialize, e, f) refl in
              subst (Guarded model_path encoder_path) (sym same) (
                (v, (w, tt)),
                λ m c h.
                    let (found, names, classes) = check_loaded-inr model label_encoder (m, c) h in
                    let same_model : m ≡ model = ap (λ p. p.0) found in
                    let same_encoder : c ≡ label_encoder = ap (λ p. p.1) found in
                    (
                      refl,
                      record {
                        model_names = names_agree_eq (l.feature_names m) (
                            subst (λ x. names_agree (l.feature_names x) ≡ true) (sym same_model)
                              names);
                        classes = subst (λ x. l.has_classes x ≡ true) (sym same_encoder) classes;
                        model_loaded = e ∙ ap some (sym same_model);
                        encoder_loaded = f ∙ ap some (sym same_encoder);
                      },
                    ),
              )
        ]
      ]

  load_verified-Guarded :
      (model_path encoder_path : String)
      → Guarded model_path encoder_path (load_verified l files model_path encoder_path)
  unfolding load_verified Guarded
  load_verified-Guarded model_path encoder_path =
      elim (Option-cases (verify_artifact_checksum l files model_path (checksum_path model_path))) [
        | inr (error, e) ↦
            let same : load_verified l files model_path encoder_path ≡ ([], inl error) =
              rw (load_verified, e) refl in
            subst (Guarded model_path encoder_path) (sym same) (tt, λ m c h. absurd (cc))
        | inl e ↦
            elim (Option-cases
              (verify_artifact_checksum l files encoder_path (checksum_path encoder_path))) [
                | inr (error, f) ↦
                    let same : load_verified l files model_path encoder_path ≡ ([], inl error) =
                      rw (load_verified, e, f) refl in
                    subst (Guarded model_path encoder_path) (sym same) (tt, λ m c h. absurd (cc))
                | inl f ↦
                    let same : load_verified l files model_path encoder_path
                        ≡ deserialize l files model_path encoder_path =
                      rw (load_verified, e, f) refl in
                    subst (Guarded model_path encoder_path) (sym same) (
                      deserialize-Guarded model_path encoder_path
                        (verify-IsVerified l files model_path e)
                        (verify-IsVerified l files encoder_path f))
              ]
      ]

  -- The columns that are saved, for a success.
  load_with_columns-Guarded :
      (model_path encoder_path : String) (saved : SavedColumns)
      → Guarded model_path encoder_path (load_with_columns l files model_path encoder_path saved)
        × ((found : M × E)
            → (load_with_columns l files model_path encoder_path saved).1 ≡ inr found
            → saved ≡ columns feature_columns)
  unfolding load_with_columns Guarded
  load_with_columns-Guarded model_path encoder_path invalid =
      ((tt, λ m c h. absurd (cc)), λ found h. absurd (cc))
  load_with_columns-Guarded model_path encoder_path other_value =
      ((tt, λ m c h. absurd (cc)), λ found h. absurd (cc))
  load_with_columns-Guarded model_path encoder_path (columns saved) =
      elim (Bool-cases (same_names saved feature_columns)) [
        | inl e ↦
            let same : load_with_columns l files model_path encoder_path (columns saved)
                ≡ load_verified l files model_path encoder_path =
              rw (load_with_columns, e) refl in
            (
              subst (Guarded model_path encoder_path) (sym same)
                  (load_verified-Guarded model_path encoder_path),
              λ found h. ap columns (same_names_eq saved feature_columns e),
            )
        | inr e ↦
            let same : load_with_columns l files model_path encoder_path (columns saved)
                ≡ ([], inl schema_mismatch) =
              rw (load_with_columns, e) refl in
            (
              subst (Guarded model_path encoder_path) (sym same) (tt, λ m c h. absurd (cc)),
              λ found h. absurd (cc),
            )
      ]

  pub load_runtime_model_artifacts-Guarded :
      (model_path encoder_path feature_columns_path : String)
      → All
          (IsVerified l files)
          (load_runtime_model_artifacts l files model_path encoder_path feature_columns_path).0
        × ((model : M) (label_encoder : E)
            → (load_runtime_model_artifacts l files model_path encoder_path feature_columns_path).1
              ≡ inr (model, label_encoder)
            → ((load_runtime_model_artifacts l files model_path encoder_path feature_columns_path).0
                ≡ model_path ∷ encoder_path ∷ [])
              × Loaded model_path encoder_path model label_encoder
              × (columns_of l (files feature_columns_path) ≡ columns feature_columns))
  unfolding load_runtime_model_artifacts Guarded
  load_runtime_model_artifacts-Guarded model_path encoder_path feature_columns_path =
      elim (Bool-cases
        (not (is_empty (missing_paths l files model_path encoder_path feature_columns_path)))) [
          | inl e ↦
              let same : load_runtime_model_artifacts l files model_path encoder_path
                    feature_columns_path
                  ≡ (
                    [],
                    inl (
                        missing_artifacts
                          (missing_paths l files model_path encoder_path feature_columns_path)),
                  ) =
                rw (load_runtime_model_artifacts, e) refl in
              rw same (tt, λ m c h. absurd (cc))
          | inr e ↦
              let same : load_runtime_model_artifacts l files model_path encoder_path
                    feature_columns_path
                  ≡ load_with_columns l files model_path encoder_path
                      (columns_of l (files feature_columns_path)) =
                rw (load_runtime_model_artifacts, e) refl in
              let ((verified, success), saved) =
                load_with_columns-Guarded model_path encoder_path
                  (columns_of l (files feature_columns_path)) in
              rw same (
                verified,
                λ m c h. let (paths, loaded) = success m c h in (paths, loaded, saved (m, c) h),
              )
        ]
