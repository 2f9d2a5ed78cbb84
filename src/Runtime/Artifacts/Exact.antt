-- ===== src/Runtime/Artifacts/Exact.antt =====
-- When a load succeeds.
use smart_ids.Base.{◌≡◌, ◌↔◌, refl, subst, ap, ◌∙◌, true, List, [], ◌∷◌, String, inr, All}
use smart_ids.Capture.Extractor.{feature_columns}
use smart_ids.Runtime.Artifacts.{
  Contents, absent, unreadable, bytes, columns, Libraries, exists, columns_of, check_loaded,
  deserialize, load_verified, load_with_columns, missing_paths, load_runtime_model_artifacts,
}
use smart_ids.Runtime.Artifacts.Names.{same_names_refl, agree_names}
use smart_ids.Runtime.Artifacts.Verified.{IsVerified, IsVerified-verify}
use smart_ids.Runtime.Artifacts.Loading.{Loaded, load_runtime_model_artifacts-Guarded}

module _ {S M E : Type 0} (l : Libraries S M E) (files : String → Contents) where
  -- All that is asked of the three files.
  pub record Passes (model_path encoder_path feature_columns_path : String) (model : M)
      (label_encoder : E) : Type 0 where
    pub model_verified : IsVerified l files model_path
    pub encoder_verified : IsVerified l files encoder_path
    pub loaded : Loaded l files model_path encoder_path model label_encoder
    pub schema : columns_of l (files feature_columns_path) ≡ columns feature_columns

  columns_of-exists :
      (c : Contents) (saved : List String) → columns_of l c ≡ columns saved → exists c ≡ true
  columns_of-exists absent saved h = absurd (cc)
  columns_of-exists unreadable saved h = refl
  columns_of-exists (bytes content) saved h = refl

  Passes-missing_paths :
      (model_path encoder_path feature_columns_path : String) (model : M) (label_encoder : E)
      → Passes model_path encoder_path feature_columns_path model label_encoder
      → missing_paths l files model_path encoder_path feature_columns_path ≡ []
  unfolding missing_paths
  Passes-missing_paths model_path encoder_path feature_columns_path model label_encoder p =
      let there = columns_of-exists (files feature_columns_path) feature_columns p.schema in
      rw (missing_paths, p.model_verified.holds, p.encoder_verified.holds, there) refl

  Passes-deserialize :
      (model_path encoder_path : String) (model : M) (label_encoder : E)
      → Loaded l files model_path encoder_path model label_encoder
      → deserialize l files model_path encoder_path
        ≡ (model_path ∷ encoder_path ∷ [], inr (model, label_encoder))
  unfolding deserialize check_loaded
  Passes-deserialize model_path encoder_path model label_encoder d =
      let names = agree_names (l.feature_names model) d.model_names in
      let checked : check_loaded l files model label_encoder ≡ inr (model, label_encoder) =
        rw (check_loaded, names, d.classes) refl in
      let both : deserialize l files model_path encoder_path
          ≡ (model_path ∷ encoder_path ∷ [], check_loaded l files model label_encoder) =
        rw (deserialize, d.model_loaded, d.encoder_loaded) refl in
      both ∙ ap (λ r. (model_path ∷ encoder_path ∷ [], r)) checked

  Passes-load :
      (model_path encoder_path feature_columns_path : String) (model : M) (label_encoder : E)
      → Passes model_path encoder_path feature_columns_path model label_encoder
      → load_runtime_model_artifacts l files model_path encoder_path feature_columns_path
        ≡ (model_path ∷ encoder_path ∷ [], inr (model, label_encoder))
  unfolding load_runtime_model_artifacts load_with_columns load_verified
  Passes-load model_path encoder_path feature_columns_path model label_encoder p =
      let missing =
        Passes-missing_paths model_path encoder_path feature_columns_path model label_encoder p in
      let none_missing : load_runtime_model_artifacts l files model_path encoder_path
            feature_columns_path
          ≡ load_with_columns l files model_path encoder_path
              (columns_of l (files feature_columns_path)) =
        rw (load_runtime_model_artifacts, missing) refl in
      let same_schema : load_with_columns l files model_path encoder_path (columns feature_columns)
          ≡ load_verified l files model_path encoder_path =
        rw (load_with_columns, same_names_refl feature_columns) refl in
      let verified : load_verified l files model_path encoder_path
          ≡ deserialize l files model_path encoder_path =
        rw
          (
            load_verified,
            IsVerified-verify l files model_path p.model_verified,
            IsVerified-verify l files encoder_path p.encoder_verified,
          )
          refl in
      none_missing
      ∙ ap (load_with_columns l files model_path encoder_path) p.schema
      ∙ same_schema
      ∙ verified
      ∙ Passes-deserialize model_path encoder_path model label_encoder p.loaded

  -- Nothing is deserialized but artifacts whose content has the digest that the file beside them
  -- names, whether the load succeeds or not. It deserializes both and succeeds with a model and an
  -- encoder exactly if both artifacts are verified and hold these, the saved columns are those of the
  -- schema, the model's feature names, if it has any, are too, and the encoder has classes.
  pub load_runtime_model_artifacts_exact :
      (model_path encoder_path feature_columns_path : String)
      → All
          (IsVerified l files)
          (load_runtime_model_artifacts l files model_path encoder_path feature_columns_path).0
        × ((model : M) (label_encoder : E)
            → (load_runtime_model_artifacts l files model_path encoder_path feature_columns_path
                ≡ (model_path ∷ encoder_path ∷ [], inr (model, label_encoder)))
              ↔ Passes model_path encoder_path feature_columns_path model label_encoder)
  load_runtime_model_artifacts_exact model_path encoder_path feature_columns_path =
      let (verified, success) =
        load_runtime_model_artifacts-Guarded l files model_path encoder_path feature_columns_path in
      (
        verified,
        λ model label_encoder. (
          (λ h.
              let (paths, loaded, schema) = success model label_encoder (ap (λ r. r.1) h) in
              let both : All (IsVerified l files) (model_path ∷ encoder_path ∷ []) =
                subst (All (IsVerified l files)) (ap (λ r. r.0) h) verified in
              record {
                model_verified = both.0;
                encoder_verified = both.1.0;
                loaded = loaded;
                schema = schema;
              }),
          Passes-load model_path encoder_path feature_columns_path model label_encoder,
        ),
      )
