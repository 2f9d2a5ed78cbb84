-- ===== src/Registration/Trust.antt =====
-- Whose credential the engine takes.
use smart_ids.Base.{
  nat_eq, string_eq, ◌==◌, ◌≡◌, refl, ap, sym, ◌∙◌, subst, Bool, true, false, ◌||◌, none, some,
  List, [], ◌∷◌, String, ◌⊎◌, inl, inr, arith, Bool-cases, Option-cases,
}
use smart_ids.Text.{strip}
use smart_ids.Registration.{
  Credential, Request, RegistrationServer, post, options, timed_out, new_server, request_path,
  names_id, shutdown, do_post, on_timeout, serve, serve_all, SavedConfig, ConfigFile, save, load,
  text_of, url_or, seconds_or_default, persist_result, run_registration,
}

-- The credential was posted to /complete with the identifier of the registration.
pub data Relayed (registration_id : String) (c : Credential) : List Request → Type 0 where
  here :
      (path : String) (requests : List Request)
      → request_path path ≡ "/complete"
      → names_id c.registration_id registration_id ≡ true
      → Relayed registration_id c (post path (some c) ∷ requests)
  later :
      (request : Request) (requests : List Request)
      → Relayed registration_id c requests
      → Relayed registration_id c (request ∷ requests)

some-injective : {A : Type 0} (a b : A) → some a ≡ some b → a ≡ b
some-injective a b e = cc

-- What one request does: it leaves the result, or it relays one.
serve-result :
    (server : RegistrationServer) (request : Request) (requests : List Request)
    → ((serve server request).registration_id ≡ server.registration_id)
      × (((serve server request).result ≡ server.result)
          ⊎ ((c : Credential) × ((serve server request).result ≡ some c)
              × Relayed server.registration_id c (request ∷ requests)))
unfolding serve do_post shutdown on_timeout
serve-result server options requests = (refl, inl refl)
serve-result server timed_out requests = elim (Bool-cases server.done) [
  | inl e ↦ rw (serve, on_timeout, e) (refl, inl refl)
  | inr e ↦ rw (serve, on_timeout, e) (refl, inl refl)
]
serve-result server (post path none) requests =
    elim (Bool-cases (request_path path == "/complete")) [
      | inl e ↦ rw (serve, do_post, e) (refl, inl refl)
      | inr e ↦ rw (serve, do_post, e) (refl, inl refl)
    ]
serve-result server (post path (some c)) requests =
    elim (Bool-cases (request_path path == "/complete")) [
      | inr e ↦ rw (serve, do_post, e) (refl, inl refl)
      | inl e ↦ elim (Bool-cases (names_id c.registration_id server.registration_id)) [
        | inr f ↦ simp (serve, do_post, e, f) (refl, inl refl)
        | inl f ↦
            simp (serve, do_post, e, f)
              (
                refl,
                inr (
                  c,
                  refl,
                  Relayed.here path requests
                      ((string_eq.beq_iff (request_path path) "/complete").0 e) f,
                ),
              )
      ]
    ]

serve_all-Relayed :
    (server : RegistrationServer) (requests : List Request) (c : Credential)
    → (serve_all server requests).result ≡ some c
    → (server.result ≡ some c) ⊎ Relayed server.registration_id c requests
unfolding serve_all
serve_all-Relayed server [] c h = inl h
serve_all-Relayed server (request ∷ requests) c h =
    let (same, one) = serve-result server request requests in
    elim (serve_all-Relayed (serve server request) requests c h) [
      | inr r ↦ inr (Relayed.later request requests (subst (λ id. Relayed id c requests) same r))
      | inl e ↦ elim one [
        | inl kept ↦ inl (sym kept ∙ e)
        | inr (x, found, r) ↦ inr (
            subst (λ y. Relayed server.registration_id y (request ∷ requests))
              (some-injective x c (sym found ∙ e)) r)
      ]
    ]

-- The configuration comes from this credential, and is what the file now holds.
pub record Taken (file : ConfigFile) (config : SavedConfig) (c : Credential) : Type 0 where
  pub same_id : config.engine_id ≡ strip (text_of c.engine_id)
  pub same_secret : config.engine_secret ≡ strip (text_of c.engine_secret)
  pub filled : (config.engine_id == "" || config.engine_secret == "") ≡ false
  pub loaded : load file ≡ some config

-- What is saved.
filled_config : Credential → String → SavedConfig
filled_config c url = record {
  engine_id = strip (text_of c.engine_id);
  engine_secret = strip (text_of c.engine_secret);
  backend_url = strip (url_or c.backend_url url);
  heartbeat_interval_seconds = seconds_or_default c.heartbeat_interval_seconds;
}

persist_result-filled :
    (file : ConfigFile) (c : Credential) (url : String)
    → (strip (text_of c.engine_id) == "" || strip (text_of c.engine_secret) == "") ≡ false
    → persist_result file c url ≡ (save (filled_config c url), some (filled_config c url))
unfolding filled_config load save persist_result strip
persist_result-filled file c url e = rw (persist_result, e) refl

filled_config-Taken :
    (c : Credential) (url : String)
    → (strip (text_of c.engine_id) == "" || strip (text_of c.engine_secret) == "") ≡ false
    → Taken (save (filled_config c url)) (filled_config c url) c
unfolding filled_config load save
filled_config-Taken c url e = record {
  same_id = refl;
  same_secret = refl;
  filled = e;
  loaded = refl;
}

persist_result-Taken :
    (file : ConfigFile) (c : Credential) (url : String) (config : SavedConfig)
    → (persist_result file c url).1 ≡ some config
    → Taken (persist_result file c url).0 config c
unfolding persist_result
persist_result-Taken file c url config h =
    elim (Bool-cases (strip (text_of c.engine_id) == "" || strip (text_of c.engine_secret) == "")) [
      | inl e ↦ absurd (ground (arith, h, e))
      | inr e ↦
          let computed = persist_result-filled file c url e in
          let config_is =
            some-injective (filled_config c url) config (sym (ap (λ r. r.1) computed) ∙ h) in
          rw computed (
            subst (λ k. Taken (save (filled_config c url)) k c) config_is
              (filled_config-Taken c url e))
    ]

registered :
    (file : ConfigFile) (registration_id backend_url : String) (requests : List Request)
    (config : SavedConfig)
    → (run_registration file registration_id backend_url true true requests).1 ≡ some config
    → ((serve_all (new_server registration_id) requests).result ≡ none)
      ⊎ ((c : Credential) × ((serve_all (new_server registration_id) requests).result ≡ some c))
    → (c : Credential) × Relayed registration_id c requests
      × Taken (run_registration file registration_id backend_url true true requests).0 config c
unfolding new_server run_registration
registered file registration_id backend_url requests config h (inl e) =
    let nothing : run_registration file registration_id backend_url true true requests
        ≡ (file, none) =
      rw (run_registration, e) refl in
    absurd (cc)
registered file registration_id backend_url requests config h (inr (c, e)) =
    let persisted : run_registration file registration_id backend_url true true requests
        ≡ persist_result file c backend_url =
      rw (run_registration, e) refl in
    let taken =
      persist_result-Taken file c backend_url config (sym (ap (λ r. r.1) persisted) ∙ h) in
    elim (serve_all-Relayed (new_server registration_id) requests c e) [
      | inl impossible ↦ absurd (cc)
      | inr r ↦ (c, r, rw persisted taken)
    ]

-- Registration returns a configuration only if the loopback server was sent, at /complete, a
-- credential that names the identifier of this very registration; the configuration has that
-- credential's engine and secret, neither of them empty, and is what the file holds from then on.
pub run_registration-Relayed :
    (file : ConfigFile) (registration_id backend_url : String) (starts init_accepted : Bool)
    (requests : List Request) (config : SavedConfig)
    → (run_registration file registration_id backend_url starts init_accepted requests).1
      ≡ some config
    → (c : Credential) × Relayed registration_id c requests
      × Taken
          (run_registration file registration_id backend_url starts init_accepted requests).0
          config
          c
unfolding run_registration
run_registration-Relayed file registration_id backend_url false init_accepted requests config h =
    absurd (cc)
run_registration-Relayed file registration_id backend_url true false requests config h = absurd (cc)
run_registration-Relayed file registration_id backend_url true true requests config h =
    registered file registration_id backend_url requests config h
      (Option-cases (serve_all (new_server registration_id) requests).result)
