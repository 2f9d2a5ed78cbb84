-- ===== src/Tests/Registration.antt =====
-- The registration: a stranger's credential is refused, and the right one is taken.
use smart_ids.Base.{◌≡◌, refl, true, none, some, List, [], ◌∷◌}
use smart_ids.Registration.{
  Credential, Request, post, options, request_path, do_post, new_server, SavedConfig, unreadable,
  run_registration,
}
use smart_ids.Registration.Trust.{Relayed, Taken, run_registration-Relayed}

abbrev stranger : Credential
stranger = record {
  registration_id = some "other";
  engine_id = some "e9";
  engine_secret = some "s9";
  backend_url = none;
  heartbeat_interval_seconds = none;
}

abbrev relayed : Credential
relayed = record {
  registration_id = some "r1";
  engine_id = some " e1 ";
  engine_secret = some "s1";
  backend_url = none;
  heartbeat_interval_seconds = none;
}

abbrev requests : List Request
requests = options ∷ post "/complete" (some stranger) ∷ post "/complete/?x=1" (some relayed) ∷ []

abbrev config : SavedConfig
config = record {
  engine_id = "e1";
  engine_secret = "s1";
  backend_url = "http://b";
  heartbeat_interval_seconds = 30;
}

path_of_query : request_path "/complete/?x=1" ≡ "/complete"
unfolding request_path
path_of_query = refl

stranger_refused : (do_post (new_server "r1") "/complete" (some stranger)).1 ≡ 403
unfolding do_post new_server
stranger_refused = refl

registered : (run_registration unreadable "r1" "http://b" true true requests).1 ≡ some config
unfolding run_registration
registered = refl

run_registration-Relayed_example :
    (c : Credential) × Relayed "r1" c requests
    × Taken (run_registration unreadable "r1" "http://b" true true requests).0 config c
run_registration-Relayed_example =
    run_registration-Relayed unreadable "r1" "http://b" true true requests config registered
