-- ===== src/Realtime/Delivery.antt =====
-- Commands of the websocket client that come again.
use smart_ids.Base.{
  string_eq, ◌==◌, ◌≡◌, refl, ap, subst, length, sym, ◌∙◌, ◌<◌, Bool, true, false, Option, List, [],
  ◌∷◌, ◌++◌, String, if◌then◌else◌, Bool-cases, inl, inr,
}
use smart_ids.Text.{strip}
use smart_ids.Packet.{Time}
use smart_ids.Response.Firewall.{FirewallAdapter}
use smart_ids.Response.Blocker.{Reply}
use smart_ids.Processor.{BackendCommand, CommandProcessor, apply_backend_command}
use smart_ids.Processor.Once.{apply_all, apply_backend_command_once}
use smart_ids.Response.Commands.{contains_id}
use smart_ids.Realtime.{
  EngineWsClient, apply_and_ack_via_rest, catch_up_all, run_catchup, handle_command,
}

abbrev pub id_of : BackendCommand → String
id_of c = c.command_id

module _ {S : Type 0} (adapter : FirewallAdapter S) (parse_ip : String → Option Bool)
    (lower : String → String) where
  -- The command processor as the world of the client.
  abbrev pub apply_to : Time → CommandProcessor S → BackendCommand → CommandProcessor S × Reply
  apply_to now p c = apply_backend_command adapter parse_ip lower p c now

  -- Commands that are pushed over the websocket, with the times at which they come.
  unfoldable pub push_all :
      EngineWsClient (CommandProcessor S) BackendCommand
      → List (BackendCommand × Time)
      → EngineWsClient (CommandProcessor S) BackendCommand
  unfolding handle_command
  push_all client [] = client
  push_all client ((c, now) ∷ rest) =
      push_all (handle_command (apply_to now) id_of client c now) rest

  handle_command-world :
      (client : EngineWsClient (CommandProcessor S) BackendCommand) (c : BackendCommand)
      (now : Time)
      → ((handle_command (apply_to now) id_of client c now).world ≡ (apply_to now client.world c).0)
        × ((handle_command (apply_to now) id_of client c now).has_ack_endpoint
            ≡ client.has_ack_endpoint)
        × ((handle_command (apply_to now) id_of client c now).has_poller ≡ client.has_poller)
  unfolding handle_command
  handle_command-world client c now = elim (Bool-cases (strip c.command_id == "")) [
    | inl e ↦ rw e (refl, refl, refl)
    | inr e ↦ rw e (refl, refl, refl)
  ]

  push_all-world :
      (client : EngineWsClient (CommandProcessor S) BackendCommand)
      (commands : List (BackendCommand × Time))
      → ((push_all client commands).world ≡ apply_all adapter parse_ip lower client.world commands)
        × ((push_all client commands).has_ack_endpoint ≡ client.has_ack_endpoint)
        × ((push_all client commands).has_poller ≡ client.has_poller)
  unfolding push_all apply_all
  push_all-world client [] = (refl, refl, refl)
  push_all-world client ((c, now) ∷ rest) =
      let pushed = handle_command (apply_to now) id_of client c now in
      let (world, endpoint, poller) = push_all-world pushed rest in
      let (world1, endpoint1, poller1) = handle_command-world client c now in
      (
        world ∙ ap (λ p. apply_all adapter parse_ip lower p rest) world1,
        endpoint ∙ endpoint1,
        poller ∙ poller1,
      )

  acked_again :
      EngineWsClient (CommandProcessor S) BackendCommand
      → BackendCommand
      → EngineWsClient (CommandProcessor S) BackendCommand
  acked_again client c = record client {
    rest_acks =
        client.rest_acks
        ++ record { command_id = strip c.command_id; status = "duplicate_command" } ∷ [];
  }

  polled-all :
      (client : EngineWsClient (CommandProcessor S) BackendCommand) (later : Time)
      (commands : List BackendCommand)
      → client.has_poller ≡ true
      → run_catchup (apply_to later) id_of client commands
        ≡ catch_up_all (apply_to later) id_of client commands
  unfolding run_catchup
  polled-all client later commands k = enabled client.has_poller _ _ k
    where
      enabled : {A : Type 0} → (b : Bool) (x y : A) → b ≡ true → (if b then x else y) ≡ x
      enabled b x y e = rw e refl

  -- A poll that begins with a command that the engine takes for a duplicate.
  caught_again :
      (client : EngineWsClient (CommandProcessor S) BackendCommand) (c : BackendCommand)
      (later : Time) (more : List BackendCommand)
      → (strip c.command_id == "") ≡ false
      → client.has_ack_endpoint ≡ true
      → client.has_poller ≡ true
      → apply_to later client.world c ≡ (client.world, (true, "duplicate_command"))
      → run_catchup (apply_to later) id_of client (c ∷ more)
        ≡ run_catchup (apply_to later) id_of (acked_again client c) more
  unfolding catch_up_all apply_and_ack_via_rest acked_again
  caught_again client c later more filled h k again =
      let step : apply_and_ack_via_rest (apply_to later) id_of client c ≡ acked_again client c =
        simp (apply_and_ack_via_rest, filled, h, k, again) refl in
      polled-all client later (c ∷ more) k
      ∙ ap (λ q. catch_up_all (apply_to later) id_of q more) step
      ∙ sym (polled-all (acked_again client c) later more k)

  -- A command that was pushed over the websocket and carried out with success, and that the store did
  -- not know before, is not carried out again by a catch-up poll that returns it, first of any
  -- commands, after other pushed commands that are fewer than the identifiers that the store keeps:
  -- the engine stays as it was, the command is acknowledged over HTTP as a duplicate, and the poll
  -- goes on with the rest. A poller and an endpoint for acknowledgements are set.
  pub pushed_command_once :
      (client : EngineWsClient (CommandProcessor S) BackendCommand) (c : BackendCommand)
      (now later : Time) (others : List (BackendCommand × Time)) (more : List BackendCommand)
      → length others < client.world.processed_command_store.max_command_ids
      → (strip c.command_id == "") ≡ false
      → contains_id client.world.processed_command_store (strip c.command_id) ≡ false
      → (apply_to now client.world c).1.0 ≡ true
      → client.has_ack_endpoint ≡ true
      → client.has_poller ≡ true
      → let pushed = push_all client ((c, now) ∷ others) in
        run_catchup (apply_to later) id_of pushed (c ∷ more)
        ≡ run_catchup
            (apply_to later)
            id_of
            (record pushed {
              rest_acks =
                  pushed.rest_acks
                  ++ record { command_id = strip c.command_id; status = "duplicate_command" } ∷ [];
            })
            more
  unfolding apply_all acked_again
  pushed_command_once client c now later others more room filled new ok h k =
      let (world, endpoint, poller) = push_all-world client ((c, now) ∷ others) in
      let pushed = push_all client ((c, now) ∷ others) in
      let once =
        apply_backend_command_once adapter parse_ip lower client.world c now later others room
          filled new ok in
      let again : apply_to later pushed.world c ≡ (pushed.world, (true, "duplicate_command")) =
        subst (λ p. apply_to later p c ≡ (p, (true, "duplicate_command"))) (sym world) once in
      caught_again pushed c later more filled (endpoint ∙ h) (poller ∙ k) again
