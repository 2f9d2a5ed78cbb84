-- ===== src/Processor.antt =====
-- packet_capture/processor/packet_processor.py: the commands of the backend. The session alerts are
-- in Alerts, the responses to evidence in Respond, and `process` in Pipeline.
-- `now` is what `time.time()` returns in a call; `lower` is `str.lower`.
pub mod Outbox
pub mod Steps
pub mod Once
pub mod Alerts
pub mod Repeats
pub mod Respond
pub mod Shadow
pub mod Pipeline
use smart_ids.Base.{
  nat_eq, string_eq, ◌==◌, ℕ, Bool, true, false, ◌&&◌, ◌||◌, not, Option, none, some, List, [], ◌∷◌,
  ◌++◌, String, max, if◌then◌else◌,
}
use smart_ids.Text.{strip, concat}
use smart_ids.Packet.{Time}
use smart_ids.Processor.Outbox.{Publisher, publish}
use smart_ids.Response.Firewall.{FirewallAdapter}
use smart_ids.Response.Commands.{ProcessedCommandStore, contains_id, add_id}
use smart_ids.Response.Blocker.{
  AutoBlocker, Reply, manual_block, manual_unblock, watchlist_ip, unwatchlist_ip,
}

-- A command, with its fields as texts; a missing one is empty. A negative duration is left out.
pub record BackendCommand : Type 0 where
  pub command_id : String
  pub action : String
  pub ip_address : String
  pub duration_seconds : Option ℕ

-- What `_publish_block_event` is called with.
pub record BlockEvent : Type 0 where
  pub event_id : String
  pub source_ip : String
  pub action_taken : String
  pub reason : String
  pub detection_method : String
  pub session_id : Option String
  pub source_port : Option ℕ
  pub destination_ip : Option String
  pub destination_port : Option ℕ
  pub protocol : Option ℕ
  pub timestamp : Time

pub record CommandProcessor (S : Type 0) : Type 0 where
  pub auto_blocker : AutoBlocker S
  pub processed_command_store : ProcessedCommandStore
  pub block_event_publisher : Publisher BlockEvent

-- `int(command.get("duration_seconds", 300) or 300)`
unfoldable pub duration_of : Option ℕ → ℕ
duration_of none = 300
duration_of (some n) = if n == 0 then 300 else n

unfoldable pub mapped_action : String → String
mapped_action action =
    if action == "unblock"
    then "unblocked"
    else if action == "watchlist"
    then "watchlisted"
    else if action == "unwatchlist"
    then "unwatchlisted"
    else "blocked"

unfoldable pub event_of : String → String → String → Time → BlockEvent
unfolding mapped_action
event_of command_id ip_address action now = record {
  event_id =
      if command_id == ""
      then concat "cmd-" (concat ip_address (concat "-" action))
      else concat "cmd-" command_id;
  source_ip = ip_address;
  action_taken = mapped_action action;
  reason = concat "manual_" action;
  detection_method = "manual";
  session_id = none;
  source_port = none;
  destination_ip = none;
  destination_port = none;
  protocol = none;
  timestamp = now;
}

module _ {S : Type 0} (adapter : FirewallAdapter S) (parse_ip : String → Option Bool) where
  -- The call of the blocker, if the action is one of the four.
  unfoldable pub run_action :
      AutoBlocker S → String → String → ℕ → Time → Option (AutoBlocker S × Reply)
  run_action b action ip_address duration_seconds now =
      if action == "block"
      then some (manual_block adapter parse_ip b ip_address (max 1 duration_seconds) now)
      else if action == "unblock"
      then some (manual_unblock adapter parse_ip b ip_address now)
      else if action == "watchlist"
      then some (watchlist_ip parse_ip b ip_address now)
      else if action == "unwatchlist"
      then some (unwatchlist_ip b ip_address now)
      else none

  -- What follows the call.
  unfoldable pub note_command :
      CommandProcessor S
      → String
      → String
      → String
      → Time
      → AutoBlocker S × Reply
      → CommandProcessor S × Reply
  unfolding event_of publish
  note_command p command_id action ip_address now (b, reply) =
      if reply.0
      then (
        record {
          auto_blocker = b;
          processed_command_store =
              if command_id == ""
              then p.processed_command_store
              else add_id p.processed_command_store command_id;
          block_event_publisher =
              publish p.block_event_publisher (event_of command_id ip_address action now);
        },
        reply,
      )
      else (record p { auto_blocker = b }, reply)

  unfoldable pub apply_backend_command :
      (String → String) → CommandProcessor S → BackendCommand → Time → CommandProcessor S × Reply
  unfolding run_action note_command duration_of
  apply_backend_command lower p command now =
      let command_id = strip command.command_id in
      let action = lower (strip command.action) in
      let ip_address = strip command.ip_address in
      if action == "" || ip_address == ""
      then (p, (false, "invalid_command"))
      else if not (command_id == "") && contains_id p.processed_command_store command_id
      then (p, (true, "duplicate_command"))
      else elim (run_action p.auto_blocker action ip_address (duration_of command.duration_seconds)
          now) [
            | none ↦ (p, (false, "unsupported_action"))
            | some done ↦ note_command p command_id action ip_address now done
          ]
