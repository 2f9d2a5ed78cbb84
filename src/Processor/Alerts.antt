-- ===== src/Processor/Alerts.antt =====
-- packet_capture/processor/packet_processor.py: the alerts, and those of a session. What
-- `emit_session_alert` notes of the last alert of a session is its signature.
use smart_ids.Base.{
  nat_eq, string_eq, ◌==◌, ℕ, Bool, true, false, ◌&&◌, not, Option, none, some, String,
  if◌then◌else◌,
}
use smart_ids.Dict.{Dict, get, put, pop}
use smart_ids.Packet.{Time}
use smart_ids.Capture.Features.{FeatureStore, add_feature}
use smart_ids.Forwarding.Contracts.{Scores}
use smart_ids.Processor.Outbox.{Publisher, publish}

-- An alert; the last three entries are there in alerts of sessions only.
pub record Alert (F : Type 0) : Type 0 where
  pub kind : String
  pub attack_type : String
  pub confidence : F
  pub blocked : Bool
  pub block_status : String
  pub block_duration_seconds : ℕ
  pub src_ip : String
  pub dst_ip : String
  pub src_port : Option ℕ
  pub dst_port : Option ℕ
  pub protocol : ℕ
  pub timestamp : Time
  pub is_final : Option Bool
  pub session_id : Option String
  pub update_type : Option String

-- `round(confidence, 4)` is a whole number of ten-thousandths.
pub record Signature : Type 0 where
  pub attack_type : String
  pub confidence : ℕ
  pub blocked : Bool

pub record AlertState (F : Type 0) : Type 0 where
  pub session_alert_state : Dict String Signature
  pub alert_store : FeatureStore (Alert F)
  pub alert_publisher : Publisher (Alert F)

unfoldable pub same_signature : Signature → Signature → Bool
same_signature s t =
    s.attack_type == t.attack_type
    && s.confidence == t.confidence
    && (if s.blocked then t.blocked else not t.blocked)

abbrev pub update_type : Option Signature → Bool → String
update_type previous true = "final"
update_type none false = "new"
update_type (some old) false = "updated"

module _ {F : Type 0} where
  unfoldable pub signature_of : Scores F → Alert F → Signature
  signature_of scores alert = record {
    attack_type = alert.attack_type;
    confidence = scores.ten_thousandths alert.confidence;
    blocked = alert.blocked;
  }

  -- `self.alert_store.add(alert)` and `self._publish_alert(alert)`
  unfoldable pub add_alert : AlertState F → Alert F → AlertState F
  unfolding add_feature publish
  add_alert a alert = record a {
    alert_store = add_feature a.alert_store alert;
    alert_publisher = publish a.alert_publisher alert;
  }

  -- The alert with what `_emit_session_alert` writes into it.
  abbrev pub named_alert : Alert F → String → String → Alert F
  named_alert alert key update_type = record alert {
    session_id = some key;
    update_type = some update_type;
  }

  unfoldable pub emit_session_alert :
      Scores F → AlertState F → String → Alert F → Bool → AlertState F
  unfolding same_signature signature_of add_alert
  emit_session_alert scores a key alert is_final =
      let previous = get a.session_alert_state key in
      let signature = signature_of scores alert in
      let same : Bool = elim previous [ none ↦ false | some old ↦ same_signature old signature ] in
      if same && not is_final
      then a
      else let noted = put a.session_alert_state key signature in
        record (add_alert a (named_alert alert key (update_type previous is_final))) {
          session_alert_state = if is_final then pop noted key else noted;
        }
