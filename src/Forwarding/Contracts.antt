-- ===== src/Forwarding/Contracts.antt =====
-- packet_capture/forwarding/contracts.py. A time stamp stays a time, where the source prints it in
-- ISO format. The optional entries `model_outputs` and `model_stack` are left out.
pub mod Ranges
use smart_ids.Base.{
  string_eq, ◌==◌, ℕ, ◌/◌, ◌-◌, Bool, true, false, Option, none, some, String, if◌then◌else◌,
}
use smart_ids.Text.{concat}
use smart_ids.Dict.{Dict}
use smart_ids.Packet.{Time}
use smart_ids.Traffic.Stats.{Floats}
use smart_ids.Traffic.Session.{SessionKey, TrafficSession, duration}
use smart_ids.Heuristic.{HeuristicDecision}

-- What the engine uses of floats beside `Floats`: `a >= b`, `round(a, 4)`, `round(a, 4)` as a whole
-- number of ten-thousandths, and a length of time in seconds.
pub record Scores (F : Type 0) : Type 0 where
  pub at_least : F → F → Bool
  pub round_4 : F → F
  pub ten_thousandths : F → ℕ
  pub seconds : Time → F

-- `str` of a whole number, and `hashlib.sha256(raw).hexdigest()[:32]`.
pub record Texts : Type 0 where
  pub show : ℕ → String
  pub digest : String → String

-- The entries of a prediction that the engine reads.
pub record Prediction (F : Type 0) : Type 0 where
  pub label : String
  pub confidence : F
  pub encoded : ℕ
  pub model_key : Option String

pub record ForwardedFeatures (F : Type 0) : Type 0 where
  pub features : Dict String F
  pub session_duration : F
  pub is_final : Bool

pub record IdsEvent (F : Type 0) : Type 0 where
  pub event_id : String
  pub ts : Time
  pub source_ip : String
  pub destination_ip : String
  pub source_port : Option ℕ
  pub destination_port : Option ℕ
  pub protocol : ℕ
  pub model : String
  pub prediction : String
  pub confidence : F
  pub severity : String
  pub action : String
  pub detection_method : String
  pub session_id : String
  pub risk_score : F
  pub packet_count : ℕ
  pub byte_count : ℕ
  pub flow_duration : F
  pub features : ForwardedFeatures F

pub record SessionUpsert (F : Type 0) : Type 0 where
  pub session_id : String
  pub start_time : Time
  pub end_time : Time
  pub source_ip : String
  pub destination_ip : String
  pub source_port : Option ℕ
  pub destination_port : Option ℕ
  pub protocol : ℕ
  pub packet_count : ℕ
  pub byte_count : ℕ
  pub duration : F
  pub risk_score : F
  pub ml_prediction : Option String
  pub heuristic_result : String
  pub state : String
  pub action_taken : String

-- A port in an f-string.
abbrev pub port_text : (ℕ → String) → Option ℕ → String
port_text show none = "None"
port_text show (some port) = show port

-- `_session_id`
unfoldable pub session_id : (ℕ → String) → SessionKey → String
session_id show key = concat key.src_ip (
    concat ":" (
      concat (port_text show key.src_port) (
        concat "-" (
          concat key.dst_ip
            (concat ":" (concat (port_text show key.dst_port) (concat "-" (show key.protocol))))))))

-- `int(timestamp * 1000)`
abbrev pub milliseconds : Time → ℕ
milliseconds t = t / 1000

unfoldable pub prediction_event_id : Texts → String → String → String → Time → String
prediction_event_id texts session_id event_type label timestamp = texts.digest (
    concat session_id (
      concat ":" (
        concat event_type
          (concat ":" (concat label (concat ":" (texts.show (milliseconds timestamp))))))))

abbrev pub is_normal : String → Bool
is_normal label = label == "Normal Traffic"

abbrev pub model_key_or : Option String → String → String
model_key_or none event_type = event_type
model_key_or (some key) event_type = key

module _ {F : Type 0} ⦃f : Floats F⦄ where
  -- `max(a, b)` and `min(a, b)`
  abbrev pub larger : F → F → F
  larger a b = if f.lt a b then b else a

  abbrev pub smaller : F → F → F
  smaller a b = if f.lt b a then b else a

  -- The literal `0.8`.
  abbrev pub high_confidence : F
  high_confidence = f.div (f.of_nat 8) (f.of_nat 10)

  unfoldable pub severity_from_prediction : Scores F → String → F → String
  severity_from_prediction scores label confidence =
      if is_normal label
      then "low"
      else if scores.at_least confidence high_confidence
      then "high"
      else "medium"

  -- `ml_score` of `_risk_score`
  abbrev pub ml_score : Option String → F → F
  ml_score none confidence = f.of_nat 0
  ml_score (some label) confidence = if is_normal label then f.of_nat 0 else confidence

  unfoldable pub risk_score : Scores F → Option String → F → ℕ → F
  risk_score scores label confidence heuristic_score =
      let heuristic_score_normalized : F =
        smaller (f.of_nat 1)
          (larger (f.of_nat 0) (f.div (f.of_nat heuristic_score) (f.of_nat 10))) in
      scores.round_4 (larger (ml_score label confidence) heuristic_score_normalized)

  unfoldable pub build_ids_event_payload :
      Scores F
      → Texts
      → SessionKey
      → TrafficSession F
      → Prediction F
      → Dict String F
      → String
      → Bool
      → IdsEvent F
  unfolding session_id prediction_event_id severity_from_prediction duration
  build_ids_event_payload scores texts key session prediction features event_type is_final =
      let label = prediction.label in
      let id = session_id texts.show key in
      record {
        event_id = prediction_event_id texts id event_type label session.last_seen;
        ts = session.last_seen;
        source_ip = session.src_ip;
        destination_ip = session.dst_ip;
        source_port = session.src_port;
        destination_port = session.dst_port;
        protocol = session.protocol;
        model = model_key_or prediction.model_key event_type;
        prediction = label;
        confidence = prediction.confidence;
        severity = severity_from_prediction scores label prediction.confidence;
        action = if is_normal label then "allow" else "alert";
        detection_method = event_type;
        session_id = id;
        risk_score = prediction.confidence;
        packet_count = session.packet_count;
        byte_count = session.total_bytes;
        flow_duration = scores.round_4 (scores.seconds (duration session));
        features = record {
          features = features;
          session_duration = scores.seconds (duration session);
          is_final = is_final;
        };
      }

  abbrev pub confidence_of : Option (Prediction F) → F
  confidence_of none = f.of_nat 0
  confidence_of (some p) = p.confidence

  abbrev pub label_of : Option (Prediction F) → Option String
  label_of none = none
  label_of (some p) = some p.label

  unfoldable pub build_session_upsert_payload :
      Scores F
      → Texts
      → SessionKey
      → TrafficSession F
      → String
      → Option (Prediction F)
      → HeuristicDecision
      → SessionUpsert F
  unfolding session_id risk_score
  build_session_upsert_payload scores texts key session session_state prediction decision = record {
    session_id = session_id texts.show key;
    start_time = session.start_time;
    end_time = session.last_seen;
    source_ip = session.src_ip;
    destination_ip = session.dst_ip;
    source_port = session.src_port;
    destination_port = session.dst_port;
    protocol = session.protocol;
    packet_count = session.packet_count;
    byte_count = session.total_bytes;
    duration = scores.seconds (session.last_seen - session.start_time);
    risk_score = risk_score scores (label_of prediction) (confidence_of prediction) decision.score;
    ml_prediction = label_of prediction;
    heuristic_result = concat decision.reason (concat ":" (texts.show decision.score));
    state = session_state;
    action_taken = if session_state == "active" then "allowed" else session_state;
  }
