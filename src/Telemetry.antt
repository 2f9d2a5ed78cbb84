-- ===== src/Telemetry.antt =====
-- packet_capture/telemetry/engine_telemetry.py. `now` is what the clock returns in a call; the lock
-- makes each method one step. Floats are a parameter, with Python's `round`.
pub mod Streams
pub mod Reports
use smart_ids.Base.{
  ℕ, ◌+◌, ◌*◌, ◌≤◌, Bool, Option, none, some, List, [], ◌∷◌, ◌++◌, String, map, length, take,
  drop_while, leb, ltb, if◌then◌else◌,
}
use smart_ids.Packet.{Time}
use smart_ids.Traffic.Session.{TrafficSession, duration}

-- What the collector uses of floats: `round((size / maxsize) * 100.0, 4)`, a length of time in
-- seconds rounded to 4 digits, and one in milliseconds.
pub record Rounding (F : Type 0) : Type 0 where
  pub zero_float : F
  pub percent : ℕ → ℕ → F
  pub seconds_4 : Time → F
  pub milliseconds_4 : Time → F

pub record EngineTelemetryCollector (F : Type 0) : Type 0 where
  pub packet_window : Time
  pub max_exchange_count : ℕ
  pub packets_received_total : ℕ
  pub packets_processed_total : ℕ
  pub packets_dropped_total : ℕ
  pub ml_predictions_total : ℕ
  pub last_ml_prediction_latency_ms : F
  pub secondary_model_predictions_total : ℕ
  pub packet_received_times : List Time
  pub packet_dropped_times : List Time
  pub ml_prediction_times : List Time
  pub secondary_model_prediction_times : List Time

-- `timestamps[0] <= now - self._packet_window_seconds`, without a difference that could be negative.
abbrev pub is_expired : Time → Time → Time → Bool
is_expired window now t = leb (t + window) now

-- `_trim`
unfoldable pub trim_times : Time → Time → List Time → List Time
trim_times window now timestamps = drop_while (is_expired window now) timestamps

pub record SessionExchange (F : Type 0) : Type 0 where
  pub source_ip : String
  pub destination_ip : String
  pub source_port : Option ℕ
  pub destination_port : Option ℕ
  pub protocol : ℕ
  pub packet_count : ℕ
  pub byte_count : ℕ
  pub duration_seconds : F

-- The fields of a snapshot that vary, the totals and the counts of the last window.
pub record TelemetrySnapshot (F : Type 0) : Type 0 where
  pub ts : Time
  pub received_total : ℕ
  pub received_per_window : ℕ
  pub processed_total : ℕ
  pub dropped_total : ℕ
  pub packet_loss_detected : Bool
  pub packet_queue_size : ℕ
  pub packet_queue_maxsize : ℕ
  pub packet_queue_usage_percent : F
  pub active_sessions : ℕ
  pub predictions_total : ℕ
  pub predictions_per_window : ℕ
  pub last_latency_ms : F
  pub secondary_total : ℕ
  pub secondary_per_window : ℕ
  pub active_network_exchanges : List (SessionExchange F)

module _ {F : Type 0} where
  unfoldable pub record_packet_received :
      EngineTelemetryCollector F → Time → EngineTelemetryCollector F
  unfolding trim_times
  record_packet_received c now = record c {
    packets_received_total = c.packets_received_total + 1;
    packet_received_times = trim_times c.packet_window now (c.packet_received_times ++ now ∷ []);
  }

  unfoldable pub record_packet_processed : EngineTelemetryCollector F → EngineTelemetryCollector F
  record_packet_processed c = record c { packets_processed_total = c.packets_processed_total + 1 }

  unfoldable pub record_packet_dropped :
      EngineTelemetryCollector F → Time → EngineTelemetryCollector F
  unfolding trim_times
  record_packet_dropped c now = record c {
    packets_dropped_total = c.packets_dropped_total + 1;
    packet_dropped_times = trim_times c.packet_window now (c.packet_dropped_times ++ now ∷ []);
  }

  unfoldable pub record_secondary_model_prediction :
      EngineTelemetryCollector F → Time → EngineTelemetryCollector F
  unfolding trim_times
  record_secondary_model_prediction c now = record c {
    secondary_model_predictions_total = c.secondary_model_predictions_total + 1;
    secondary_model_prediction_times =
        trim_times c.packet_window now (c.secondary_model_prediction_times ++ now ∷ []);
  }

  -- The four calls of `_trim` in `snapshot`.
  unfoldable pub trim_all : EngineTelemetryCollector F → Time → EngineTelemetryCollector F
  unfolding trim_times
  trim_all c now = record c {
    packet_received_times = trim_times c.packet_window now c.packet_received_times;
    packet_dropped_times = trim_times c.packet_window now c.packet_dropped_times;
    ml_prediction_times = trim_times c.packet_window now c.ml_prediction_times;
    secondary_model_prediction_times =
        trim_times c.packet_window now c.secondary_model_prediction_times;
  }

module _ {F : Type 0} (rounding : Rounding F) where
  -- `__init__`
  unfoldable pub new_collector : Time → ℕ → EngineTelemetryCollector F
  new_collector packet_window max_exchange_count = record {
    packet_window = packet_window;
    max_exchange_count = max_exchange_count;
    packets_received_total = 0;
    packets_processed_total = 0;
    packets_dropped_total = 0;
    ml_predictions_total = 0;
    last_ml_prediction_latency_ms = rounding.zero_float;
    secondary_model_predictions_total = 0;
    packet_received_times = [];
    packet_dropped_times = [];
    ml_prediction_times = [];
    secondary_model_prediction_times = [];
  }

  unfoldable pub record_ml_prediction :
      EngineTelemetryCollector F → Time → Time → EngineTelemetryCollector F
  unfolding trim_times
  record_ml_prediction c duration_seconds now = record c {
    ml_predictions_total = c.ml_predictions_total + 1;
    ml_prediction_times = trim_times c.packet_window now (c.ml_prediction_times ++ now ∷ []);
    last_ml_prediction_latency_ms = rounding.milliseconds_4 duration_seconds;
  }

  -- `_session_exchange`
  unfoldable pub session_exchange : TrafficSession F → SessionExchange F
  unfolding duration
  session_exchange session = record {
    source_ip = session.src_ip;
    destination_ip = session.dst_ip;
    source_port = session.src_port;
    destination_port = session.dst_port;
    protocol = session.protocol;
    packet_count = session.packet_count;
    byte_count = session.total_bytes;
    duration_seconds = rounding.seconds_4 (duration session);
  }

  -- `snapshot`, where the queue has this size and this limit, and the builder these sessions.
  unfoldable pub snapshot :
      EngineTelemetryCollector F
      → ℕ
      → ℕ
      → List (TrafficSession F)
      → Time
      → EngineTelemetryCollector F × TelemetrySnapshot F
  unfolding trim_all session_exchange
  snapshot c queue_size queue_maxsize sessions now =
      let c' = trim_all c now in
      (
        c',
        record {
          ts = now;
          received_total = c'.packets_received_total;
          received_per_window = length c'.packet_received_times;
          processed_total = c'.packets_processed_total;
          dropped_total = c'.packets_dropped_total;
          packet_loss_detected = ltb 0 (length c'.packet_dropped_times);
          packet_queue_size = queue_size;
          packet_queue_maxsize = queue_maxsize;
          packet_queue_usage_percent =
              if ltb 0 queue_maxsize
              then rounding.percent queue_size queue_maxsize
              else rounding.zero_float;
          active_sessions = length sessions;
          predictions_total = c'.ml_predictions_total;
          predictions_per_window = length c'.ml_prediction_times;
          last_latency_ms = c'.last_ml_prediction_latency_ms;
          secondary_total = c'.secondary_model_predictions_total;
          secondary_per_window = length c'.secondary_model_prediction_times;
          active_network_exchanges = map session_exchange (take c'.max_exchange_count sessions);
        },
      )
