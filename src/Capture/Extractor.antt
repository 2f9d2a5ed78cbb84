-- ===== src/Capture/Extractor.antt =====
-- feature_engine/extractors/session_feature_extractor.py, with the columns of ml/features/schema.py
-- and `sanitize_feature_dict` of feature_engine/stats.py.
pub mod Columns
use smart_ids.Base.{
  nat_eq, string_eq, ◌==◌, ℕ, Bool, true, false, Option, none, some, List, [], ◌∷◌, String, map,
  if◌then◌else◌,
}
use smart_ids.Dict.{Dict, get, get_or}
use smart_ids.Packet.{Time}
use smart_ids.Traffic.Stats.{Floats, get_min, get_max, get_mean, std, variance}
use smart_ids.Traffic.Session.{TrafficSession, duration, or_zero}
use smart_ids.Capture.Statistics.{
  Statistics, safe_min, safe_max, safe_mean, safe_std, safe_variance, safe_rate, safe_iat_stats,
}

-- `FEATURE_COLUMNS`
unfoldable pub feature_columns : List String
feature_columns =
    "dst_port" ∷ "protocol" ∷ "flow_duration" ∷ "total_fwd_packets" ∷ "total_fwd_bytes"
    ∷ "flow_bytes_per_sec" ∷ "flow_packets_per_sec" ∷ "packet_len_min" ∷ "packet_len_max"
    ∷ "packet_len_mean" ∷ "packet_len_std" ∷ "packet_len_variance" ∷ "avg_packet_size"
    ∷ "fwd_packet_len_min" ∷ "fwd_packet_len_max" ∷ "fwd_packet_len_mean" ∷ "fwd_packet_len_std"
    ∷ "flow_iat_min" ∷ "flow_iat_max" ∷ "flow_iat_mean" ∷ "flow_iat_std" ∷ "fwd_iat_min"
    ∷ "fwd_iat_max" ∷ "fwd_iat_mean" ∷ "fwd_iat_std" ∷ "fwd_iat_total" ∷ "fwd_packets_per_sec"
    ∷ "fin_flag_count" ∷ "syn_flag_count" ∷ "rst_flag_count" ∷ "psh_flag_count" ∷ "ack_flag_count"
    ∷ "urg_flag_count" ∷ "fwd_header_length" ∷ "init_win_bytes_forward" ∷ "act_data_pkt_fwd"
    ∷ "min_seg_size_forward" ∷ []

-- `dict(zip(columns, (d.get(column, 0.0) for column in columns)))`
unfoldable pub pick {ℓ} : {V : Type ℓ} → V → List String → Dict String V → Dict String V
unfolding get_or
pick default [] d = []
pick default (column ∷ columns) d = (column, get_or d column default) ∷ pick default columns d

module _ {F : Type 0} ⦃f : Floats F⦄ where
  -- `float(value)` of an entry, `none` where it raises, and `math.isfinite`.
  unfoldable pub sanitize_value : (F → Bool) → Option F → F
  sanitize_value is_finite none = f.of_nat 0
  sanitize_value is_finite (some value) = if is_finite value then value else f.of_nat 0

  unfoldable pub sanitize_feature_dict : (F → Bool) → Dict String (Option F) → Dict String F
  unfolding sanitize_value
  sanitize_feature_dict is_finite [] = []
  sanitize_feature_dict is_finite ((key, value) ∷ features) =
      (key, sanitize_value is_finite value) ∷ sanitize_feature_dict is_finite features

  -- `TrafficSession.average_packet_size`
  unfoldable pub average_packet_size : TrafficSession F → F
  average_packet_size session =
      if session.packet_count == 0
      then f.of_nat 0
      else f.div (f.of_nat session.total_bytes) (f.of_nat session.packet_count)

  -- `incremental_values` of `_validate_against_incremental_stats`.
  unfoldable pub incremental_values : TrafficSession F → Dict String F
  incremental_values session =
      ("packet_len_min", get_min session.packet_length_stats)
      ∷ ("packet_len_max", get_max session.packet_length_stats)
      ∷ ("packet_len_mean", get_mean session.packet_length_stats)
      ∷ ("packet_len_std", std session.packet_length_stats)
      ∷ ("packet_len_variance", variance session.packet_length_stats)
      ∷ ("fwd_packet_len_min", get_min session.fwd_packet_length_stats)
      ∷ ("fwd_packet_len_max", get_max session.fwd_packet_length_stats)
      ∷ ("fwd_packet_len_mean", get_mean session.fwd_packet_length_stats)
      ∷ ("fwd_packet_len_std", std session.fwd_packet_length_stats)
      ∷ []

  -- The fields for which a warning is logged; `is_close` is `math.isclose` at the two tolerances.
  unfoldable pub diverging_fields :
      (F → F → Bool) → Dict String F → Dict String (Option F) → List String
  unfolding get
  diverging_fields is_close [] feature_values = []
  diverging_fields is_close ((field_name, incremental_value) ∷ fields) feature_values =
      let others = diverging_fields is_close fields feature_values in
      elim (get feature_values field_name) [
        | none ↦ others
        | some value ↦ elim value [
          | none ↦ others
          | some list_based_value ↦
              if is_close list_based_value incremental_value then others else field_name ∷ others
        ]
      ]

  module _ (statistics : Statistics F) (is_finite : F → Bool) where
    -- The dictionary `feature_values`. A session keeps lengths as whole numbers.
    unfoldable pub feature_values : TrafficSession F → Dict String (Option F)
    unfolding duration average_packet_size safe_min safe_max safe_mean safe_std safe_variance
        safe_rate safe_iat_stats
    feature_values session =
        let flow_duration = statistics.seconds (duration session) in
        let packet_lengths = map f.of_nat session.packet_lengths in
        let fwd_packet_lengths = map f.of_nat session.fwd_packet_lengths in
        let flow_iat = safe_iat_stats statistics session.packet_timestamps in
        let fwd_iat = safe_iat_stats statistics session.fwd_packet_timestamps in
        ("dst_port", some (f.of_nat (or_zero session.dst_port)))
        ∷ ("protocol", some (f.of_nat session.protocol))
        ∷ ("flow_duration", some (flow_duration))
        ∷ ("total_fwd_packets", some (f.of_nat session.fwd_packet_count))
        ∷ ("total_fwd_bytes", some (f.of_nat session.fwd_total_bytes))
        ∷ (
          "flow_bytes_per_sec",
          some (safe_rate (f.of_nat session.total_bytes) (some flow_duration)),
        )
        ∷ (
          "flow_packets_per_sec",
          some (safe_rate (f.of_nat session.packet_count) (some flow_duration)),
        )
        ∷ ("packet_len_min", some (safe_min packet_lengths))
        ∷ ("packet_len_max", some (safe_max packet_lengths))
        ∷ ("packet_len_mean", some (safe_mean statistics packet_lengths))
        ∷ ("packet_len_std", some (safe_std statistics packet_lengths))
        ∷ ("packet_len_variance", some (safe_variance statistics packet_lengths))
        ∷ ("avg_packet_size", some (average_packet_size session))
        ∷ ("fwd_packet_len_min", some (safe_min fwd_packet_lengths))
        ∷ ("fwd_packet_len_max", some (safe_max fwd_packet_lengths))
        ∷ ("fwd_packet_len_mean", some (safe_mean statistics fwd_packet_lengths))
        ∷ ("fwd_packet_len_std", some (safe_std statistics fwd_packet_lengths))
        ∷ ("flow_iat_min", some (flow_iat.iat_min))
        ∷ ("flow_iat_max", some (flow_iat.iat_max))
        ∷ ("flow_iat_mean", some (flow_iat.iat_mean))
        ∷ ("flow_iat_std", some (flow_iat.iat_std))
        ∷ ("fwd_iat_min", some (fwd_iat.iat_min))
        ∷ ("fwd_iat_max", some (fwd_iat.iat_max))
        ∷ ("fwd_iat_mean", some (fwd_iat.iat_mean))
        ∷ ("fwd_iat_std", some (fwd_iat.iat_std))
        ∷ ("fwd_iat_total", some (fwd_iat.iat_total))
        ∷ (
          "fwd_packets_per_sec",
          some (safe_rate (f.of_nat session.fwd_packet_count) (some flow_duration)),
        )
        ∷ ("fin_flag_count", some (f.of_nat session.flag_counts.fin))
        ∷ ("syn_flag_count", some (f.of_nat session.flag_counts.syn))
        ∷ ("rst_flag_count", some (f.of_nat session.flag_counts.rst))
        ∷ ("psh_flag_count", some (f.of_nat session.flag_counts.psh))
        ∷ ("ack_flag_count", some (f.of_nat session.flag_counts.ack))
        ∷ ("urg_flag_count", some (f.of_nat session.flag_counts.urg))
        ∷ ("fwd_header_length", some (f.of_nat session.fwd_header_length))
        ∷ ("init_win_bytes_forward", some (f.of_nat (or_zero session.init_win_bytes_forward)))
        ∷ ("act_data_pkt_fwd", some (f.of_nat session.act_data_pkt_fwd))
        ∷ ("min_seg_size_forward", some (f.of_nat (or_zero session.min_seg_size_forward)))
        ∷ []

    unfoldable pub extract : TrafficSession F → Dict String F
    unfolding pick feature_columns sanitize_feature_dict feature_values
    extract session =
        pick (f.of_nat 0) feature_columns (sanitize_feature_dict is_finite (feature_values session))
