-- ===== src/Traffic/Session/Counts.antt =====
-- The counters of a session agree with its lists and flags, whatever packets it has seen.
use smart_ids.Base.{
  ℕ, suc, ◌+◌, ◌≤◌, ◌≡◌, refl, ◌||◌, List, [], ◌∷◌, ◌++◌, length, length-append, arith, ltb,
  Bool-cases, inl, inr,
}
use smart_ids.Packet.{PacketData}
use smart_ids.Traffic.Stats.{Floats}
use smart_ids.Traffic.Session.{
  TrafficSession, new_session, update, update_totals, update_forward, update_tcp_flags, is_forward,
}

pub sum : List ℕ → ℕ
sum [] = 0
sum (x ∷ xs) = x + sum xs

sum-append : (xs ys : List ℕ) → sum (xs ++ ys) ≡ sum xs + sum ys
unfolding sum
sum-append [] ys = omega arith
sum-append (x ∷ xs) ys = omega (arith, sum-append xs ys)

sum-snoc : (xs : List ℕ) (x : ℕ) → sum (xs ++ x ∷ []) ≡ sum xs + x
unfolding sum
sum-snoc xs x = omega (arith, sum-append xs (x ∷ []))

module _ {F : Type 0} where
  -- The lists and the sums.
  pub record HasTotals (s : TrafficSession F) : Type 0 where
    pub packets : s.packet_count ≡ length s.packet_lengths
    pub times : s.packet_count ≡ length s.packet_timestamps
    pub bytes : s.total_bytes ≡ sum s.packet_lengths
    pub stats : s.packet_count ≡ s.packet_length_stats.count
    pub fwd_packets : s.fwd_packet_count ≡ length s.fwd_packet_lengths
    pub fwd_times : s.fwd_packet_count ≡ length s.fwd_packet_timestamps
    pub fwd_bytes : s.fwd_total_bytes ≡ sum s.fwd_packet_lengths
    pub fwd_stats : s.fwd_packet_count ≡ s.fwd_packet_length_stats.count
    pub fwd_packets_le : s.fwd_packet_count ≤ s.packet_count
    pub fwd_bytes_le : s.fwd_total_bytes ≤ s.total_bytes
    pub payloads_le : s.act_data_pkt_fwd ≤ s.fwd_packet_count

  -- The flags; a session is finished exactly when a FIN or a RST was counted.
  pub record HasFlags (s : TrafficSession F) : Type 0 where
    pub fin_le : s.flag_counts.fin ≤ s.packet_count
    pub syn_le : s.flag_counts.syn ≤ s.packet_count
    pub rst_le : s.flag_counts.rst ≤ s.packet_count
    pub psh_le : s.flag_counts.psh ≤ s.packet_count
    pub ack_le : s.flag_counts.ack ≤ s.packet_count
    pub urg_le : s.flag_counts.urg ≤ s.packet_count
    pub ended : s.finished ≡ (ltb 0 s.flag_counts.fin || ltb 0 s.flag_counts.rst)

  pub record IsConsistent (s : TrafficSession F) : Type 0 where
    pub totals : HasTotals s
    pub flags : HasFlags s

  -- The room that the packet leaves for the forward counters.
  record HasRoom (packet : PacketData) (t : TrafficSession F) : Type 0 where
    packets : t.fwd_packet_count + 1 ≤ t.packet_count
    bytes : t.fwd_total_bytes + packet.packet_size ≤ t.total_bytes

  -- A session that has just counted a packet whose flags are still to come.
  record IsAhead (t : TrafficSession F) : Type 0 where
    fin_lt : suc t.flag_counts.fin ≤ t.packet_count
    syn_lt : suc t.flag_counts.syn ≤ t.packet_count
    rst_lt : suc t.flag_counts.rst ≤ t.packet_count
    psh_lt : suc t.flag_counts.psh ≤ t.packet_count
    ack_lt : suc t.flag_counts.ack ≤ t.packet_count
    urg_lt : suc t.flag_counts.urg ≤ t.packet_count
    ended_before : t.finished ≡ (ltb 0 t.flag_counts.fin || ltb 0 t.flag_counts.rst)

module _ {F : Type 0} ⦃f : Floats F⦄ where
  -- A new session is consistent: it has counted nothing yet.
  pub new_session-IsConsistent : (packet : PacketData) → IsConsistent {F = F} (new_session packet)
  unfolding new_session sum
  new_session-IsConsistent packet = record {
    totals = record {
      packets = refl;
      times = refl;
      bytes = refl;
      stats = refl;
      fwd_packets = refl;
      fwd_times = refl;
      fwd_bytes = refl;
      fwd_stats = refl;
      fwd_packets_le = omega arith;
      fwd_bytes_le = omega arith;
      payloads_le = omega arith;
    };
    flags = record {
      fin_le = omega arith;
      syn_le = omega arith;
      rst_le = omega arith;
      psh_le = omega arith;
      ack_le = omega arith;
      urg_le = omega arith;
      ended = refl;
    };
  }

  module _ (s : TrafficSession F) (packet : PacketData) where
    update_totals-HasTotals : HasTotals s → HasTotals (update_totals s packet)
    unfolding update_totals
    update_totals-HasTotals h = ground (
      arith,
      length-append s.packet_lengths (packet.packet_size ∷ []),
      length-append s.packet_timestamps (packet.timestamp ∷ []),
      sum-snoc s.packet_lengths packet.packet_size,
    )

    update_totals-HasRoom : HasTotals s → HasRoom packet (update_totals s packet)
    unfolding update_totals
    update_totals-HasRoom h = ground arith

    update_forward-HasTotals : HasRoom packet s → HasTotals s → HasTotals (update_forward s packet)
    unfolding update_forward
    update_forward-HasTotals r h = ground (
      arith,
      length-append s.fwd_packet_lengths (packet.packet_size ∷ []),
      length-append s.fwd_packet_timestamps (packet.timestamp ∷ []),
      sum-snoc s.fwd_packet_lengths packet.packet_size,
    )

    update_tcp_flags-HasTotals : HasTotals s → HasTotals (update_tcp_flags s packet)
    unfolding update_tcp_flags
    update_tcp_flags-HasTotals h = ground arith

    update_totals-IsAhead : HasFlags s → IsAhead (update_totals s packet)
    unfolding update_totals
    update_totals-IsAhead h = record {
      fin_lt = omega (arith, h.fin_le);
      syn_lt = omega (arith, h.syn_le);
      rst_lt = omega (arith, h.rst_le);
      psh_lt = omega (arith, h.psh_le);
      ack_lt = omega (arith, h.ack_le);
      urg_lt = omega (arith, h.urg_le);
      ended_before = h.ended;
    }

    update_forward-IsAhead : IsAhead s → IsAhead (update_forward s packet)
    unfolding update_forward
    update_forward-IsAhead h = record {
      fin_lt = h.fin_lt;
      syn_lt = h.syn_lt;
      rst_lt = h.rst_lt;
      psh_lt = h.psh_lt;
      ack_lt = h.ack_lt;
      urg_lt = h.urg_lt;
      ended_before = h.ended_before;
    }

    update_tcp_flags-HasFlags : IsAhead s → HasFlags (update_tcp_flags s packet)
    unfolding update_tcp_flags
    update_tcp_flags-HasFlags h = record {
      fin_le = ground (arith, h.fin_lt);
      syn_le = ground (arith, h.syn_lt);
      rst_le = ground (arith, h.rst_lt);
      psh_le = ground (arith, h.psh_lt);
      ack_le = ground (arith, h.ack_lt);
      urg_le = ground (arith, h.urg_lt);
      ended = ground (arith, h.ended_before);
    }

  -- Every packet keeps a session consistent: its counts are those of its lists, its byte totals their
  -- sums, the forward counters within the totals, no flag counted more often than packets, and
  -- finished exactly when a FIN or a RST has been counted.
  pub update-IsConsistent :
      (s : TrafficSession F) (packet : PacketData) → IsConsistent s → IsConsistent (update s packet)
  unfolding update
  update-IsConsistent s packet h =
      let t = update_totals s packet in
      let totals = update_totals-HasTotals s packet h.totals in
      let ahead = update_totals-IsAhead s packet h.flags in
      elim (Bool-cases (is_forward t packet)) [
        | inl forward ↦ rw forward (record {
          totals =
              update_tcp_flags-HasTotals (update_forward t packet) packet (
                update_forward-HasTotals t packet (update_totals-HasRoom s packet h.totals) totals);
          flags =
              update_tcp_flags-HasFlags (update_forward t packet) packet
                (update_forward-IsAhead t packet ahead);
        })
        | inr backward ↦ rw backward (record {
          totals = update_tcp_flags-HasTotals t packet totals;
          flags = update_tcp_flags-HasFlags t packet ahead;
        })
      ]
