-- ===== src/Heuristic/History.antt =====
-- What the packets seen so far say of one source: the entries that the three trackers would hold if
-- they forgot nothing. The definitions do not look at the detector.
use smart_ids.Base.{
  nat_eq, string_eq, ◌==◌, ◌||◌, ◌≡◌, refl, ◌∙◌, none, some, List, [], ◌∷◌, ◌++◌, String,
  if◌then◌else◌, arith, append_assoc, append-nil, ℕ,
}
use smart_ids.Dict.{add, contains, contains-add}
use smart_ids.Packet.{PacketData, Time}
use smart_ids.Heuristic.{syn_only}

-- What `_append_time`, `_append_dst_port` and `_append_syn_only` add for a packet.
abbrev pub time_entry : PacketData → List Time
time_entry p = p.timestamp ∷ []

abbrev pub port_entry : PacketData → List (Time × ℕ)
port_entry p = elim p.dst_port [ none ↦ [] | some port ↦ (p.timestamp, port) ∷ [] ]

abbrev pub syn_entry : PacketData → List Time
syn_entry p = if syn_only p.tcp_flags then p.timestamp ∷ [] else []

module _ {A : Type 0} (entry : PacketData → List A) where
  -- The entries of the packets of one source, in order.
  unfoldable pub entries : List PacketData → String → List A
  entries [] ip = []
  entries (p ∷ ps) ip = if p.src_ip == ip then entry p ++ entries ps ip else entries ps ip

  pub entries-snoc :
      (ps : List PacketData) (p : PacketData) (ip : String)
      → entries (ps ++ p ∷ []) ip
        ≡ (if p.src_ip == ip then entries ps ip ++ entry p else entries ps ip)
  unfolding entries
  entries-snoc [] p ip = ground (arith, append-nil (entry p))
  entries-snoc (q ∷ ps) p ip =
      ground (arith, entries-snoc ps p ip, append_assoc (entry q) (entries ps ip) (entry p))

  pub entries-snoc_none :
      (ps : List PacketData) (p : PacketData) (ip : String)
      → entry p ≡ []
      → entries (ps ++ p ∷ []) ip ≡ entries ps ip
  entries-snoc_none ps p ip e = ground (arith, entries-snoc ps p ip, append-nil (entries ps ip))

  pub entries-snoc_one :
      (ps : List PacketData) (p : PacketData) (x : A) (ip : String)
      → entry p ≡ x ∷ []
      → entries (ps ++ p ∷ []) ip
        ≡ (if p.src_ip == ip then entries ps ip ++ x ∷ [] else entries ps ip)
  entries-snoc_one ps p x ip e = entries-snoc ps p ip ∙ rw e refl

-- The sources of the packets, each once.
unfoldable pub sources : List PacketData → List String
sources [] = []
sources (p ∷ ps) = add p.src_ip (sources ps)

pub contains-sources-snoc :
    (ps : List PacketData) (p : PacketData) (ip : String)
    → contains ip (sources (ps ++ p ∷ [])) ≡ ((p.src_ip == ip) || contains ip (sources ps))
unfolding sources
contains-sources-snoc [] p ip = contains-add p.src_ip ip []
contains-sources-snoc (q ∷ ps) p ip = ground (
  arith,
  contains-sources-snoc ps p ip,
  contains-add q.src_ip ip (sources ps),
  contains-add q.src_ip ip (sources (ps ++ p ∷ [])),
)
