-- ===== src/Capture/Filters/Valid.antt =====
-- The capture filter takes valid addresses and ports alone.
use smart_ids.Base.{
  string_eq, ◌==◌, ℕ, ◌≤◌, ◌<◌, ◌≡◌, Bool, true, Option, none, some, List, [], ◌∷◌, String, All,
  Bool-cases, Option-cases, inl, inr, arith,
}
use smart_ids.Text.{strip, strip-strip}
use smart_ids.Capture.Filters.{
  RawPort, port_text, port_number, port_none, in_range, valid_ips, parse_port, valid_ports,
}

abbrev pub IsPort : ℕ → Type 0
IsPort n = (0 < n) × (n ≤ 65535)

module _ (is_ip : String → Bool) (to_int : String → Option ℕ) (show : ℕ → String) where
  -- An address that the filter may name.
  abbrev pub IsAddress : String → Type 0
  IsAddress ip = (is_ip ip ≡ true) × (strip ip ≡ ip)

  in_range-IsPort : (o : Option ℕ) (n : ℕ) → in_range o ≡ some n → IsPort n
  in_range-IsPort none n e = absurd (ground (arith, e))
  in_range-IsPort (some m) n e = (ground (arith, e), ground (arith, e))

  parse_port-IsPort : (raw : RawPort) (n : ℕ) → parse_port is_ip to_int show raw ≡ some n → IsPort n
  unfolding parse_port
  parse_port-IsPort (port_text raw) n e = elim (Bool-cases (strip raw == "")) [
    | inl blank ↦ absurd (ground (arith, e, blank))
    | inr filled ↦ in_range-IsPort (to_int (strip raw)) n (ground (arith, e, filled))
  ]
  parse_port-IsPort (port_number m) n e = in_range-IsPort (some m) n e
  parse_port-IsPort port_none n e = absurd (ground (arith, e))

  -- Every port that is taken from the settings, whatever they hold, is between 1 and 65535.
  pub valid_ports-IsPort : (ports : List RawPort) → All IsPort (valid_ports is_ip to_int show ports)
  unfolding valid_ports
  valid_ports-IsPort [] = tt
  valid_ports-IsPort (raw ∷ ports) = elim (Option-cases (parse_port is_ip to_int show raw)) [
    | inl e ↦ rw (valid_ports, e) (valid_ports-IsPort ports)
    | inr (n, e) ↦ rw (valid_ports, e) (parse_port-IsPort raw n e, valid_ports-IsPort ports)
  ]

  -- Every address that is taken from the settings, whatever they hold, is a valid one without
  -- blanks around it.
  pub valid_ips-IsAddress : (ips : List String) → All IsAddress (valid_ips is_ip to_int show ips)
  unfolding valid_ips
  valid_ips-IsAddress [] = tt
  valid_ips-IsAddress (raw ∷ ips) = elim (Bool-cases (strip raw == "")) [
    | inl blank ↦ rw (valid_ips, blank) (valid_ips-IsAddress ips)
    | inr filled ↦ elim (Bool-cases (is_ip (strip raw))) [
      | inl ok ↦ rw (valid_ips, filled, ok) ((ok, strip-strip raw), valid_ips-IsAddress ips)
      | inr bad ↦ rw (valid_ips, filled, bad) (valid_ips-IsAddress ips)
    ]
  ]
