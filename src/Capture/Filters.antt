-- ===== src/Capture/Filters.antt =====
-- packet_capture/utils/packet_filters.py. `ipaddress.ip_address` and `int` are parameters; the
-- warnings are left out.
pub mod Valid
use smart_ids.Base.{
  string_eq, ◌==◌, ℕ, Bool, true, false, ◌&&◌, Option, none, some, List, [], ◌∷◌, ◌++◌, String, map,
  ltb, leb, is_empty, if◌then◌else◌,
}
use smart_ids.Text.{strip, concat}

-- A port in the settings: a text, a number, or `None`.
pub data RawPort : Type 0 where
  port_text : String → RawPort
  port_number : ℕ → RawPort
  port_none : RawPort

-- `separator.join(terms)`
unfoldable pub join : String → List String → String
join separator [] = ""
join separator (term ∷ []) = term
join separator (term ∷ next ∷ terms) =
    concat term (concat separator (join separator (next ∷ terms)))

-- Where the port is out of range, a port is not taken.
abbrev pub in_range : Option ℕ → Option ℕ
in_range none = none
in_range (some n) = if ltb 0 n && leb n 65535 then some n else none

-- What follows when there is at least one term.
abbrev pub clause : String → List String → String → List String
clause before terms after =
    if is_empty terms then [] else concat before (concat (join " or " terms) after) ∷ []

-- `is_ip` tells the texts that `ipaddress.ip_address` takes; `to_int` is `int` on a text, with
-- `none` for a `ValueError` and for a negative number.
module _ (is_ip : String → Bool) (to_int : String → Option ℕ) (show : ℕ → String) where
  -- `_valid_ips`
  unfoldable pub valid_ips : List String → List String
  unfolding strip
  valid_ips [] = []
  valid_ips (raw ∷ ips) =
      let candidate = strip raw in
      let others = valid_ips ips in
      if candidate == "" then others else if is_ip candidate then candidate ∷ others else others

  unfoldable pub parse_port : RawPort → Option ℕ
  unfolding strip
  parse_port (port_text raw) =
      let candidate = strip raw in if candidate == "" then none else in_range (to_int candidate)
  parse_port (port_number n) = in_range (some n)
  parse_port port_none = none

  -- `_valid_ports`
  unfoldable pub valid_ports : List RawPort → List ℕ
  unfolding parse_port
  valid_ports [] = []
  valid_ports (raw ∷ ports) =
      let others = valid_ports ports in
      elim (parse_port raw) [ none ↦ others | some port ↦ port ∷ others ]

  unfoldable pub filter_terms : List String → List RawPort → List String
  unfolding valid_ips valid_ports
  filter_terms ips ports =
      map (concat "host ") (valid_ips ips) ++ map (λ n. concat "port " (show n)) (valid_ports ports)

  unfoldable pub build_capture_filter :
      List String → List RawPort → List String → List RawPort → String
  unfolding filter_terms join
  build_capture_filter watch_ips watch_ports exclude_ips exclude_ports = join " and " (
      "ip" ∷ clause "(" (filter_terms watch_ips watch_ports) ")"
      ++ clause "not (" (filter_terms exclude_ips exclude_ports) ")")
