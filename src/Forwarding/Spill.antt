-- ===== src/Forwarding/Spill.antt =====
-- packet_capture/forwarding/disk_spill_store.py. The text of the file is its finished lines and
-- what follows the last line break. `json` is a parameter. The lock makes each method one step.
pub mod Queue
pub mod Refinement
use smart_ids.Base.{
  ℕ, zero, suc, ◌+◌, ◌*◌, Bool, true, false, not, ◌≡◌, Option, none, some, List, [], ◌∷◌, ◌++◌,
  String, length, drop, filter, last_n, max, ltb, leb, if◌then◌else◌,
}
use smart_ids.Text.{concat, strip, is_blank}

-- `json.dumps` of a payload, and the dictionary that a text holds for `json.loads`, if it does.
pub record Json (P : Type 0) : Type 0 where
  pub dumps : P → String
  pub loads : String → Option P

pub record SpillFile : Type 0 where
  pub lines : List String
  pub partial : String

pub record DiskSpillStore : Type 0 where
  pub max_entries : ℕ
  pub entry_count : ℕ
  pub file : SpillFile

unfoldable pub is_filled : String → Bool
unfolding strip
is_filled line = not (is_blank (strip line))

-- `_read_lines_locked`
unfoldable pub read_lines : SpillFile → List String
unfolding is_filled
read_lines file = filter is_filled (file.lines ++ file.partial ∷ [])

-- `_write_lines_locked`
abbrev pub write_lines : List String → SpillFile
write_lines lines = record { lines = lines; partial = "" }

-- `__init__`
unfoldable pub open_spill : ℕ → SpillFile → DiskSpillStore
unfolding read_lines
open_spill max_entries file = record {
  max_entries = max 1 max_entries;
  entry_count = length (read_lines file);
  file = file;
}

-- `_compact_locked`
unfoldable pub compact : DiskSpillStore → DiskSpillStore
unfolding read_lines
compact store =
    let trimmed = last_n store.max_entries (read_lines store.file) in
    record store { entry_count = length trimmed; file = write_lines trimmed }

unfoldable pub spill_count : DiskSpillStore → ℕ
spill_count store = store.entry_count

unfoldable pub spill_is_empty : DiskSpillStore → Bool
spill_is_empty store = leb store.entry_count 0

-- The line that `append` writes.
unfoldable pub append_line : SpillFile → String → SpillFile
append_line file line = record { lines = file.lines ++ concat file.partial line ∷ []; partial = "" }

module _ {P : Type 0} (json : Json P) where
  -- `_try_decode`: the payload, and whether the line is corrupt.
  unfoldable pub try_decode : String → Option P × Bool
  unfolding strip
  try_decode line =
      let stripped = strip line in
      if is_blank stripped
      then (none, false)
      else elim (json.loads stripped) [ none ↦ (none, true) | some payload ↦ (some payload, false) ]

  -- `append`. For the sizes in use the test against `max_entries * 1.1` is this one of integers.
  unfoldable pub append_payload : DiskSpillStore → P → DiskSpillStore
  unfolding append_line compact
  append_payload store payload =
      let appended = record store {
        entry_count = store.entry_count + 1;
        file = append_line store.file (json.dumps payload);
      } in
      if ltb (store.max_entries * 11) (appended.entry_count * 10)
      then compact appended
      else appended

  -- The loop of `peek_batch`, which stops once there is room for no more.
  unfoldable pub peek_lines : ℕ → List String → List P
  unfolding try_decode
  peek_lines zero lines = []
  peek_lines (suc room) [] = []
  peek_lines (suc room) (line ∷ lines) = elim ((try_decode line).0) [
    | none ↦ peek_lines (suc room) lines
    | some payload ↦ payload ∷ peek_lines room lines
  ]

  unfoldable pub peek_batch : DiskSpillStore → ℕ → List P
  unfolding peek_lines read_lines
  peek_batch store max_items = peek_lines max_items (read_lines store.file)

  -- `lines[cut_index:]` after the loop of `discard_batch`, which has `count` payloads to see.
  unfoldable pub cut_lines : ℕ → List String → List String
  unfolding try_decode
  cut_lines zero lines = lines
  cut_lines (suc count) [] = []
  cut_lines (suc count) (line ∷ lines) = elim ((try_decode line).0) [
    | none ↦ cut_lines (suc count) lines
    | some payload ↦ cut_lines count lines
  ]

  unfoldable pub discard_batch : DiskSpillStore → ℕ → DiskSpillStore
  unfolding cut_lines read_lines
  discard_batch store count =
      if leb count 0
      then store
      else let remaining = cut_lines count (read_lines store.file) in
        record store { entry_count = length remaining; file = write_lines remaining }
