-- ===== src/Response/Commands.antt =====
-- response_engine/processed_command_store.py. The file is what `json.loads` makes of its text; its
-- entries are already turned to text, as `str(value or "")` does.
pub mod Memory
pub mod Recent
use smart_ids.Base.{
  string_eq, ◌==◌, ℕ, Bool, true, false, Option, none, some, List, [], ◌∷◌, ◌++◌, String, last_n,
  max, if◌then◌else◌,
}
use smart_ids.Dict.{contains}
use smart_ids.Text.{strip}

-- What the file holds.
pub data CommandFile : Type 0 where
  unreadable : CommandFile
  id_list : List String → CommandFile
  id_dict : Option (List String) → CommandFile
  other : CommandFile

pub record ProcessedCommandStore : Type 0 where
  pub max_command_ids : ℕ
  pub command_ids : List String
  pub file : CommandFile

-- `_normalize`
unfoldable pub normalize : String → String
unfolding strip
normalize command_id = strip command_id

-- The loop of `_load`; `seen` holds the members of `command_ids`.
unfoldable pub load_ids : List String → List String → List String
unfolding normalize
load_ids command_ids [] = command_ids
load_ids command_ids (value ∷ values) =
    let command_id = normalize value in
    load_ids
      (if command_id == ""
        then command_ids
        else if contains command_id command_ids
        then command_ids
        else command_ids ++ command_id ∷ [])
      values

abbrev pub file_values : CommandFile → List String
file_values unreadable = []
file_values (id_list values) = values
file_values (id_dict none) = []
file_values (id_dict (some values)) = values
file_values other = []

unfoldable pub load : ℕ → CommandFile → List String
unfolding load_ids
load max_command_ids file = last_n max_command_ids (load_ids [] (file_values file))

-- `__init__`, where the limit comes from `_positive_int`
unfoldable pub open_store : ℕ → CommandFile → ProcessedCommandStore
unfolding load
open_store limit file = record {
  max_command_ids = max 1 limit;
  command_ids = load (max 1 limit) file;
  file = file;
}

unfoldable pub contains_id : ProcessedCommandStore → String → Bool
unfolding normalize
contains_id store command_id =
    let normalized = normalize command_id in
    if normalized == "" then false else contains normalized store.command_ids

-- `_save`
unfoldable pub save : ProcessedCommandStore → ProcessedCommandStore
save store = record store { file = id_dict (some store.command_ids) }

unfoldable pub add_id : ProcessedCommandStore → String → ProcessedCommandStore
unfolding normalize save
add_id store command_id =
    let normalized = normalize command_id in
    if normalized == ""
    then store
    else if contains normalized store.command_ids
    then store
    else save (record store {
      command_ids = last_n store.max_command_ids (store.command_ids ++ normalized ∷ []);
    })
