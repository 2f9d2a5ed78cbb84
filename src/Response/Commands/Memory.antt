-- ===== src/Response/Commands/Memory.antt =====
-- The memory of processed commands: what it holds, its bound, and that it survives a restart.
use smart_ids.Base.{
  string_eq, ◌==◌, ℕ, ◌≤◌, ◌<◌, ◌≡◌, refl, ◌∙◌, true, false, List, [], ◌∷◌, ◌++◌, String, length,
  last_n, last_n_short, length-last_n, All, All-append, All-last_n, arith, Bool-cases, inl, inr,
  append_assoc, append-nil, max,
}
use smart_ids.Dict.{
  contains, IsDistinct, snoc-IsDistinct, contains-last_n-snoc, last_n-IsDistinct, middle_fresh,
}
use smart_ids.Text.{strip-strip}
use smart_ids.Response.Commands.{
  CommandFile, ProcessedCommandStore, normalize, load_ids, file_values, load, open_store,
  contains_id, save, add_id,
}

-- An identifier as the store keeps it.
pub record IsClean (command_id : String) : Type 0 where
  pub stripped : normalize command_id ≡ command_id
  pub filled : (command_id == "") ≡ false

pub record IsValid (store : ProcessedCommandStore) : Type 0 where
  pub positive : 0 < store.max_command_ids
  pub bounded : length store.command_ids ≤ store.max_command_ids
  pub distinct : IsDistinct store.command_ids
  pub clean : All IsClean store.command_ids

normalize-IsClean : (s : String) → (normalize s == "") ≡ false → IsClean (normalize s)
unfolding normalize
normalize-IsClean s h = record { stripped = strip-strip s; filled = h }

load_ids-IsClean : (ids values : List String) → All IsClean ids → All IsClean (load_ids ids values)
unfolding load_ids
load_ids-IsClean ids [] h = h
load_ids-IsClean ids (v ∷ vs) h = elim (Bool-cases (normalize v == "")) [
  | inl blank ↦ rw blank (load_ids-IsClean ids vs h)
  | inr filled ↦ elim (Bool-cases (contains (normalize v) ids)) [
    | inl old ↦ rw (filled, old) (load_ids-IsClean ids vs h)
    | inr new ↦
        rw (filled, new)
          (load_ids-IsClean (ids ++ normalize v ∷ []) vs
            (All-append IsClean ids (normalize v ∷ []) h (normalize-IsClean v filled, tt)))
  ]
]

load_ids-IsDistinct : (ids values : List String) → IsDistinct ids → IsDistinct (load_ids ids values)
unfolding load_ids
load_ids-IsDistinct ids [] h = h
load_ids-IsDistinct ids (v ∷ vs) h = elim (Bool-cases (normalize v == "")) [
  | inl blank ↦ rw blank (load_ids-IsDistinct ids vs h)
  | inr filled ↦ elim (Bool-cases (contains (normalize v) ids)) [
    | inl old ↦ rw (filled, old) (load_ids-IsDistinct ids vs h)
    | inr new ↦
        rw (filled, new)
          (load_ids-IsDistinct (ids ++ normalize v ∷ []) vs
            (snoc-IsDistinct ids (normalize v) h new))
  ]
]

-- Whatever the file holds, the store that is opened on it is valid.
pub open_store-IsValid : (limit : ℕ) (file : CommandFile) → IsValid (open_store limit file)
unfolding open_store load
open_store-IsValid limit file =
    let ids = load_ids [] (file_values file) in
    let positive : 0 < max 1 limit = omega arith in
    record {
      positive = positive;
      bounded = omega (arith, length-last_n (max 1 limit) ids positive);
      distinct = last_n-IsDistinct (max 1 limit) ids (load_ids-IsDistinct [] (file_values file) tt);
      clean = All-last_n IsClean (max 1 limit) ids (load_ids-IsClean [] (file_values file) tt);
    }

-- What the file holds is loaded again as it was.
load_ids-same :
    (ids values : List String)
    → All IsClean values
    → IsDistinct (ids ++ values)
    → load_ids ids values ≡ ids ++ values
unfolding load_ids
load_ids-same ids [] h d = rw append-nil refl
load_ids-same ids (v ∷ vs) h d =
    rw (h.0.stripped, h.0.filled, middle_fresh ids v vs d)
      (load_ids-same (ids ++ v ∷ []) vs h.1 (rw append_assoc d) ∙ append_assoc ids (v ∷ []) vs)

-- A restart forgets nothing: a store that is opened on the file that a valid store has saved holds
-- the same identifiers in the same order.
pub open_store-save :
    (store : ProcessedCommandStore)
    → IsValid store
    → (open_store store.max_command_ids (save store).file).command_ids ≡ store.command_ids
unfolding open_store save load
open_store-save store v =
    let positive : max 1 store.max_command_ids ≡ store.max_command_ids =
      omega (arith, v.positive) in
    rw (positive, load_ids-same [] store.command_ids v.clean v.distinct)
      (last_n_short store.max_command_ids store.command_ids v.bounded)

-- `add` keeps the store valid: within its limit, with distinct, stripped, non-empty identifiers.
pub add_id-IsValid :
    (store : ProcessedCommandStore) (command_id : String)
    → IsValid store
    → IsValid (add_id store command_id)
unfolding add_id
add_id-IsValid store command_id v = elim (Bool-cases (normalize command_id == "")) [
  | inl blank ↦ rw (blank, add_id) v
  | inr filled ↦ elim (Bool-cases (contains (normalize command_id) store.command_ids)) [
    | inl old ↦ rw (filled, old) v
    | inr new ↦ rw (filled, new) (added filled new)
  ]
]
  where
    longer : List String
    longer = store.command_ids ++ normalize command_id ∷ []

    added :
        (normalize command_id == "") ≡ false
        → contains (normalize command_id) store.command_ids ≡ false
        → IsValid (save (record store { command_ids = last_n store.max_command_ids longer }))
    added filled new =
        unfold save in
        record {
          positive = v.positive;
          bounded = omega (arith, length-last_n store.max_command_ids longer v.positive);
          distinct =
              last_n-IsDistinct store.max_command_ids longer
                (snoc-IsDistinct store.command_ids (normalize command_id) v.distinct new);
          clean = All-last_n IsClean store.max_command_ids longer (
              All-append IsClean store.command_ids (normalize command_id ∷ []) v.clean
                (normalize-IsClean command_id filled, tt));
        }

-- A command that was added is known, in any spelling with the same stripped text.
pub contains_id-add_id :
    (store : ProcessedCommandStore) (command_id : String)
    → 0 < store.max_command_ids
    → (normalize command_id == "") ≡ false
    → contains_id (add_id store command_id) command_id ≡ true
unfolding contains_id add_id save
contains_id-add_id store command_id positive filled =
    elim (Bool-cases (contains (normalize command_id) store.command_ids)) [
      | inl old ↦ rw (filled, old) old
      | inr new ↦
          rw (filled, new)
            (contains-last_n-snoc store.max_command_ids store.command_ids (normalize command_id)
              positive)
    ]
