-- ===== src/Response/Commands/Recent.antt =====
-- How long the store of processed commands remembers one.
use smart_ids.Base.{
  string_eq, ◌==◌, beq_refl, ℕ, zero, suc, ◌-◌, ◌≤◌, ◌<◌, ◌≡◌, refl, sym, subst, ap, ◌∙◌, true,
  false, List, [], ◌∷◌, ◌++◌, String, length, drop, last_n, arith, Bool-cases, inl, inr,
  append_assoc, length-append,
}
use smart_ids.Dict.{contains, contains-append}
use smart_ids.Response.Commands.{ProcessedCommandStore, normalize, contains_id, add_id, save}

drop-append : (n : ℕ) (xs ys : List String) → n ≤ length xs → drop n (xs ++ ys) ≡ drop n xs ++ ys
drop-append zero xs ys h = refl
drop-append (suc n) [] ys h = absurd (omega arith)
drop-append (suc n) (x ∷ xs) ys h = drop-append n xs ys (omega arith)

-- The newest part of a list keeps an end that fits.
last_n-append :
    (n : ℕ) (xs ys : List String)
    → 0 < n
    → length ys ≤ n
    → (older : List String) × (last_n n (xs ++ ys) ≡ older ++ ys)
unfolding last_n
last_n-append zero xs ys positive h = absurd (omega arith)
last_n-append (suc n) xs ys positive h =
    let cut = length (xs ++ ys) - suc n in
    (drop cut xs, drop-append cut xs ys (omega (arith, length-append xs ys)))

-- The store has the identifier, and at most `n` newer ones.
pub record IsRecent (command_id : String) (n : ℕ) (store : ProcessedCommandStore) : Type 0 where
  pub older : List String
  pub newer : List String
  pub ids : store.command_ids ≡ older ++ command_id ∷ newer
  pub few : length newer ≤ n

pub IsRecent-contains :
    (command_id : String) (n : ℕ) (store : ProcessedCommandStore)
    → IsRecent command_id n store
    → contains command_id store.command_ids ≡ true
unfolding contains
IsRecent-contains command_id n store r =
    rw r.ids (
      ground
        (arith, contains-append command_id r.older (command_id ∷ r.newer), beq_refl command_id))

pub add_id-max :
    (store : ProcessedCommandStore) (command_id : String)
    → (add_id store command_id).max_command_ids ≡ store.max_command_ids
unfolding add_id save
add_id-max store command_id = elim (Bool-cases (normalize command_id == "")) [
  | inl blank ↦ rw blank refl
  | inr filled ↦ elim (Bool-cases (contains (normalize command_id) store.command_ids)) [
    | inl old ↦ rw (filled, old) refl
    | inr new ↦ rw (filled, new) refl
  ]
]

add_id-first :
    (store : ProcessedCommandStore) (command_id : String)
    → 0 < store.max_command_ids
    → (normalize command_id == "") ≡ false
    → contains (normalize command_id) store.command_ids ≡ false
    → IsRecent (normalize command_id) 0 (add_id store command_id)
unfolding add_id save
add_id-first store command_id positive filled new =
    let (older, e) =
      last_n-append store.max_command_ids store.command_ids (normalize command_id ∷ []) positive
        (omega arith) in
    rw (filled, new) (record { older = older; newer = []; ids = e; few = omega arith })

pub contains_id-same :
    (store : ProcessedCommandStore) (command_id : String)
    → normalize command_id ≡ command_id
    → (command_id == "") ≡ false
    → contains_id store command_id ≡ contains command_id store.command_ids
unfolding contains_id
contains_id-same store command_id e filled = rw (contains_id, e, filled) refl

pub add_id-fresh :
    (store : ProcessedCommandStore) (command_id : String)
    → normalize command_id ≡ command_id
    → (command_id == "") ≡ false
    → 0 < store.max_command_ids
    → contains_id store command_id ≡ false
    → IsRecent command_id 0 (add_id store command_id)
add_id-fresh store command_id e filled positive new =
    subst (λ x. IsRecent x 0 (add_id store command_id)) e
      (add_id-first store command_id positive (subst (λ x. (x == "") ≡ false) (sym e) filled) (
        subst (λ x. contains x store.command_ids ≡ false) (sym e)
          (sym (contains_id-same store command_id e filled) ∙ new)))

-- Each identifier that is added makes one more newer one at most.
pub add_id-IsRecent :
    (store : ProcessedCommandStore) (command_id added : String) (n : ℕ)
    → suc n < store.max_command_ids
    → IsRecent command_id n store
    → IsRecent command_id (suc n) (add_id store added)
unfolding add_id save
add_id-IsRecent store command_id added n room r =
    let kept : IsRecent command_id (suc n) store = record {
      older = r.older;
      newer = r.newer;
      ids = r.ids;
      few = omega (arith, r.few);
    } in
    elim (Bool-cases (normalize added == "")) [
      | inl blank ↦ rw (add_id, blank) kept
      | inr filled ↦ elim (Bool-cases (contains (normalize added) store.command_ids)) [
        | inl old ↦ rw (add_id, filled, old) kept
        | inr new ↦
            let newer = r.newer ++ normalize added ∷ [] in
            let longer : store.command_ids ++ normalize added ∷ [] ≡ r.older ++ command_id ∷ newer =
              ap (λ xs. xs ++ normalize added ∷ []) r.ids
              ∙ append_assoc r.older (command_id ∷ r.newer) (normalize added ∷ []) in
            let size = length-append r.newer (normalize added ∷ []) in
            let (older, e) =
              last_n-append store.max_command_ids r.older (command_id ∷ newer) (omega arith)
                (omega (arith, size, r.few)) in
            rw (add_id, filled, new)
              (record {
                older = older;
                newer = newer;
                ids = ap (last_n store.max_command_ids) longer ∙ e;
                few = omega (arith, size, r.few);
              })
      ]
    ]
