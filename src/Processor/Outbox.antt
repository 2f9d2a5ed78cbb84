-- ===== src/Processor/Outbox.antt =====
-- A publisher that is handed to the processor, as the payloads it was called with, in order; `none`
-- where none is handed over. What a publisher raises is caught, so that nothing depends on it.
use smart_ids.Base.{Option, none, some, List, [], ◌∷◌, ◌++◌, ◌≡◌, refl}

abbrev pub Publisher : Type 0 → Type 0
Publisher A = Option (List A)

module _ {A : Type 0} where
  unfoldable pub publish : Publisher A → A → Publisher A
  publish none payload = none
  publish (some calls) payload = some (calls ++ payload ∷ [])

  -- The payloads of a list, one call for each.
  unfoldable pub publish_all : Publisher A → List A → Publisher A
  unfolding publish
  publish_all calls [] = calls
  publish_all calls (payload ∷ payloads) = publish_all (publish calls payload) payloads

  pub publish_all-append :
      (calls : Publisher A) (xs ys : List A)
      → publish_all calls (xs ++ ys) ≡ publish_all (publish_all calls xs) ys
  unfolding publish_all
  publish_all-append calls [] ys = refl
  publish_all-append calls (x ∷ xs) ys = publish_all-append (publish calls x) xs ys
