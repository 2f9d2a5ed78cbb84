-- ===== src/Capture/Statistics/Gaps.antt =====
-- The gaps between the packets of a flow.
use smart_ids.Base.{
  ◌+◌, ◌≤◌, ◌≡◌, refl, ap, ◌∙◌, List, [], ◌∷◌, arith, sort_by, insert_by, IsSortedBy,
  sort_by-IsSortedBy, All, All-sort_by, max, le→leb,
}
use smart_ids.Packet.{Time}
use smart_ids.Capture.Statistics.{gaps, in_order}

abbrev pub total : List Time → Time
total [] = 0
total (x ∷ xs) = x + total xs

-- The newest of the times.
abbrev pub latest : List Time → Time
latest [] = 0
latest (x ∷ xs) = max x (latest xs)

total-gaps :
    (x : Time) (xs : List Time)
    → IsSortedBy (λ t. t) (x ∷ xs)
    → x + total (gaps (x ∷ xs)) ≡ latest (x ∷ xs)
unfolding gaps
total-gaps x [] h = omega arith
total-gaps x (y ∷ ys) h = omega (arith, total-gaps y ys h.1, h.0.0)

latest-insert_by :
    (x : Time) (xs : List Time) → latest (insert_by (λ t. t) x xs) ≡ max x (latest xs)
unfolding insert_by
latest-insert_by x [] = refl
latest-insert_by x (y ∷ ys) = ground (arith, latest-insert_by x ys)

latest-sort_by : (xs : List Time) → latest (sort_by (λ t. t) xs) ≡ latest xs
unfolding sort_by
latest-sort_by [] = refl
latest-sort_by (x ∷ xs) = omega (arith, latest-insert_by x (sort_by (λ t. t) xs), latest-sort_by xs)

insert_by-first :
    (x : Time) (xs : List Time) → All (λ t. x ≤ t) xs → insert_by (λ t. t) x xs ≡ x ∷ xs
unfolding insert_by
insert_by-first x [] h = refl
insert_by-first x (y ∷ ys) h = rw (insert_by, le→leb x y h.0) refl

-- The gaps between the packets of a flow, in whatever order the packets after the first came,
-- where the first is the oldest, add up to the time from the oldest packet to the newest.
pub total-gaps-in_order :
    (oldest : Time) (times : List Time)
    → All (λ t. oldest ≤ t) times
    → oldest + total (gaps (in_order (oldest ∷ times))) ≡ latest (oldest ∷ times)
unfolding in_order sort_by
total-gaps-in_order oldest times h =
    let sorted = sort_by (λ t. t) times in
    let first = insert_by-first oldest sorted (All-sort_by (λ t. t) (λ t. oldest ≤ t) times h) in
    ap (λ xs. oldest + total (gaps xs)) first
    ∙ total-gaps oldest sorted
        (All-sort_by (λ t. t) (λ t. oldest ≤ t) times h, sort_by-IsSortedBy (λ t. t) times)
    ∙ ap (max oldest) (latest-sort_by times)
