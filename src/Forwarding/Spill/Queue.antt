-- ===== src/Forwarding/Spill/Queue.antt =====
-- The spill file as a queue of payloads, oldest first.
use smart_ids.Base.{
  ℕ, zero, suc, ◌<◌, ◌≡◌, refl, ap, ◌∙◌, false, none, some, List, [], ◌∷◌, ◌++◌, String, take, drop,
  filter, leb, arith, Bool-cases, Option-cases, inl, inr,
}
use smart_ids.Text.{strip}
use smart_ids.Forwarding.Spill.{
  Json, DiskSpillStore, is_filled, read_lines, write_lines, try_decode, peek_lines, peek_batch,
  cut_lines, discard_batch,
}

module _ {P : Type 0} (json : Json P) where
  -- The payloads of the lines that decode.
  unfoldable pub payloads_of : List String → List P
  payloads_of [] = []
  payloads_of (line ∷ lines) =
      let others = payloads_of lines in
      elim ((try_decode json line).0) [ none ↦ others | some payload ↦ payload ∷ others ]

  unfoldable pub payloads : DiskSpillStore → List P
  unfolding payloads_of
  payloads store = payloads_of (read_lines store.file)

  peek_lines-take :
      (n : ℕ) (lines : List String) → peek_lines json n lines ≡ take n (payloads_of lines)
  unfolding peek_lines payloads_of
  peek_lines-take zero lines = refl
  peek_lines-take (suc n) [] = refl
  peek_lines-take (suc n) (line ∷ lines) = elim (Option-cases ((try_decode json line).0)) [
    | inl e ↦ rw (peek_lines, payloads_of, e) (peek_lines-take (suc n) lines)
    | inr (p, e) ↦ rw (peek_lines, payloads_of, e) (ap (◌∷◌ p) (peek_lines-take n lines))
  ]

  cut_lines-drop :
      (n : ℕ) (lines : List String)
      → payloads_of (cut_lines json n lines) ≡ drop n (payloads_of lines)
  unfolding cut_lines payloads_of
  cut_lines-drop zero lines = refl
  cut_lines-drop (suc n) [] = refl
  cut_lines-drop (suc n) (line ∷ lines) = elim (Option-cases ((try_decode json line).0)) [
    | inl e ↦ rw (cut_lines, payloads_of, e) (cut_lines-drop (suc n) lines)
    | inr (p, e) ↦ rw (cut_lines, payloads_of, e) (cut_lines-drop n lines)
  ]

  payloads-blank : (line : String) → is_filled line ≡ false → (try_decode json line).0 ≡ none
  unfolding is_filled try_decode
  payloads-blank line h = ground (arith, h)

  payloads_of-filter :
      (lines : List String) → payloads_of (filter is_filled lines) ≡ payloads_of lines
  unfolding payloads_of
  payloads_of-filter [] = refl
  payloads_of-filter (line ∷ lines) = elim (Bool-cases (is_filled line)) [
    | inl e ↦ elim (Option-cases ((try_decode json line).0)) [
      | inl d ↦ rw (e, payloads_of, d, payloads_of-filter lines) refl
      | inr (p, d) ↦ rw (e, payloads_of, d, payloads_of-filter lines) refl
    ]
    | inr e ↦ rw (e, payloads_of, payloads-blank line e) (payloads_of-filter lines)
  ]

  payloads_of-snoc_blank :
      (lines : List String) → payloads_of (lines ++ "" ∷ []) ≡ payloads_of lines
  unfolding payloads_of
  payloads_of-snoc_blank [] = unfold try_decode strip in refl
  payloads_of-snoc_blank (line ∷ lines) = elim (Option-cases ((try_decode json line).0)) [
    | inl d ↦ rw (payloads_of, d) (payloads_of-snoc_blank lines)
    | inr (p, d) ↦ rw (payloads_of, d) (ap (◌∷◌ p) (payloads_of-snoc_blank lines))
  ]

  payloads_of-written :
      (lines : List String) → payloads_of (read_lines (write_lines lines)) ≡ payloads_of lines
  unfolding read_lines
  payloads_of-written lines = payloads_of-filter (lines ++ "" ∷ []) ∙ payloads_of-snoc_blank lines

  -- Whatever lines the file has, corrupt ones included, `peek_batch` answers its first `n` payloads.
  pub peek_batch-take :
      (store : DiskSpillStore) (n : ℕ) → peek_batch json store n ≡ take n (payloads store)
  unfolding peek_batch payloads
  peek_batch-take store n = peek_lines-take n (read_lines store.file)

  discard_batch-file :
      (store : DiskSpillStore) (n : ℕ)
      → 0 < n
      → (discard_batch json store n).file ≡ write_lines (cut_lines json n (read_lines store.file))
  unfolding discard_batch
  discard_batch-file store n h = let e : leb n 0 ≡ false = ground arith in rw e refl

  -- Whatever lines the file has, corrupt ones included, `discard_batch` removes its first `n`
  -- payloads, those that `peek_batch` answers, and no other.
  pub discard_batch-drop :
      (store : DiskSpillStore) (n : ℕ)
      → payloads (discard_batch json store n) ≡ drop n (payloads store)
  discard_batch-drop store zero = unfold discard_batch in refl
  discard_batch-drop store (suc n) =
      unfold payloads in
      ap (λ file. payloads_of (read_lines file)) (discard_batch-file store (suc n) (omega arith))
      ∙ payloads_of-written (cut_lines json (suc n) (read_lines store.file))
      ∙ cut_lines-drop (suc n) (read_lines store.file)
