-- ===== src/Forwarding/Spill/Refinement.antt =====
-- The spill store implements a bounded queue of payloads.
use Prim.Native.String.append
use smart_ids.Base.{
  ℕ, zero, suc, ◌+◌, ◌-◌, ◌*◌, ◌<◌, ◌≡◌, refl, ap, sym, ◌∙◌, true, false, some, List, [], ◌∷◌, ◌++◌,
  map, length, take, drop, last_n, ltb, leb, if◌then◌else◌, arith, Bool-cases, inl, inr,
  length-append, length-map,
}
use smart_ids.Text.{strip, is_blank}
use smart_ids.Forwarding.Spill.{
  Json, SpillFile, DiskSpillStore, is_filled, read_lines, write_lines, compact, try_decode,
  append_line, append_payload, peek_lines, peek_batch, cut_lines, discard_batch,
}

-- What `json` does: the text of a payload is that of a dictionary, without blanks around it.
pub record IsJson {P : Type 0} (json : Json P) : Type 0 where
  pub stripped : (payload : P) → strip (json.dumps payload) ≡ json.dumps payload
  pub filled : (payload : P) → is_blank (json.dumps payload) ≡ false
  pub loaded : (payload : P) → json.loads (json.dumps payload) ≡ some payload

-- The queue that the store promises: it may grow a tenth past its limit, then it keeps the newest.
abbrev pub appended : {P : Type 0} → ℕ → List P → P → List P
appended max_entries queue payload =
    let longer = queue ++ payload ∷ [] in
    if ltb (max_entries * 11) (length longer * 10) then last_n max_entries longer else longer

-- The store holds this queue.
pub record Holds {P : Type 0} (json : Json P) (store : DiskSpillStore) (queue : List P)
    : Type 0 where
  pub positive : 0 < store.max_entries
  pub counted : store.entry_count ≡ length queue
  pub written : store.file ≡ write_lines (map json.dumps queue)

module _ {P : Type 0} (json : Json P) (law : IsJson json) where
  dumped : (p : P) → is_filled (json.dumps p) ≡ true
  unfolding is_filled
  dumped p = rw (law.stripped p, law.filled p) refl

  read-written :
      (queue : List P) → read_lines (write_lines (map json.dumps queue)) ≡ map json.dumps queue
  unfolding read_lines
  read-written [] = unfold is_filled strip in refl
  read-written (p ∷ queue) = rw (dumped p, read-written queue) refl

  decode-dumps : (p : P) → (try_decode json (json.dumps p)).0 ≡ some p
  unfolding try_decode
  decode-dumps p = rw (law.stripped p, law.filled p, law.loaded p) refl

  peek-dumped : (n : ℕ) (queue : List P) → peek_lines json n (map json.dumps queue) ≡ take n queue
  unfolding peek_lines
  peek-dumped zero queue = refl
  peek-dumped (suc n) [] = refl
  peek-dumped (suc n) (p ∷ queue) =
      rw (peek_lines, decode-dumps p) (ap (◌∷◌ p) (peek-dumped n queue))

  cut-dumped :
      (n : ℕ) (queue : List P)
      → cut_lines json n (map json.dumps queue) ≡ map json.dumps (drop n queue)
  unfolding cut_lines
  cut-dumped zero queue = refl
  cut-dumped (suc n) [] = refl
  cut-dumped (suc n) (p ∷ queue) = rw (cut_lines, decode-dumps p) (cut-dumped n queue)

  drop-map :
      (n : ℕ) (queue : List P) → drop n (map json.dumps queue) ≡ map json.dumps (drop n queue)
  drop-map zero queue = refl
  drop-map (suc n) [] = refl
  drop-map (suc n) (p ∷ queue) = drop-map n queue

  last_n-map :
      (n : ℕ) (queue : List P) → last_n n (map json.dumps queue) ≡ map json.dumps (last_n n queue)
  unfolding last_n
  last_n-map zero queue = refl
  last_n-map (suc n) queue =
      rw (length-map json.dumps queue) (drop-map (length queue - suc n) queue)

  map-snoc :
      (queue : List P) (p : P)
      → map json.dumps queue ++ json.dumps p ∷ [] ≡ map json.dumps (queue ++ p ∷ [])
  map-snoc [] p = refl
  map-snoc (q ∷ queue) p = ap (◌∷◌ (json.dumps q)) (map-snoc queue p)

  append_line-written :
      (queue : List P) (p : P)
      → append_line (write_lines (map json.dumps queue)) (json.dumps p)
        ≡ write_lines (map json.dumps (queue ++ p ∷ []))
  unfolding append_line
  append_line-written queue p =
      ap (λ line. write_lines (map json.dumps queue ++ line ∷ []))
        (λ i. append.nil (json.dumps p) i)
      ∙ ap write_lines (map-snoc queue p)

  -- `append` is the queue's: the payload comes last, and past a tenth over the limit the oldest go.
  pub append_payload-Holds :
      (store : DiskSpillStore) (queue : List P) (payload : P)
      → Holds json store queue
      → Holds json (append_payload json store payload) (appended store.max_entries queue payload)
  unfolding append_payload
  append_payload-Holds store queue p h =
      let longer = queue ++ p ∷ [] in
      let sized : store.entry_count + 1 ≡ length longer =
        omega (arith, h.counted, length-append queue (p ∷ [])) in
      let written =
        ap (λ file. append_line file (json.dumps p)) h.written ∙ append_line-written queue p in
      elim (Bool-cases (ltb (store.max_entries * 11) ((store.entry_count + 1) * 10))) [
        | inl e ↦
            rw (e, sym (ap (λ n. ltb (store.max_entries * 11) (n * 10)) sized) ∙ e)
              (compacted longer (store.entry_count + 1) written)
        | inr e ↦
            rw (e, sym (ap (λ n. ltb (store.max_entries * 11) (n * 10)) sized) ∙ e)
              (record { positive = h.positive; counted = sized; written = written })
      ]
    where
      compacted :
          (longer : List P) {file : SpillFile} (n : ℕ)
          → file ≡ write_lines (map json.dumps longer)
          → Holds json
              (compact (record store { entry_count = n; file = file }))
              (last_n store.max_entries longer)
      compacted longer n e =
          let lines =
            ap (λ file. last_n store.max_entries (read_lines file)) e
            ∙ ap (last_n store.max_entries) (read-written longer)
            ∙ last_n-map store.max_entries longer in
          unfold compact in
          record {
            positive = h.positive;
            counted = ap length lines ∙ length-map json.dumps (last_n store.max_entries longer);
            written = ap write_lines lines;
          }

  -- `discard_batch` removes the oldest payloads.
  pub discard_batch-Holds :
      (store : DiskSpillStore) (queue : List P) (n : ℕ)
      → Holds json store queue
      → Holds json (discard_batch json store n) (drop n queue)
  unfolding discard_batch
  discard_batch-Holds store queue zero h = h
  discard_batch-Holds store queue (suc n) h =
      let e : leb (suc n) 0 ≡ false = ground arith in
      let lines =
        ap (λ file. cut_lines json (suc n) (read_lines file)) h.written
        ∙ ap (cut_lines json (suc n)) (read-written queue)
        ∙ cut-dumped (suc n) queue in
      rw e (record {
        positive = h.positive;
        counted = ap length lines ∙ length-map json.dumps (drop (suc n) queue);
        written = ap write_lines lines;
      })

  -- `peek_batch` answers the oldest payloads.
  pub peek_batch-Holds :
      (store : DiskSpillStore) (queue : List P) (n : ℕ)
      → Holds json store queue
      → peek_batch json store n ≡ take n queue
  unfolding peek_batch
  peek_batch-Holds store queue n h =
      ap (λ file. peek_lines json n (read_lines file)) h.written
      ∙ ap (peek_lines json n) (read-written queue)
      ∙ peek-dumped n queue
