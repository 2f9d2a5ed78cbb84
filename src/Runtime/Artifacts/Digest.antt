-- ===== src/Runtime/Artifacts/Digest.antt =====
-- The chunks of a digest.
use smart_ids.Base.{
  ℕ, zero, suc, ◌≤◌, ◌≡◌, sym, ap, ◌∙◌, List, [], ◌∷◌, ◌++◌, length, take, drop, length-drop,
  take-append-drop, arith,
}
use smart_ids.Runtime.Artifacts.{Sha256, chunk_size, update_chunks, compute_sha256}

module _ {S : Type 0} (sha : Sha256 S) (feed-nil : (digest : S) → sha.feed digest [] ≡ digest)
    (feed-append : (digest : S) (xs ys : List ℕ)
      → sha.feed (sha.feed digest xs) ys ≡ sha.feed digest (xs ++ ys)) where
  update_chunks-feed :
      (n : ℕ) (digest : S) (rest : List ℕ)
      → length rest ≤ n
      → update_chunks sha n digest rest ≡ sha.feed digest rest
  unfolding update_chunks
  update_chunks-feed zero digest [] h = sym (feed-nil digest)
  update_chunks-feed zero digest (x ∷ xs) h = absurd (omega arith)
  update_chunks-feed (suc n) digest [] h = sym (feed-nil digest)
  update_chunks-feed (suc n) digest (x ∷ xs) h =
      let now : List ℕ = take chunk_size (x ∷ xs) in
      let later : List ℕ = drop chunk_size (x ∷ xs) in
      update_chunks-feed n (sha.feed digest now) later (omega (arith, length-drop 65_535 xs))
      ∙ feed-append digest now later
      ∙ ap (sha.feed digest) (take-append-drop chunk_size (x ∷ xs))

  -- Where the digest of a text that is fed in pieces is that of the whole, the digest of a file that is
  -- read in chunks is the digest of its whole content, and the loop has turns enough for it.
  pub compute_sha256-whole :
      (content : List ℕ) → compute_sha256 sha content ≡ sha.hexdigest (sha.feed sha.init content)
  unfolding compute_sha256
  compute_sha256-whole content =
      ap sha.hexdigest (update_chunks-feed (length content) sha.init content (omega arith))
