-- ===== src/Samples/Chunks.antt =====
-- The chunks that `convert` of prepare_samples.py writes.
use symphony_akida.Prelude.{
  ℕ, zero, suc, ◌+◌, ◌-◌, ◌*◌, ◌/◌, ◌≤◌, ◌<◌, ◌≡◌, refl, sym, ap, ◌∙◌, List, [], ◌∷◌, ◌++◌, map,
  arith, length, length-append, take, drop, take-append-drop, drop-drop, drop_all, past, take_past,
  range_from, get_or, All,
}
use mathlib.Core.List.{append_assoc}
use symphony_akida.Wire.Stream.{Bytes}
use symphony_akida.Samples.{chunk, starts, concat, write_chunks}

concat-append : (xs ys : List Bytes) → concat (xs ++ ys) ≡ concat xs ++ concat ys
concat-append [] ys = refl
concat-append (x ∷ xs) ys =
    ap (λ zs. x ++ zs) (concat-append xs ys) ∙ sym (append_assoc x (concat xs) (concat ys))

chunks_from :
    (rows : List Bytes) (i n : ℕ)
    → length rows ≤ (i + n) * 64
    → write_chunks rows (map (λ k. k * 64) (range_from i n)) ≡ concat (drop (i * 64) rows)
unfolding write_chunks
chunks_from rows i zero h = ap concat (sym (drop_all (i * 64) rows (omega (arith, h))))
chunks_from rows i (suc n) h =
    let rest = drop (i * 64) rows in
    let next : suc i * 64 ≡ i * 64 + 64 = omega arith in
    ap (λ bs. concat (take 64 rest) ++ bs) (chunks_from rows (suc i) n (omega (arith, h)))
    ∙ ap (λ k. concat (take 64 rest) ++ concat (drop k rows)) next
    ∙ ap (λ ys. concat (take 64 rest) ++ concat ys) (drop-drop (i * 64) 64 rows)
    ∙ sym (concat-append (take 64 rest) (drop 64 rest))
    ∙ ap concat (take-append-drop 64 rest)

-- The chunks, whatever the number of frames, are all the frames, one after the other.
pub write_chunks-concat :
    (rows : List Bytes) → write_chunks rows (starts (length rows) chunk) ≡ concat rows
write_chunks-concat rows = chunks_from rows 0 ((length rows + (64 - 1)) / 64) (omega arith)

module _ (per : ℕ) where
  pub length-concat :
      (rows : List Bytes)
      → All (λ row. length row ≡ per) rows
      → length (concat rows) ≡ length rows * per
  length-concat [] h = omega arith
  length-concat (row ∷ rows) h =
      omega (arith, length-append row (concat rows), length-concat rows h.1, h.0)

  -- A seek to a frame reads it.
  pub concat_at :
      (rows : List Bytes) (i : ℕ)
      → All (λ row. length row ≡ per) rows
      → i < length rows
      → take per (drop (i * per) (concat rows)) ≡ get_or rows i []
  concat_at [] i h low = absurd (omega arith)
  concat_at (row ∷ rows) zero h low =
      let start : 0 * per ≡ 0 = omega arith in
      ap (λ k. take per (drop k (row ++ concat rows))) start ∙ take_past per row (concat rows) h.0
  concat_at (row ∷ rows) (suc i) h low =
      let next : suc i * per ≡ per + i * per = omega arith in
      ap (λ k. take per (drop k (row ++ concat rows))) next
      ∙ ap (take per) (drop-drop per (i * per) (row ++ concat rows))
      ∙ ap (λ bs. take per (drop (i * per) bs)) (past per row (concat rows) h.0)
      ∙ concat_at rows i h.1 (omega (arith, low))
