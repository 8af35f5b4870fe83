-- ===== src/Stages/Coding.antt =====
-- What one stage writes, the next one reads: the rows of the detections of a tile.
use symphony_akida.Prelude.{
  length-range_from, ℕ, zero, suc, ◌+◌, ◌<◌, ◌≡◌, refl, ◌∙◌, ap, ◌∷◌, map, arith, length-map,
  get_or, take, range, range_from,
}
use symphony_akida.Merge.Boxes.{Floats}
use symphony_akida.Decode.{Decoded}
use symphony_akida.Stages.Bus.{pack, Row}
use symphony_akida.Stages.Stitch.{unpack, row_of}
use symphony_akida.Merge.Whole.{rows_of}

get_or-map :
    {A : Type 0} (g : ℕ → A) (i n k : ℕ) (d : A)
    → k < n
    → get_or (map g (range_from i n)) k d ≡ g (i + k)
get_or-map g i zero k d h = absurd (omega arith)
get_or-map g i (suc n) zero d h = ap g (omega arith)
get_or-map g i (suc n) (suc k) d h = get_or-map g (suc i) n k d (omega arith) ∙ ap g (omega arith)

take-map :
    {A : Type 0} (g : ℕ → A) (i n : ℕ) → take n (map g (range_from i n)) ≡ map g (range_from i n)
take-map g i zero = refl
take-map g i (suc n) = ap (◌∷◌ (g i)) (take-map g (suc i) n)

-- The merge reads of a tile's file what the decoding put there: as many detections, each with its
-- box, its score, its label and its class scores.
pub unpack-pack :
    {F : Type 0} (f : Floats F) (num_classes : ℕ) (d : Decoded F)
    → let entry = unpack f num_classes (pack num_classes d) in
      (entry.num ≡ d.num)
      × ((k : ℕ)
          → k < d.num
          → (entry.boxes k ≡ d.boxes k)
            × (entry.scores k ≡ d.scores k)
            × (entry.labels k ≡ d.labels k)
            × (rows_of entry.classes k ≡ map (d.classes k) (range num_classes)))
unfolding unpack pack
unpack-pack {F} f num_classes d =
    let row : ℕ → Row F = λ i. record {
      box = d.boxes i;
      score = d.scores i;
      label = d.labels i;
      classes = map (d.classes i) (range num_classes);
    } in
    (
      length-map row (range d.num) ∙ length-range_from 0 d.num,
      λ k h.
          let same : 0 + k ≡ k = omega arith in
          let at : row_of f (pack num_classes d) k ≡ row k =
            get_or-map row 0 d.num k _ h ∙ ap row same in
          (
            ap (λ r. r.box) at,
            ap (λ r. r.score) at,
            ap (λ r. r.label) at,
            ap (λ r. take num_classes r.classes) at ∙ take-map (d.classes k) 0 num_classes,
          ),
    )
