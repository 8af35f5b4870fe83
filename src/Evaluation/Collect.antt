-- ===== src/Evaluation/Collect.antt =====
-- What the scoring is given: eval_shard_map.py, `collect`.
use symphony_akida.Prelude.{
  get_elem?-some, leb, ℕ, zero, suc, subst, ◌+◌, ◌≤◌, ◌<◌, ◌≡◌, refl, sym, ap, ◌∙◌, inl, inr, List,
  [], ◌∷◌, map, arith, ◌==◌, length, length-map, length-take, length-range_from, take, take-All,
  range, range_from, All, Bool-cases, if◌then◌else◌,
}
use symphony_akida.Prelude.Outcome.{Outcome, return, Returns, returned}
use symphony_akida.Merge.Boxes.{Floats, Box}
use symphony_akida.Kit.{TestKit, annotations, scale_to_raw}
use symphony_akida.Scores.{of_label, group_by_label}
use symphony_akida.Scores.Evaluate.{Scored, Annotated}
use symphony_akida.Evaluation.{
  Frame, gather, stack, pair_labels, top_of, top_boxes, collect_one, collect,
}

gather-Returns :
    {A : Type 0} (xs : List A) (order : List ℕ)
    → All (λ k. k < length xs) order
    → Returns (λ ys. length ys ≡ length order) (gather xs order)
unfolding gather
gather-Returns xs [] h = refl
gather-Returns xs (k ∷ order) h =
    let (a, found) = get_elem?-some xs k h.0 in
    let (rest, gathered, same) = returned _ (gather xs order) (gather-Returns xs order h.1) in
    rw (found, gathered) (ap suc same)

stack-Returns :
    {F : Type 0} (bs : List (Box F)) (ss : List F) (ls : List ℕ)
    → length ss ≡ length bs
    → length ls ≡ length bs
    → Returns (λ rows. length rows ≡ length bs) (stack bs ss ls)
unfolding stack
stack-Returns [] [] [] h h' = refl
stack-Returns (b ∷ bs) (s ∷ ss) (l ∷ ls) h h' =
    let (rest, stacked, same) =
      returned _ (stack bs ss ls) (stack-Returns bs ss ls (omega (arith, h)) (omega (arith, h'))) in
    rw stacked (ap suc same)
stack-Returns [] [] (l ∷ ls) h h' = absurd (omega (arith, h'))
stack-Returns [] (s ∷ ss) ls h h' = absurd (omega (arith, h))
stack-Returns (b ∷ bs) [] ls h h' = absurd (omega (arith, h))
stack-Returns (b ∷ bs) (s ∷ ss) [] h h' = absurd (omega (arith, h'))

pair_labels-Returns :
    {A : Type 0} (bs : List A) (ls : List ℕ)
    → length ls ≡ length bs
    → Returns (λ rows. length rows ≡ length bs) (pair_labels bs ls)
unfolding pair_labels
pair_labels-Returns [] [] h = refl
pair_labels-Returns (b ∷ bs) (l ∷ ls) h =
    let (rest, paired, same) =
      returned _ (pair_labels bs ls) (pair_labels-Returns bs ls (omega (arith, h))) in
    rw paired (ap suc same)
pair_labels-Returns [] (l ∷ ls) h = absurd (omega (arith, h))
pair_labels-Returns (b ∷ bs) [] h = absurd (omega (arith, h))

-- How many there are in all classes.
abbrev pub total : {A : Type 0} → List (List A) → ℕ
total [] = 0
total (group ∷ groups) = length group + total groups

-- A row is in one class at most.
total-one :
    {A : Type 0} (i n : ℕ) (a : A) (label : ℕ) (rows : List (A × ℕ))
    → total (map (λ c. of_label c ((a, label) ∷ rows)) (range_from i n))
      ≤ total (map (λ c. of_label c rows) (range_from i n)) + (if leb i label then 1 else 0)
total-one i zero a label rows = omega arith
total-one i (suc n) a label rows = ground (arith, total-one (suc i) n a label rows)

total-empty : (A : Type 0) (i n : ℕ) → total (map (λ c. of_label {A = A} c []) (range_from i n)) ≡ 0
total-empty A i zero = refl
total-empty A i (suc n) = omega (arith, total-empty A (suc i) n)

total-rows :
    {A : Type 0} (n : ℕ) (rows : List (A × ℕ))
    → total (map (λ c. of_label c rows) (range n)) ≤ length rows
total-rows {A} n [] = omega (arith, total-empty A 0 n)
total-rows n ((a, label) ∷ rows) = ground (arith, total-one 0 n a label rows, total-rows n rows)

-- What one frame gives: as many groups as classes, and no more detections than the cap.
abbrev pub IsCapped : {F : Type 0} → ℕ → ℕ → Scored F → Type 0
IsCapped classes max_boxes detections =
    (length detections ≡ classes) × (total detections ≤ max_boxes)

module _ {F : Type 0} (f : Floats F) (argsort_down : List F → List ℕ) (kit : TestKit F)
    (max_boxes : ℕ) (orders : (xs : List F) → All (λ k. k < length xs) (argsort_down xs)) where
  abbrev IsSized : Frame F → Type 0
  IsSized frame =
      (length frame.scores ≡ length frame.boxes)
      × (length frame.labels ≡ length frame.boxes)
      × (length frame.boxes ≤ max_boxes)

  -- As many scores and labels as boxes.
  abbrev pub IsFrame : Frame F → Type 0
  IsFrame frame =
      (length frame.scores ≡ length frame.boxes) × (length frame.labels ≡ length frame.boxes)

  gathered :
      {A : Type 0} (xs : List A) (frame : Frame F)
      → length frame.scores ≡ length xs
      → let order = take max_boxes (argsort_down frame.scores) in
        (ys : List A) × (gather xs order ≡ return ys) × (length ys ≡ length order)
  gathered xs frame same =
      let order = take max_boxes (argsort_down frame.scores) in
      returned (λ ys. length ys ≡ length order) (gather xs order)
        (gather-Returns xs order (
          subst (λ n. All (λ k. k < n) order) same
            (take-All (λ k. k < length frame.scores) max_boxes _ (orders frame.scores))))

  top_of-Returns :
      (frame : Frame F) (raw_shape : ℕ × ℕ)
      → IsFrame frame
      → Returns IsSized (top_of f argsort_down kit max_boxes frame raw_shape)
  unfolding scale_to_raw
  top_of-Returns frame raw_shape h =
      let (boxes, got_boxes, boxes_length) =
        gathered (scale_to_raw f frame.boxes raw_shape) frame
          (h.0 ∙ sym (length-map _ frame.boxes)) in
      let (scores, got_scores, scores_length) = gathered frame.scores frame refl in
      let (labels, got_labels, labels_length) =
        gathered frame.labels frame (omega (arith, h.0, h.1)) in
      rw (got_boxes, got_scores, got_labels)
        (
          omega (arith, boxes_length, scores_length),
          omega (arith, boxes_length, labels_length),
          omega (arith, boxes_length, length-take max_boxes (argsort_down frame.scores)),
        )

  -- A frame whose shape and annotations the kit holds, with detections as long as each other.
  abbrev pub IsKnown : (ℕ → Outcome (Frame F)) → ℕ → Type 0
  IsKnown boxes_of sample =
      (sample < length kit.raw_shapes)
      × Returns IsFrame (boxes_of sample)
      × Returns (λ truth. length truth.1 ≡ length truth.0) (annotations f kit sample)

  top_boxes-Returns :
      (sample : ℕ) (frame : Frame F)
      → sample < length kit.raw_shapes
      → IsFrame frame
      → Returns IsSized (top_boxes f argsort_down kit max_boxes sample frame)
  unfolding top_boxes
  top_boxes-Returns sample frame low h = elim (Bool-cases (length frame.boxes == 0)) [
    | inl empty ↦ rw empty (refl, refl, omega arith)
    | inr some_boxes ↦
        let (shape, found) = get_elem?-some kit.raw_shapes sample low in
        rw (some_boxes, found) (top_of-Returns frame shape h)
  ]

  abbrev IsGrouped : Scored F × Annotated F → Type 0
  IsGrouped r = IsCapped (length kit.labels) max_boxes r.0 × (length r.1 ≡ length kit.labels)

  collect_one-Returns :
      (boxes_of : ℕ → Outcome (Frame F)) (sample : ℕ)
      → IsKnown boxes_of sample
      → Returns IsGrouped (collect_one f argsort_down kit max_boxes boxes_of sample)
  unfolding collect_one group_by_label
  collect_one-Returns boxes_of sample h =
      let classes = length kit.labels in
      let (frame, got, sized) = returned IsFrame (boxes_of sample) h.1 in
      let (top, topped, capped) =
        returned IsSized (top_boxes f argsort_down kit max_boxes sample frame)
          (top_boxes-Returns sample frame h.0 sized) in
      let (rows, stacked, rows_length) =
        returned (λ rows. length rows ≡ length top.boxes) (stack top.boxes top.scores top.labels)
          (stack-Returns top.boxes top.scores top.labels capped.0 capped.1) in
      let (truth, known, truth_length) =
        returned (λ truth. length truth.1 ≡ length truth.0) (annotations f kit sample) h.2 in
      let (pairs, paired, pairs_length) =
        returned (λ rows. length rows ≡ length truth.0) (pair_labels truth.0 truth.1)
          (pair_labels-Returns truth.0 truth.1 truth_length) in
      rw (got, topped, stacked, known, paired)
        (
          (
            length-map (λ c. of_label c rows) (range classes) ∙ length-range_from 0 classes,
            omega (arith, total-rows classes rows, rows_length, capped.2),
          ),
          length-map (λ c. of_label c pairs) (range classes) ∙ length-range_from 0 classes,
        )

  abbrev pub AreCapped : List ℕ → List (Scored F) × List (Annotated F) → Type 0
  AreCapped samples found =
      (length found.0 ≡ length samples)
      × (length found.1 ≡ length samples)
      × All (IsCapped (length kit.labels) max_boxes) found.0

  -- Where the kit holds the shape of each frame of the dump and its annotations with as many labels
  -- as boxes, each record has as many scores and labels as boxes, and the sort gives indices of
  -- what it sorts, collecting raises nothing: each frame, in order, is given its groups, one for
  -- each class of the kit, and of its detections at most `max_boxes` are scored.
  pub collect-Returns :
      (samples : List ℕ) (boxes_of : ℕ → Outcome (Frame F))
      → All (IsKnown boxes_of) samples
      → Returns (AreCapped samples) (collect f argsort_down kit max_boxes samples boxes_of)
  unfolding collect
  collect-Returns [] boxes_of h = (refl, refl, tt)
  collect-Returns (sample ∷ samples) boxes_of h =
      let (one, got, capped) =
        returned IsGrouped (collect_one f argsort_down kit max_boxes boxes_of sample)
          (collect_one-Returns boxes_of sample h.0) in
      let (rest, got_rest, all_capped) =
        returned (AreCapped samples) (collect f argsort_down kit max_boxes samples boxes_of)
          (collect-Returns samples boxes_of h.1) in
      rw (got, got_rest) (ap suc all_capped.0, ap suc all_capped.1, (capped.0, all_capped.2))
