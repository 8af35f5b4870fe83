-- ===== src/Decode.antt =====
-- The decoding of one tile's output: src/common/tiled_shard.py, `_sigmoid`, `_softmax` and
-- `decode_tile`. Floats and numpy's `argsort` are parameters, as in Merge.
pub mod Nms
pub mod Apart
pub mod Survivors
use symphony_akida.Prelude.{
  ℕ, zero, suc, ◌+◌, ◌*◌, Bool, true, false, not, ◌&&◌, ◌||◌, List, [], ◌∷◌, ◌++◌, map, ltb, ◌==◌,
  length, get_or, range, if◌then◌else◌,
}
use symphony_akida.Merge.Boxes.{Floats, Box, iou}
use symphony_akida.Decode.Nms.{nms_classes}

-- The functions on floats that only the decoding uses.
pub record Maths (F : Type 0) : Type 0 where
  pub exp : F → F
  pub neg : F → F

-- A model's raw output, by row, column and channel, and the arguments of `decode_tile`.
pub record Output (F : Type 0) : Type 0 where
  pub grid_h : ℕ
  pub grid_w : ℕ
  pub channel : ℕ → ℕ → ℕ → F

pub record Arguments (F : Type 0) : Type 0 where
  pub anchors : List (F × F)
  pub num_classes : ℕ
  pub obj_threshold : F
  pub nms_threshold : F

pub record Cell : Type 0 where
  pub row : ℕ
  pub col : ℕ
  pub anchor : ℕ

-- Parallel arrays, by index.
pub record Decoded (F : Type 0) : Type 0 where
  pub num : ℕ
  pub boxes : ℕ → Box F
  pub scores : ℕ → F
  pub labels : ℕ → ℕ
  pub classes : ℕ → ℕ → F

-- Every cell, the anchors of a column together, and the columns of a row.
abbrev pub concat_map : {A B : Type 0} → (A → List B) → List A → List B
concat_map g [] = []
concat_map g (a ∷ rest) = g a ++ concat_map g rest

abbrev pub cells : ℕ → ℕ → ℕ → List Cell
cells grid_h grid_w num_anchors =
    concat_map
      (λ row.
        concat_map
          (λ col. map (λ a. record { row = row; col = col; anchor = a }) (range num_anchors))
          (range grid_w))
      (range grid_h)

abbrev pub keep_cells : (Cell → Bool) → List Cell → List Cell
keep_cells test [] = []
keep_cells test (c ∷ cs) = let rest = keep_cells test cs in if test c then c ∷ rest else rest

abbrev pub cell_at : List Cell → ℕ → Cell
cell_at cs i = get_or cs i (record { row = 0; col = 0; anchor = 0 })

module _ {F : Type 0} (f : Floats F) (maths : Maths F) where
  unfoldable pub sigmoid : F → F
  sigmoid a = f.div f.one_f (f.add f.one_f (maths.exp (maths.neg a)))

  abbrev pub max_of : List F → F
  max_of [] = f.zero_f
  max_of (a ∷ []) = a
  max_of (a ∷ b ∷ rest) = f.max_f a (max_of (b ∷ rest))

  abbrev pub min_of : List F → F
  min_of [] = f.zero_f
  min_of (a ∷ []) = a
  min_of (a ∷ b ∷ rest) = f.min_f a (min_of (b ∷ rest))

  abbrev pub sum_of : List F → F
  sum_of [] = f.zero_f
  sum_of (a ∷ rest) = f.add a (sum_of rest)

  -- The shift by the largest logit of all, and the rescale where one lies more than 100 below it.
  unfoldable pub rescaled : List F → F → F
  rescaled logits a =
      let t = maths.neg (f.of_nat 100) in
      let largest = max_of logits in
      let smallest = f.sub (min_of logits) largest in
      let shifted = f.sub a largest in
      if f.lt smallest t then f.mul (f.div shifted smallest) t else shifted

  -- `_softmax`, for one entry of a row, from all logits.
  unfoldable pub softmax : List F → List F → F → F
  unfolding rescaled
  softmax logits row a =
      f.div (maths.exp (rescaled logits a)) (sum_of (map (λ b. maths.exp (rescaled logits b)) row))

  module _ (r : Arguments F) (out : Output F) where
    -- The attribute of an anchor: the channels are anchor major.
    abbrev pub attribute : Cell → ℕ → F
    attribute c k = out.channel c.row c.col (c.anchor * (5 + r.num_classes) + k)

    abbrev pub all_cells : List Cell
    all_cells = cells out.grid_h out.grid_w (length r.anchors)

    abbrev pub logits_of : Cell → List F
    logits_of c = map (λ k. attribute c (5 + k)) (range r.num_classes)

    abbrev pub all_logits : List F
    all_logits = concat_map logits_of all_cells

    unfoldable pub confidence : Cell → F
    unfolding sigmoid
    confidence c = sigmoid (attribute c 4)

    -- The score of a class, or zero where it does not pass the threshold.
    unfoldable pub class_score : Cell → ℕ → F
    unfolding softmax confidence
    class_score c k =
        let score = f.mul (confidence c) (softmax all_logits (logits_of c) (attribute c (5 + k))) in
        if f.lt r.obj_threshold score then score else f.mul score f.zero_f

    abbrev pub anchor_of : Cell → F × F
    anchor_of c = get_or r.anchors c.anchor (f.zero_f, f.zero_f)

    -- The box: its low edges stop at 0, its high edges at the size of the grid.
    unfoldable pub box_at : Cell → Box F
    unfolding sigmoid
    box_at c =
        let grid_w = f.of_nat out.grid_w in
        let grid_h = f.of_nat out.grid_h in
        let two = f.of_nat 2 in
        let x = f.div (f.add (f.of_nat c.col) (sigmoid (attribute c 0))) grid_w in
        let y = f.div (f.add (f.of_nat c.row) (sigmoid (attribute c 1))) grid_h in
        let w = f.div (f.mul (anchor_of c).0 (maths.exp (attribute c 2))) grid_w in
        let h = f.div (f.mul (anchor_of c).1 (maths.exp (attribute c 3))) grid_h in
        record {
          x_low = f.max_f (f.sub x (f.div w two)) f.zero_f;
          y_low = f.max_f (f.sub y (f.div h two)) f.zero_f;
          x_high = f.min_f (f.add x (f.div w two)) grid_w;
          y_high = f.min_f (f.add y (f.div h two)) grid_h;
        }

    abbrev pub is_kept : Cell → Bool
    is_kept c = f.lt f.zero_f (sum_of (map (λ k. class_score c k) (range r.num_classes)))

    -- `np.argmax` of the class scores of a cell.
    abbrev pub best_class : (ℕ → F) → ℕ → List ℕ → ℕ
    best_class score best [] = best
    best_class score best (k ∷ ks) =
        best_class score (if f.lt (score best) (score k) then k else best) ks

    -- The candidates, before the suppression.
    unfoldable pub candidates : Decoded F
    unfolding box_at class_score confidence
    candidates =
        let kept = keep_cells is_kept all_cells in
        record {
          num = length kept;
          boxes = λ i. box_at (cell_at kept i);
          scores = λ i. confidence (cell_at kept i);
          labels = λ i. best_class (class_score (cell_at kept i)) 0 (range r.num_classes);
          classes = λ i. class_score (cell_at kept i);
        }

    abbrev pub where_above : (ℕ → F) → List ℕ → List ℕ
    where_above scores [] = []
    where_above scores (i ∷ is) =
        let rest = where_above scores is in
        if f.lt r.obj_threshold (scores i) then i ∷ rest else rest

    -- The indices that survive, from the candidates.
    unfoldable pub surviving : (ℕ → (ℕ → F) → List ℕ) → (F → Bool) → Decoded F → List ℕ
    unfolding nms_classes
    surviving argsort_down is_zero d =
        where_above
          (nms_classes f.zero_f is_zero d.classes d.labels
            (λ i j. f.le r.nms_threshold (iou f (d.boxes i) (d.boxes j)))
            (λ c. argsort_down d.num (λ i. d.classes i c)) (range r.num_classes) d.scores)
          (range d.num)

    abbrev pub select : Decoded F → List ℕ → Decoded F
    select d is = record {
      num = length is;
      boxes = λ i. d.boxes (get_or is i 0);
      scores = λ i. d.scores (get_or is i 0);
      labels = λ i. d.labels (get_or is i 0);
      classes = λ i. d.classes (get_or is i 0);
    }

    -- `decode_tile`, with `np.argsort(...)[::-1]` and the test `== 0` as parameters.
    unfoldable pub decode_tile : (ℕ → (ℕ → F) → List ℕ) → (F → Bool) → Decoded F
    unfolding candidates surviving
    decode_tile argsort_down is_zero = select candidates (surviving argsort_down is_zero candidates)
