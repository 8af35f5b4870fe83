-- ===== src/Scores.antt =====
-- The scoring of detections: src/common/detection_map.py. Floats and numpy's sorting are
-- parameters, as in Merge.
pub mod Matching
pub mod Envelope
pub mod Evaluate
use symphony_akida.Prelude.{
  ℕ, zero, suc, ◌+◌, Bool, true, false, not, ◌&&◌, ◌||◌, List, [], ◌∷◌, ◌++◌, map, ltb, leb, ◌==◌,
  length, get_or, range, if◌then◌else◌,
}
use symphony_akida.Merge.Boxes.{Floats, Box}

-- What the scoring sees of one class in one image: the scores of the detections in their order,
-- the number of annotations, and the overlap of each pair.
pub record ImageClass (F : Type 0) : Type 0 where
  pub scores : List F
  pub annotations : ℕ
  pub overlap : ℕ → ℕ → F

unfoldable pub among : ℕ → List ℕ → Bool
among a [] = false
among a (b ∷ bs) = let rest = among a bs in a == b || rest

-- One array of a class, of `group_by_label`: the boxes of the annotations, or the detections.
abbrev pub of_label : {A : Type 0} → ℕ → List (A × ℕ) → List A
of_label c [] = []
of_label c ((a, label) ∷ rest) =
    let others = of_label c rest in if label == c then a ∷ others else others

unfoldable pub group_by_label : {A : Type 0} → List (A × ℕ) → ℕ → List (List A)
group_by_label rows num_classes = map (λ c. of_label c rows) (range num_classes)

module _ {F : Type 0} (f : Floats F) where
  -- An entry of `compute_overlap`, where both sets have boxes.
  unfoldable pub compute_overlap : F → Box F → Box F → F
  compute_overlap eps a b =
      let width = f.sub (f.min_f a.x_high b.x_high) (f.max_f a.x_low b.x_low) in
      let height = f.sub (f.min_f a.y_high b.y_high) (f.max_f a.y_low b.y_low) in
      let intersection = f.mul (f.max_f width f.zero_f) (f.max_f height f.zero_f) in
      let area_a = f.mul (f.sub a.x_high a.x_low) (f.sub a.y_high a.y_low) in
      let area_b = f.mul (f.sub b.x_high b.x_low) (f.sub b.y_high b.y_low) in
      f.div intersection (f.max_f (f.sub (f.add area_a area_b) intersection) eps)

  -- The envelope of `compute_ap`: from the end, each entry at least the next one.
  abbrev pub raise_to : F → List F → List F
  raise_to p [] = p ∷ []
  raise_to p (q ∷ qs) = f.max_f p q ∷ q ∷ qs

  unfoldable pub envelope : List F → List F
  envelope [] = []
  envelope (p ∷ ps) = raise_to p (envelope ps)

  -- The area: where the recall changes, the change times the precision after it.
  abbrev pub area_from : F → List F → List F → F
  area_from r [] ps = f.zero_f
  area_from r (r' ∷ rs) [] = f.zero_f
  area_from r (r' ∷ rs) (p ∷ ps) =
      let rest = area_from r' rs ps in
      if f.le r r' && f.le r' r then rest else f.add (f.mul (f.sub r' r) p) rest

  abbrev pub tail : List F → List F
  tail [] = []
  tail (p ∷ ps) = ps

  -- `compute_ap`; the leading entry of the recall is 0.
  unfoldable pub compute_ap : List F → List F → F
  unfolding envelope
  compute_ap recall precision =
      area_from f.zero_f (recall ++ f.one_f ∷ [])
        (tail (envelope (f.zero_f ∷ (precision ++ f.zero_f ∷ []))))

  module _ (argmax : ℕ → (ℕ → F) → ℕ) (iou_threshold : F) where
    -- The loop over one image's detections of a class, from index `idx` on: which of them are true
    -- positives. `detected` holds the annotations that are matched.
    unfoldable pub match_loop : ImageClass F → ℕ → List F → List ℕ → List Bool
    unfolding among
    match_loop image idx [] detected = []
    match_loop image idx (score ∷ scores) detected =
        let assigned = argmax image.annotations (image.overlap idx) in
        let hit =
          not (image.annotations == 0)
          && (f.le iou_threshold (image.overlap idx assigned) && not (among assigned detected)) in
        hit ∷ match_loop image (idx + 1) scores (if hit then assigned ∷ detected else detected)

    unfoldable pub match_image : ImageClass F → List Bool
    unfolding match_loop
    match_image image = match_loop image 0 image.scores []

    -- All images of a class: the flags and the scores in their order, and the annotations.
    abbrev pub all_flags : List (ImageClass F) → List Bool
    all_flags [] = []
    all_flags (image ∷ images) = match_image image ++ all_flags images

    abbrev pub all_scores : List (ImageClass F) → List F
    all_scores [] = []
    all_scores (image ∷ images) = image.scores ++ all_scores images

    abbrev pub all_annotations : List (ImageClass F) → ℕ
    all_annotations [] = 0
    all_annotations (image ∷ images) = image.annotations + all_annotations images

    -- `np.cumsum` of the flags that are `want`, in the given order.
    abbrev pub cumulative : Bool → ℕ → List Bool → List ℕ
    cumulative want n [] = []
    cumulative want n (flag ∷ flags) =
        let counted = if flag then want else not want in
        let n' = if counted then n + 1 else n in n' ∷ cumulative want n' flags

    abbrev pub precision_at : F → List ℕ → List ℕ → List F
    precision_at eps [] fps = []
    precision_at eps (tp ∷ tps) [] = []
    precision_at eps (tp ∷ tps) (fp ∷ fps) =
        f.div (f.of_nat tp) (f.max_f (f.of_nat (tp + fp)) eps) ∷ precision_at eps tps fps

    -- The average precision of one class, of `average_precisions`.
    unfoldable pub average_precision : (List F → List ℕ) → F → List (ImageClass F) → F
    unfolding match_image compute_ap
    average_precision argsort_down eps images =
        let annotations = all_annotations images in
        let order = argsort_down (all_scores images) in
        let flags = map (λ k. get_or (all_flags images) k false) order in
        let tps = cumulative true 0 flags in
        let fps = cumulative false 0 flags in
        let recall = map (λ tp. f.div (f.of_nat tp) (f.of_nat annotations)) tps in
        if annotations == 0 then f.zero_f else compute_ap recall (precision_at eps tps fps)

    -- `average_precisions`, one list of images for each class.
    unfoldable pub average_precisions : (List F → List ℕ) → F → List (List (ImageClass F)) → List F
    unfolding average_precision
    average_precisions argsort_down eps classes = map (average_precision argsort_down eps) classes

  -- `np.mean`, and the sum that it divides.
  abbrev pub sum_of : List F → F
  sum_of [] = f.zero_f
  sum_of (a ∷ rest) = f.add a (sum_of rest)

  unfoldable pub mean : List F → F
  mean values = f.div (sum_of values) (f.of_nat (length values))

  -- The mean at each threshold, of `evaluate`.
  unfoldable pub per_threshold :
      (ℕ → (ℕ → F) → ℕ) → (List F → List ℕ) → F → List F → List (List (ImageClass F)) → List (F × F)
  unfolding average_precisions mean
  per_threshold argmax argsort_down eps thresholds classes =
      map (λ t. (t, mean (average_precisions argmax t argsort_down eps classes))) thresholds

  -- `summarise`, of the means in the order of the thresholds.
  unfoldable pub summarise : List (F × F) → F × F × F
  unfolding mean
  summarise means =
      let values = map (λ m. m.1) means in
      (get_or values 0 f.zero_f, get_or values 5 f.zero_f, mean values)
