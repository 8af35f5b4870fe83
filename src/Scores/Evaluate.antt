-- ===== src/Scores/Evaluate.antt =====
-- The scores over all thresholds: detection_map.py, `evaluate`, from the detections and the
-- annotations of each frame and class.
use symphony_akida.Prelude.{ℕ, List, [], ◌∷◌, map, length, get_or, range}
use symphony_akida.Merge.Boxes.{Floats, Box}
use symphony_akida.Scores.{ImageClass, compute_overlap, average_precisions, per_threshold}

-- `all_detections[i][c]` and `all_annotations[i][c]`.
abbrev pub Scored : Type 0 → Type 0
Scored F = List (List (Box F × F))

abbrev pub Annotated : Type 0 → Type 0
Annotated F = List (List (Box F))

module _ {F : Type 0} (f : Floats F) where
  abbrev pub no_box : Box F
  no_box = record { x_low = f.zero_f; y_low = f.zero_f; x_high = f.zero_f; y_high = f.zero_f }

  module _ (eps : F) where
    -- One class in one frame, with `overlaps[(i, label)]`.
    abbrev pub image_class : List (Box F × F) → List (Box F) → ImageClass F
    image_class detections annotations = record {
      scores = map (λ d. d.1) detections;
      annotations = length annotations;
      overlap = λ a b.
          compute_overlap f eps (get_or (map (λ d. d.0) detections) a no_box)
            (get_or annotations b no_box);
    }

    -- One class in all frames.
    unfoldable pub class_images : ℕ → List (Scored F) → List (Annotated F) → List (ImageClass F)
    class_images c [] annotations = []
    class_images c (d ∷ ds) [] = []
    class_images c (d ∷ ds) (a ∷ more) =
        image_class (get_or d c []) (get_or a c []) ∷ class_images c ds more

    unfoldable pub classes_of :
        List (Scored F) → List (Annotated F) → ℕ → List (List (ImageClass F))
    unfolding class_images
    classes_of detections annotations num_classes =
        map (λ c. class_images c detections annotations) (range num_classes)

    -- `per_class += np.asarray(aps) / len(IOU_THRESHOLDS)`
    abbrev pub add_aps : F → List F → List F → List F
    add_aps number [] aps = []
    add_aps number (sum ∷ sums) [] = []
    add_aps number (sum ∷ sums) (ap ∷ aps) = f.add sum (f.div ap number) ∷ add_aps number sums aps

    module _ (argmax : ℕ → (ℕ → F) → ℕ) (argsort_down : List F → List ℕ) (thresholds : List F) where
      unfoldable pub per_class : List (List (ImageClass F)) → List F → List F → List F
      unfolding average_precisions
      per_class classes [] sums = sums
      per_class classes (t ∷ ts) sums = per_class classes ts (
          add_aps (f.of_nat (length thresholds)) sums
            (average_precisions f argmax t argsort_down eps classes))

      -- `evaluate`
      unfoldable pub evaluate : List (Scored F) × List (Annotated F) → ℕ → List (F × F) × List F
      unfolding classes_of per_threshold per_class
      evaluate (detections, annotations) num_classes =
          let classes = classes_of detections annotations num_classes in
          (
            per_threshold f argmax argsort_down eps thresholds classes,
            per_class classes thresholds (map (λ c. f.zero_f) (range num_classes)),
          )
