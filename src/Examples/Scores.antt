-- ===== src/Examples/Scores.antt =====
-- The theorems on decoding and on scoring, at small inputs.
use symphony_akida.Prelude.{
  ℕ, zero, suc, ◌-◌, ◌≡◌, ◌≢◌, ◌≤◌, ◌<◌, ◌⊎◌, refl, sym, ◌∙◌, subst, inl, inr, Bool, false, List,
  [], ◌∷◌, arith, leb, ltb, ◌==◌, length, if◌then◌else◌,
}
use symphony_akida.Merge.Boxes.{Box, iou, area, intersection}
use symphony_akida.Merge.Suppress.{Among}
use symphony_akida.Decode.{Maths, Output, Arguments, Decoded, surviving}
use symphony_akida.Decode.Nms.{nms_classes, nms_order, nms_later}
use symphony_akida.Decode.Apart.{Before}
use symphony_akida.Decode.Survivors.{surviving_apart}
use symphony_akida.Scores.{ImageClass, all_flags, all_scores, all_annotations}
use symphony_akida.Scores.Matching.{count_true, all_flags-bounds}
use symphony_akida.Examples.Sorting.{tenths, stable}

-- The first column with a largest entry, of two columns at most.
abbrev pub argmax_two : ℕ → (ℕ → ℕ) → ℕ
argmax_two (suc (suc zero)) row = if ltb (row 0) (row 1) then 1 else 0
argmax_two _ row = 0

argmax_two-lt : (n : ℕ) (row : ℕ → ℕ) → 0 < n → argmax_two n row < n
argmax_two-lt zero row h = absurd (omega arith)
argmax_two-lt (suc zero) row h = omega arith
argmax_two-lt (suc (suc zero)) row h = ground arith
argmax_two-lt (suc (suc (suc n))) row h = omega arith

-- Three detections of two annotations, two of them of the same.
abbrev some_image : ImageClass ℕ
some_image = record {
  scores = 9 ∷ 8 ∷ 7 ∷ [];
  annotations = 2;
  overlap = λ idx k. if k == 1 then 6 else 2;
}

all_flags-bounds_example :
    (count_true (all_flags tenths argmax_two 5 (some_image ∷ []))
      ≤ all_annotations tenths argmax_two 5 (some_image ∷ []))
    × (length (all_flags tenths argmax_two 5 (some_image ∷ []))
        ≡ length (all_scores tenths argmax_two 5 (some_image ∷ [])))
all_flags-bounds_example = all_flags-bounds tenths argmax_two 5 argmax_two-lt (some_image ∷ [])

-- Two different members of a list stand in it one before the other.
Among-Before :
    (is : List ℕ) (i j : ℕ) → Among i is → Among j is → i ≢ j → Before i j is ⊎ Before j i is
Among-Before [] i j hi hj apart = absurd hi
Among-Before (k ∷ is) i j (inl e) (inl e') apart = absurd (apart (e ∙ sym e'))
Among-Before (k ∷ is) i j (inl e) (inr hj) apart = inl (inl (e, hj))
Among-Before (k ∷ is) i j (inr hi) (inl e') apart = inr (inl (e', hi))
Among-Before (k ∷ is) i j (inr hi) (inr hj) apart = elim (Among-Before is i j hi hj apart) [
  | inl before ↦ inl (inr before)
  | inr after ↦ inr (inr after)
]

abbrev pub no_maths : Maths ℕ
no_maths = record { exp = λ a. a; neg = λ a. 0 }

abbrev no_output : Output ℕ
no_output = record { grid_h = 1; grid_w = 1; channel = λ row col k. 0 }

abbrev pub some_arguments : Arguments ℕ
some_arguments = record {
  anchors = (1, 1) ∷ [];
  num_classes = 1;
  obj_threshold = 4;
  nms_threshold = 5;
}

-- Two boxes far apart, and one between that is a copy of the first.
abbrev far_box : ℕ → Box ℕ
far_box (suc (suc zero)) = record { x_low = 50; y_low = 50; x_high = 60; y_high = 60 }
far_box i = record { x_low = 0; y_low = 0; x_high = 10; y_high = 10 }

abbrev pub some_decoded : Decoded ℕ
some_decoded = record {
  num = 3;
  boxes = far_box;
  scores = λ i. 9 - i;
  labels = λ i. 0;
  classes = λ i c. 9 - i;
}

abbrev pub is_nought : ℕ → Bool
is_nought a = a == 0

some_survivors :
    surviving tenths no_maths some_arguments no_output stable.argsort is_nought some_decoded
    ≡ 0 ∷ 2 ∷ []
unfolding surviving nms_classes nms_order nms_later iou area intersection
some_survivors = refl

surviving_apart_example :
    (leb 5 (iou tenths (far_box 0) (far_box 2)) ≡ false)
    ⊎ (leb 5 (iou tenths (far_box 2) (far_box 0)) ≡ false)
surviving_apart_example =
    surviving_apart tenths no_maths some_arguments no_output stable.argsort is_nought some_decoded 0
      2 refl (λ a h. ground (arith, h))
      (λ n keys k m low_k low_m apart.
        Among-Before (stable.argsort n keys) k m (stable.argsort-Among n keys k low_k)
          (stable.argsort-Among n keys m low_m) apart)
      (subst (Among 0) (sym some_survivors) (inl refl))
      (subst (Among 2) (sym some_survivors) (inr (inl refl))) (λ e. omega (arith, e)) refl
      (omega arith) refl refl
