-- ===== src/Scores/Matching.antt =====
-- The matching of detections to annotations: detection_map.py, `average_precisions`.
use symphony_akida.Prelude.{
  ℕ, zero, suc, ◌+◌, ◌≤◌, ◌<◌, ◌≡◌, refl, ap, inl, inr, Bool, true, false, not, ◌&&◌, List, [], ◌∷◌,
  ◌++◌, ◌==◌, arith, length, length-append, if◌then◌else◌, Bool-cases, ℕ_discrete,
}
use symphony_akida.Merge.Boxes.{Floats}
use symphony_akida.Scores.{
  ImageClass, among, match_loop, match_image, all_flags, all_scores, all_annotations,
}

-- The true positives among the flags.
abbrev pub count_true : List Bool → ℕ
count_true [] = 0
count_true (flag ∷ flags) = (if flag then 1 else 0) + count_true flags

-- The annotations below `n` that are not matched.
abbrev free : ℕ → List ℕ → ℕ
free zero detected = 0
free (suc n) detected = (if among n detected then 0 else 1) + free n detected

free-high : (n a : ℕ) (detected : List ℕ) → n ≤ a → free n (a ∷ detected) ≡ free n detected
unfolding among
free-high zero a detected h = refl
free-high (suc n) a detected h =
    let other : (n == a) ≡ false = ground arith in
    rw other
      (ap (λ m. (if among n detected then 0 else 1) + m) (free-high n a detected (omega arith)))

free-match :
    (n a : ℕ) (detected : List ℕ)
    → a < n
    → among a detected ≡ false
    → free n (a ∷ detected) + 1 ≡ free n detected
unfolding among
free-match zero a detected h fresh = absurd (omega arith)
free-match (suc n) a detected h fresh = elim (ℕ_discrete a n) [
  | yes e ↦ grind (arith, e, ap (λ m. among m detected) e, free-high n a detected)
  | no below ↦
      let other : (n == a) ≡ false = ground (arith, below) in
      let less = free-match n a detected (omega arith) fresh in rw other (omega (arith, less))
]

-- One round: a hit takes a free annotation, a miss takes none.
free-round :
    (n a k m : ℕ) (close : Bool) (detected : List ℕ)
    → (0 < n → a < n)
    → k ≤ free n (a ∷ detected)
    → m ≤ free n detected
    → let hit = not (n == 0) && (close && not (among a detected)) in
      (if hit then 1 else 0) + (if hit then k else m) ≤ free n detected
free-round n a k m close detected low h h' = elim (Bool-cases (among a detected)) [
  | inl seen ↦ ground (arith, seen, h')
  | inr fresh ↦ elim (ℕ_discrete n 0) [
    | yes none ↦ ground (arith, none, h')
    | no some ↦
        let fits : a < n = low (omega (arith, some)) in
        ground (arith, fresh, free-match n a detected fits fresh, h, h')
  ]
]

free-nil : (n : ℕ) → free n [] ≡ n
unfolding among
free-nil zero = refl
free-nil (suc n) = omega (arith, free-nil n)

count_true-append : (xs ys : List Bool) → count_true (xs ++ ys) ≡ count_true xs + count_true ys
count_true-append [] ys = omega arith
count_true-append (x ∷ xs) ys = omega (arith, count_true-append xs ys)

module _ {F : Type 0} (f : Floats F) (argmax : ℕ → (ℕ → F) → ℕ) (iou_threshold : F)
    (argmax-lt : (n : ℕ) (row : ℕ → F) → 0 < n → argmax n row < n) where
  loop_branch :
      (image : ImageClass F) (idx : ℕ) (scores : List F) (hit : Bool) (matched detected : List ℕ)
      → count_true (
          match_loop f argmax iou_threshold image
            (idx + 1)
            scores
            (if hit then matched else detected))
        ≡ (if hit
            then count_true (match_loop f argmax iou_threshold image (idx + 1) scores matched)
            else count_true (match_loop f argmax iou_threshold image (idx + 1) scores detected))
  loop_branch image idx scores true matched detected = refl
  loop_branch image idx scores false matched detected = refl

  match_loop-free :
      (image : ImageClass F) (idx : ℕ) (scores : List F) (detected : List ℕ)
      → count_true (match_loop f argmax iou_threshold image idx scores detected)
        ≤ free image.annotations detected
  unfolding match_loop
  match_loop-free image idx [] detected = omega arith
  match_loop-free image idx (score ∷ scores) detected =
      let a = argmax image.annotations (image.overlap idx) in
      let close = f.le iou_threshold (image.overlap idx a) in
      let hit = not (image.annotations == 0) && (close && not (among a detected)) in
      let taken = match_loop f argmax iou_threshold image (idx + 1) scores (a ∷ detected) in
      let left = match_loop f argmax iou_threshold image (idx + 1) scores detected in
      let round =
        free-round image.annotations a (count_true taken) (count_true left) close detected
          (argmax-lt image.annotations (image.overlap idx))
          (match_loop-free image (idx + 1) scores (a ∷ detected))
          (match_loop-free image (idx + 1) scores detected) in
      let same = loop_branch image idx scores hit (a ∷ detected) detected in
      omega (arith, round, same)

  match_loop-length :
      (image : ImageClass F) (idx : ℕ) (scores : List F) (detected : List ℕ)
      → length (match_loop f argmax iou_threshold image idx scores detected) ≡ length scores
  unfolding match_loop
  match_loop-length image idx [] detected = refl
  match_loop-length image idx (score ∷ scores) detected =
      ap suc (match_loop-length image (idx + 1) scores _)

  -- Over all images of a class there is one flag for each detection, and at most one true positive
  -- for each annotation. `argmax` of a row that
  -- is not empty is an index of it.
  pub all_flags-bounds :
      (images : List (ImageClass F))
      → (count_true (all_flags f argmax iou_threshold images)
          ≤ all_annotations f argmax iou_threshold images)
        × (length (all_flags f argmax iou_threshold images)
            ≡ length (all_scores f argmax iou_threshold images))
  unfolding match_image
  all_flags-bounds [] = (omega arith, refl)
  all_flags-bounds (image ∷ images) =
      let (bound, sizes) = all_flags-bounds images in
      let flags = match_loop f argmax iou_threshold image 0 image.scores [] in
      let others = all_flags f argmax iou_threshold images in
      (
        omega (
          arith,
          bound,
          count_true-append flags others,
          match_loop-free image 0 image.scores [],
          free-nil image.annotations,
        ),
        omega (
          arith,
          sizes,
          length-append flags others,
          length-append image.scores (all_scores f argmax iou_threshold images),
          match_loop-length image 0 image.scores [],
        ),
      )
