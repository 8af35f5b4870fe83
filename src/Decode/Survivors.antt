-- ===== src/Decode/Survivors.antt =====
-- The detections that `decode_tile` of tiled_shard.py returns.
use symphony_akida.Prelude.{
  ℕ, ◌≡◌, ◌≢◌, ◌<◌, refl, sym, subst, ◌⊎◌, inl, inr, Bool, true, false, ◌&&◌, List, [], ◌∷◌, ◌==◌,
  arith, range, Bool-cases,
}
use symphony_akida.Merge.Boxes.{Floats, iou}
use symphony_akida.Merge.Suppress.{Among}
use symphony_akida.Merge.Fuse.Groups.{Among-range_from}
use symphony_akida.Decode.{Maths, Output, Arguments, Decoded, where_above, surviving}
use symphony_akida.Decode.Nms.{nms_classes}
use symphony_akida.Decode.Apart.{Before, nms_classes_spares}

-- What is not hit though both have the class does not overlap.
unhit :
    (c i j : ℕ) (labels : ℕ → ℕ) (overlaps : ℕ → ℕ → Bool)
    → labels i ≡ c
    → labels j ≡ c
    → (overlaps i j && ((labels i == c) && (labels j == c))) ≡ false
    → overlaps i j ≡ false
unhit c i j labels overlaps e e' h = ground (arith, e, e', h)

module _ {F : Type 0} (f : Floats F) (maths : Maths F) (r : Arguments F) (out : Output F)
    (argsort_down : ℕ → (ℕ → F) → List ℕ) (is_zero : F → Bool) where
  Among-where_above :
      (scores : ℕ → F) (is : List ℕ) (i : ℕ)
      → Among i (where_above f maths r out scores is)
      → Among i is × (f.lt r.obj_threshold (scores i) ≡ true)
  Among-where_above scores [] i = λ h. absurd h
  Among-where_above scores (k ∷ is) i = elim (Bool-cases (f.lt r.obj_threshold (scores k))) [
    | inl above ↦ rw above (λ h. elim h [
      | inl here ↦ (inl here, subst (λ m. f.lt r.obj_threshold (scores m) ≡ true) (sym here) above)
      | inr later ↦ let (there, e) = Among-where_above scores is i later in (inr there, e)
    ])
    | inr below ↦ rw below (λ h. let (there, e) = Among-where_above scores is i h in (inr there, e))
  ]

  -- Two detections of one class that `decode_tile` returns do not overlap up to the threshold, as
  -- long as their scores of that class are not zero. `argsort` lists every index, and no score
  -- of zero passes the threshold of confidence.
  pub surviving_apart :
      (d : Decoded F) (i j : ℕ)
      → is_zero f.zero_f ≡ true
      → ((a : F) → f.lt r.obj_threshold a ≡ true → is_zero a ≡ false)
      → ((n : ℕ) (keys : ℕ → F) (k m : ℕ)
          → k < n
          → m < n
          → k ≢ m
          → Before k m (argsort_down n keys) ⊎ Before m k (argsort_down n keys))
      → Among i (surviving f maths r out argsort_down is_zero d)
      → Among j (surviving f maths r out argsort_down is_zero d)
      → i ≢ j
      → d.labels i ≡ d.labels j
      → d.labels i < r.num_classes
      → is_zero (d.classes i (d.labels i)) ≡ false
      → is_zero (d.classes j (d.labels i)) ≡ false
      → (f.le r.nms_threshold (iou f (d.boxes i) (d.boxes j)) ≡ false)
        ⊎ (f.le r.nms_threshold (iou f (d.boxes j) (d.boxes i)) ≡ false)
  unfolding surviving
  surviving_apart d i j zero_lem above lists hi hj apart same low some_i some_j =
      let c = d.labels i in
      let overlaps : ℕ → ℕ → Bool = λ k m. f.le r.nms_threshold (iou f (d.boxes k) (d.boxes m)) in
      let order : ℕ → List ℕ = λ k. argsort_down d.num (λ m. d.classes m k) in
      let final =
        nms_classes f.zero_f is_zero d.classes d.labels overlaps order (range r.num_classes)
          d.scores in
      let (in_i, high_i) = Among-where_above final (range d.num) i hi in
      let (in_j, high_j) = Among-where_above final (range d.num) j hj in
      let below_i : i < d.num = omega (arith, ((Among-range_from 0 d.num i).0 in_i).1) in
      let below_j : j < d.num = omega (arith, ((Among-range_from 0 d.num j).0 in_j).1) in
      let counted = (Among-range_from 0 r.num_classes c).1 (omega arith, omega (arith, low)) in
      elim (lists d.num (λ m. d.classes m c) i j below_i below_j apart) [
        | inl before ↦
            let spared =
              nms_classes_spares f.zero_f is_zero zero_lem d.classes d.labels overlaps order
                (range r.num_classes) c i j d.scores counted before some_i (above _ high_i)
                (above _ high_j) in
            inl (unhit c i j d.labels overlaps refl (sym same) spared)
        | inr before ↦
            let spared =
              nms_classes_spares f.zero_f is_zero zero_lem d.classes d.labels overlaps order
                (range r.num_classes) c j i d.scores counted before some_j (above _ high_j)
                (above _ high_i) in
            inr (unhit c j i d.labels overlaps (sym same) refl spared)
      ]
