-- ===== src/Kit/Slices.antt =====
-- The frames' shares of a kit's packed arrays: testkit.py, `TestKit._slice`.
use symphony_akida.Prelude.{
  ℕ, zero, suc, ◌+◌, ◌≤◌, ◌≡◌, refl, ap, ap₂, ◌∙◌, sym, List, [], ◌∷◌, ◌++◌, some, arith, length,
  get_elem?, take, take-append-drop,
}
use symphony_akida.Prelude.Outcome.{Outcome, return, ◌>>=◌}
use symphony_akida.Merge.Boxes.{Floats, Box}
use symphony_akida.Kit.{Prefix, TestKit, slice, slice_of}

module _ {ℓ} {A : Type ℓ} where
  take-take : (lo hi : ℕ) (xs : List A) → lo ≤ hi → take lo (take hi xs) ≡ take lo xs
  take-take zero hi xs h = refl
  take-take (suc lo) zero xs h = absurd (omega arith)
  take-take (suc lo) (suc hi) [] h = refl
  take-take (suc lo) (suc hi) (x ∷ xs) h = ap (◌∷◌ x) (take-take lo hi xs (omega arith))

  take_all : (n : ℕ) (xs : List A) → length xs ≡ n → take n xs ≡ xs
  take_all zero [] h = refl
  take_all zero (x ∷ xs) h = absurd (omega (arith, h))
  take_all (suc n) [] h = refl
  take_all (suc n) (x ∷ xs) h = ap (◌∷◌ x) (take_all n xs (omega (arith, h)))

  slice_next : (lo hi : ℕ) (xs : List A) → lo ≤ hi → take lo xs ++ slice xs lo hi ≡ take hi xs
  slice_next lo hi xs h =
      ap (λ ys. ys ++ slice xs lo hi) (sym (take-take lo hi xs h))
      ∙ take-append-drop lo (take hi xs)

module _ {F : Type 0} (f : Floats F) (kit : TestKit F) (prefix : Prefix) where
  -- The shares of the first frames, one after the other.
  abbrev pub gathered : ℕ → Outcome (List (Box F) × List ℕ)
  gathered zero = return ([], [])
  gathered (suc k) = gathered k >>= λ (boxes, labels).
      slice_of f kit k prefix >>= λ s. return (boxes ++ s.boxes, labels ++ s.labels)

  module _ (n : ℕ) (start : ℕ → ℕ) (offsets : List ℕ) (boxes : List (Box F)) (labels : List ℕ)
      (given : kit.npz.offsets prefix ≡ some offsets)
      (starts : (k : ℕ) → k ≤ n → get_elem? offsets k ≡ some (start k))
      (rises : (k : ℕ) → start k ≤ start (k + 1)) (first : start 0 ≡ 0)
      (has_boxes : kit.npz.boxes prefix ≡ some boxes)
      (has_labels : kit.npz.box_labels prefix ≡ some labels) where
    gathered_upto :
        (k : ℕ) → k ≤ n → gathered k ≡ return (take (start k) boxes, take (start k) labels)
    unfolding slice_of
    gathered_upto zero h = rw first refl
    gathered_upto (suc k) h =
        let more : k + 1 ≡ suc k = omega arith in
        let rise = rises k in
        rw
          (
            gathered_upto k (omega arith),
            given,
            starts k (omega arith),
            starts (k + 1) (omega arith),
            has_boxes,
            has_labels,
            slice_next (start k) (start (k + 1)) boxes rise,
            slice_next (start k) (start (k + 1)) labels rise,
            more,
          )
          refl

    -- In a kit whose offsets rise from 0 to the length of its arrays, reading the share of each
    -- frame in turn raises nothing, and the shares, one after the other, are the whole arrays.
    pub gathered_whole :
        length boxes ≡ start n → length labels ≡ start n → gathered n ≡ return (boxes, labels)
    gathered_whole all_boxes all_labels =
        gathered_upto n (omega arith)
        ∙ ap₂ (λ bs ls. return (bs, ls)) (take_all (start n) boxes all_boxes)
            (take_all (start n) labels all_labels)
