-- ===== src/Examples/Merge.antt =====
-- The theorems on suppression, at three boxes.
use symphony_akida.Prelude.{
  ℕ, zero, suc, ◌+◌, ◌-◌, ◌*◌, ◌≡◌, ◌≢◌, ◌⊎◌, inl, inr, refl, ap₂, Bool, true, false, [], ◌∷◌, none,
  some, leb, ◌==◌, subst, if◌then◌else◌, sym, arith,
}
use symphony_akida.Merge.Boxes.{area, intersection, Box, iou, ios}
use symphony_akida.Merge.Suppress.{suppress_loop, visiting_order, victim, Detections, Among, kept}
use symphony_akida.Merge.Kept.{kept_apart, complete_cause}
use symphony_akida.Examples.Sorting.{tenths, stable}

abbrev pub box_of : ℕ → Box ℕ
box_of zero = record { x_low = 0; y_low = 0; x_high = 10; y_high = 10 }
box_of (suc zero) = record { x_low = 1; y_low = 0; x_high = 10; y_high = 10 }
box_of (suc (suc i)) = record { x_low = 0; y_low = 0; x_high = 3; y_high = 3 }

abbrev pub cut_off : ℕ → Bool
cut_off i = i == 1

-- A complete box, a fragment of it with a better score, and a small complete box inside.
abbrev pub three : Detections ℕ
three = record {
  num = 3;
  boxes = box_of;
  scores = λ i. if i == 1 then 9 else 8;
  labels = λ i. 0;
  classes = none;
  tile_ids = λ i. i;
  truncated = some cut_off;
}

side_comm :
    (a b c d : ℕ)
    → Prim.Native.Nat.max (Prim.Native.Nat.min a b - Prim.Native.Nat.max c d) 0
      ≡ Prim.Native.Nat.max (Prim.Native.Nat.min b a - Prim.Native.Nat.max d c) 0
side_comm a b c d = omega arith

intersection_comm : (a b : Box ℕ) → intersection tenths a b ≡ intersection tenths b a
unfolding intersection
intersection_comm a b =
    ap₂ (λ m n. m * n) (side_comm a.x_high b.x_high a.x_low b.x_low)
      (side_comm a.y_high b.y_high a.y_low b.y_low)

area_comm : (a b : Box ℕ) → area tenths a + area tenths b ≡ area tenths b + area tenths a
area_comm a b = omega arith

iou_comm : (a b : Box ℕ) → iou tenths a b ≡ iou tenths b a
unfolding iou
iou_comm a b = rw (intersection_comm a b, area_comm a b) refl

kept-three : kept tenths stable 5 (iou tenths) true false three ≡ 0 ∷ 2 ∷ []
unfolding kept suppress_loop visiting_order victim iou area intersection
kept-three = refl

kept_apart_example : leb 5 (iou tenths (box_of 0) (box_of 2)) ≡ false
kept_apart_example =
    kept_apart tenths stable 5 (iou tenths) true three 0 2 iou_comm
      (subst (Among 0) (sym kept-three) (inl refl))
      (subst (Among 2) (sym kept-three) (inr (inl refl))) (λ e. omega (arith, e)) refl

complete_cause_example :
    let keep = kept tenths stable 7 (ios tenths) true false three in
    Among 2 keep
    ⊎ ((i : ℕ) × Among i keep
        × (cut_off i ≡ false)
        × (i ≢ 2)
        × (three.labels i ≡ three.labels 2)
        × (leb 7 (ios tenths (box_of i) (box_of 2)) ≡ true))
complete_cause_example =
    complete_cause tenths stable 7 (ios tenths) false three cut_off 2 refl refl (omega arith)
