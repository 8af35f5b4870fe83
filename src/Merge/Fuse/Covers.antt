-- ===== src/Merge/Fuse/Covers.antt =====
-- The box of a fused object: `fuse_seam_fragments` of tiled_shard.py.
use symphony_akida.Prelude.{
  ℕ, zero, suc, ◌≡◌, inl, inr, Bool, true, List, [], ◌∷◌, some, get_elem?, get_or,
}
use symphony_akida.Merge.Boxes.{Floats, Box}
use symphony_akida.Merge.Suppress.{Detections, Among}
use symphony_akida.Merge.Fuse.{min_over, max_over, enclosing, fused, over_group}

-- The order of floats without NaN, and `min` and `max` under it.
pub record IsOrdered {F : Type 0} (f : Floats F) : Type 0 where
  pub le_refl : (a : F) → f.le a a ≡ true
  pub le_trans : (a b c : F) → f.le a b ≡ true → f.le b c ≡ true → f.le a c ≡ true
  pub min_left : (a b : F) → f.le (f.min_f a b) a ≡ true
  pub min_right : (a b : F) → f.le (f.min_f a b) b ≡ true
  pub min_least : (a b c : F) → f.le c a ≡ true → f.le c b ≡ true → f.le c (f.min_f a b) ≡ true
  pub zero_le_one : f.le f.zero_f f.one_f ≡ true
  pub max_left : (a b : F) → f.le a (f.max_f a b) ≡ true
  pub max_right : (a b : F) → f.le b (f.max_f a b) ≡ true

module _ {F : Type 0} (f : Floats F) (o : IsOrdered f) where
  -- The first box holds the second.
  abbrev pub Covers : Box F → Box F → Type 0
  Covers a b =
      (f.le a.x_low b.x_low ≡ true)
      × (f.le a.y_low b.y_low ≡ true)
      × (f.le b.x_high a.x_high ≡ true)
      × (f.le b.y_high a.y_high ≡ true)

  min_over_low :
      (value : ℕ → F) (i : ℕ) (is : List ℕ) (j : ℕ)
      → Among j (i ∷ is)
      → f.le (min_over f value i is) (value j) ≡ true
  min_over_low value i [] j (inl e) = rw e (o.le_refl (value i))
  min_over_low value i [] j (inr h) = absurd h
  min_over_low value i (k ∷ is) j (inl e) = rw e (o.min_left (value i) (min_over f value k is))
  min_over_low value i (k ∷ is) j (inr h) =
      o.le_trans _ _ _ (o.min_right (value i) (min_over f value k is)) (min_over_low value k is j h)

  max_over_high :
      (value : ℕ → F) (i : ℕ) (is : List ℕ) (j : ℕ)
      → Among j (i ∷ is)
      → f.le (value j) (max_over f value i is) ≡ true
  max_over_high value i [] j (inl e) = rw e (o.le_refl (value i))
  max_over_high value i [] j (inr h) = absurd h
  max_over_high value i (k ∷ is) j (inl e) = rw e (o.max_left (value i) (max_over f value k is))
  max_over_high value i (k ∷ is) j (inr h) =
      o.le_trans _ _ _ (max_over_high value k is j h)
        (o.max_right (value i) (max_over f value k is))

  enclosing-Covers :
      (boxes : ℕ → Box F) (i : ℕ) (is : List ℕ) (j : ℕ)
      → Among j (i ∷ is)
      → Covers (enclosing f boxes i is) (boxes j)
  unfolding enclosing
  enclosing-Covers boxes i is j h = (
    min_over_low (λ k. (boxes k).x_low) i is j h,
    min_over_low (λ k. (boxes k).y_low) i is j h,
    max_over_high (λ k. (boxes k).x_high) i is j h,
    max_over_high (λ k. (boxes k).y_high) i is j h,
  )

  group-Covers :
      (boxes : ℕ → Box F) (other : Box F) (members : List ℕ) (j : ℕ)
      → Among j members
      → Covers (over_group f other (enclosing f boxes) members) (boxes j)
  group-Covers boxes other [] j h = absurd h
  group-Covers boxes other (i ∷ is) j h = enclosing-Covers boxes i is j h

  get_or-some :
      (groups : List (List ℕ)) (g : ℕ) (members : List ℕ)
      → get_elem? groups g ≡ some members
      → get_or groups g [] ≡ members
  get_or-some [] g members e = cc
  get_or-some (group ∷ groups) zero members e = cc
  get_or-some (group ∷ groups) (suc g) members e = get_or-some groups g members e

  -- The box of a fused object holds the box of each of its fragments.
  pub fused-Covers :
      (d : Detections F) (cut : ℕ → Bool) (groups : List (List ℕ)) (g : ℕ) (members : List ℕ)
      (j : ℕ)
      → get_elem? groups g ≡ some members
      → Among j members
      → Covers ((fused f d cut groups).boxes g) (d.boxes j)
  unfolding fused
  fused-Covers d cut groups g members j e h =
      rw (get_or-some groups g members e) (group-Covers d.boxes _ members j h)

  group_score :
      (scores : ℕ → F) (other : F) (members : List ℕ) (j : ℕ)
      → Among j members
      → f.le (scores j) (over_group f other (max_over f scores) members) ≡ true
  group_score scores other [] j h = absurd h
  group_score scores other (i ∷ is) j h = max_over_high scores i is j h

  -- Its score is at least that of each of its fragments.
  pub fused_score :
      (d : Detections F) (cut : ℕ → Bool) (groups : List (List ℕ)) (g : ℕ) (members : List ℕ)
      (j : ℕ)
      → get_elem? groups g ≡ some members
      → Among j members
      → f.le (d.scores j) ((fused f d cut groups).scores g) ≡ true
  unfolding fused
  fused_score d cut groups g members j e h =
      rw (get_or-some groups g members e) (group_score d.scores _ members j h)
