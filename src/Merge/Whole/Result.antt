-- ===== src/Merge/Whole/Result.antt =====
-- What `merge_tile_detections` of tiled_shard.py returns.
use symphony_akida.Prelude.{
  ℕ, ◌≤◌, ◌<◌, ◌≡◌, refl, sym, subst, inl, inr, Bool, true, false, not, List, [], ◌∷◌, Option, none,
  some, ◌==◌, arith, length, length-take, take-All, get_or, get_or-All, range, All, if◌then◌else◌,
  Bool-cases,
}
use symphony_akida.Prelude.Outcome.{return, raise, value_error}
use symphony_akida.Tiles.{Tile}
use symphony_akida.Merge.Boxes.{Floats, Box}
use symphony_akida.Merge.Suppress.{Detections, index, Sorting}
use symphony_akida.Merge.Fuse.Covers.{IsOrdered}
use symphony_akida.Merge.Whole.{
  TileEntry, Settings, empty_detections, collect, pooled, suppress, clip_unit, clip_box, has_area,
  where_true, clip_detections, penalise, is_one, at_most, rank, finish, merge_tile_detections,
}

either_returned :
    {A : Type 0} (P : A → Type 0) (bad none_left : Bool) (a b c : A)
    → (if bad then raise value_error else (if none_left then return a else return b)) ≡ return c
    → P a
    → P b
    → P c
either_returned P true none_left a b c e p q = cc
either_returned P false true a b c e p q = let same : a ≡ c = cc in subst P same p
either_returned P false false a b c e p q = let same : b ≡ c = cc in subst P same q

module _ {F : Type 0} (f : Floats F) (np : Sorting F) (frame_size : ℕ) (s : Settings F) where
  at_most-length : (n : ℕ) (order : List ℕ) → length (at_most f np frame_size s (some n) order) ≤ n
  at_most-length n order = omega (arith, length-take n order)

  penalise-boxes :
      (truncated : Option (ℕ → Bool)) (d : Detections F)
      → let p = penalise f np frame_size s truncated d in (p.boxes ≡ d.boxes) × (p.num ≡ d.num)
  penalise-boxes none d = (refl, refl)
  penalise-boxes (some truncated) d =
      elim (Bool-cases (is_one f np frame_size s s.truncated_penalty)) [
        | inl one ↦ rw one (refl, refl)
        | inr other ↦ rw other (refl, refl)
      ]

  where_true-All :
      (mask : ℕ → Bool) (ks : List ℕ)
      → All (λ k. mask k ≡ true) (where_true f np frame_size s mask ks)
  where_true-All mask [] = tt
  where_true-All mask (k ∷ ks) = elim (Bool-cases (mask k)) [
    | inl hit ↦ rw hit (hit, where_true-All mask ks)
    | inr miss ↦ rw miss (where_true-All mask ks)
  ]

  at_most-All :
      (limit : Option ℕ) (order : List ℕ) (P : ℕ → Type 0)
      → All P order
      → All P (at_most f np frame_size s limit order)
  at_most-All none order P a = a
  at_most-All (some n) order P a = take-All P n order a

  -- A box inside the frame that has an area.
  abbrev pub IsInside : Box F → Type 0
  IsInside b =
      (f.le f.zero_f b.x_low ≡ true)
      × (f.le f.zero_f b.y_low ≡ true)
      × (f.le b.x_high f.one_f ≡ true)
      × (f.le b.y_high f.one_f ≡ true)
      × (has_area f np frame_size s b ≡ true)

  module _ (o : IsOrdered f) (clips : s.clip ≡ true) where
    clip_unit-bounds :
        (a : F)
        → (f.le f.zero_f (clip_unit f np frame_size s a) ≡ true)
          × (f.le (clip_unit f np frame_size s a) f.one_f ≡ true)
    clip_unit-bounds a = (o.min_least _ _ _ (o.max_right a f.zero_f) o.zero_le_one, o.min_right _ _)

    clip_detections-IsInside :
        (d : Detections F) (k : ℕ)
        → k < (clip_detections f np frame_size s d).num
        → IsInside ((clip_detections f np frame_size s d).boxes k)
    unfolding clip_detections index
    clip_detections-IsInside d k = rw clips (λ low.
        let mask : ℕ → Bool =
          λ i. has_area f np frame_size s (clip_box f np frame_size s (d.boxes i)) in
        let hits = where_true f np frame_size s mask (range d.num) in
        let i = get_or hits k 0 in
        let area : mask i ≡ true =
          get_or-All (λ j. mask j ≡ true) hits k 0 (where_true-All mask (range d.num)) low in
        let b = d.boxes i in
        (
          (clip_unit-bounds b.x_low).0,
          (clip_unit-bounds b.y_low).0,
          (clip_unit-bounds b.x_high).1,
          (clip_unit-bounds b.y_high).1,
          area,
        ))

  empty_low : (has_classes : Bool) (n : ℕ) → (empty_detections f has_classes).num ≤ n
  unfolding empty_detections
  empty_low has_classes n = omega arith

  finish_low :
      (n : ℕ)
      → s.max_boxes ≡ some n
      → (pool : Detections F) → (finish f np frame_size s pool).num ≤ n
  unfolding finish rank index
  finish_low n limit pool = rw limit (at_most-length n _)

  returned :
      (per_tile : List (TileEntry F)) (tiles : List Tile) (P : Detections F → Type 0)
      (d : Detections F)
      → merge_tile_detections f np frame_size s per_tile tiles ≡ return d
      → ((has_classes : Bool) → P (empty_detections f has_classes))
      → ((pool : Detections F) → P (finish f np frame_size s pool))
      → P d
  unfolding merge_tile_detections
  returned per_tile tiles P d e of_empty of_finish =
      let c = collect f np frame_size s 0 tiles per_tile in
      let pool = suppress f np frame_size s c.seams (pooled f np frame_size s c) in
      either_returned P (not (length per_tile == length tiles)) (c.num == 0)
        (empty_detections f c.has_classes) (finish f np frame_size s pool) d e
        (of_empty c.has_classes) (of_finish pool)

  -- A merge with a limit returns at most as many detections.
  pub merge-max_boxes :
      (per_tile : List (TileEntry F)) (tiles : List Tile) (d : Detections F) (n : ℕ)
      → s.max_boxes ≡ some n
      → merge_tile_detections f np frame_size s per_tile tiles ≡ return d
      → d.num ≤ n
  merge-max_boxes per_tile tiles d n limit e =
      returned per_tile tiles (λ r. r.num ≤ n) d e (λ has_classes. empty_low has_classes n)
        (finish_low n limit)

  rank_rows :
      (d : Detections F) (P : Box F → Type 0) (k : ℕ)
      → ((n : ℕ) (scores : ℕ → F) → All (λ i. i < n) (np.argsort n scores))
      → ((i : ℕ) → i < d.num → P (d.boxes i))
      → k < (rank f np frame_size s d).num
      → P ((rank f np frame_size s d).boxes k)
  unfolding rank index
  rank_rows d P k sorts h low =
      let order = at_most f np frame_size s s.max_boxes (np.argsort d.num d.scores) in
      let listed =
        at_most-All s.max_boxes (np.argsort d.num d.scores) (λ i. i < d.num)
          (sorts d.num d.scores) in
      h (get_or order k 0) (get_or-All (λ i. i < d.num) order k 0 listed low)

  finish-IsInside :
      (pool : Detections F)
      → IsOrdered f
      → s.clip ≡ true
      → ((n : ℕ) (scores : ℕ → F) → All (λ i. i < n) (np.argsort n scores))
      → (k : ℕ) → k < (finish f np frame_size s pool).num
      → IsInside ((finish f np frame_size s pool).boxes k)
  unfolding finish
  finish-IsInside pool o clips sorts k low =
      let clipped = clip_detections f np frame_size s pool in
      let (boxes, num) = penalise-boxes clipped.truncated clipped in
      rank_rows (penalise f np frame_size s clipped.truncated clipped) IsInside k sorts
        (λ i below.
          subst (λ bs. IsInside (bs i)) (sym boxes)
            (clip_detections-IsInside o clips pool i (omega (arith, below, num))))
        low

  -- Where the merge clips, every box that it returns lies in the frame and has an area. Floats are
  -- ordered, without NaN, and `argsort` lists the indices of its argument.
  pub merge-IsInside :
      (per_tile : List (TileEntry F)) (tiles : List Tile) (d : Detections F) (k : ℕ)
      → IsOrdered f
      → s.clip ≡ true
      → ((n : ℕ) (scores : ℕ → F) → All (λ i. i < n) (np.argsort n scores))
      → merge_tile_detections f np frame_size s per_tile tiles ≡ return d
      → k < d.num
      → IsInside (d.boxes k)
  merge-IsInside per_tile tiles d k o clips sorts e low =
      returned per_tile tiles (λ r. k < r.num → IsInside (r.boxes k)) d e
        (λ has_classes below. absurd (omega (arith, below, empty_low has_classes 0)))
        (λ pool. finish-IsInside pool o clips sorts k) low
