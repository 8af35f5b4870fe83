-- ===== src/Examples/Fuse.antt =====
-- The theorems on the fusion of fragments and on the whole merge, at small inputs.
use symphony_akida.Prelude.{
  ℕ, zero, suc, ◌+◌, ◌≡◌, ◌≤◌, ◌<◌, ◌↔◌, refl, inl, inr, true, List, [], ◌∷◌, none, some, ltb,
  arith, range, range_from, All, Bool-cases, ◌==◌, if◌then◌else◌,
}
use symphony_akida.Prelude.Outcome.{return}
use symphony_akida.Prelude.Dict.{lookup, insert, nat_eq}
use symphony_akida.Tiles.{Tile}
use symphony_akida.Merge.Boxes.{
  Axis, axis_x, Edge, low_edge, high_edge, fragments_join, tile_box_to_frame, seam_truncations,
}
use symphony_akida.Merge.Suppress.{Detections}
use symphony_akida.Merge.Union.{find, union_all, singletons}
use symphony_akida.Merge.Union.Ends.{find_ends}
use symphony_akida.Merge.Union.Linked.{Linked, find-Linked}
use symphony_akida.Merge.Fuse.{groups_of, members_of, fuse_seam_fragments}
use symphony_akida.Merge.Fuse.Covers.{IsOrdered}
use symphony_akida.Merge.Fuse.Lossless.{IsHeld, fuse_seam_fragments-IsHeld}
use symphony_akida.Merge.Whole.{
  TileEntry, Settings, collect, add_entry, pooled, suppress, finish, merge_tile_detections, rank,
  clip_detections,
}
use symphony_akida.Merge.Whole.Result.{IsInside, merge-IsInside}
use symphony_akida.Examples.Sorting.{tenths, stable, place_by, sort_by}
use symphony_akida.Examples.Merge.{three, box_of}

-- Three pieces of one object in two joins, and an element alone.
abbrev some_pairs : List (ℕ × ℕ)
some_pairs = (0, 1) ∷ (2, 1) ∷ []

find-Linked_example :
    let parent = union_all 2 singletons some_pairs in
    ((find 2 parent 0).1 ≡ (find 2 parent 2).1) ↔ Linked some_pairs 0 2
find-Linked_example = find-Linked some_pairs 0 2

find_ends_example :
    let parent = union_all 2 singletons some_pairs in
    let (after, r) = find 2 parent 0 in
    (after r ≡ r)
    × (find 5 parent 0 ≡ find 2 parent 0)
    × (union_all 5 singletons some_pairs ≡ parent)
find_ends_example = find_ends some_pairs 0 3

some_roots :
    let parent = union_all 2 singletons some_pairs in
    ((find 2 parent 0).1 ≡ 2) × ((find 2 parent 2).1 ≡ 2) × ((find 2 parent 3).1 ≡ 3)
unfolding find union_all
some_roots = (refl, refl, refl)

some_groups : members_of (groups_of 4 some_pairs) ≡ (0 ∷ 1 ∷ 2 ∷ []) ∷ (3 ∷ []) ∷ []
unfolding groups_of members_of lookup insert
some_groups = refl

pub tenths-IsOrdered : IsOrdered tenths
tenths-IsOrdered = record {
  le_refl = λ a. ground arith;
  le_trans = λ a b c h h'. ground (arith, h, h');
  min_left = λ a b. ground arith;
  min_right = λ a b. ground arith;
  min_least = λ a b c h h'. ground (arith, h, h');
  zero_le_one = refl;
  max_left = λ a b. ground arith;
  max_right = λ a b. ground arith;
}

-- A box in two halves, cut at their common edge, and another one.
abbrev halved : Detections ℕ
halved = record three {
  num = 3;
  boxes = λ i.
      if i == 0
      then (record { x_low = 0; y_low = 0; x_high = 5; y_high = 4 })
      else if i == 1
      then (record { x_low = 5; y_low = 0; x_high = 10; y_high = 4 })
      else box_of i;
}

abbrev halved_seams : ℕ → List (Axis × Edge)
halved_seams i =
    if i == 0 then (axis_x, high_edge) ∷ [] else if i == 1 then (axis_x, low_edge) ∷ [] else []

halved_num : (fuse_seam_fragments tenths 0 2 halved halved_seams).num ≡ 2
unfolding fuse_seam_fragments groups_of members_of lookup insert fragments_join
halved_num = refl

fuse_seam_fragments-IsHeld_example :
    IsHeld tenths tenths-IsOrdered halved 1 (fuse_seam_fragments tenths 0 2 halved halved_seams)
fuse_seam_fragments-IsHeld_example =
    fuse_seam_fragments-IsHeld tenths tenths-IsOrdered 0 2 halved halved_seams 1 (omega arith)

place_by-All :
    (scores : ℕ → ℕ) (P : ℕ → Type 0) (i : ℕ) (is : List ℕ)
    → P i
    → All P is
    → All P (place_by scores i is)
place_by-All scores P i [] h a = (h, tt)
place_by-All scores P i (j ∷ js) h a = elim (Bool-cases (ltb (scores i) (scores j))) [
  | inl later ↦ rw later (a.0, place_by-All scores P i js h a.1)
  | inr first ↦ rw first (h, a)
]

pub sort_by-All :
    (scores : ℕ → ℕ) (P : ℕ → Type 0) (is : List ℕ) → All P is → All P (sort_by scores is)
sort_by-All scores P [] a = tt
sort_by-All scores P (i ∷ is) a =
    place_by-All scores P i (sort_by scores is) a.0 (sort_by-All scores P is a.1)

range_from-below : (i n m : ℕ) → i + n ≤ m → All (λ k. k < m) (range_from i n)
range_from-below i zero m h = tt
range_from-below i (suc n) m h = (omega arith, range_from-below (suc i) n m (omega arith))

stable-below : (n : ℕ) (scores : ℕ → ℕ) → All (λ i. i < n) (stable.argsort n scores)
stable-below n scores =
    sort_by-All scores (λ i. i < n) (range n) (range_from-below 0 n n (omega arith))

abbrev pub some_settings : Settings ℕ
some_settings = record {
  nms_iou = 5;
  ios_thresh = 7;
  seam_iou = 2;
  seam_tol = 0;
  edge_eps = 0;
  fuse_seams = true;
  prefer_complete = true;
  only_truncated_victims = true;
  clip = true;
  max_boxes = some 2;
  truncated_penalty = 4;
}

-- A box on each of two halves of the frame, and one of no width.
abbrev some_entries : List (TileEntry ℕ)
some_entries =
    record { num = 2; boxes = box_of; scores = λ i. 8; labels = λ i. i; classes = none }
    ∷ record { num = 0; boxes = box_of; scores = λ i. 8; labels = λ i. i; classes = none }
    ∷ []

abbrev some_tiles : List Tile
some_tiles =
    record { name = "left"; x0 = 0; y0 = 0; size = 4 }
    ∷ record { name = "right"; x0 = 4; y0 = 0; size = 4 }
    ∷ []

abbrev some_merged : Detections ℕ
some_merged =
    let c = collect tenths stable 8 some_settings 0 some_tiles some_entries in
    finish tenths stable 8 some_settings
      (suppress tenths stable 8 some_settings c.seams (pooled tenths stable 8 some_settings c))

some_merged_lem :
    merge_tile_detections tenths stable 8 some_settings some_entries some_tiles ≡ return some_merged
unfolding merge_tile_detections collect add_entry
some_merged_lem = refl

some_merged_num : some_merged.num ≡ 2
unfolding finish suppress collect add_entry rank clip_detections tile_box_to_frame seam_truncations
some_merged_num = refl

merge-IsInside_example : IsInside tenths stable 8 some_settings (some_merged.boxes 0)
merge-IsInside_example =
    merge-IsInside tenths stable 8 some_settings some_entries some_tiles some_merged 0
      tenths-IsOrdered refl stable-below some_merged_lem (omega (arith, some_merged_num))
