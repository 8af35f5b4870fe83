-- ===== src/Merge/Fuse.antt =====
-- The fusion of fragments: tiled_shard.py, `fuse_seam_fragments`.
pub mod Groups
pub mod Covers
pub mod Lossless
use symphony_akida.Prelude.{
  ℕ, zero, suc, ◌+◌, ◌-◌, Bool, true, false, not, ◌&&◌, ◌||◌, List, [], ◌∷◌, ◌++◌, map, Option,
  none, some, ltb, ◌==◌, length, get_or, range, range_from, if◌then◌else◌,
}
use symphony_akida.Prelude.Dict.{lookup, insert, nat_eq}
use symphony_akida.Merge.Boxes.{
  Floats, Box, Axis, axis_x, axis_y, Edge, low_edge, high_edge, fragments_join,
}
use symphony_akida.Merge.Suppress.{Detections, sorted}
use symphony_akida.Merge.Union.{find, union_all, singletons}

abbrev pub edge_is : Axis × Edge → Axis × Edge → Bool
edge_is (axis_x, low_edge) (axis_x, low_edge) = true
edge_is (axis_x, high_edge) (axis_x, high_edge) = true
edge_is (axis_y, low_edge) (axis_y, low_edge) = true
edge_is (axis_y, high_edge) (axis_y, high_edge) = true
edge_is _ _ = false

-- `key in keys`
abbrev pub has : Axis × Edge → List (Axis × Edge) → Bool
has key [] = false
has key (k ∷ keys) = let rest = has key keys in edge_is key k || rest

-- `bool(keys)`
abbrev pub is_cut : List (Axis × Edge) → Bool
is_cut [] = false
is_cut (k ∷ keys) = true

abbrev pub join_if : Bool → ℕ × ℕ → List (ℕ × ℕ)
join_if true pair = pair ∷ []
join_if false pair = []

module _ {F : Type 0} (f : Floats F) (seam_tol seam_iou : F) (d : Detections F)
    (seams : ℕ → List (Axis × Edge)) where
  -- Whether `low` is the low half and `high` the high half of one object along the axis.
  unfoldable pub halves : Axis → ℕ → ℕ → Bool
  halves axis low high =
      has (axis, high_edge) (seams low)
      && (has (axis, low_edge) (seams high)
          && fragments_join f seam_tol seam_iou (d.boxes low) (d.boxes high) axis)

  -- The calls of `union(i, j)` for one pair: along each axis, and either way round.
  unfoldable pub joins_of : ℕ → ℕ → List (ℕ × ℕ)
  unfolding halves
  joins_of i j =
      if not (is_cut (seams i)) || not (is_cut (seams j))
      then []
      else if not (d.labels i == d.labels j)
      then []
      else if d.tile_ids i == d.tile_ids j
      then []
      else (join_if (halves axis_x i j) (i, j)
          ++ (join_if (halves axis_x j i) (i, j)
              ++ (join_if (halves axis_y i j) (i, j) ++ join_if (halves axis_y j i) (i, j))))

  abbrev pub joins_with : ℕ → List ℕ → List (ℕ × ℕ)
  joins_with i [] = []
  joins_with i (j ∷ js) = joins_of i j ++ joins_with i js

  abbrev pub joins_from : List ℕ → List (ℕ × ℕ)
  joins_from [] = []
  joins_from (i ∷ is) = joins_with i (range_from (i + 1) (d.num - (i + 1))) ++ joins_from is

  -- All calls of `union`, in their order.
  unfoldable pub joins : List (ℕ × ℕ)
  unfolding joins_of
  joins = joins_from (range d.num)

-- `groups.setdefault(root, []).append(i)`
abbrev pub or_nil : Option (List ℕ) → List ℕ
or_nil none = []
or_nil (some members) = members

unfoldable pub add_member : ℕ → ℕ → List (ℕ × List ℕ) → List (ℕ × List ℕ)
unfolding lookup insert
add_member root i groups = insert root (or_nil (lookup root groups) ++ i ∷ []) groups

-- The loop that files every index under its root; each `find` halves paths.
unfoldable pub group_loop : ℕ → (ℕ → ℕ) → List ℕ → List (ℕ × List ℕ) → List (ℕ × List ℕ)
unfolding add_member find
group_loop fuel parent [] groups = groups
group_loop fuel parent (i ∷ is) groups =
    let (halved, root) = find fuel parent i in group_loop fuel halved is (add_member root i groups)

-- `groups`, after the calls of `union`.
unfoldable pub groups_of : ℕ → List (ℕ × ℕ) → List (ℕ × List ℕ)
unfolding group_loop union_all
groups_of num pairs =
    group_loop (length pairs) (union_all (length pairs) singletons pairs) (range num) []

-- `groups[root] for root in sorted(groups)`
unfoldable pub members_of : List (ℕ × List ℕ) → List (List ℕ)
unfolding lookup
members_of groups = map (λ root. or_nil (lookup root groups)) (sorted (map (λ g. g.0) groups))

module _ {F : Type 0} (f : Floats F) where
  -- The largest by `max`, and the index of a first best score, over a group.
  abbrev pub max_over : (ℕ → F) → ℕ → List ℕ → F
  max_over value i [] = value i
  max_over value i (j ∷ js) = f.max_f (value i) (max_over value j js)

  abbrev pub min_over : (ℕ → F) → ℕ → List ℕ → F
  min_over value i [] = value i
  min_over value i (j ∷ js) = f.min_f (value i) (min_over value j js)

  abbrev pub best_over : (ℕ → F) → ℕ → List ℕ → ℕ
  best_over score i [] = i
  best_over score i (j ∷ js) = best_over score (if f.lt (score i) (score j) then j else i) js

  unfoldable pub enclosing : (ℕ → Box F) → ℕ → List ℕ → Box F
  enclosing boxes i is = record {
    x_low = min_over (λ k. (boxes k).x_low) i is;
    y_low = min_over (λ k. (boxes k).y_low) i is;
    x_high = max_over (λ k. (boxes k).x_high) i is;
    y_high = max_over (λ k. (boxes k).y_high) i is;
  }

  -- `np.max` of class scores, element by element.
  abbrev pub max_rows : List F → List F → List F
  max_rows [] bs = []
  max_rows (a ∷ rest) [] = []
  max_rows (a ∷ rest) (b ∷ bs) = f.max_f a b ∷ max_rows rest bs

  abbrev pub max_classes : (ℕ → List F) → ℕ → List ℕ → List F
  max_classes classes i [] = classes i
  max_classes classes i (j ∷ js) = max_rows (classes i) (max_classes classes j js)

  -- What a function of a group's first member and the others makes of group `g`.
  abbrev pub over_group : {A : Type 0} → A → (ℕ → List ℕ → A) → List ℕ → A
  over_group other value [] = other
  over_group other value (i ∷ is) = value i is

  abbrev pub of_group : {A : Type 0} → A → (ℕ → List ℕ → A) → List (List ℕ) → ℕ → A
  of_group other value groups g = over_group other value (get_or groups g [])

  abbrev pub alone_cut : (ℕ → Bool) → ℕ → List ℕ → Bool
  alone_cut cut i [] = cut i
  alone_cut cut i (j ∷ js) = false

  abbrev pub fuse_classes : Option (ℕ → List F) → List (List ℕ) → Option (ℕ → List F)
  fuse_classes none groups = none
  fuse_classes (some classes) groups = some (of_group [] (max_classes classes) groups)

  -- One row for each group.
  unfoldable pub fused : Detections F → (ℕ → Bool) → List (List ℕ) → Detections F
  unfolding enclosing
  fused d cut groups =
      let blank : Box F = record {
        x_low = f.zero_f;
        y_low = f.zero_f;
        x_high = f.zero_f;
        y_high = f.zero_f;
      } in
      record {
        num = length groups;
        boxes = of_group blank (enclosing d.boxes) groups;
        scores = of_group f.zero_f (max_over d.scores) groups;
        labels = of_group 0 (λ i is. d.labels (best_over d.scores i is)) groups;
        classes = fuse_classes d.classes groups;
        tile_ids = of_group 0 (λ i is. d.tile_ids (best_over d.scores i is)) groups;
        truncated = some (of_group false (alone_cut cut) groups);
      }

  -- `fuse_seam_fragments`
  unfoldable pub fuse_seam_fragments :
      F → F → Detections F → (ℕ → List (Axis × Edge)) → Detections F
  unfolding fused groups_of members_of joins
  fuse_seam_fragments seam_tol seam_iou d seams =
      let marked = record d { truncated = some (λ i. is_cut (seams i)) } in
      let groups = members_of (groups_of d.num (joins f seam_tol seam_iou marked seams)) in
      if ltb d.num 2
      then marked
      else if length groups == d.num
      then marked
      else fused marked (λ i. is_cut (seams i)) groups
