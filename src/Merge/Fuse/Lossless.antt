-- ===== src/Merge/Fuse/Lossless.antt =====
-- No detection is lost by `fuse_seam_fragments` of tiled_shard.py.
use symphony_akida.Prelude.{
  ℕ, suc, ◌<◌, ◌≡◌, refl, ap, inl, inr, Bool, true, List, [], ◌∷◌, some, ltb, ◌==◌, arith, length,
  get_elem?, Any, Bool-cases,
}
use symphony_akida.Merge.Boxes.{Floats, Axis, Edge}
use symphony_akida.Merge.Suppress.{Detections}
use symphony_akida.Merge.Union.Linked.{itself}
use symphony_akida.Merge.Fuse.{is_cut, joins, groups_of, members_of, fused, fuse_seam_fragments}
use symphony_akida.Merge.Fuse.Covers.{IsOrdered, Covers, fused-Covers, fused_score}
use symphony_akida.Merge.Fuse.Groups.{groups_of-Linked}

-- Where a member of a list stands.
place_of :
    (groups : List (List ℕ)) (members : List ℕ)
    → Any (λ g. g ≡ members) groups
    → (g : ℕ) × (g < length groups) × (get_elem? groups g ≡ some members)
place_of [] members h = absurd h
place_of (group ∷ groups) members (inl e) = (0, omega arith, ap some e)
place_of (group ∷ groups) members (inr h) =
    let (g, low, at) = place_of groups members h in (suc g, omega (arith, low), at)

module _ {F : Type 0} (f : Floats F) (o : IsOrdered f) where
  -- A detection of the result that holds detection `j` of `d` and has at least its score.
  abbrev pub IsHeld : Detections F → ℕ → Detections F → Type 0
  IsHeld d j result =
      (g : ℕ) × (g < result.num)
      × Covers f o (result.boxes g) (d.boxes j)
      × (f.le (d.scores j) (result.scores g) ≡ true)

  itself-IsHeld :
      (d result : Detections F) (j : ℕ)
      → j < d.num
      → result.num ≡ d.num
      → result.boxes ≡ d.boxes
      → result.scores ≡ d.scores
      → IsHeld d j result
  itself-IsHeld d result j h num boxes scores =
      rw (num, boxes, scores)
        (j, h, (o.le_refl _, o.le_refl _, o.le_refl _, o.le_refl _), o.le_refl _)

  fused-IsHeld :
      (d : Detections F) (cut : ℕ → Bool) (pairs : List (ℕ × ℕ)) (j : ℕ)
      → j < d.num
      → IsHeld d j (fused f d cut (members_of (groups_of d.num pairs)))
  unfolding fused
  fused-IsHeld d cut pairs j h =
      let groups = members_of (groups_of d.num pairs) in
      let (members, listed, inside) = groups_of-Linked d.num pairs j h in
      let (g, low, at) = place_of groups members listed in
      let among = (inside j).1 (h, itself) in
      (
        g,
        low,
        fused-Covers f o d cut groups g members j at among,
        fused_score f o d cut groups g members j at among,
      )

  -- Whatever was joined, each detection that goes into the fusion of fragments lies in the box of one
  -- that comes out, whose score is not lower. Floats are ordered, without NaN.
  pub fuse_seam_fragments-IsHeld :
      (seam_tol seam_iou : F) (d : Detections F) (seams : ℕ → List (Axis × Edge)) (j : ℕ)
      → j < d.num
      → IsHeld d j (fuse_seam_fragments f seam_tol seam_iou d seams)
  unfolding fuse_seam_fragments
  fuse_seam_fragments-IsHeld seam_tol seam_iou d seams j h =
      let marked : Detections F = record d { truncated = some (λ i. is_cut (seams i)) } in
      let pairs = joins f seam_tol seam_iou marked seams in
      let groups = members_of (groups_of d.num pairs) in
      elim (Bool-cases (ltb d.num 2)) [
        | inl few ↦ rw few (itself-IsHeld d marked j h refl refl refl)
        | inr many ↦ elim (Bool-cases (length groups == d.num)) [
          | inl apart ↦ rw (many, apart) (itself-IsHeld d marked j h refl refl refl)
          | inr joined ↦ rw (many, joined) (fused-IsHeld marked (λ i. is_cut (seams i)) pairs j h)
        ]
      ]
