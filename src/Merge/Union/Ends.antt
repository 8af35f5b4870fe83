-- ===== src/Merge/Union/Ends.antt =====
-- The loop of `find` ends: tiled_shard.py, `find` and `union`.
use symphony_akida.Prelude.{
  ℕ, zero, suc, ◌+◌, ◌≤◌, ◌<◌, ◌≡◌, refl, sym, ap, ◌∙◌, List, [], ◌∷◌, arith, length, ==_iff, ◌==◌,
  ℕ_discrete, false,
}
use symphony_akida.Merge.Union.{assign, find, union, union_all, singletons}
use symphony_akida.Merge.Union.Forest.{IsForest, find-Finds, halve-IsForest, singletons-IsForest}
use symphony_akida.Merge.Union.Linked.{union-Unites, classes_of}

at_once : (extra : ℕ) (parent : ℕ → ℕ) (i : ℕ) → parent i ≡ i → find extra parent i ≡ (parent, i)
unfolding find
at_once zero parent i here = refl
at_once (suc extra) parent i here = rw ((==_iff (parent i) i).1 here) refl

-- More steps than the depth of `i` change nothing.
find_more :
    (root depth : ℕ → ℕ) (bound fuel extra : ℕ) (parent : ℕ → ℕ) (i : ℕ)
    → IsForest parent root depth bound
    → depth i ≤ fuel
    → find (fuel + extra) parent i ≡ find fuel parent i
unfolding find
find_more root depth bound zero extra parent i f deep = elim (ℕ_discrete (parent i) i) [
  | yes here ↦ at_once (0 + extra) parent i here
  | no below ↦ absurd (omega (arith, f.falls i below))
]
find_more root depth bound (suc fuel) extra parent i f deep = elim (ℕ_discrete (parent i) i) [
  | yes here ↦ at_once (suc fuel + extra) parent i here ∙ sym (at_once (suc fuel) parent i here)
  | no below ↦
      let g = halve-IsForest root depth bound parent i below f in
      let fell : depth (parent (parent i)) < depth i =
        ground (arith, f.falls i below, f.falls (parent i), f.top (parent i)) in
      let step : suc fuel + extra ≡ suc (fuel + extra) = omega arith in
      let differs : (parent i == i) ≡ false = ground (arith, below) in
      rw (step, differs)
        (find_more root depth bound fuel extra (assign i (parent (parent i)) parent)
          (parent (parent i)) g (omega (arith, fell, deep)))
]

union_more :
    (root depth : ℕ → ℕ) (bound fuel extra : ℕ) (parent : ℕ → ℕ) (i j : ℕ)
    → IsForest parent root depth bound
    → bound ≤ fuel
    → union (fuel + extra) parent (i, j) ≡ union fuel parent (i, j)
unfolding union
union_more root depth bound fuel extra parent i j f enough =
    let after_i = (find fuel parent i).0 in
    let deep_i : depth i ≤ fuel = omega (arith, f.bounded i, enough) in
    let (g, found_i, top_i) = find-Finds root depth bound fuel parent i f deep_i in
    let same_i = find_more root depth bound fuel extra parent i f deep_i in
    let same_j =
      find_more root depth bound fuel extra after_i j g (omega (arith, f.bounded j, enough)) in
    rw (same_i, same_j) refl

union_all_more :
    (pairs : List (ℕ × ℕ)) (root depth : ℕ → ℕ) (bound fuel extra : ℕ) (parent : ℕ → ℕ)
    → IsForest parent root depth bound
    → bound + length pairs ≤ fuel
    → union_all (fuel + extra) parent pairs ≡ union_all fuel parent pairs
unfolding union_all
union_all_more [] root depth bound fuel extra parent f enough = refl
union_all_more ((i, j) ∷ pairs) root depth bound fuel extra parent f enough =
    let u = union-Unites fuel parent root depth bound i j f (omega (arith, enough)) in
    ap (λ p. union_all (fuel + extra) p pairs)
      (union_more root depth bound fuel extra parent i j f (omega (arith, enough)))
    ∙ union_all_more pairs u.new_root u.new_depth (suc bound) fuel extra (union fuel parent (i, j))
        u.forest (omega (arith, enough))

-- The walk to the root ends: however the fragments were joined, within as many steps as there were
-- joins `find` is at an element that is its own parent, and a greater number of steps changes
-- neither the trees that the joins make nor what `find` answers.
pub find_ends :
    (pairs : List (ℕ × ℕ)) (i extra : ℕ)
    → let parent = union_all (length pairs) singletons pairs in
      let (after, r) = find (length pairs) parent i in
      (after r ≡ r)
      × (find (length pairs + extra) parent i ≡ find (length pairs) parent i)
      × (union_all (length pairs + extra) singletons pairs ≡ parent)
find_ends pairs i extra =
    let c = classes_of pairs in
    let parent = union_all (length pairs) singletons pairs in
    let deep : c.depth i ≤ length pairs = c.forest.bounded i in
    let (f, found, top) =
      find-Finds c.root c.depth (length pairs) (length pairs) parent i c.forest deep in
    (
      top,
      find_more c.root c.depth (length pairs) (length pairs) extra parent i c.forest deep,
      union_all_more pairs singletons (λ k. 0) 0 (length pairs) extra singletons singletons-IsForest
          (omega arith),
    )
