-- ===== src/Merge/Fuse/Groups.antt =====
-- The groups of fragments that `fuse_seam_fragments` of tiled_shard.py makes.
use symphony_akida.Prelude.{
  ℕ, zero, suc, ◌+◌, ◌≤◌, ◌<◌, ◌≡◌, ◌≢◌, refl, sym, ap, subst, ◌∙◌, ◌↔◌, inl, inr, true, false,
  List, [], ◌∷◌, ◌++◌, map, none, ◌==◌, ==_iff, arith, length, Any, range, range_from,
  if◌then◌else◌, Bool-cases,
}
use symphony_akida.Prelude.Dict.{lookup, insert, lookup-insert, nat_eq}
use symphony_akida.Merge.Suppress.{Among, sorted}
use symphony_akida.Merge.Visits.{sorted-Among}
use symphony_akida.Merge.Union.{find, union_all, singletons}
use symphony_akida.Merge.Union.Forest.{IsForest, find-Finds}
use symphony_akida.Merge.Union.Linked.{Linked, itself, classes_of, root-Linked}
use symphony_akida.Merge.Fuse.{or_nil, add_member, group_loop, groups_of, members_of}

-- The elements of the tree of `k`.
abbrev pub tree : (ℕ → ℕ) → ℕ → List ℕ → List ℕ
tree root k [] = []
tree root k (i ∷ is) = let rest = tree root k is in if root i == k then i ∷ rest else rest

append_nil : (is : List ℕ) → is ++ [] ≡ is
append_nil [] = refl
append_nil (i ∷ is) = ap (◌∷◌ i) (append_nil is)

append_one : (is js : List ℕ) (i : ℕ) → (is ++ i ∷ []) ++ js ≡ is ++ i ∷ js
append_one [] js i = refl
append_one (k ∷ is) js i = ap (◌∷◌ k) (append_one is js i)

group_loop-tree :
    (fuel : ℕ) (root depth : ℕ → ℕ) (bound : ℕ) (k : ℕ) (is : List ℕ) (parent : ℕ → ℕ)
    (groups : List (ℕ × List ℕ))
    → IsForest parent root depth bound
    → bound ≤ fuel
    → or_nil (lookup k (group_loop fuel parent is groups))
      ≡ or_nil (lookup k groups) ++ tree root k is
unfolding group_loop add_member
group_loop-tree fuel root depth bound k [] parent groups f enough = sym (append_nil _)
group_loop-tree fuel root depth bound k (i ∷ is) parent groups f enough =
    let (g, found, here) =
      find-Finds root depth bound fuel parent i f (omega (arith, f.bounded i)) in
    let r = (find fuel parent i).1 in
    let filed : List (ℕ × List ℕ) = insert r (or_nil (lookup r groups) ++ i ∷ []) groups in
    let rest = group_loop-tree fuel root depth bound k is (find fuel parent i).0 filed g enough in
    rest ∙ elim (Bool-cases (r == k)) [
      | inl hit ↦
          let e : r ≡ k = (==_iff r k).0 hit in
          let test : (root i == k) ≡ true = (==_iff (root i) k).1 (sym found ∙ e) in
          rw (lookup-insert r k (or_nil (lookup r groups) ++ i ∷ []) groups, hit, test, e)
            (append_one (or_nil (lookup k groups)) (tree root k is) i)
      | inr miss ↦
          let test : (root i == k) ≡ false = subst (λ m. (m == k) ≡ false) found miss in
          rw (lookup-insert r k (or_nil (lookup r groups) ++ i ∷ []) groups, miss, test) refl
    ]

Among-tree :
    (root : ℕ → ℕ) (k j : ℕ) (is : List ℕ) → Among j (tree root k is) ↔ (Among j is × (root j ≡ k))
Among-tree root k j [] = ((λ h. absurd h), λ h. absurd h.0)
Among-tree root k j (i ∷ is) = ground (arith, Among-tree root k j is, ap root)

pub Among-range_from : (i n j : ℕ) → Among j (range_from i n) ↔ ((i ≤ j) × (j < i + n))
Among-range_from i zero j = ((λ h. absurd h), λ h. absurd (omega arith))
Among-range_from i (suc n) j = ground (arith, Among-range_from (suc i) n j)

key-Among :
    (k : ℕ) (groups : List (ℕ × List ℕ)) → lookup k groups ≢ none → Among k (map (λ g. g.0) groups)
unfolding lookup
key-Among k [] h = absurd (h refl)
key-Among k ((key, members) ∷ groups) h = elim (Bool-cases (key == k)) [
  | inl hit ↦ inl (sym ((==_iff key k).0 hit))
  | inr miss ↦ inr (key-Among k groups (rw miss at h))
]

some_key :
    (k i : ℕ) (groups : List (ℕ × List ℕ))
    → Among i (or_nil (lookup k groups))
    → lookup k groups ≢ none
some_key k i groups h e = absurd (rw e at h)

Any-map : (f : ℕ → List ℕ) (ks : List ℕ) (k : ℕ) → Among k ks → Any (λ g. g ≡ f k) (map f ks)
Any-map f [] k h = absurd h
Any-map f (j ∷ ks) k (inl e) = inl (ap f (sym e))
Any-map f (j ∷ ks) k (inr h) = inr (Any-map f ks k h)

members_iff :
    (num : ℕ) (pairs : List (ℕ × ℕ)) (i j : ℕ) (members : List ℕ)
    → members ≡ tree (classes_of pairs).root ((classes_of pairs).root i) (range num)
    → Among j members ↔ ((j < num) × Linked pairs i j)
members_iff num pairs i j members trees =
    let root = (classes_of pairs).root in
    let inside = Among-tree root (root i) j (range num) in
    let below = Among-range_from 0 num j in
    let linked = root-Linked pairs i j in
    (
      λ a.
          let (listed, e) = inside.0 (subst (Among j) trees a) in
          (omega (arith, (below.0 listed).1), linked.0 (sym e)),
      λ (low, l).
          subst (Among j) (sym trees)
            (inside.1 (below.1 (omega arith, omega (arith, low)), sym (linked.1 l))),
    )

-- Every detection is in a group, and with it exactly the detections that the joins link to it,
-- directly or through others.
pub groups_of-Linked :
    (num : ℕ) (pairs : List (ℕ × ℕ)) (i : ℕ)
    → i < num
    → (members : List ℕ) × Any (λ g. g ≡ members) (members_of (groups_of num pairs))
      × ((j : ℕ) → Among j members ↔ ((j < num) × Linked pairs i j))
unfolding groups_of members_of
groups_of-Linked num pairs i h =
    let c = classes_of pairs in
    let n = length pairs in
    let groups = groups_of num pairs in
    let k = c.root i in
    let members : List ℕ = or_nil (lookup k groups) in
    let trees : members ≡ tree c.root k (range num) =
      group_loop-tree n c.root c.depth n k (range num) (union_all n singletons pairs) [] c.forest
        (omega arith) in
    let inside : (j : ℕ) → Among j members ↔ ((j < num) × Linked pairs i j) =
      λ j. members_iff num pairs i j members trees in
    let found = some_key k i groups ((inside i).1 (h, itself)) in
    (
      members,
      Any-map (λ root. or_nil (lookup root groups)) (sorted (map (λ g. g.0) groups)) k
          (sorted-Among (map (λ g. g.0) groups) k (key-Among k groups found)),
      inside,
    )
