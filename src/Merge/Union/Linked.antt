-- ===== src/Merge/Union/Linked.antt =====
-- The trees of the union-find are the classes of what was joined: tiled_shard.py, `union`.
use symphony_akida.Prelude.{
  ℕ, suc, ◌+◌, ◌≤◌, ◌≡◌, refl, sym, ap, subst, ◌∙◌, ◌⊎◌, ◌↔◌, inl, inr, true, List, [], ◌∷◌, ◌==◌,
  ==_iff, arith, length, Any, All, ℕ_discrete,
}
use symphony_akida.Merge.Union.{find, attach, union, union_all, singletons}
use symphony_akida.Merge.Union.Forest.{
  IsForest, find-Finds, root_after, depth_after, attach-IsForest, deepen, singletons-IsForest,
}

-- The equivalence that the joined pairs generate.
pub data Linked (pairs : List (ℕ × ℕ)) : ℕ → ℕ → Type 0 where
  itself : {i : ℕ} → Linked pairs i i
  joined : {i j : ℕ} → Any (λ p. p ≡ (i, j)) pairs → Linked pairs i j
  back : {i j : ℕ} → Linked pairs i j → Linked pairs j i
  through : {i j k : ℕ} → Linked pairs i j → Linked pairs j k → Linked pairs i k

-- What one call of `union` does to the trees: those of `i` and `j` become one, under the root of `i`.
pub record Unites (parent root : ℕ → ℕ) (bound i j : ℕ) : Type 0 where
  pub new_root : ℕ → ℕ
  pub new_depth : ℕ → ℕ
  pub forest : IsForest parent new_root new_depth (suc bound)
  one : new_root i ≡ new_root j
  moves : (k : ℕ) → (new_root k ≡ root k) ⊎ ((root k ≡ root j) × (new_root k ≡ root i))
  keeps : (k m : ℕ) → root k ≡ root m → new_root k ≡ new_root m

attach-Unites :
    (parent root depth : ℕ → ℕ) (bound i j : ℕ)
    → IsForest parent root depth bound
    → parent (root i) ≡ root i
    → parent (root j) ≡ root j
    → Unites (attach (root i) (root j) parent) root bound i j
unfolding attach
attach-Unites parent root depth bound i j f top_i top_j = elim (ℕ_discrete (root i) (root j)) [
  | yes same ↦
      let test : (root i == root j) ≡ true = (==_iff (root i) (root j)).1 same in
      rw (test, attach)
        (record {
          new_root = root;
          new_depth = depth;
          forest = deepen parent root depth bound f;
          one = same;
          moves = λ k. inl refl;
          keeps = λ k m e. e;
        })
  | no apart ↦
      let top_of_i : root (root i) ≡ root i = f.at_top (root i) top_i in
      record {
        new_root = root_after (root i) (root j) root;
        new_depth = depth_after (root j) root depth;
        forest = attach-IsForest (root i) (root j) parent root depth bound f top_i top_j apart;
        one = ground (arith, apart);
        moves = λ k. ground arith;
        keeps = λ k m e. ground (arith, e);
      }
]

pub union-Unites :
    (fuel : ℕ) (parent root depth : ℕ → ℕ) (bound i j : ℕ)
    → IsForest parent root depth bound
    → bound ≤ fuel
    → Unites (union fuel parent (i, j)) root bound i j
unfolding union
union-Unites fuel parent root depth bound i j f enough =
    let after_i = (find fuel parent i).0 in
    let (g, found_i, top_i) =
      find-Finds root depth bound fuel parent i f (omega (arith, f.bounded i)) in
    let after_j = (find fuel after_i j).0 in
    let (h, found_j, top_j) =
      find-Finds root depth bound fuel after_i j g (omega (arith, f.bounded j)) in
    let root_i : root (root i) ≡ root i = ap root (sym found_i) ∙ g.at_top _ top_i ∙ found_i in
    let root_j : root (root j) ≡ root j = ap root (sym found_j) ∙ h.at_top _ top_j ∙ found_j in
    rw (found_i, found_j)
      (attach-Unites after_j root depth bound i j h (h.is_top (root i) root_i)
        (h.is_top (root j) root_j))

All-keeps :
    (root new_root : ℕ → ℕ) (pairs : List (ℕ × ℕ))
    → ((k m : ℕ) → root k ≡ root m → new_root k ≡ new_root m)
    → All (λ p. root p.0 ≡ root p.1) pairs
    → All (λ p. new_root p.0 ≡ new_root p.1) pairs
All-keeps root new_root [] h a = tt
All-keeps root new_root ((i, j) ∷ pairs) h a = (h i j a.0, All-keeps root new_root pairs h a.1)

-- Trees that hold only what `all` links, and among them all that `pairs` joins.
pub record Classes (all pairs : List (ℕ × ℕ)) (parent before : ℕ → ℕ) (bound : ℕ) : Type 0 where
  pub root : ℕ → ℕ
  pub depth : ℕ → ℕ
  pub forest : IsForest parent root depth bound
  pub sound : (k : ℕ) → Linked all k (root k)
  pub complete : All (λ p. root p.0 ≡ root p.1) pairs
  pub keeps : (k m : ℕ) → before k ≡ before m → root k ≡ root m

module _ (all : List (ℕ × ℕ)) (fuel : ℕ) where
  moved :
      (new_root root : ℕ → ℕ) (i j k : ℕ)
      → Linked all k (root k)
      → Linked all i (root i)
      → Linked all j (root j)
      → Linked all i j
      → (new_root k ≡ root k) ⊎ ((root k ≡ root j) × (new_root k ≡ root i))
      → Linked all k (new_root k)
  moved new_root root i j k of_k of_i of_j join (inl stays) = subst (Linked all k) (sym stays) of_k
  moved new_root root i j k of_k of_i of_j join (inr (same, e)) =
      subst (Linked all k) (sym e)
        (through (subst (Linked all k) same of_k) (through (back of_j) (through (back join) of_i)))

  union_all-Classes :
      (pairs : List (ℕ × ℕ)) (parent root depth : ℕ → ℕ) (bound : ℕ)
      → IsForest parent root depth bound
      → ((k : ℕ) → Linked all k (root k))
      → All (λ p. Linked all p.0 p.1) pairs
      → bound + length pairs ≤ fuel
      → Classes all pairs (union_all fuel parent pairs) root (bound + length pairs)
  unfolding union_all
  union_all-Classes [] parent root depth bound f sound h enough = record {
    root = root;
    depth = depth;
    forest = subst (IsForest parent root depth) (omega arith) f;
    sound = sound;
    complete = tt;
    keeps = λ k m e. e;
  }
  union_all-Classes ((i, j) ∷ pairs) parent root depth bound f sound h enough =
      let u = union-Unites fuel parent root depth bound i j f (omega arith) in
      let sound' : (k : ℕ) → Linked all k (u.new_root k) =
        λ k. moved u.new_root root i j k (sound k) (sound i) (sound j) h.0 (u.moves k) in
      let c =
        union_all-Classes pairs (union fuel parent (i, j)) u.new_root u.new_depth (suc bound)
          u.forest sound' h.1 (omega arith) in
      record {
        root = c.root;
        depth = c.depth;
        forest = subst (IsForest _ c.root c.depth) (omega arith) c.forest;
        sound = c.sound;
        complete = (c.keeps i j u.one, c.complete);
        keeps = λ k m e. c.keeps k m (u.keeps k m e);
      }

-- Every pair is a link.
all_joined :
    (pairs rest : List (ℕ × ℕ))
    → ((p : ℕ × ℕ) → Any (λ q. q ≡ p) rest → Any (λ q. q ≡ p) pairs)
    → All (λ p. Linked pairs p.0 p.1) rest
all_joined pairs [] h = tt
all_joined pairs ((i, j) ∷ rest) h =
    (joined (h (i, j) (inl refl)), all_joined pairs rest λ p a. h p (inr a))

All-Any :
    (P : ℕ × ℕ → Type 0) (pairs : List (ℕ × ℕ)) (p : ℕ × ℕ)
    → All P pairs
    → Any (λ q. q ≡ p) pairs
    → P p
All-Any P [] p a h = absurd h
All-Any P (q ∷ pairs) p a (inl e) = subst P e a.0
All-Any P (q ∷ pairs) p a (inr h) = All-Any P pairs p a.1 h

Linked-root :
    (pairs : List (ℕ × ℕ)) (root : ℕ → ℕ)
    → All (λ p. root p.0 ≡ root p.1) pairs
    → {i j : ℕ} → Linked pairs i j
    → root i ≡ root j
Linked-root pairs root a itself = refl
Linked-root pairs root a (joined {i} {j} h) = All-Any (λ p. root p.0 ≡ root p.1) pairs (i, j) a h
Linked-root pairs root a (back l) = sym (Linked-root pairs root a l)
Linked-root pairs root a (through l m) = Linked-root pairs root a l ∙ Linked-root pairs root a m

-- The trees after all calls of `union` on the single elements.
pub classes_of :
    (pairs : List (ℕ × ℕ))
    → Classes pairs pairs (union_all (length pairs) singletons pairs) singletons (length pairs)
classes_of pairs =
    let classes =
      union_all-Classes pairs (length pairs) pairs singletons singletons (λ k. 0) 0
        singletons-IsForest (λ k. itself) (all_joined pairs pairs λ p a. a) (omega arith) in
    let n : 0 + length pairs ≡ length pairs = omega arith in
    subst (Classes pairs pairs (union_all (length pairs) singletons pairs) singletons) n classes

pub root-Linked :
    (pairs : List (ℕ × ℕ)) (i j : ℕ)
    → ((classes_of pairs).root i ≡ (classes_of pairs).root j) ↔ Linked pairs i j
root-Linked pairs i j =
    let c = classes_of pairs in
    (
      λ e. through (subst (Linked pairs i) e (c.sound i)) (back (c.sound j)),
      λ l. Linked-root pairs c.root c.complete l,
    )

-- Whatever was joined, two walks of `find` after all calls of `union` end at one root exactly where
-- the joined pairs link the two elements, directly or through others.
pub find-Linked :
    (pairs : List (ℕ × ℕ)) (i j : ℕ)
    → let parent = union_all (length pairs) singletons pairs in
      ((find (length pairs) parent i).1 ≡ (find (length pairs) parent j).1) ↔ Linked pairs i j
find-Linked pairs i j =
    let c = classes_of pairs in
    let n = length pairs in
    let parent = union_all n singletons pairs in
    let found : (k : ℕ) → (find n parent k).1 ≡ c.root k =
      λ k. (find-Finds c.root c.depth n n parent k c.forest (c.forest.bounded k)).1 in
    let same = root-Linked pairs i j in
    (λ e. same.0 (sym (found i) ∙ e ∙ found j), λ l. found i ∙ same.1 l ∙ sym (found j))
