-- ===== src/Merge/Union/Forest.antt =====
-- The parents stay a forest, and `find` reaches the root: tiled_shard.py, `find` and `union`.
use symphony_akida.Prelude.{
  ℕ, zero, suc, ◌+◌, ◌≤◌, ◌<◌, ◌≡◌, ◌≢◌, refl, sym, ◌∙◌, false, ◌==◌, ==_iff, arith, if◌then◌else◌,
  ℕ_discrete,
}
use symphony_akida.Merge.Union.{assign, find, attach, singletons}

-- `root` names the tree of every element, and `depth` falls on the way to its root.
pub record IsForest (parent root depth : ℕ → ℕ) (bound : ℕ) : Type 0 where
  pub same : (i : ℕ) → root (parent i) ≡ root i
  pub at_top : (i : ℕ) → parent i ≡ i → root i ≡ i
  pub is_top : (i : ℕ) → root i ≡ i → parent i ≡ i
  pub top : (i : ℕ) → parent i ≡ i → depth i ≡ 0
  pub falls : (i : ℕ) → parent i ≢ i → depth (parent i) < depth i
  pub bounded : (i : ℕ) → depth i ≤ bound

pub singletons-IsForest : IsForest singletons singletons (λ k. 0) 0
singletons-IsForest = record {
  same = λ k. refl;
  at_top = λ k e. refl;
  is_top = λ k e. refl;
  top = λ k e. refl;
  falls = λ k below. absurd (below refl);
  bounded = λ k. omega arith;
}

module _ (root depth : ℕ → ℕ) (bound : ℕ) where
  -- Halving a path changes neither the trees nor the bound.
  pub halve-IsForest :
      (parent : ℕ → ℕ) (i : ℕ)
      → parent i ≢ i
      → IsForest parent root depth bound
      → IsForest (assign i (parent (parent i)) parent) root depth bound
  unfolding assign
  halve-IsForest parent i below f = record {
    same = λ k. ground (arith, f.same k, f.same (parent i), f.same i);
    at_top = λ k e.
        ground (arith, e, f.at_top k, f.at_top (parent i), f.falls i below, f.falls (parent i));
    is_top = λ k e. ground (arith, e, f.is_top k, below);
    top = λ k e. ground (arith, e, f.top k, f.falls i below, f.falls (parent i), f.top (parent i));
    falls = λ k e. ground (arith, e, f.falls k, f.falls i below, f.falls (parent i));
    bounded = f.bounded;
  }

  -- What a walk comes to: the trees as before, and the root of `i`.
  abbrev pub Finds : ℕ → (ℕ → ℕ) × ℕ → Type 0
  Finds i (parent, r) = IsForest parent root depth bound × (r ≡ root i) × (parent r ≡ r)

  pub find-Finds :
      (fuel : ℕ) (parent : ℕ → ℕ) (i : ℕ)
      → IsForest parent root depth bound
      → depth i ≤ fuel
      → Finds i (find fuel parent i)
  unfolding find
  find-Finds zero parent i f deep = elim (ℕ_discrete (parent i) i) [
    | yes here ↦ (f, sym (f.at_top i here), here)
    | no below ↦ absurd (omega (arith, f.falls i below))
  ]
  find-Finds (suc fuel) parent i f deep = elim (ℕ_discrete (parent i) i) [
    | yes here ↦ rw ((==_iff (parent i) i).1 here) (f, sym (f.at_top i here), here)
    | no below ↦
        let g = halve-IsForest parent i below f in
        let fell : depth (parent (parent i)) < depth i =
          ground (arith, f.falls i below, f.falls (parent i), f.top (parent i)) in
        let (h, found, here) =
          find-Finds fuel (assign i (parent (parent i)) parent) (parent (parent i)) g
            (omega arith) in
        let differs : (parent i == i) ≡ false = ground (arith, below) in
        rw differs (h, found ∙ f.same (parent i) ∙ f.same i, here)
  ]

-- The trees after the one of `rj` is hung under `ri`.
abbrev pub root_after : ℕ → ℕ → (ℕ → ℕ) → ℕ → ℕ
root_after ri rj root k = if root k == rj then ri else root k

abbrev pub depth_after : ℕ → (ℕ → ℕ) → (ℕ → ℕ) → ℕ → ℕ
depth_after rj root depth k = if root k == rj then depth k + 1 else depth k

pub attach-IsForest :
    (ri rj : ℕ) (parent root depth : ℕ → ℕ) (bound : ℕ)
    → IsForest parent root depth bound
    → parent ri ≡ ri
    → parent rj ≡ rj
    → ri ≢ rj
    → IsForest (attach ri rj parent) (root_after ri rj root) (depth_after rj root depth) (suc bound)
unfolding attach assign
attach-IsForest ri rj parent root depth bound f hi hj apart = record {
  same = λ k. ground (arith, apart, f.same k, f.at_top ri hi, f.at_top rj hj);
  at_top = λ k e. ground (arith, apart, e, f.at_top k, f.at_top ri hi, f.at_top rj hj);
  is_top = λ k e. ground (arith, apart, e, f.is_top k, f.at_top ri hi, f.at_top rj hj);
  top = λ k e. ground (arith, apart, e, f.at_top k, f.top k, f.at_top ri hi, f.at_top rj hj);
  falls = λ k e. ground (
    arith,
    apart,
    e,
    f.falls k,
    f.same k,
    f.top ri hi,
    f.top rj hj,
    f.at_top ri hi,
    f.at_top rj hj,
  );
  bounded = λ k. ground (arith, f.bounded k);
}

pub deepen :
    (parent root depth : ℕ → ℕ) (bound : ℕ)
    → IsForest parent root depth bound
    → IsForest parent root depth (suc bound)
deepen parent root depth bound f = record {
  same = f.same;
  at_top = f.at_top;
  is_top = f.is_top;
  top = f.top;
  falls = f.falls;
  bounded = λ k. omega (arith, f.bounded k);
}
