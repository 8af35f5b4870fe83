-- ===== src/Evaluation/Sources.antt =====
-- Which dump and which kit are scored: eval_shard_map.py, `newest_dump` and `find_source_npz`.
use Prim.Native.String.{String}
use native.Mathlib.Nat.{le_refl}
use symphony_akida.Prelude.{
  subst, ℕ, ◌≤◌, ◌≡◌, refl, sym, ap, ◌⊎◌, inl, inr, Bool, true, false, ◌&&◌, List, [], ◌∷◌, ltb,
  leb, arith, All, Any, Bool-cases, if◌then◌else◌,
}
use symphony_akida.Prelude.Outcome.{Outcome, return, raise, system_exit, Ensures}

-- A dump in the results folder, with its time.
abbrev pub Dump : Type 0
Dump = String × ℕ

unfoldable pub later_dump : Dump → List Dump → Dump
later_dump best [] = best
later_dump best (d ∷ ds) = later_dump (if leb best.1 d.1 then d else best) ds

-- `newest_dump`: the last one of a stable sort by time.
unfoldable pub newest_dump : List Dump → Outcome String
unfolding later_dump
newest_dump [] = raise system_exit
newest_dump (d ∷ ds) = return (later_dump d ds).0

-- What the search reads of a sidecar, and whether its source is there.
pub record Prepared : Type 0 where
  pub has_ground_truth : Bool
  pub source_npz : String
  pub is_file : Bool
  pub set_name : String
  pub count : ℕ

pub record Candidate : Type 0 where
  pub is_named : Bool
  pub count : ℕ
  pub source : String

unfoldable pub select_by : {A : Type 0} → (A → Bool) → List A → List A
select_by test [] = []
select_by test (a ∷ more) = let rest = select_by test more in if test a then a ∷ rest else rest

-- `min(pool, key=...)`: the first of the smallest.
unfoldable pub smallest : Candidate → List Candidate → Candidate
smallest best [] = best
smallest best (c ∷ cs) = smallest (if ltb c.count best.count then c else best) cs

-- The loop over the two pools, from the second on.
abbrev pub from_big : List Candidate → Outcome String
from_big [] = raise system_exit
from_big (c ∷ cs) = return (smallest c cs).source

abbrev pub from_named : List Candidate → List Candidate → Outcome String
from_named [] big = from_big big
from_named (c ∷ cs) big = return (smallest c cs).source

-- `basename.startswith(name + "_")` is a parameter.
module _ (names_dump : String → Bool) where
  abbrev pub candidate_of : Prepared → Candidate
  candidate_of side = record {
    is_named = names_dump side.set_name;
    count = side.count;
    source = side.source_npz;
  }

  unfoldable pub candidates : List Prepared → List Candidate
  candidates [] = []
  candidates (side ∷ sides) =
      let rest = candidates sides in
      if side.has_ground_truth && side.is_file then candidate_of side ∷ rest else rest

  unfoldable pub find_source_npz : ℕ → List Prepared → Outcome String
  unfolding candidates select_by smallest
  find_source_npz needed sides =
      let found = candidates sides in
      from_named (select_by (λ c. c.is_named) found) (select_by (λ c. leb needed c.count) found)

module _ {A : Type 0} (test : A → Bool) where
  select_by-Any :
      (P : A → Type 0) (xs : List A)
      → Any P (select_by test xs)
      → Any (λ a. P a × (test a ≡ true)) xs
  unfolding select_by
  select_by-Any P [] h = h
  select_by-Any P (x ∷ xs) h = elim (Bool-cases (test x)) [
    | inr fails ↦ inr (select_by-Any P xs (rw fails at h))
    | inl passes ↦ elim (rw passes at h) [
      | inl here ↦ inl (here, passes)
      | inr there ↦ inr (select_by-Any P xs there)
    ]
  ]

  select_by-All :
      (P : A → Type 0) (xs : List A) → All P (select_by test xs) → All (λ a. test a ≡ true → P a) xs
  unfolding select_by
  select_by-All P [] h = tt
  select_by-All P (x ∷ xs) h = elim (Bool-cases (test x)) [
    | inr fails ↦ ((λ passes. absurd (cc (passes, fails))), select_by-All P xs (rw fails at h))
    | inl passes ↦ let held = rw passes at h in ((λ _. held.0), select_by-All P xs held.1)
  ]

  select_by-nil : (xs : List A) → select_by test xs ≡ [] → All (λ a. test a ≡ false) xs
  unfolding select_by
  select_by-nil [] h = tt
  select_by-nil (x ∷ xs) h = elim (Bool-cases (test x)) [
    | inr fails ↦ (fails, select_by-nil xs (rw fails at h))
    | inl passes ↦ absurd (cc (rw passes at h))
  ]

Any-map :
    {A : Type 0} (P Q : A → Type 0) (xs : List A) → ((a : A) → P a → Q a) → Any P xs → Any Q xs
Any-map P Q [] f h = h
Any-map P Q (x ∷ xs) f (inl here) = inl (f x here)
Any-map P Q (x ∷ xs) f (inr there) = inr (Any-map P Q xs f there)

-- One of the candidates, and no larger than any.
abbrev IsLeast : Candidate → List Candidate → Type 0
IsLeast r cs = Any (λ c. c ≡ r) cs × All (λ c. r.count ≤ c.count) cs

IsLeast-with :
    (test : Bool) (r best c : Candidate) (cs : List Candidate)
    → ltb c.count best.count ≡ test
    → IsLeast r ((if test then c else best) ∷ cs)
    → IsLeast r (best ∷ c ∷ cs)
IsLeast-with true r best c cs less (found, (low, all_low)) =
    (inr found, (ground (arith, less, low), (low, all_low)))
IsLeast-with false r best c cs more (found, (low, all_low)) = (
  elim found [ inl here ↦ inl here | inr there ↦ inr (inr there) ],
  (low, (ground (arith, more, low), all_low)),
)

smallest-IsLeast : (best : Candidate) (cs : List Candidate) → IsLeast (smallest best cs) (best ∷ cs)
unfolding smallest
smallest-IsLeast best [] = (inl refl, (le_refl _, tt))
smallest-IsLeast best (c ∷ cs) =
    let next = if ltb c.count best.count then c else best in
    IsLeast-with (ltb c.count best.count) (smallest next cs) best c cs refl
      (smallest-IsLeast next cs)

-- The kit of a dump: the smallest of the sets that the dump is named after, or, where it is named
-- after none, the smallest that is large enough.
abbrev pub IsChosen : ℕ → List Candidate → String → Type 0
IsChosen needed found source =
    Any
      (λ c.
        (c.source ≡ source)
        × (((c.is_named ≡ true) × All (λ o. o.is_named ≡ true → c.count ≤ o.count) found)
            ⊎ (All (λ o. o.is_named ≡ false) found
                × (leb needed c.count ≡ true)
                × All (λ o. leb needed o.count ≡ true → c.count ≤ o.count) found)))
      found

chosen :
    (needed : ℕ) (found named big : List Candidate)
    → select_by (λ c. c.is_named) found ≡ named
    → select_by (λ c. leb needed c.count) found ≡ big
    → Ensures (IsChosen needed found) (from_named named big)
chosen needed found (c ∷ cs) big named_by big_by =
    let best = smallest c cs in
    let test = λ (o : Candidate). o.is_named in
    let (one, least) = smallest-IsLeast c cs in
    let least_named =
      select_by-All test (λ o. best.count ≤ o.count) found
        (subst (All (λ o. best.count ≤ o.count)) (sym named_by) least) in
    Any-map (λ o. (o ≡ best) × (o.is_named ≡ true)) _ found
      (λ o (same, named). (
        ap (λ p. p.source) same,
        inl (
          named,
          subst (λ p. All (λ q. q.is_named ≡ true → p.count ≤ q.count) found) (sym same)
              least_named,
        ),
      ))
      (select_by-Any test (λ o. o ≡ best) found (subst (Any (λ o. o ≡ best)) (sym named_by) one))
chosen needed found [] (c ∷ cs) named_by big_by =
    let best = smallest c cs in
    let test = λ (o : Candidate). leb needed o.count in
    let (one, least) = smallest-IsLeast c cs in
    let least_big =
      select_by-All test (λ o. best.count ≤ o.count) found
        (subst (All (λ o. best.count ≤ o.count)) (sym big_by) least) in
    Any-map (λ o. (o ≡ best) × (leb needed o.count ≡ true)) _ found
      (λ o (same, enough). (
        ap (λ p. p.source) same,
        inr (
          select_by-nil (λ o. o.is_named) found named_by,
          enough,
          subst (λ p. All (λ q. leb needed q.count ≡ true → p.count ≤ q.count) found) (sym same)
              least_big,
        ),
      ))
      (select_by-Any test (λ o. o ≡ best) found (subst (Any (λ o. o ≡ best)) (sym big_by) one))
chosen needed found [] [] named_by big_by = tt

-- The kit that a dump is scored against is that of the smallest prepared set with a ground truth
-- that the dump is named after, or, where it is named after none, of the smallest that has as many
-- frames as the dump needs.
pub find_source_npz-IsChosen :
    (names_dump : String → Bool) (needed : ℕ) (sides : List Prepared)
    → Ensures
        (IsChosen needed (candidates names_dump sides))
        (find_source_npz names_dump needed sides)
unfolding find_source_npz
find_source_npz-IsChosen names_dump needed sides =
    chosen needed (candidates names_dump sides) _ _ refl refl
