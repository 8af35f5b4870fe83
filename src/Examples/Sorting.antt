-- ===== src/Examples/Sorting.antt =====
-- Naturals for floats, and a stable sort for numpy's.
use symphony_akida.Prelude.{
  ℕ, zero, suc, ◌+◌, ◌-◌, ◌*◌, ◌/◌, ◌≡◌, ◌<◌, inl, inr, ap, ◌∙◌, Bool, true, false, List, [], ◌∷◌,
  ◌++◌, ltb, leb, range, range_from, ◌≤◌, not, if◌then◌else◌, Bool-cases, dec_lt, sym, All, arith,
}
use symphony_akida.Merge.Boxes.{Floats}
use symphony_akida.Merge.Suppress.{Among, Sorting}

-- Fixed-point numbers with one whole as 10.
abbrev pub tenths : Floats ℕ
tenths = record {
  zero_f = 0;
  one_f = 10;
  of_nat = λ n. n * 10;
  add = λ a b. a + b;
  sub = λ a b. a - b;
  mul = λ a b. a * b;
  div = λ a b. a * 10 / b;
  max_f = λ a b. Prim.Native.Nat.max a b;
  min_f = λ a b. Prim.Native.Nat.min a b;
  le = leb;
  lt = ltb;
}

module _ (scores : ℕ → ℕ) where
  abbrev pub place_by : ℕ → List ℕ → List ℕ
  place_by i [] = i ∷ []
  place_by i (j ∷ js) =
      let rest = place_by i js in if ltb (scores i) (scores j) then j ∷ rest else i ∷ j ∷ js

  abbrev pub sort_by : List ℕ → List ℕ
  sort_by [] = []
  sort_by (i ∷ is) = place_by i (sort_by is)

  place_by-Among : (i : ℕ) (is : List ℕ) (j : ℕ) → Among j (i ∷ is) → Among j (place_by i is)
  place_by-Among i [] j h = h
  place_by-Among i (k ∷ ks) j h = elim (Bool-cases (ltb (scores i) (scores k))) [
    | inr first ↦ rw first h
    | inl later ↦ rw later (elim h [
      | inl here ↦ inr (place_by-Among i ks j (inl here))
      | inr (inl next) ↦ inl next
      | inr (inr there) ↦ inr (place_by-Among i ks j (inr there))
    ])
  ]

  sort_by-Among : (is : List ℕ) (j : ℕ) → Among j is → Among j (sort_by is)
  sort_by-Among [] j h = h
  sort_by-Among (i ∷ is) j (inl here) = place_by-Among i (sort_by is) j (inl here)
  sort_by-Among (i ∷ is) j (inr there) =
      place_by-Among i (sort_by is) j (inr (sort_by-Among is j there))

range_from-Among : (i n j : ℕ) → i ≤ j → j < i + n → Among j (range_from i n)
range_from-Among i zero j low high = absurd (omega arith)
range_from-Among i (suc n) j low high = elim (dec_lt i j) [
  | yes more ↦ inr (range_from-Among (suc i) n j (omega arith) (omega arith))
  | no last ↦ inl (omega arith)
]

abbrev pub select : (ℕ → Bool) → List ℕ → List ℕ
select test [] = []
select test (i ∷ is) = let rest = select test is in if test i then i ∷ rest else rest

pub select-All : (test : ℕ → Bool) (is : List ℕ) → All (λ i. test i ≡ true) (select test is)
select-All test [] = tt
select-All test (i ∷ is) = elim (Bool-cases (test i)) [
  | inl hit ↦ rw hit (hit, select-All test is)
  | inr miss ↦ rw miss (select-All test is)
]

select-Among :
    (test : ℕ → Bool) (is : List ℕ) (j : ℕ) → Among j is → test j ≡ true → Among j (select test is)
select-Among test [] j h t = absurd h
select-Among test (i ∷ is) j (inl here) t = rw (sym (ap test here) ∙ t) (inl here)
select-Among test (i ∷ is) j (inr there) t = elim (Bool-cases (test i)) [
  | inl hit ↦ rw hit (inr (select-Among test is j there t))
  | inr miss ↦ rw miss (select-Among test is j there t)
]

Among-left : (is js : List ℕ) (j : ℕ) → Among j is → Among j (is ++ js)
Among-left [] js j h = absurd h
Among-left (i ∷ is) js j (inl here) = inl here
Among-left (i ∷ is) js j (inr there) = inr (Among-left is js j there)

Among-right : (is js : List ℕ) (j : ℕ) → Among j js → Among j (is ++ js)
Among-right [] js j h = h
Among-right (i ∷ is) js j h = inr (Among-right is js j h)

late_first :
    (late : ℕ → Bool) (ys before after : List ℕ) (j : ℕ)
    → All (λ i. late i ≡ true) ys
    → ys ≡ before ++ j ∷ after
    → late j ≡ true
late_first late [] [] after j h e = absurd (grind (arith, e))
late_first late [] (b ∷ before) after j h e = absurd (grind (arith, e))
late_first late (y ∷ ys) [] after j h e = grind (arith, e, h.0)
late_first late (y ∷ ys) (b ∷ before) after j h e =
    late_first late ys before after j h.1 (grind (arith, e))

pub early_first :
    (late : ℕ → Bool) (xs ys before after : List ℕ) (j : ℕ)
    → All (λ i. not (late i) ≡ true) xs
    → All (λ i. late i ≡ true) ys
    → xs ++ ys ≡ before ++ j ∷ after
    → late j ≡ false
    → All (λ i. late i ≡ false) before
early_first late [] ys before after j hx hy e early =
    absurd (grind (arith, early, late_first late ys before after j hy e))
early_first late (x ∷ xs) ys [] after j hx hy e early = tt
early_first late (x ∷ xs) ys (b ∷ before) after j hx hy e early =
    (grind (arith, e, hx.0), early_first late xs ys before after j hx.1 hy (grind (arith, e)) early)

pub argsort-Among : (n : ℕ) (scores : ℕ → ℕ) (i : ℕ) → i < n → Among i (sort_by scores (range n))
argsort-Among n scores i h =
    sort_by-Among scores (range n) i (range_from-Among 0 n i (omega arith) (omega arith))

pub lexsort-Among :
    (n : ℕ) (scores : ℕ → ℕ) (late : ℕ → Bool) (i : ℕ)
    → i < n
    → Among i (
        select (λ j. not (late j)) (sort_by scores (range n))
        ++ select late (sort_by scores (range n)))
lexsort-Among n scores late i h = elim (Bool-cases (late i)) [
  | inl last ↦ Among-right _ _ i (select-Among late _ i (argsort-Among n scores i h) last)
  | inr first ↦
      Among-left _ _ i
        (select-Among (λ j. not (late j)) _ i (argsort-Among n scores i h) (ap not first))
]

abbrev pub stable : Sorting ℕ
stable = record {
  argsort = λ n scores. sort_by scores (range n);
  lexsort = λ n scores late.
      select (λ i. not (late i)) (sort_by scores (range n))
      ++ select late (sort_by scores (range n));
  argsort-Among = argsort-Among;
  lexsort-Among = lexsort-Among;
  lexsort_primary = λ n scores late before after j e early.
      early_first late (select (λ i. not (late i)) (sort_by scores (range n)))
        (select late (sort_by scores (range n))) before after j
        (select-All (λ i. not (late i)) (sort_by scores (range n)))
        (select-All late (sort_by scores (range n))) e early;
}
