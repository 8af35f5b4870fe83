-- ===== src/Merge/Visits.antt =====
-- The loop of `_greedy_suppress` in tiled_shard.py, on a list of indices.
use symphony_akida.Prelude.{
  ℕ, ◌≡◌, ◌≢◌, refl, sym, ap, ◌∙◌, subst, ◌⊎◌, inl, inr, Bool, true, false, ◌||◌, List, [], ◌∷◌,
  ◌++◌, leb, arith, All, Bool-cases,
}
use symphony_akida.Merge.Suppress.{place, sorted, suppress_loop, Among}

-- Every earlier element is related to every later one.
abbrev pub Pairwise : (ℕ → ℕ → Type 0) → List ℕ → Type 0
Pairwise R [] = Unit {0}
Pairwise R (i ∷ is) = All (R i) is × Pairwise R is

All-imply : {P Q : ℕ → Type 0} (is : List ℕ) → ((i : ℕ) → P i → Q i) → All P is → All Q is
All-imply [] h p = tt
All-imply (i ∷ is) h p = (h i p.0, All-imply is h p.1)

Among-append : (before after : List ℕ) (j : ℕ) → Among j (before ++ j ∷ after)
Among-append [] after j = inl refl
Among-append (i ∷ before) after j = inr (Among-append before after j)

pub Among-split :
    (is : List ℕ) (j : ℕ)
    → Among j is
    → (before : List ℕ) × (after : List ℕ) × (is ≡ before ++ j ∷ after)
Among-split [] j h = absurd h
Among-split (i ∷ is) j (inl here) = ([], is, ap (λ k. k ∷ is) (sym here))
Among-split (i ∷ is) j (inr there) =
    let (before, after, e) = Among-split is j there in (i ∷ before, after, ap (λ ks. i ∷ ks) e)

pub All-Among : (P : ℕ → Type 0) (is : List ℕ) (j : ℕ) → All P is → Among j is → P j
All-Among P [] j p h = absurd h
All-Among P (i ∷ is) j p (inl here) = subst P (sym here) p.0
All-Among P (i ∷ is) j p (inr there) = All-Among P is j p.1 there

place-Among_left : (i : ℕ) (is : List ℕ) (j : ℕ) → Among j (i ∷ is) → Among j (place i is)
place-Among_left i [] j h = h
place-Among_left i (k ∷ ks) j h = elim (Bool-cases (leb i k)) [
  | inl first ↦ rw first h
  | inr later ↦ rw later (elim h [
    | inl here ↦ inr (place-Among_left i ks j (inl here))
    | inr (inl next) ↦ inl next
    | inr (inr there) ↦ inr (place-Among_left i ks j (inr there))
  ])
]

pub sorted-Among : (is : List ℕ) (j : ℕ) → Among j is → Among j (sorted is)
sorted-Among [] j h = h
sorted-Among (i ∷ is) j (inl here) = place-Among_left i (sorted is) j (inl here)
sorted-Among (i ∷ is) j (inr there) =
    place-Among_left i (sorted is) j (inr (sorted-Among is j there))

place_first : (i k : ℕ) (ks : List ℕ) → leb i k ≡ true → place i (k ∷ ks) ≡ i ∷ k ∷ ks
place_first i k ks first = rw first refl

place_later : (i k : ℕ) (ks : List ℕ) → leb i k ≡ false → place i (k ∷ ks) ≡ k ∷ place i ks
place_later i k ks later = rw later refl

place-Among_right : (i : ℕ) (is : List ℕ) (j : ℕ) → Among j (place i is) → Among j (i ∷ is)
place-Among_right i [] j h = h
place-Among_right i (k ∷ ks) j h = elim (Bool-cases (leb i k)) [
  | inl first ↦ subst (Among j) (place_first i k ks first) h
  | inr later ↦ elim (subst (Among j) (place_later i k ks later) h) [
    | inl next ↦ inr (inl next)
    | inr there ↦ elim (place-Among_right i ks j there) [
      | inl here ↦ inl here
      | inr far ↦ inr (inr far)
    ]
  ]
]

pub sorted-Among_right : (is : List ℕ) (j : ℕ) → Among j (sorted is) → Among j is
sorted-Among_right [] j h = h
sorted-Among_right (i ∷ is) j h = elim (place-Among_right i (sorted is) j h) [
  | inl here ↦ inl here
  | inr there ↦ inr (sorted-Among_right is j there)
]

module _ (victims : ℕ → ℕ → Bool) where
  -- What is suppressed at the start is not kept.
  suppress_loop_free :
      (order : List ℕ) (suppressed : ℕ → Bool)
      → All (λ j. suppressed j ≡ false) (suppress_loop victims order suppressed)
  unfolding suppress_loop
  suppress_loop_free [] suppressed = tt
  suppress_loop_free (i ∷ order) suppressed = elim (Bool-cases (suppressed i)) [
    | inl skipped ↦ rw skipped (suppress_loop_free order suppressed)
    | inr free ↦
        let grown : ℕ → Bool = λ j. suppressed j || victims i j in
        rw free (free, All-imply _ (λ j e. grind (arith, e)) (suppress_loop_free order grown))
  ]

  pub suppress_loop-Pairwise :
      (order : List ℕ) (suppressed : ℕ → Bool)
      → Pairwise (λ i j. victims i j ≡ false) (suppress_loop victims order suppressed)
  unfolding suppress_loop
  suppress_loop-Pairwise [] suppressed = tt
  suppress_loop-Pairwise (i ∷ order) suppressed = elim (Bool-cases (suppressed i)) [
    | inl skipped ↦ rw skipped (suppress_loop-Pairwise order suppressed)
    | inr free ↦
        let grown : ℕ → Bool = λ j. suppressed j || victims i j in
        rw free (
          All-imply _ (λ j e. grind (arith, e)) (suppress_loop_free order grown),
          suppress_loop-Pairwise order grown,
        )
  ]

  -- A candidate is kept, or suppressed from the start, or a victim of an earlier one that is kept.
  pub suppress_loop_cause :
      (before after : List ℕ) (j : ℕ) (suppressed : ℕ → Bool)
      → let order = before ++ j ∷ after in
        Among j (suppress_loop victims order suppressed)
        ⊎ ((suppressed j ≡ true)
            ⊎ ((i : ℕ) × Among i before
                × Among i (suppress_loop victims order suppressed)
                × (victims i j ≡ true)))
  unfolding suppress_loop
  suppress_loop_cause [] after j suppressed = elim (Bool-cases (suppressed j)) [
    | inl skipped ↦ inr (inl skipped)
    | inr free ↦ inl (rw free (inl refl))
  ]
  suppress_loop_cause (k ∷ before) after j suppressed = elim (Bool-cases (suppressed k)) [
    | inl skipped ↦ rw skipped (elim (suppress_loop_cause before after j suppressed) [
      | inl stays ↦ inl stays
      | inr (inl gone) ↦ inr (inl gone)
      | inr (inr (i, earlier, stays, hit)) ↦ inr (inr (i, inr earlier, stays, hit))
    ])
    | inr free ↦
        rw free (elim (suppress_loop_cause before after j (λ m. suppressed m || victims k m)) [
          | inl stays ↦ inl (inr stays)
          | inr (inl gone) ↦ elim (Bool-cases (suppressed j)) [
            | inl already ↦ inr (inl already)
            | inr fresh ↦ inr (inr (k, inl refl, inl refl, grind (arith, gone, fresh)))
          ]
          | inr (inr (i, earlier, stays, hit)) ↦ inr (inr (i, inr earlier, inr stays, hit))
        ])
  ]

pub Pairwise-Among :
    (R : ℕ → ℕ → Type 0) (is : List ℕ) (i j : ℕ)
    → Pairwise R is
    → Among i is
    → Among j is
    → i ≢ j
    → R i j ⊎ R j i
Pairwise-Among R [] i j p hi hj apart = absurd hi
Pairwise-Among R (k ∷ is) i j p (inl e) (inl e') apart = absurd (apart (e ∙ sym e'))
Pairwise-Among R (k ∷ is) i j p (inl e) (inr hj) apart =
    inl (subst (λ m. R m j) (sym e) (All-Among (R k) is j p.0 hj))
Pairwise-Among R (k ∷ is) i j p (inr hi) (inl e') apart =
    inr (subst (λ m. R m i) (sym e') (All-Among (R k) is i p.0 hi))
Pairwise-Among R (k ∷ is) i j p (inr hi) (inr hj) apart = Pairwise-Among R is i j p.1 hi hj apart
