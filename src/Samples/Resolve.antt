-- ===== src/Samples/Resolve.antt =====
-- Which model a dataset is for: prepare_samples.py, `resolve_model`.
use Prim.Native.String.{String}
use symphony_akida.Prelude.{
  ℕ, ◌≡◌, refl, sym, ap, ◌∙◌, inl, inr, List, [], ◌∷◌, none, some, ◌==◌, ==_iff, arith, Any,
  Bool-cases, Option-cases, if◌then◌else◌,
}
use symphony_akida.Prelude.Outcome.{return, Ensures, Ensures-bind, Ensures-map, Outcome-cases}
use symphony_akida.Samples.{Models, sample_size, matches, only_one, resolve_model}

module _ (models : Models) (n : ℕ) where
  -- A name in the models folder is this model's metadata.
  abbrev pub Listed : String → List String → Type 0
  Listed model names = Any (λ name. models.stem name ≡ some model) names

  -- A listed model whose samples have this size.
  abbrev pub Fits : String → Type 0
  Fits model = Listed model models.names × (sample_size models model ≡ return n)

  -- Such a model, and the only one.
  abbrev pub IsOnly : String → Type 0
  IsOnly model = Fits model × ((other : String) → Fits other → other ≡ model)

  abbrev AreMatches : List String → List String → Type 0
  AreMatches names found =
      ((model : String)
        → Any (λ m. m ≡ model) found
        → Listed model names × (sample_size models model ≡ return n))
      × ((model : String)
          → Listed model names
          → sample_size models model ≡ return n
          → Any (λ m. m ≡ model) found)

  skipped :
      (name : String) (names found : List String)
      → models.stem name ≡ none
      → AreMatches names found
      → AreMatches (name ∷ names) found
  skipped name names found bare h = (
    λ model among. let (listed, size) = h.0 model among in (inr listed, size),
    λ model listed size. elim listed [
      | inl here ↦ absurd (cc (bare, here))
      | inr there ↦ h.1 model there size
    ],
  )

  smaller :
      (name model : String) (names found : List String) (m : ℕ)
      → models.stem name ≡ some model
      → sample_size models model ≡ return m
      → AreMatches names found
      → AreMatches (name ∷ names) (if m == n then model ∷ found else found)
  smaller name model names found m stem size h = elim (Bool-cases (m == n)) [
    | inl same ↦ rw same (
      λ other among. elim among [
        | inl here ↦ (
          inl (stem ∙ ap some here),
          ap (sample_size models) (sym here) ∙ size ∙ ap return ((==_iff m n).0 same),
        )
        | inr there ↦ let (listed, size') = h.0 other there in (inr listed, size')
      ],
      λ other listed size'. elim listed [
        | inl here ↦ inl (cc (stem, here))
        | inr there ↦ inr (h.1 other there size')
      ],
    )
    | inr differs ↦ rw differs (
      λ other among. let (listed, size') = h.0 other among in (inr listed, size'),
      λ other listed size'. elim listed [
        | inl here ↦ absurd (grind (arith, stem, here, size, size', differs))
        | inr there ↦ h.1 other there size'
      ],
    )
  ]

  matches-AreMatches : (names : List String) → Ensures (AreMatches names) (matches models n names)
  unfolding matches
  matches-AreMatches [] = (λ model among. absurd among, λ model listed size. listed)
  matches-AreMatches (name ∷ names) = elim (Option-cases (models.stem name)) [
    | inl bare ↦ rw bare (
        Ensures-map (AreMatches names) (AreMatches (name ∷ names)) (matches models n names)
          (λ found h. skipped name names found bare h) (matches-AreMatches names))
    | inr (model, stem) ↦ elim (Outcome-cases (sample_size models model)) [
      | inr (e, broken) ↦ rw (stem, broken) tt
      | inl (m, size) ↦
          rw (stem, size)
            (Ensures-bind (AreMatches names) (AreMatches (name ∷ names)) (matches models n names)
              (λ others. return (if m == n then model ∷ others else others))
              (matches-AreMatches names) (λ found h. smaller name model names found m stem size h))
    ]
  ]

  only_one-Ensures :
      (found : List String) → AreMatches models.names found → Ensures IsOnly (only_one models found)
  only_one-Ensures [] h = tt
  only_one-Ensures (model ∷ []) h = (
    h.0 model (inl refl),
    λ other (listed, size). elim (h.1 other listed size) [
      | inl same ↦ sym same
      | inr none_left ↦ absurd none_left
    ],
  )
  only_one-Ensures (_ ∷ _ ∷ _) h = tt

  -- The model that a dataset is matched to is listed and takes samples of this size, and no other
  -- listed model does.
  pub resolve_model-Fits : Ensures IsOnly (resolve_model models n)
  unfolding resolve_model
  resolve_model-Fits =
      Ensures-bind (AreMatches models.names) IsOnly (matches models n models.names)
        (only_one models) (matches-AreMatches models.names) only_one-Ensures
