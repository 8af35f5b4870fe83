-- ===== src/Dashboard/Gallery.antt =====
-- The frames that a run shows: the gallery of `api_run` in
-- src/apps/image-shard-inference/dashboard/app.py.
use symphony_akida.Prelude.{
  ℕ, ◌≤◌, ◌≡◌, refl, ap, ◌⊎◌, inl, inr, List, [], ◌∷◌, arith, length, length-take, take, take-All,
  All, Any,
}
use symphony_akida.Evaluation.{Records}
use symphony_akida.Dashboard.{counts_of, sort_ranked, ranked, gallery}
use symphony_akida.Dashboard.Ranked.{
  Rises, sort_ranked-Falls, sort_ranked-Any, sort_ranked-All, kept_or_less, sort_samples-Rises,
  length-sort_samples, sort_samples-All, sort_samples-Any,
}

-- A predicate on every element, from one on the elements that are in the list.
all_members :
    {A : Type 0} (P : A → Type 0) (xs : List A) → ((a : A) → Any (λ b. b ≡ a) xs → P a) → All P xs
all_members P [] h = tt
all_members P (x ∷ xs) h = (h x (inl refl), all_members P xs (λ a among. h a (inr among)))

sample_among :
    (a : ℕ × ℕ) (entries : List (ℕ × ℕ)) → Any (λ b. b ≡ a) entries → Any (λ e. e.0 ≡ a.0) entries
sample_among a [] h = h
sample_among a (b ∷ more) (inl here) = inl (ap (λ p. p.0) here)
sample_among a (b ∷ more) (inr there) = inr (sample_among a more there)

module _ {F : Type 0} (records : Records F) where
  -- A frame of the run is in the gallery, or has no more boxes than any that is.
  abbrev pub IsShownOrLess : ℕ × ℕ → Type 0
  IsShownOrLess e = Any (λ n. n ≡ e.0) (gallery records) ⊎ All (λ a. e.1 ≤ a.1) (ranked records)

  -- The gallery of a run has nine frames at most, each of them of the run, in the order of their
  -- numbers, and no frame of the run outside it has more boxes than one in it.
  pub gallery-Best :
      (length (gallery records) ≤ 9)
      × Rises (gallery records)
      × All (λ n. Any (λ e. e.0 ≡ n) (counts_of records)) (gallery records)
      × All IsShownOrLess (counts_of records)
  unfolding gallery ranked
  gallery-Best =
      let entries = counts_of records in
      let sorted = sort_ranked entries in
      (
        omega (arith, length-sort_samples (take 9 sorted), length-take 9 sorted),
        sort_samples-Rises (take 9 sorted),
        sort_samples-All (λ n. Any (λ e. e.0 ≡ n) entries) (take 9 sorted)
            (take-All (λ a. Any (λ e. e.0 ≡ a.0) entries) 9 sorted
              (sort_ranked-All (λ a. Any (λ e. e.0 ≡ a.0) entries) entries
                (all_members (λ a. Any (λ e. e.0 ≡ a.0) entries) entries
                  (λ a among. sample_among a entries among)))),
        all_members IsShownOrLess entries λ e among.
            elim (kept_or_less e 9 sorted (sort_ranked-Falls entries)
              (sort_ranked-Any (λ a. a ≡ e) entries among)) [
                | inl kept ↦ inl (sort_samples-Any e (take 9 sorted) kept)
                | inr less ↦ inr less
              ],
      )
