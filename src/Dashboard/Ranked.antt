-- ===== src/Dashboard/Ranked.antt =====
-- The two sorts of the gallery: `api_run` of src/apps/image-shard-inference/dashboard/app.py.
use symphony_akida.Prelude.{
  ℕ, zero, suc, ◌≤◌, ◌≡◌, refl, ap, subst, ◌∙◌, ◌⊎◌, inl, inr, List, [], ◌∷◌, leb, arith, if_both,
  length, take, All, Any, Bool-cases,
}
use symphony_akida.Evaluation.{place_sample}
use symphony_akida.Dashboard.{place_ranked, sort_ranked, sort_samples}

-- Each has at least as many boxes as those after it.
abbrev Falls : List (ℕ × ℕ) → Type 0
Falls [] = Unit
Falls (a ∷ more) = All (λ b. b.1 ≤ a.1) more × Falls more

-- The samples rise.
abbrev pub Rises : List ℕ → Type 0
Rises [] = Unit
Rises (n ∷ more) = All (λ m. n ≤ m) more × Rises more

place_ranked-All :
    (P : ℕ × ℕ → Type 0) (a : ℕ × ℕ) (bs : List (ℕ × ℕ))
    → P a
    → All P bs
    → All P (place_ranked a bs)
unfolding place_ranked
place_ranked-All P a [] p h = (p, tt)
place_ranked-All P a (b ∷ bs) p h =
    if_both (All P) (leb b.1 a.1) (a ∷ b ∷ bs) (b ∷ place_ranked a bs) (p, h)
      (h.0, place_ranked-All P a bs p h.1)

all_below :
    (a b : ℕ × ℕ) (bs : List (ℕ × ℕ))
    → b.1 ≤ a.1
    → All (λ c. c.1 ≤ b.1) bs
    → All (λ c. c.1 ≤ a.1) bs
all_below a b [] h low = tt
all_below a b (c ∷ bs) h low = (omega (arith, h, low.0), all_below a b bs h low.1)

place_ranked-Falls : (a : ℕ × ℕ) (bs : List (ℕ × ℕ)) → Falls bs → Falls (place_ranked a bs)
unfolding place_ranked
place_ranked-Falls a [] h = (tt, tt)
place_ranked-Falls a (b ∷ bs) h = elim (Bool-cases (leb b.1 a.1)) [
  | inl first ↦
      let low : b.1 ≤ a.1 = ground (arith, first) in rw first ((low, all_below a b bs low h.0), h)
  | inr later ↦ rw later (
    place_ranked-All (λ c. c.1 ≤ b.1) a bs (ground (arith, later)) h.0,
    place_ranked-Falls a bs h.1,
  )
]

pub sort_ranked-Falls : (entries : List (ℕ × ℕ)) → Falls (sort_ranked entries)
unfolding sort_ranked
sort_ranked-Falls [] = tt
sort_ranked-Falls (a ∷ more) = place_ranked-Falls a (sort_ranked more) (sort_ranked-Falls more)

-- Those who are in the list one is placed in, and the one itself, are in the result, and no other.
place_ranked-Any :
    (P : ℕ × ℕ → Type 0) (a : ℕ × ℕ) (bs : List (ℕ × ℕ))
    → Any P (a ∷ bs)
    → Any P (place_ranked a bs)
unfolding place_ranked
place_ranked-Any P a [] h = h
place_ranked-Any P a (b ∷ bs) h = elim (Bool-cases (leb b.1 a.1)) [
  | inl first ↦ rw first h
  | inr later ↦ rw later (elim h [
    | inl here ↦ inr (place_ranked-Any P a bs (inl here))
    | inr (inl next) ↦ inl next
    | inr (inr there) ↦ inr (place_ranked-Any P a bs (inr there))
  ])
]

pub sort_ranked-Any :
    (P : ℕ × ℕ → Type 0) (entries : List (ℕ × ℕ)) → Any P entries → Any P (sort_ranked entries)
unfolding sort_ranked
sort_ranked-Any P [] h = h
sort_ranked-Any P (a ∷ more) (inl here) = place_ranked-Any P a (sort_ranked more) (inl here)
sort_ranked-Any P (a ∷ more) (inr there) =
    place_ranked-Any P a (sort_ranked more) (inr (sort_ranked-Any P more there))

pub sort_ranked-All :
    (P : ℕ × ℕ → Type 0) (entries : List (ℕ × ℕ)) → All P entries → All P (sort_ranked entries)
unfolding sort_ranked
sort_ranked-All P [] h = tt
sort_ranked-All P (a ∷ more) h =
    place_ranked-All P a (sort_ranked more) h.0 (sort_ranked-All P more h.1)

held_by :
    (P : ℕ × ℕ → Type 0) (e : ℕ × ℕ) (entries : List (ℕ × ℕ))
    → All P entries
    → Any (λ a. a ≡ e) entries
    → P e
held_by P e [] h among = absurd among
held_by P e (a ∷ more) h (inl here) = subst P here h.0
held_by P e (a ∷ more) h (inr there) = held_by P e more h.1 there

-- One of a falling list is among the first `k`, or has no more boxes than any of them.
pub kept_or_less :
    (e : ℕ × ℕ) (k : ℕ) (entries : List (ℕ × ℕ))
    → Falls entries
    → Any (λ a. a ≡ e) entries
    → Any (λ a. a ≡ e) (take k entries) ⊎ All (λ a. e.1 ≤ a.1) (take k entries)
kept_or_less e zero entries h among = inr tt
kept_or_less e (suc k) [] h among = absurd among
kept_or_less e (suc k) (a ∷ more) h (inl here) = inl (inl here)
kept_or_less e (suc k) (a ∷ more) h (inr there) = elim (kept_or_less e k more h.1 there) [
  | inl kept ↦ inl (inr kept)
  | inr less ↦ inr (held_by (λ b. b.1 ≤ a.1) e more h.0 there, less)
]

place_sample-All :
    (P : ℕ → Type 0) (n : ℕ) (ms : List ℕ) → P n → All P ms → All P (place_sample n ms)
unfolding place_sample
place_sample-All P n [] p h = (p, tt)
place_sample-All P n (m ∷ ms) p h =
    if_both (All P) (leb n m) (n ∷ m ∷ ms) (m ∷ place_sample n ms) (p, h)
      (h.0, place_sample-All P n ms p h.1)

all_above : (n m : ℕ) (ms : List ℕ) → n ≤ m → All (λ k. m ≤ k) ms → All (λ k. n ≤ k) ms
all_above n m [] h low = tt
all_above n m (k ∷ ms) h low = (omega (arith, h, low.0), all_above n m ms h low.1)

place_sample-Rises : (n : ℕ) (ms : List ℕ) → Rises ms → Rises (place_sample n ms)
unfolding place_sample
place_sample-Rises n [] h = (tt, tt)
place_sample-Rises n (m ∷ ms) h = elim (Bool-cases (leb n m)) [
  | inl first ↦
      let low : n ≤ m = ground (arith, first) in rw first ((low, all_above n m ms low h.0), h)
  | inr later ↦
      rw later (
        place_sample-All (λ k. m ≤ k) n ms (ground (arith, later)) h.0,
        place_sample-Rises n ms h.1,
      )
]

length-place_sample : (n : ℕ) (ms : List ℕ) → length (place_sample n ms) ≡ suc (length ms)
unfolding place_sample
length-place_sample n [] = refl
length-place_sample n (m ∷ ms) =
    if_both (λ ks. length ks ≡ suc (suc (length ms))) (leb n m) (n ∷ m ∷ ms) (m ∷ place_sample n ms)
      refl (ap suc (length-place_sample n ms))

place_sample-Any :
    (P : ℕ → Type 0) (n : ℕ) (ms : List ℕ) → Any P (n ∷ ms) → Any P (place_sample n ms)
unfolding place_sample
place_sample-Any P n [] h = h
place_sample-Any P n (m ∷ ms) h = elim (Bool-cases (leb n m)) [
  | inl first ↦ rw first h
  | inr later ↦ rw later (elim h [
    | inl here ↦ inr (place_sample-Any P n ms (inl here))
    | inr (inl next) ↦ inl next
    | inr (inr there) ↦ inr (place_sample-Any P n ms (inr there))
  ])
]

-- What the sorting of the samples keeps.
pub sort_samples-Rises : (entries : List (ℕ × ℕ)) → Rises (sort_samples entries)
unfolding sort_samples
sort_samples-Rises [] = tt
sort_samples-Rises (a ∷ more) = place_sample-Rises a.0 (sort_samples more) (sort_samples-Rises more)

pub length-sort_samples : (entries : List (ℕ × ℕ)) → length (sort_samples entries) ≡ length entries
unfolding sort_samples
length-sort_samples [] = refl
length-sort_samples (a ∷ more) =
    length-place_sample a.0 (sort_samples more) ∙ ap suc (length-sort_samples more)

pub sort_samples-All :
    (P : ℕ → Type 0) (entries : List (ℕ × ℕ))
    → All (λ a. P a.0) entries
    → All P (sort_samples entries)
unfolding sort_samples
sort_samples-All P [] h = tt
sort_samples-All P (a ∷ more) h =
    place_sample-All P a.0 (sort_samples more) h.0 (sort_samples-All P more h.1)

pub sort_samples-Any :
    (e : ℕ × ℕ) (entries : List (ℕ × ℕ))
    → Any (λ a. a ≡ e) entries
    → Any (λ n. n ≡ e.0) (sort_samples entries)
unfolding sort_samples
sort_samples-Any e [] h = h
sort_samples-Any e (a ∷ more) (inl here) =
    place_sample-Any (λ n. n ≡ e.0) a.0 (sort_samples more) (inl (ap (λ p. p.0) here))
sort_samples-Any e (a ∷ more) (inr there) =
    place_sample-Any (λ n. n ≡ e.0) a.0 (sort_samples more) (inr (sort_samples-Any e more there))
