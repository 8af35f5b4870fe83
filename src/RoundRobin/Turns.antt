-- ===== src/RoundRobin/Turns.antt =====
-- The nodes take turns: app.py, `nodes[i % len(nodes)]`.
use symphony_akida.Prelude.{
  ℕ, zero, suc, ◌+◌, ◌*◌, ◌/◌, ◌%◌, ◌≤◌, ◌<◌, ◌≡◌, ◌⊎◌, inl, inr, arith, ◌==◌, ltb, ap, ◌∙◌, dec_lt,
  List, [], ◌∷◌, map, range, range_from, Bool, true, false,
}
use native.Mathlib.Nat.{div-add-mod', mod-lt, zero-div, zero-mod}
use symphony_akida.RoundRobin.{turn}
use symphony_akida.Prelude.Division.{div_row, mod_row}

abbrev one_if : Bool → ℕ
one_if true = 1
one_if false = 0

-- How many of the first `n` samples go to node `j` of `k`.
abbrev turns : ℕ → ℕ → ℕ → ℕ
turns k j zero = 0
turns k j (suc n) = turns k j n + one_if (turn k n == j)

-- One more sample.
suc_div :
    (n k : ℕ)
    → 0 < k
    → ((n % k + 1 < k) × (suc n / k ≡ n / k) × (suc n % k ≡ n % k + 1))
      ⊎ ((n % k + 1 ≡ k) × (suc n / k ≡ n / k + 1) × (suc n % k ≡ 0))
suc_div n k pos =
    let whole = div-add-mod' n k in
    let below = mod-lt n pos in
    elim (dec_lt (n % k + 1) k) [
      | yes less ↦
          let row : suc n ≡ n / k * k + (n % k + 1) = omega (arith, whole) in
          inl (
            less,
            ap (λ m. m / k) row ∙ div_row (n / k) (n % k + 1) k less,
            ap (λ m. m % k) row ∙ mod_row (n / k) (n % k + 1) k less,
          )
      | no full ↦
          let all : n % k + 1 ≡ k = omega (arith, below, full) in
          let row : suc n ≡ (n / k + 1) * k + 0 = omega (arith, whole, all) in
          inr (
            all,
            ap (λ m. m / k) row ∙ div_row (n / k + 1) 0 k pos,
            ap (λ m. m % k) row ∙ mod_row (n / k + 1) 0 k pos,
          )
    ]

turns_lem : (k j n : ℕ) → j < k → turns k j n ≡ n / k + one_if (ltb j (n % k))
turns_lem k j zero h = rw (zero-div k, zero-mod k) (ground arith)
turns_lem k j (suc n) h =
    let before = turns_lem k j n h in
    elim (suc_div n k (omega arith)) [
      | inl next ↦ rw (next.1, next.2) (ground (arith, before))
      | inr last ↦ let end = last.0 in rw (last.1, last.2) (ground (arith, before, end))
    ]

one_if-le : (b : Bool) → one_if b ≤ 1
one_if-le true = omega arith
one_if-le false = omega arith

-- How often `j` is picked.
abbrev pub occurrences : ℕ → List ℕ → ℕ
occurrences j [] = 0
occurrences j (i ∷ is) = one_if (i == j) + occurrences j is

occurrences-turns :
    (k j i n : ℕ) → turns k j i + occurrences j (map (turn k) (range_from i n)) ≡ turns k j (i + n)
occurrences-turns k j i zero =
    let same : i + 0 ≡ i = omega arith in omega (arith, ap (turns k j) same)
occurrences-turns k j i (suc n) =
    let rest = occurrences-turns k j (suc i) n in
    let same : suc i + n ≡ i + suc n = omega arith in omega (arith, rest, ap (turns k j) same)

-- Each node has an equal share, give or take one.
pub shares :
    (k j n : ℕ)
    → j < k
    → let picks = map (turn k) (range n) in
      (n / k ≤ occurrences j picks) × (occurrences j picks ≤ n / k + 1)
shares k j n h =
    let exact = turns_lem k j n h in
    let extra = one_if-le (ltb j (n % k)) in
    let start : 0 + n ≡ n = omega arith in
    let same = ap (turns k j) start in
    let counted = occurrences-turns k j 0 n in
    let all : occurrences j (map (turn k) (range n)) ≡ turns k j n = omega (arith, counted, same) in
    (omega (arith, exact, extra, all), omega (arith, exact, extra, all))
