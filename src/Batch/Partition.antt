-- ===== src/Batch/Partition.antt =====
-- The division of the tasks over the sending threads of soam_client.py.
use native.Mathlib.Nat.{div-lt_iff_lt-mul}
use symphony_akida.Prelude.{
  ℕ, zero, suc, ◌+◌, ◌-◌, ◌*◌, ◌/◌, ◌≤◌, ◌<◌, ◌≡◌, refl, sym, ap, ap₂, inl, inr, min, max, ◌∷◌,
  ◌++◌, arith, leb, range_from, range, Bool-cases,
}
use symphony_akida.Batch.Client.{submit, start_senders, senders}

-- Two ranges that meet are one, and so are a range and an empty one.
range_from-append :
    (i m j n k : ℕ)
    → (0 < n → i + m ≡ j)
    → m + n ≡ k
    → range_from i m ++ range_from j n ≡ range_from i k
range_from-append i zero j zero zero e e' = refl
range_from-append i zero j zero (suc k) e e' = absurd (omega (arith, e'))
range_from-append i zero j (suc n) k e e' =
    let meets : j ≡ i = omega (arith, e (omega arith)) in
    let all_left : suc n ≡ k = omega (arith, e') in ap₂ range_from meets all_left
range_from-append i (suc m) j n zero e e' = absurd (omega (arith, e'))
range_from-append i (suc m) j n (suc k) e e' = ap (◌∷◌ i) (
    range_from-append (suc i) m j n k (λ some_left. omega (arith, e some_left)) (omega (arith, e')))

module _ (count step : ℕ) where
  -- The senders from thread `w` on send the tasks from `w * step` on, if their ranges reach the end.
  start_senders_lem :
      (w n lo left : ℕ)
      → lo ≡ w * step
      → left ≡ count - lo
      → count ≤ lo + n * step
      → start_senders count step w n ≡ range_from lo left
  unfolding start_senders submit
  start_senders_lem w zero lo zero e e' reach = refl
  start_senders_lem w zero lo (suc left) e e' reach = absurd (omega arith)
  start_senders_lem w (suc n) lo left e e' reach =
      let next : suc w * step ≡ lo + step = omega (arith, e) in
      let more : suc n * step ≡ step + n * step = omega arith in
      elim (Bool-cases (leb (min count (suc w * step)) (w * step))) [
        | inl ends ↦ let none_left : left ≡ 0 = grind arith in rw (ends, none_left) refl
        | inr goes ↦
            let sent : start_senders count step (suc w) n
                ≡ range_from (lo + step) (count - (lo + step)) =
              start_senders_lem (suc w) n (lo + step) (count - (lo + step)) (sym next) refl
                (omega (arith, reach, more)) in
            rw (goes, sent, sym e)
              (range_from-append lo (min count (suc w * step) - lo) (lo + step)
                (count - (lo + step)) left (λ some_left. grind arith) (grind arith))
      ]

step_reaches : (count n : ℕ) → 0 < n → count ≤ 0 + n * ((count + n - 1) / n)
step_reaches count n pos =
    let step = (count + n - 1) / n in
    let below : count + n - 1 < suc step * n =
      (div-lt_iff_lt-mul {k = n} {x = count + n - 1} {y = suc step} pos).0 (omega arith) in
    grind arith

-- All threads together send each of the `count` tasks once, in one order: whatever the number of
-- threads, the ranges of the senders divide the tasks.
pub senders-range : (count workers : ℕ) → senders count workers ≡ range count
unfolding senders
senders-range count workers =
    let n = max 1 workers in
    let step = (count + n - 1) / n in
    start_senders_lem count step 0 n 0 count (omega arith) (omega arith)
      (step_reaches count n (omega arith))
