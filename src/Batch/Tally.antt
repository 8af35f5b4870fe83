-- ===== src/Batch/Tally.antt =====
-- What the batch client makes of its sample sets and of its replies.
use Prim.Native.String.{String}
use symphony_akida.Prelude.{
  ℕ, ◌+◌, ◌≡◌, refl, ◌∙◌, inl, inr, List, [], ◌∷◌, Option, none, some, arith, ltb, length,
  Bool-cases,
}
use symphony_akida.Prelude.Dict.{lookup, insert, string_eq}
use symphony_akida.Pipeline.{tally}
use symphony_akida.Batch.Client.{
  add_answer, Answer, Results, no_results, receive, receive_all, fetch_loop,
}

-- The sum of a tally.
abbrev pub total : List (String × ℕ) → ℕ
total [] = 0
total ((key, n) ∷ m) = n + total m

total-tally : (key : String) (n : ℕ) (m : List (String × ℕ)) → total (tally key n m) ≡ total m + n
unfolding lookup insert
total-tally key n [] = omega arith
total-tally key n ((k, old) ∷ m) = ground (arith, total-tally key n m)

-- Every output is an answer of a host or an error.
record Balanced (s : Results) : Type 0 where
  hosts : total s.per_host + s.errors ≡ s.done
  names : total s.classes + s.errors ≡ s.done

receive-Balanced : (out : Option Answer) (s : Results) → Balanced s → Balanced (receive out s)
unfolding receive add_answer
receive-Balanced none s b = ground arith
receive-Balanced (some r) s b =
    ground (arith, total-tally r.host 1 s.per_host, total-tally r.cls_name 1 s.classes)

receive_all-Balanced :
    (outs : List (Option Answer)) (s : Results) → Balanced s → Balanced (receive_all outs s)
receive_all-Balanced [] s b = b
receive_all-Balanced (out ∷ outs) s b =
    receive_all-Balanced outs (receive out s) (receive-Balanced out s b)

receive_done : (out : Option Answer) (s : Results) → (receive out s).done ≡ s.done + 1
unfolding receive add_answer
receive_done none s = refl
receive_done (some r) s = ground arith

receive_all_done :
    (outs : List (Option Answer)) (s : Results) → (receive_all outs s).done ≡ s.done + length outs
receive_all_done [] s = omega arith
receive_all_done (out ∷ outs) s =
    omega (arith, receive_all_done outs (receive out s), receive_done out s)

-- How many outputs the batches hold.
abbrev pub outputs : List (List (Option Answer)) → ℕ
outputs [] = 0
outputs (outs ∷ batches) = length outs + outputs batches

fetch_loop-Balanced :
    (count : ℕ) (batches : List (List (Option Answer))) (s : Results)
    → Balanced s
    → Balanced (fetch_loop count batches s)
unfolding fetch_loop
fetch_loop-Balanced count [] s b = b
fetch_loop-Balanced count (outs ∷ batches) s b = elim (Bool-cases (ltb s.done count)) [
  | inl goes ↦
      rw goes
        (fetch_loop-Balanced count batches (receive_all outs s) (receive_all-Balanced outs s b))
  | inr ends ↦ rw ends b
]

fetch_loop_done :
    (count : ℕ) (batches : List (List (Option Answer))) (s : Results)
    → s.done + outputs batches ≡ count
    → (fetch_loop count batches s).done ≡ count
unfolding fetch_loop
fetch_loop_done count [] s e = omega (arith, e)
fetch_loop_done count (outs ∷ batches) s e = elim (Bool-cases (ltb s.done count)) [
  | inl goes ↦ rw goes (
      fetch_loop_done count batches (receive_all outs s)
        (omega (arith, receive_all_done outs s, e)))
  | inr ends ↦ rw ends (ground arith)
]

-- If the session hands out one output for each task, in batches of any sizes, the loop ends with
-- all of them counted: each is the answer of a host, under one class, or an error.
pub fetch_loop_counts :
    (count : ℕ) (batches : List (List (Option Answer)))
    → outputs batches ≡ count
    → let s = fetch_loop count batches no_results in
      (s.done ≡ count)
      × (total s.per_host + s.errors ≡ count)
      × (total s.classes + s.errors ≡ count)
fetch_loop_counts count batches e =
    let b =
      fetch_loop-Balanced count batches no_results
        (record { hosts = omega arith; names = omega arith }) in
    let d = fetch_loop_done count batches no_results (omega (arith, e)) in
    (d, b.hosts ∙ d, b.names ∙ d)
