-- ===== src/Examples/Batch.antt =====
-- The theorems on the batch client and on the frame pool, at small inputs.
use Prim.Native.String.{String}
use text.Mathlib.Text.{◌==◌ as str_eq}
use symphony_akida.Prelude.{
  not, ◌&&◌, ℕ, ◌+◌, ◌≡◌, refl, inl, Bool, true, false, List, [], ◌∷◌, Option, none, some, arith,
  length, replicate, range,
}
use symphony_akida.Batch.Client.{
  Sidecar, Entry, ranks_before, resolve_set, senders, Answer, no_results, fetch_loop,
}
use symphony_akida.Batch.Partition.{senders-range}
use symphony_akida.Batch.Sets.{resolve_set_best}
use symphony_akida.Batch.Tally.{total, fetch_loop_counts}
use symphony_akida.Pool.{Side}

-- Ten tasks over four threads.
senders-range_example : senders 10 4 ≡ range 10
senders-range_example = senders-range 10 4

abbrev node_answer : Answer
node_answer = record {
  is_error = false;
  host = "node1";
  inference_us = 250;
  identity = "AKD1000";
  cls_name = "yes";
}

abbrev some_batches : List (List (Option Answer))
some_batches =
    (some node_answer ∷ none ∷ [])
    ∷ []
    ∷ (some (record node_answer { is_error = true }) ∷ some node_answer ∷ [])
    ∷ []

fetch_loop_counts_example :
    let s = fetch_loop 4 some_batches no_results in
    (s.done ≡ 4) × (total s.per_host + s.errors ≡ 4) × (total s.classes + s.errors ≡ 4)
fetch_loop_counts_example = fetch_loop_counts 4 some_batches (omega arith)

abbrev noise : Sidecar
noise = record {
  model = "kws";
  set_name = "noise";
  random = true;
  count = 99;
  per_sample_bytes = 4;
}

abbrev speech : Sidecar
speech = record {
  model = "kws";
  set_name = "speech";
  random = false;
  count = 7;
  per_sample_bytes = 4;
}

abbrev listing : List Entry
listing =
    record { is_sidecar = true; text = some noise }
    ∷ record { is_sidecar = false; text = none }
    ∷ record { is_sidecar = true; text = some speech }
    ∷ []

-- An order of names by whether they are "a" and then anything else.
abbrev a_first : String → String → Bool
a_first s t = str_eq s "a" && not (str_eq t "a")

a_first_trans : (a b c : String) → a_first a b ≡ true → a_first b c ≡ true → a_first a c ≡ true
a_first_trans a b c h h' = ground (arith, h, h')

a_first_irrefl : (a : String) → a_first a a ≡ false
a_first_irrefl a = ground arith

resolve_set_best_example :
    (best : Sidecar) × (resolve_set a_first "kws" (some listing) ≡ some best)
    × (str_eq best.model "kws" ≡ true)
    × (ranks_before a_first noise best ≡ false)
resolve_set_best_example =
    resolve_set_best a_first a_first_trans a_first_irrefl "kws" listing noise
      (inl (refl, refl, refl))

-- Two samples of three bytes, and a run that would take four.
abbrev two_samples : Side
two_samples = record { per_sample_bytes = 3; count = 2 }

replicate_lem : (k : ℕ) → length (replicate 3 k) ≡ 3
replicate_lem k = refl
