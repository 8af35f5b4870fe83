-- ===== src/Batch/Client.antt =====
-- The batch client: soam_client.py, `input_length`, `resolve_set`, `submit`, the loop that starts
-- the senders, and the one that fetches the replies. The shared folder is the sorted list of its
-- entries, each with what its JSON says where it is readable.
use Prim.Native.String.{String}
use text.Mathlib.Text.{◌==◌ as str_eq}
use symphony_akida.Prelude.{
  ℕ, zero, suc, ◌+◌, ◌-◌, ◌*◌, ◌/◌, ◌%◌, min, max, Bool, true, false, not, ◌&&◌, List, [], ◌∷◌,
  ◌++◌, Option, none, some, ltb, leb, length, get_or, range_from, if◌then◌else◌,
}
use symphony_akida.Prelude.Outcome.{Outcome, return, raise, system_exit}
use symphony_akida.Prelude.Dict.{set_default, string_eq}
use symphony_akida.Pipeline.{tally}

-- `<model>_meta.json`, with its shape where it has one.
abbrev pub product : List ℕ → ℕ
product [] = 1
product (d ∷ ds) = d * product ds

abbrev pub length_of : List ℕ → Outcome (ℕ × List ℕ)
length_of [] = raise system_exit
length_of (d ∷ ds) = return (product (d ∷ ds), d ∷ ds)

-- `input_length`: the file may be absent, and so may its shape.
unfoldable pub input_length : Option (List ℕ) → Outcome (ℕ × List ℕ)
input_length none = raise system_exit
input_length (some shape) = length_of shape

-- What a `.samples.json` says.
pub record Sidecar : Type 0 where
  pub model : String
  pub set_name : String
  pub random : Bool
  pub count : ℕ
  pub per_sample_bytes : ℕ

-- `rank < best`: noise after data, the larger set first, then by name.
unfoldable pub ranks_before : (String → String → Bool) → Sidecar → Sidecar → Bool
ranks_before name_lt a b =
    if not a.random && b.random
    then true
    else if a.random && not b.random
    then false
    else if ltb b.count a.count
    then true
    else if ltb a.count b.count
    then false
    else name_lt a.set_name b.set_name

-- An entry of the folder: whether it is a sidecar by its name, and what it says if it parses.
pub record Entry : Type 0 where
  pub is_sidecar : Bool
  pub text : Option Sidecar

module _ (name_lt : String → String → Bool) (model : String) where
  abbrev pub better : Sidecar → Option Sidecar → Option Sidecar
  better side none = some side
  better side (some best) = if ranks_before name_lt side best then some side else some best

  abbrev pub consider : Option Sidecar → Option Sidecar → Option Sidecar
  consider none best = best
  consider (some side) best = if not (str_eq side.model model) then best else better side best

  -- The loop of `resolve_set`.
  unfoldable pub pick : List Entry → Option Sidecar → Option Sidecar
  unfolding ranks_before
  pick [] best = best
  pick (e ∷ es) best = pick es (if not e.is_sidecar then best else consider e.text best)

  -- `resolve_set`; `none` where the folder cannot be listed.
  unfoldable pub resolve_set : Option (List Entry) → Option Sidecar
  unfolding pick
  resolve_set none = none
  resolve_set (some es) = pick es none

-- `submit(lo, hi)`: the indices of the tasks that one thread sends.
unfoldable pub submit : ℕ → ℕ → List ℕ
submit lo hi = range_from lo (hi - lo)

-- The sample of task `i`.
unfoldable pub sample_of_task {ℓ} : {A : Type ℓ} → List A → A → ℕ → A
sample_of_task pool other i = get_or pool (i % length pool) other

-- The loop that starts the senders, from thread `w` on with `n` to come: what all of them send.
unfoldable pub start_senders : ℕ → ℕ → ℕ → ℕ → List ℕ
unfolding submit
start_senders count step w zero = []
start_senders count step w (suc n) =
    let rest = start_senders count step (suc w) n in
    if leb (min count (suc w * step)) (w * step)
    then []
    else submit (w * step) (min count (suc w * step)) ++ rest

unfoldable pub senders : ℕ → ℕ → List ℕ
unfolding start_senders
senders count workers =
    let workers = max 1 workers in start_senders count ((count + workers - 1) / workers) 0 workers

-- A parsed reply of the service.
pub record Answer : Type 0 where
  pub is_error : Bool
  pub host : String
  pub inference_us : ℕ
  pub identity : String
  pub cls_name : String

-- A task output: `none` where SOAM calls it unsuccessful.
pub record Results : Type 0 where
  pub per_host : List (String × ℕ)
  pub per_host_us : List (String × ℕ)
  pub per_host_id : List (String × String)
  pub classes : List (String × ℕ)
  pub errors : ℕ
  pub done : ℕ

abbrev pub no_results : Results
no_results = record {
  per_host = [];
  per_host_us = [];
  per_host_id = [];
  classes = [];
  errors = 0;
  done = 0;
}

unfoldable pub add_answer : Answer → Results → Results
add_answer r s = record s {
  per_host = tally r.host 1 s.per_host;
  per_host_us = tally r.host r.inference_us s.per_host_us;
  per_host_id = set_default r.host r.identity s.per_host_id;
  classes = tally r.cls_name 1 s.classes;
}

-- The body of the loop over fetched outputs.
unfoldable pub receive : Option Answer → Results → Results
unfolding add_answer
receive none s = record s { done = s.done + 1; errors = s.errors + 1 }
receive (some r) s =
    let seen = record s { done = s.done + 1 } in
    if r.is_error then record seen { errors = s.errors + 1 } else add_answer r seen

abbrev pub receive_all : List (Option Answer) → Results → Results
receive_all [] s = s
receive_all (out ∷ outs) s = receive_all outs (receive out s)

-- `while done < count`, over the batches that the session hands out.
unfoldable pub fetch_loop : ℕ → List (List (Option Answer)) → Results → Results
unfolding receive
fetch_loop count [] s = s
fetch_loop count (outs ∷ batches) s =
    let rest = fetch_loop count batches (receive_all outs s) in if ltb s.done count then rest else s
