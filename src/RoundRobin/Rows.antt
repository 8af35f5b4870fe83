-- ===== src/RoundRobin/Rows.antt =====
-- What a run over the samples reports: app.py, `api_run_samples`.
use Prim.Native.String.{String}
use text.Mathlib.Text.{◌==◌ as str_eq}
use symphony_akida.Prelude.{
  length-range_from, ℕ, ◌+◌, ◌*◌, ◌/◌, ◌≤◌, ◌<◌, ◌≡◌, refl, ap, ◌∙◌, Bool, true, false, min, List,
  [], ◌∷◌, ◌++◌, map, Option, some, arith, length, get_or, take, range, if◌then◌else◌,
}
use symphony_akida.Prelude.Outcome.{Outcome, return, raise}
use symphony_akida.Prelude.Dict.{lookup, insert, string_eq}
use symphony_akida.Wire.Stream.{Bytes}
use symphony_akida.RoundRobin.{
  Clients, Row, answered, errored, Inferred, Side, Report, Answer, status_400, status_503,
  status_200, or_zero, add_row, next_histogram, turn, values_of, run_loop, run_on, run_samples,
  load_all, live_clients,
}
use symphony_akida.RoundRobin.Turns.{occurrences, shares}
use symphony_akida.RoundRobin.Asked.{
  logged, live_clients-log, load_all-log, run_loop-log, map-turns,
}

abbrev pub index_of : Row → ℕ
index_of (answered i r) = i
index_of (errored i url e) = i

abbrev pub indices : List Row → List ℕ
indices [] = []
indices (row ∷ rows) = index_of row ∷ indices rows

abbrev pub error_of : Row → ℕ
error_of (answered i r) = 0
error_of (errored i url e) = 1

abbrev pub errors : List Row → ℕ
errors [] = 0
errors (row ∷ rows) = error_of row + errors rows

abbrev pub total : List (String × ℕ) → ℕ
total [] = 0
total ((name, n) ∷ histogram) = n + total histogram

total_branch :
    (b : Bool) (name other : String) (m n : ℕ) (histogram rest : List (String × ℕ))
    (found : Option ℕ)
    → total rest + or_zero found ≡ total histogram + m
    → total (if b then (name, m) ∷ histogram else (other, n) ∷ rest)
        + or_zero (if b then some n else found)
      ≡ n + total histogram + m
total_branch true name other m n histogram rest found e = omega arith
total_branch false name other m n histogram rest found e = omega (arith, e)

total-insert :
    (name : String) (m : ℕ) (histogram : List (String × ℕ))
    → total (insert name m histogram) + or_zero (lookup name histogram) ≡ total histogram + m
unfolding lookup insert
total-insert name m [] = omega arith
total-insert name m ((other, n) ∷ histogram) =
    total_branch (str_eq other name) name other m n histogram (insert name m histogram)
      (lookup name histogram) (total-insert name m histogram)

total-count_class :
    (name : String) (histogram : List (String × ℕ))
    → total (insert name (or_zero (lookup name histogram) + 1) histogram) ≡ total histogram + 1
total-count_class name histogram =
    omega (arith, total-insert name (or_zero (lookup name histogram) + 1) histogram)

module _ {W : Type 0} (api : Clients W) (nodes : List String) (blob : Bytes) (per : ℕ) where
  abbrev Counts : List ℕ → List (String × ℕ) → List Row → List (String × ℕ) → Type 0
  Counts is before rows after =
      (indices rows ≡ is) × (total after + errors rows ≡ total before + length is)

  abbrev CountsOut : List ℕ → List (String × ℕ) → W × (List Row × List (String × ℕ)) → Type 0
  CountsOut is before (w, (rows, after)) = Counts is before rows after

  add_row-CountsOut :
      (i : ℕ) (is : List ℕ) (url : String) (out : Outcome Inferred) (before : List (String × ℕ))
      (rest : W × (List Row × List (String × ℕ)))
      → CountsOut is (next_histogram api out before) rest
      → CountsOut (i ∷ is) before (add_row api i url out rest)
  add_row-CountsOut i is url (return r) before (w, (rows, after)) h =
      (ap (λ js. i ∷ js) h.0, omega (arith, h.1, total-count_class r.cls_name before))
  add_row-CountsOut i is url (raise e) before (w, (rows, after)) h =
      (ap (λ js. i ∷ js) h.0, omega (arith, h.1))

  run_loop-CountsOut :
      (is : List ℕ) (before : List (String × ℕ)) (w : W)
      → CountsOut is before (run_loop api nodes blob per is before w)
  unfolding run_loop
  run_loop-CountsOut [] before w = (refl, refl)
  run_loop-CountsOut (i ∷ is) before w =
      let url = get_or nodes (turn (length nodes) i) "" in
      let called = api.infer url (values_of api blob per i) w in
      add_row-CountsOut i is url called.1 before _
        (run_loop-CountsOut is (next_histogram api called.1 before) called.0)

-- A report on `n` samples, and the nodes that were asked: by their places in `nodes`, each of which
-- has an equal share, give or take one.
abbrev pub IsComplete : ℕ → List String → Report → List String → Type 0
IsComplete n nodes report log =
    (indices report.rows ≡ range n)
    × (total report.histogram + errors report.rows ≡ n)
    × (report.nodes_used ≡ length nodes)
    × ((picks : List ℕ) × (log ≡ map (λ j. get_or nodes j "") picks)
        × ((j : ℕ)
            → j < length nodes
            → (n / length nodes ≤ occurrences j picks)
              × (occurrences j picks ≤ n / length nodes + 1)))

abbrev pub Reports : ℕ → List String → Answer → List String → Type 0
Reports n live status_400 log = ⊥
Reports n live status_503 log = (live ≡ []) × (log ≡ [])
Reports n live (status_200 report) log = IsComplete n live report log

module _ {W : Type 0} (api : Clients W) (limit : ℕ) (side : Side) (blob : Bytes) where
  run_on-Reports :
      (nodes : List String) (w : W × List String)
      → w.1 ≡ []
      → let ran = run_on (logged api) limit side blob nodes w in
        Reports (min side.count limit) nodes ran.1 ran.0.1
  run_on-Reports [] w fresh = (refl, fresh)
  run_on-Reports (url ∷ urls) w fresh =
      let n = min side.count limit in
      let nodes = url ∷ urls in
      let bytes = take (n * side.per_sample_bytes) blob in
      let loaded = load_all (logged api) side.model nodes w in
      let counts =
        run_loop-CountsOut (logged api) nodes bytes side.per_sample_bytes (range n) [] loaded.0 in
      let asked = run_loop-log api nodes bytes side.per_sample_bytes (range n) [] loaded.0 in
      let before : loaded.0.1 ≡ [] = load_all-log api side.model nodes w ∙ fresh in
      (
        counts.0,
        omega (arith, counts.1, length-range_from 0 n),
        refl,
        (
          map (turn (length nodes)) (range n),
          asked
              ∙ ap (λ log. log ++ map (λ i. get_or nodes (turn (length nodes) i) "") (range n))
                  before
              ∙ map-turns nodes (range n),
          λ j h. shares (length nodes) j n h,
        ),
      )

  -- A run on a sample set whose files are there reports that no node is live, where none is, and asks
  -- none; else it has a row for each sample up to the limit, in order, every row is an error or
  -- counted in the histogram, and the calls of /infer that it made, in their order, are to live nodes
  -- of which each has an equal share, give or take one.
  pub run_samples-Reports :
      (urls : List String) (w : W)
      → let ran = run_samples (logged api) limit urls (some side) (some blob) (w, []) in
        Reports (min side.count limit) (live_clients (logged api) urls (w, [])).1 ran.1 ran.0.1
  unfolding run_samples
  run_samples-Reports urls w =
      let live = live_clients (logged api) urls (w, []) in
      run_on-Reports live.1 live.0 (live_clients-log api urls (w, []))
