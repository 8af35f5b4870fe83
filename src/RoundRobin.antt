-- ===== src/RoundRobin.antt =====
-- The dashboard of the serial application, without its pages:
-- src/apps/serial-http-round-robin/dashboard/app.py. The nodes behind their URLs are the
-- environment: a call of the HTTP client may change it, and where it raises, it raises
-- `AkidaServiceError`, which every caller catches.
pub mod Turns
pub mod Asked
pub mod Rows
use Prim.Native.String.{String}
use text.Mathlib.Text.{◌==◌ as str_eq}
use symphony_akida.Prelude.{
  ℕ, zero, suc, ◌+◌, ◌*◌, ◌%◌, min, Bool, true, false, not, List, [], ◌∷◌, Option, none, some, map,
  ◌==◌, length, get_or, take, drop, range, if◌then◌else◌,
}
use symphony_akida.Prelude.Outcome.{Outcome, return, raise, Exception}
use symphony_akida.Prelude.Dict.{lookup, insert, string_eq}
use symphony_akida.Wire.Stream.{Bytes}

-- What a node answers to /infer.
pub record Inferred : Type 0 where
  pub host : String
  pub cls : ℕ
  pub cls_name : String
  pub us : ℕ

-- `AkidaServiceClient`, by the URL of the node.
pub record Clients (W : Type 0) : Type 0 where
  pub health : String → W → W × Outcome (Unit {0})
  pub list_models : String → W → W × Outcome (List String × Option String)
  pub load : String → String → W → W × Outcome String
  pub unload : String → W → W × Outcome (Unit {0})
  pub infer : String → Bytes → W → W × Outcome Inferred

-- A row of the result: the index, and the answer, or the URL of the node and the error.
pub data Row : Type 0 where
  answered : ℕ → Inferred → Row
  errored : ℕ → String → Exception → Row

-- A line of the answer to /api/load and /api/unload.
pub data Sent : Type 0 where
  sent_ok : String → Option String → Sent
  sent_error : String → Exception → Sent

-- The sidecar of a sample set.
pub record Side : Type 0 where
  pub model : String
  pub per_sample_bytes : ℕ
  pub count : ℕ

pub record Report : Type 0 where
  pub model : String
  pub rows : List Row
  pub histogram : List (String × ℕ)
  pub nodes_used : ℕ
  pub load_errors : List (String × Exception)

-- The answer of `api_run_samples`, by its status.
pub data Answer : Type 0 where
  status_400 status_503 : Answer
  status_200 : Report → Answer

-- `_discover_nodes`, from the environment's three variables and the roster's URLs.
abbrev pub local_urls : (ℕ → String) → ℕ → ℕ → List String
local_urls local base count = map (λ i. local (base + i)) (range count)

abbrev pub or_three : (ℕ → String) → ℕ → List String → List String
or_three local base [] = local_urls local base 3
or_three local base (url ∷ urls) = url ∷ urls

unfoldable pub discover_nodes :
    (ℕ → String) → Option (List String) → ℕ → Option ℕ → List String → List String
discover_nodes local (some explicit) base count urls = explicit
discover_nodes local none base (some count) urls = local_urls local base count
discover_nodes local none base none urls = or_three local base urls

abbrev pub or_zero : Option ℕ → ℕ
or_zero none = 0
or_zero (some n) = n

abbrev pub keep_if_live :
    {W : Type 0} → String → Outcome (Unit {0}) → W × List String → W × List String
keep_if_live url (return u) (w, urls) = (w, url ∷ urls)
keep_if_live url (raise e) (w, urls) = (w, urls)

-- Which of `k` nodes is asked for sample `i`.
abbrev pub turn : ℕ → ℕ → ℕ
turn k i = i % k

module _ {W : Type 0} (api : Clients W) where
  -- `live_clients`
  unfoldable pub live_clients : List String → W → W × List String
  live_clients [] w = (w, [])
  live_clients (url ∷ urls) w =
      let (w', out) = api.health url w in keep_if_live url out (live_clients urls w')

  abbrev pub add_error :
      String → Outcome String → W × List (String × Exception) → W × List (String × Exception)
  add_error url (return model) (w, errors) = (w, errors)
  add_error url (raise e) (w, errors) = (w, (url, e) ∷ errors)

  -- The loop that maps the model on every node.
  unfoldable pub load_all : String → List String → W → W × List (String × Exception)
  load_all model [] w = (w, [])
  load_all model (url ∷ urls) w =
      let (w', out) = api.load url model w in add_error url out (load_all model urls w')

  abbrev pub loaded_on : String → Outcome String → Sent
  loaded_on url (return model) = sent_ok url (some model)
  loaded_on url (raise e) = sent_error url e

  abbrev pub unloaded_on : String → Outcome (Unit {0}) → Sent
  unloaded_on url (return u) = sent_ok url none
  unloaded_on url (raise e) = sent_error url e

  -- The loops of `api_load` and `api_unload`, over the live nodes.
  unfoldable pub load_each : String → List String → W → W × List Sent
  load_each name [] w = (w, [])
  load_each name (url ∷ urls) w =
      let (w', out) = api.load url name w in
      let (w'', results) = load_each name urls w' in (w'', loaded_on url out ∷ results)

  unfoldable pub unload_each : List String → W → W × List Sent
  unload_each [] w = (w, [])
  unload_each (url ∷ urls) w =
      let (w', out) = api.unload url w in
      let (w'', results) = unload_each urls w' in (w'', unloaded_on url out ∷ results)

  -- `raw bytes -> ints` of sample `i`
  abbrev pub values_of : Bytes → ℕ → ℕ → Bytes
  values_of blob per i = take per (drop (i * per) blob)

  abbrev pub count_class : String → List (String × ℕ) → List (String × ℕ)
  count_class name histogram = insert name (or_zero (lookup name histogram) + 1) histogram

  abbrev pub add_row :
      ℕ
      → String
      → Outcome Inferred
      → W × (List Row × List (String × ℕ))
      → W × (List Row × List (String × ℕ))
  add_row i url (return r) (w, (rows, histogram)) = (w, (answered i r ∷ rows, histogram))
  add_row i url (raise e) (w, (rows, histogram)) = (w, (errored i url e ∷ rows, histogram))

  abbrev pub next_histogram : Outcome Inferred → List (String × ℕ) → List (String × ℕ)
  next_histogram (return r) histogram = count_class r.cls_name histogram
  next_histogram (raise e) histogram = histogram

  -- The loop over the samples.
  unfoldable pub run_loop :
      List String → Bytes → ℕ → List ℕ → List (String × ℕ) → W → W × (List Row × List (String × ℕ))
  unfolding lookup insert
  run_loop nodes blob per [] histogram w = (w, ([], histogram))
  run_loop nodes blob per (i ∷ is) histogram w =
      let url = get_or nodes (turn (length nodes) i) "" in
      let (w', out) = api.infer url (values_of blob per i) w in
      add_row i url out (run_loop nodes blob per is (next_histogram out histogram) w')

  abbrev pub run_on : ℕ → Side → Bytes → List String → W → W × Answer
  run_on limit side blob [] w = (w, status_503)
  run_on limit side blob (url ∷ urls) w =
      let nodes = url ∷ urls in
      let n = min side.count limit in
      let (w', load_errors) = load_all side.model nodes w in
      let (w'', (rows, histogram)) =
        run_loop nodes (take (n * side.per_sample_bytes) blob) side.per_sample_bytes (range n) []
          w' in
      (
        w'',
        status_200 (record {
          model = side.model;
          rows = rows;
          histogram = histogram;
          nodes_used = length nodes;
          load_errors = load_errors;
        }),
      )

  -- `api_run_samples`, from the sidecar and the bytes of the set, where these files are there.
  unfoldable pub run_samples : ℕ → List String → Option Side → Option Bytes → W → W × Answer
  unfolding live_clients load_all run_loop
  run_samples limit urls none blob w = (w, status_400)
  run_samples limit urls (some side) none w = (w, status_400)
  run_samples limit urls (some side) (some blob) w =
      let (w', nodes) = live_clients urls w in run_on limit side blob nodes w'
