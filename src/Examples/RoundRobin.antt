-- ===== src/Examples/RoundRobin.antt =====
-- Three samples over two live nodes of three, one of which answers an error.
use Prim.Native.String.{String}
use text.Mathlib.Text.{◌==◌ as str_eq}
use symphony_akida.Prelude.{ℕ, ◌+◌, List, [], ◌∷◌, none, some, min, if◌then◌else◌}
use symphony_akida.Prelude.Outcome.{return, raise, service_error}
use symphony_akida.Wire.Stream.{Bytes}
use symphony_akida.RoundRobin.{Clients, Side, live_clients, run_samples}
use symphony_akida.RoundRobin.Asked.{logged}
use symphony_akida.RoundRobin.Rows.{Reports, run_samples-Reports}

-- The environment counts the calls of /infer.
abbrev three_nodes : Clients ℕ
three_nodes = record {
  health = λ url w. (w, if str_eq url "dead" then raise service_error else return tt);
  list_models = λ url w. (w, return ([], none));
  load = λ url name w. (w, return name);
  unload = λ url w. (w, return tt);
  infer = λ url values w. (
    w + 1,
    if str_eq url "weak"
        then raise service_error
        else return (record { host = url; cls = 1; cls_name = "dog"; us = 10 }),
  );
}

abbrev some_side : Side
some_side = record { model = "kws"; per_sample_bytes = 2; count = 5 }

abbrev some_blob : Bytes
some_blob = 1 ∷ 2 ∷ 3 ∷ 4 ∷ 5 ∷ 6 ∷ 7 ∷ 8 ∷ 9 ∷ 10 ∷ []

abbrev some_urls : List String
some_urls = "good" ∷ "dead" ∷ "weak" ∷ []

run_samples-Reports_example :
    let ran =
      run_samples (logged three_nodes) 3 some_urls (some some_side) (some some_blob) (0, []) in
    Reports (min 5 3) (live_clients (logged three_nodes) some_urls (0, [])).1 ran.1 ran.0.1
run_samples-Reports_example = run_samples-Reports three_nodes 3 some_side some_blob some_urls 0
