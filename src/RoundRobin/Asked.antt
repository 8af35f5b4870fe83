-- ===== src/RoundRobin/Asked.antt =====
-- Which nodes are asked: the calls of /infer that `api_run_samples` of app.py makes, in a log beside
-- the environment.
use Prim.Native.String.{String}
use mathlib.Core.List.{append_assoc, append-nil}
use symphony_akida.Prelude.{ℕ, ◌≡◌, refl, sym, ap, ◌∙◌, List, [], ◌∷◌, ◌++◌, map, length, get_or}
use symphony_akida.Prelude.Outcome.{Outcome, return, raise, Exception}
use symphony_akida.Wire.Stream.{Bytes}
use symphony_akida.RoundRobin.{
  Clients, Inferred, Row, keep_if_live, live_clients, add_error, load_all, add_row, next_histogram,
  turn, values_of, run_loop,
}

abbrev pub with_log : {W A : Type 0} → List String → W × Outcome A → (W × List String) × Outcome A
with_log log called = ((called.0, log), called.1)

-- The same nodes, with the URL of every call of /infer noted.
abbrev pub logged : {W : Type 0} → Clients W → Clients (W × List String)
logged api = record {
  health = λ url w. with_log w.1 (api.health url w.0);
  list_models = λ url w. with_log w.1 (api.list_models url w.0);
  load = λ url name w. with_log w.1 (api.load url name w.0);
  unload = λ url w. with_log w.1 (api.unload url w.0);
  infer = λ url values w. with_log (w.1 ++ url ∷ []) (api.infer url values w.0);
}

pub map-turns :
    (nodes : List String) (is : List ℕ)
    → map (λ i. get_or nodes (turn (length nodes) i) "") is
      ≡ map (λ j. get_or nodes j "") (map (turn (length nodes)) is)
map-turns nodes [] = refl
map-turns nodes (i ∷ is) =
    ap (λ rest. get_or nodes (turn (length nodes) i) "" ∷ rest) (map-turns nodes is)

keep_if_live-world :
    {W : Type 0} (url : String) (out : Outcome (Unit {0})) (rest : W × List String)
    → (keep_if_live url out rest).0 ≡ rest.0
keep_if_live-world url (return u) (w, urls) = refl
keep_if_live-world url (raise e) (w, urls) = refl

module _ {W : Type 0} (api : Clients W) where
  pub live_clients-log :
      (urls : List String) (w : W × List String) → (live_clients (logged api) urls w).0.1 ≡ w.1
  unfolding live_clients
  live_clients-log [] w = refl
  live_clients-log (url ∷ urls) w =
      let called = (logged api).health url w in
      ap (λ w'. w'.1) (keep_if_live-world url called.1 (live_clients (logged api) urls called.0))
      ∙ live_clients-log urls called.0

  add_error-world :
      (url : String) (out : Outcome String) (rest : (W × List String) × List (String × Exception))
      → (add_error (logged api) url out rest).0 ≡ rest.0
  add_error-world url (return model) (w, errors) = refl
  add_error-world url (raise e) (w, errors) = refl

  pub load_all-log :
      (model : String) (urls : List String) (w : W × List String)
      → (load_all (logged api) model urls w).0.1 ≡ w.1
  unfolding load_all
  load_all-log model [] w = refl
  load_all-log model (url ∷ urls) w =
      let called = (logged api).load url model w in
      ap (λ w'. w'.1) (add_error-world url called.1 (load_all (logged api) model urls called.0))
      ∙ load_all-log model urls called.0

  add_row-world :
      (i : ℕ) (url : String) (out : Outcome Inferred)
      (rest : (W × List String) × (List Row × List (String × ℕ)))
      → (add_row (logged api) i url out rest).0 ≡ rest.0
  add_row-world i url (return r) (w, (rows, histogram)) = refl
  add_row-world i url (raise e) (w, (rows, histogram)) = refl

  -- The loop asks, in the order of the samples, the node whose turn each is.
  pub run_loop-log :
      (nodes : List String) (blob : Bytes) (per : ℕ) (is : List ℕ) (before : List (String × ℕ))
      (w : W × List String)
      → (run_loop (logged api) nodes blob per is before w).0.1
        ≡ w.1 ++ map (λ i. get_or nodes (turn (length nodes) i) "") is
  unfolding run_loop
  run_loop-log nodes blob per [] before w = sym (append-nil w.1)
  run_loop-log nodes blob per (i ∷ is) before w =
      let url = get_or nodes (turn (length nodes) i) "" in
      let called = (logged api).infer url (values_of (logged api) blob per i) w in
      let after = next_histogram (logged api) called.1 before in
      ap (λ w'. w'.1)
        (add_row-world i url called.1 (run_loop (logged api) nodes blob per is after called.0))
      ∙ run_loop-log nodes blob per is after called.0
      ∙ append_assoc w.1 (url ∷ []) _
