-- ===== src/Fleet/Read.antt =====
-- The card of the compute nodes: fleet.py, `_merge`, `summary` and `read`.
use Prim.Native.String.{String}
use symphony_akida.Prelude.{
  ℕ, ◌+◌, Bool, false, ◌&&◌, List, [], ◌∷◌, Option, none, some, length, ltb, if◌then◌else◌,
}
use symphony_akida.Prelude.Outcome.{Outcome, return, raise, Exception}
use symphony_akida.Prelude.Dict.{Eq, lookup, insert, string_eq}
use symphony_akida.Fleet.Roster.{Node, non_empty}
use symphony_akida.Fleet.Workers.{Info, or_first}

pub data NodeState : Type 0 where
  ready idle down : NodeState

-- A node as the card shows it; `badged` where the badge of the chip is among `badges`.
pub record Card : Type 0 where
  pub name : String
  pub host : String
  pub chip_node : Option String
  pub product : Option String
  pub device : Option String
  pub url : Option String
  pub state : NodeState
  pub lines : List String
  pub badged : Bool

-- `worker or {}`
abbrev pub no_worker : Info
no_worker = record { ready = false; device = none; product = none; model = none }

abbrev pub worker_of : Option Info → Info
worker_of none = no_worker
worker_of (some worker) = worker

abbrev pub state_of : Bool → Bool → NodeState
state_of is_ready running = if is_ready then ready else if running then idle else down

module _ (append : String → String → String) where
  abbrev pub model_line : Option String → List String
  model_line none = []
  model_line (some model) = append "model: " model ∷ []

  -- `_merge` of a node and what its log says.
  unfoldable pub card_of : Node → Info → Card
  card_of node worker =
      let is_ready = worker.ready && node.running in
      record {
        name = node.name;
        host = node.host;
        chip_node = node.chip_node;
        product = or_first (non_empty worker.product) node.product;
        device = worker.device;
        url = node.url;
        state = state_of is_ready node.running;
        lines = model_line (non_empty worker.model);
        badged = is_ready;
      }

  abbrev pub merge : Node → Option Info → Card
  merge node worker = card_of node (worker_of worker)

  -- `[_merge(n, seen.get(n["name"])) for n in nodes]`
  unfoldable pub merge_all : List Node → List (String × Info) → List Card
  unfolding card_of lookup
  merge_all [] seen = []
  merge_all (node ∷ nodes) seen = merge node (lookup node.name seen) ∷ merge_all nodes seen

pub record Summary : Type 0 where
  pub total : ℕ
  pub ready : ℕ
  pub products : List (String × ℕ)

abbrev pub or_zero : Option ℕ → ℕ
or_zero none = 0
or_zero (some n) = n

abbrev pub count_product : Option String → List (String × ℕ) → List (String × ℕ)
count_product none products = products
count_product (some name) products = insert name (or_zero (lookup name products) + 1) products

unfoldable pub count_products : List Card → List (String × ℕ) → List (String × ℕ)
unfolding lookup insert
count_products [] products = products
count_products (card ∷ cards) products =
    count_products cards (count_product (non_empty card.product) products)

abbrev pub is_ready : NodeState → ℕ
is_ready ready = 1
is_ready idle = 0
is_ready down = 0

unfoldable pub count_ready : List Card → ℕ
count_ready [] = 0
count_ready (card ∷ cards) = is_ready card.state + count_ready cards

unfoldable pub summary : List Card → Summary
unfolding count_products count_ready
summary cards = record {
  total = length cards;
  ready = count_ready cards;
  products = count_products cards [];
}

pub record Answer : Type 0 where
  pub nodes : List Card
  pub summary : Summary
  pub error : Option String

-- `_cache`, from a directory and an app to a time and an answer.
abbrev pub Cache : Type 0 → Type 0
Cache K = List (K × (ℕ × Answer))

module _ (append : String → String → String) (docker_error : Exception → String) where
  abbrev pub answer_of : List Card → Option String → Answer
  answer_of cards error = record { nodes = cards; summary = summary cards; error = error }

  -- The part of `read` below the cache; the logs are read only where there are nodes.
  abbrev pub answer_from : Outcome (List Node) → List (String × Info) → Answer
  answer_from (raise e) seen = answer_of [] (some (docker_error e))
  answer_from (return []) seen = answer_of [] none
  answer_from (return (node ∷ nodes)) seen = answer_of (merge_all append (node ∷ nodes) seen) none

  module _ {K : Type 0} ⦃e : Eq K⦄ (ttl : ℕ) where
    abbrev pub store : K → ℕ → Answer → Cache K → Cache K × Answer
    store key now answer cache = (insert key (now, answer) cache, answer)

    abbrev pub read_hit : K → ℕ → Option (ℕ × Answer) → Answer → Cache K → Cache K × Answer
    read_hit key now none fresh cache = store key now fresh cache
    read_hit key now (some (at, answer)) fresh cache =
        if ltb now (at + ttl) then (cache, answer) else store key now fresh cache

    -- `read` at a time, with what docker and the logs would say then.
    unfoldable pub read :
        K → ℕ → Outcome (List Node) → List (String × Info) → Cache K → Cache K × Answer
    unfolding lookup insert merge_all summary
    read key now nodes seen cache =
        read_hit key now (lookup key cache) (answer_from nodes seen) cache
