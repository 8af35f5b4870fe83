-- ===== src/Fleet/Roster.antt =====
-- The compute containers: fleet.py, `roster`.
use Prim.Native.String.{String}
use text.Mathlib.Text.{◌==◌ as str_eq}
use symphony_akida.Prelude.{
  ℕ, ◌≤◌, Bool, List, [], ◌∷◌, Option, none, some, leb, if◌then◌else◌, arith, ◌≡◌, subst,
}
use symphony_akida.Prelude.Outcome.{Outcome, return, raise, Returns, ◌>>=◌}
use symphony_akida.Prelude.Dict.{lookup, insert, string_eq}
use symphony_akida.Names.{Methods, from_chip_node}

-- A line of `docker inspect` that parses: the ports are those bound to the service's port.
pub record Container : Type 0 where
  pub name : String
  pub host : Option String
  pub running : Bool
  pub env : List String
  pub ports : List (Option String)

-- A node of the roster.
pub record Node : Type 0 where
  pub index : ℕ
  pub name : String
  pub host : String
  pub chip_node : Option String
  pub product : Option String
  pub running : Bool
  pub url : Option String

-- `CONTAINER_RE`, `str.partition`, and the other methods.
pub record Texts : Type 0 where
  pub methods : Methods
  pub index_of : String → Option ℕ
  pub partition : String → String × String
  pub strip_slash : String → String
  pub append : String → String → String

-- `value or None`
abbrev pub non_empty : Option String → Option String
non_empty none = none
non_empty (some text) = if str_eq text "" then none else some text

abbrev pub or_given : Option String → String → String
or_given none other = other
or_given (some text) other = if str_eq text "" then other else text

-- `nodes.sort(key=...)`
abbrev pub place_node : Node → List Node → List Node
place_node n [] = n ∷ []
place_node n (m ∷ ms) =
    let rest = place_node n ms in if leb n.index m.index then n ∷ m ∷ ms else m ∷ rest

abbrev pub sort_nodes : List Node → List Node
sort_nodes [] = []
sort_nodes (n ∷ ns) = place_node n (sort_nodes ns)

-- The nodes stand in the order of their numbers.
abbrev pub InOrder : List Node → Type 0
InOrder [] = Unit {0}
InOrder (n ∷ []) = Unit {0}
InOrder (n ∷ m ∷ ms) = (n.index ≤ m.index) × InOrder (m ∷ ms)

place_node-InOrder : (n : Node) (ms : List Node) → InOrder ms → InOrder (place_node n ms)
place_node-InOrder n [] h = tt
place_node-InOrder n (m ∷ []) h = ground arith
place_node-InOrder n (m ∷ k ∷ ks) h = let rest = place_node-InOrder n (k ∷ ks) h.1 in ground arith

sort_nodes-InOrder : (ns : List Node) → InOrder (sort_nodes ns)
sort_nodes-InOrder [] = tt
sort_nodes-InOrder (n ∷ ns) = place_node-InOrder n (sort_nodes ns) (sort_nodes-InOrder ns)

module _ (texts : Texts) where
  -- The loop over the environment: a later entry of a key replaces an earlier one.
  abbrev pub read_env : List String → List (String × String) → List (String × String)
  read_env [] env = env
  read_env (item ∷ items) env =
      let (key, value) = texts.partition item in read_env items (insert key value env)

  abbrev pub url_of : List (Option String) → Option String
  url_of [] = none
  url_of (none ∷ more) = none
  url_of (some port ∷ more) =
      if str_eq port "" then none else some (texts.append "http://localhost:" port)

  unfoldable pub node_of : String → Container → ℕ → Node
  unfolding lookup insert
  node_of name c index =
      let chip_node = non_empty (lookup "AKIDA_CHIP_NODE" (read_env c.env [])) in
      record {
        index = index;
        name = name;
        host = or_given c.host (texts.append name ".local");
        chip_node = chip_node;
        product = from_chip_node texts.methods chip_node;
        running = c.running;
        url = url_of c.ports;
      }

  abbrev pub add_node : Option ℕ → String → Container → List Node → List Node
  add_node none name c nodes = nodes
  add_node (some index) name c nodes = node_of name c index ∷ nodes

  -- The loop over the lines; a blank line, or one that does not parse, is skipped.
  unfoldable pub read_lines : List (Option Container) → List Node
  unfolding node_of
  read_lines [] = []
  read_lines (none ∷ lines) = read_lines lines
  read_lines (some c ∷ lines) =
      let name = texts.strip_slash c.name in
      add_node (texts.index_of name) name c (read_lines lines)

  abbrev pub inspect_ids : List String → Outcome (List (Option Container)) → Outcome (List Node)
  inspect_ids [] lines = return []
  inspect_ids (id ∷ ids) lines = lines >>= λ found. return (sort_nodes (read_lines found))

  -- `roster`, from what the two docker commands print.
  unfoldable pub roster :
      Outcome (List String) → Outcome (List (Option Container)) → Outcome (List Node)
  unfolding read_lines
  roster ids lines = ids >>= λ found. inspect_ids found lines

inspect_ids-InOrder :
    (texts : Texts) (ids : List String) (lines : Outcome (List (Option Container)))
    (nodes : List Node)
    → inspect_ids texts ids lines ≡ return nodes
    → InOrder nodes
inspect_ids-InOrder texts [] lines nodes h = grind arith
inspect_ids-InOrder texts (id ∷ ids) (raise e) nodes h = grind arith
inspect_ids-InOrder texts (id ∷ ids) (return found) nodes h =
    subst (Returns InOrder) h (sort_nodes-InOrder (read_lines texts found))

-- A roster that is returned stands in the order of the nodes' numbers.
pub roster-InOrder :
    (texts : Texts) (ids : Outcome (List String)) (lines : Outcome (List (Option Container)))
    (nodes : List Node)
    → roster texts ids lines ≡ return nodes
    → InOrder nodes
unfolding roster
roster-InOrder texts (return ids) lines nodes h = inspect_ids-InOrder texts ids lines nodes h
roster-InOrder texts (raise e) lines nodes h = grind arith
