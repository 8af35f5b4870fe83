-- ===== src/Fleet/Answers.antt =====
-- What the card of the compute nodes promises: fleet.py, `summary` and `read`.
use Prim.Native.String.{String}
use text.Mathlib.Text.{◌==◌ as str_eq}
use text.Mathlib.TextEquality.{eq_iff}
use symphony_akida.Prelude.{
  ℕ, ◌+◌, ◌<◌, ◌≡◌, refl, Bool, true, false, List, [], ◌∷◌, Option, none, some, All, arith, length,
  ltb, lt→ltb, ◌⊎◌, inl, inr, if_both,
}
use symphony_akida.Prelude.Outcome.{Outcome, return, raise, Exception}
use symphony_akida.Prelude.Dict.{Eq, lookup, insert, string_eq, lookup-insert, lookup-insert_self}
use symphony_akida.Fleet.Roster.{Node, non_empty}
use symphony_akida.Fleet.Workers.{Info}
use symphony_akida.Fleet.Read.{
  Card, Answer, Cache, summary, count_products, count_product, count_ready, or_zero, merge_all,
  card_of, read, read_hit, answer_from,
}

-- How many cards have a product.
abbrev pub one_if : Bool → ℕ
one_if true = 1
one_if false = 0

abbrev pub named : String → Option String → ℕ
named name none = 0
named name (some product) = one_if (str_eq product name)

abbrev pub sold : String → List Card → ℕ
sold name [] = 0
sold name (card ∷ cards) = named name (non_empty card.product) + sold name cards

count_one :
    (name : String) (product : Option String) (products : List (String × ℕ))
    → or_zero (lookup name (count_product product products))
      ≡ or_zero (lookup name products) + named name product
count_one name none products = omega arith
count_one name (some product) products =
    rw (lookup-insert product name) (ground (arith, eq_iff product name))

count_products-sold :
    (name : String) (cards : List Card) (products : List (String × ℕ))
    → or_zero (lookup name (count_products cards products))
      ≡ or_zero (lookup name products) + sold name cards
unfolding count_products
count_products-sold name [] products = omega arith
count_products-sold name (card ∷ cards) products =
    let rest = count_products-sold name cards (count_product (non_empty card.product) products) in
    let head = count_one name (non_empty card.product) products in omega (arith, rest, head)

-- A card in the state `ready` is that of a node that runs, whose log has the marker.
abbrev pub ready_of : Card → ℕ
ready_of card = one_if card.badged

abbrev pub badges : List Card → ℕ
badges [] = 0
badges (card ∷ cards) = ready_of card + badges cards

-- An answer that agrees with itself.
abbrev pub IsFaithful : Answer → Type 0
IsFaithful a =
    (a.summary.total ≡ length a.nodes)
    × (a.summary.ready ≡ badges a.nodes)
    × ((name : String) → or_zero (lookup name a.summary.products) ≡ sold name a.nodes)
    × (a.error ≡ none ⊎ a.nodes ≡ [])

-- One call of `read`: its arguments, the time, and what docker and the logs would say.
pub record Call (K : Type 0) : Type 0 where
  pub key : K
  pub now : ℕ
  pub nodes : Outcome (List Node)
  pub seen : List (String × Info)

abbrev pub FaithfulHit : Option (ℕ × Answer) → Type 0
FaithfulHit none = Unit {0}
FaithfulHit (some (at, a)) = IsFaithful a

badges-count_ready :
    (append : String → String → String) (nodes : List Node) (seen : List (String × Info))
    → count_ready (merge_all append nodes seen) ≡ badges (merge_all append nodes seen)
unfolding count_ready merge_all card_of
badges-count_ready append [] seen = refl
badges-count_ready append (node ∷ nodes) seen = ground (arith, badges-count_ready append nodes seen)

module _ (append : String → String → String) (docker_error : Exception → String) where
  answer_from-IsFaithful :
      (nodes : Outcome (List Node)) (seen : List (String × Info))
      → IsFaithful (answer_from append docker_error nodes seen)
  unfolding summary lookup count_products count_ready
  answer_from-IsFaithful (raise e) seen = (refl, refl, λ name. refl, inr refl)
  answer_from-IsFaithful (return []) seen = (refl, refl, λ name. refl, inl refl)
  answer_from-IsFaithful (return (node ∷ nodes)) seen = (
    refl,
    badges-count_ready append (node ∷ nodes) seen,
    λ name.
        let cards = merge_all append (node ∷ nodes) seen in
        omega (arith, count_products-sold name cards []),
    inl refl,
  )

  module _ {K : Type 0} ⦃e : Eq K⦄ (ttl : ℕ) where
    abbrev pub read_call : Call K → Cache K → Cache K × Answer
    read_call c cache = read append docker_error ttl c.key c.now c.nodes c.seen cache

    -- The calls one after the other, and their answers.
    abbrev pub read_calls : List (Call K) → Cache K → List Answer
    read_calls [] cache = []
    read_calls (c ∷ calls) cache = (read_call c cache).1 ∷ read_calls calls (read_call c cache).0

    abbrev pub AllFaithful : Cache K → Type 0
    AllFaithful [] = Unit {0}
    AllFaithful ((key, (at, a)) ∷ cache) = IsFaithful a × AllFaithful cache

    insert-AllFaithful :
        (key : K) (now : ℕ) (a : Answer) (cache : Cache K)
        → IsFaithful a
        → AllFaithful cache
        → AllFaithful (insert key (now, a) cache)
    unfolding insert
    insert-AllFaithful key now a [] h all = (h, tt)
    insert-AllFaithful key now a ((j, (at, b)) ∷ cache) h all =
        if_both AllFaithful (e.beq j key) _ _ (h, all.1)
          (all.0, insert-AllFaithful key now a cache h all.1)

    lookup-FaithfulHit :
        (key : K) (cache : Cache K) → AllFaithful cache → FaithfulHit (lookup key cache)
    unfolding lookup
    lookup-FaithfulHit key [] all = tt
    lookup-FaithfulHit key ((j, (at, b)) ∷ cache) all =
        if_both FaithfulHit (e.beq j key) _ _ all.0 (lookup-FaithfulHit key cache all.1)

    read_hit-IsFaithful :
        (key : K) (now : ℕ) (hit : Option (ℕ × Answer)) (fresh : Answer) (cache : Cache K)
        → FaithfulHit hit
        → IsFaithful fresh
        → AllFaithful cache
        → IsFaithful (read_hit append docker_error ttl key now hit fresh cache).1
          × AllFaithful (read_hit append docker_error ttl key now hit fresh cache).0
    read_hit-IsFaithful key now none fresh cache h f all =
        (f, insert-AllFaithful key now fresh cache f all)
    read_hit-IsFaithful key now (some (at, a)) fresh cache h f all =
        if_both (λ (x : Cache K × Answer). IsFaithful x.1 × AllFaithful x.0) (ltb now (at + ttl)) _
          _ (h, all) (f, insert-AllFaithful key now fresh cache f all)

    read_calls_from :
        (calls : List (Call K)) (cache : Cache K)
        → AllFaithful cache
        → All IsFaithful (read_calls calls cache)
    unfolding read
    read_calls_from [] cache all = tt
    read_calls_from (c ∷ calls) cache all =
        let step =
          read_hit-IsFaithful c.key c.now (lookup c.key cache)
            (answer_from append docker_error c.nodes c.seen) cache
            (lookup-FaithfulHit c.key cache all) (answer_from-IsFaithful c.nodes c.seen) all in
        (step.0, read_calls_from calls (read_call c cache).0 step.1)

    -- Every answer of every sequence of reads from the empty cache, fresh or cached, agrees with
    -- itself: its total is the number of its nodes, its ready count is the number of nodes with the
    -- badge, each product is counted as often as nodes have it, and an answer with an error has no
    -- nodes.
    pub read_calls-IsFaithful : (calls : List (Call K)) → All IsFaithful (read_calls calls [])
    read_calls-IsFaithful calls = read_calls_from calls [] tt

    -- A second read of a key that was not cached, within the time to live after the first, answers
    -- the same and changes nothing, whatever docker and the logs say by then.
    pub read_twice :
        (c d : Call K) (cache : Cache K)
        → lookup c.key cache ≡ none
        → d.key ≡ c.key
        → d.now < c.now + ttl
        → read_call d (read_call c cache).0 ≡ read_call c cache
    unfolding read
    read_twice c d cache absent same soon =
        let found =
          lookup-insert_self c.key (c.now, answer_from append docker_error c.nodes c.seen) cache in
        rw (same, absent, found, lt→ltb d.now (c.now + ttl) soon) refl
