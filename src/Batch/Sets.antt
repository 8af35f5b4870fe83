-- ===== src/Batch/Sets.antt =====
-- The choice of a sample set: soam_client.py, `resolve_set`.
use Prim.Native.String.{String}
use text.Mathlib.Text.{◌==◌ as str_eq}
use symphony_akida.Prelude.{
  ◌≡◌, refl, subst, inl, inr, Bool, true, false, not, List, [], ◌∷◌, Option, none, some, arith, Any,
  if◌then◌else◌, Bool-cases,
}
use symphony_akida.Batch.Client.{Sidecar, Entry, ranks_before, better, consider, pick, resolve_set}

module _ (name_lt : String → String → Bool)
    (name_trans : (a b c : String) → name_lt a b ≡ true → name_lt b c ≡ true → name_lt a c ≡ true)
    (name_irrefl : (a : String) → name_lt a a ≡ false) where
  ranks_before_irrefl : (a : Sidecar) → ranks_before name_lt a a ≡ false
  unfolding ranks_before
  ranks_before_irrefl a = ground (arith, name_irrefl a.set_name)

  ranks_before_trans :
      (a b c : Sidecar)
      → ranks_before name_lt a b ≡ true
      → ranks_before name_lt b c ≡ true
      → ranks_before name_lt a c ≡ true
  unfolding ranks_before
  ranks_before_trans a b c h h' = ground (arith, h, h', name_trans a.set_name b.set_name c.set_name)

  -- No worse than.
  abbrev AtMost : Sidecar → Sidecar → Type 0
  AtMost best side = ranks_before name_lt side best ≡ false

  beaten :
      (other best side : Sidecar)
      → AtMost best side
      → ranks_before name_lt other best ≡ true
      → AtMost other side
  beaten other best side h wins = elim (Bool-cases (ranks_before name_lt side other)) [
    | inl before ↦ absurd (grind (arith, h, ranks_before_trans side other best before wins))
    | inr stays ↦ stays
  ]

  module _ (model : String) where
    -- A readable sidecar for the model.
    abbrev pub Offers : Sidecar → Entry → Type 0
    Offers side e = (e.is_sidecar ≡ true) × (e.text ≡ some side) × (str_eq side.model model ≡ true)

    -- A set of the model that no better one stands against among `sides`.
    abbrev pub IsChoice : Option Sidecar → Sidecar → Type 0
    IsChoice chosen side =
        (best : Sidecar) × (chosen ≡ some best) × (ranks_before name_lt side best ≡ false)

    consider_keeps :
        (text : Option Sidecar) (best side : Sidecar)
        → AtMost best side
        → IsChoice (consider name_lt model text (some best)) side
    consider_keeps none best side h = (best, refl, h)
    consider_keeps (some other) best side h = elim (Bool-cases (str_eq other.model model)) [
      | inr foreign ↦ rw foreign (best, refl, h)
      | inl fits ↦ elim (Bool-cases (ranks_before name_lt other best)) [
        | inr stays ↦ rw (fits, stays) (best, refl, h)
        | inl wins ↦ rw (fits, wins) (other, refl, beaten other best side h wins)
      ]
    ]

    pick_keeps :
        (es : List Entry) (best side : Sidecar)
        → AtMost best side
        → IsChoice (pick name_lt model es (some best)) side
    unfolding pick
    pick_keeps [] best side h = (best, refl, h)
    pick_keeps (e ∷ es) best side h = elim (Bool-cases e.is_sidecar) [
      | inr other ↦ rw other (pick_keeps es best side h)
      | inl is_one ↦
          let (next, found, holds) = consider_keeps e.text best side h in
          rw (is_one, found) (pick_keeps es next side holds)
    ]

    better_offered :
        (side : Sidecar) (best : Option Sidecar) → IsChoice (better name_lt model side best) side
    better_offered side none = (side, refl, ranks_before_irrefl side)
    better_offered side (some best) = elim (Bool-cases (ranks_before name_lt side best)) [
      | inl wins ↦ rw wins (side, refl, ranks_before_irrefl side)
      | inr stays ↦ rw stays (best, refl, stays)
    ]

    pick_best :
        (es : List Entry) (best : Option Sidecar) (side : Sidecar)
        → Any (Offers side) es
        → IsChoice (pick name_lt model es best) side
    unfolding pick
    pick_best [] best side h = absurd h
    pick_best (e ∷ es) best side (inl (is_one, text, fits)) =
        let (next, found, holds) = better_offered side best in
        rw (is_one, text, fits, found) (pick_keeps es next side holds)
    pick_best (e ∷ es) best side (inr later) = pick_best es _ side later

    -- The best so far is a set for the model.
    abbrev IsOf : Option Sidecar → Type 0
    IsOf none = Unit {0}
    IsOf (some best) = str_eq best.model model ≡ true

    considered_text :
        (text best : Option Sidecar) → IsOf best → IsOf (consider name_lt model text best)
    considered_text none best h = h
    considered_text (some side) none h = elim (Bool-cases (str_eq side.model model)) [
      | inl fits ↦ rw fits fits
      | inr foreign ↦ rw foreign h
    ]
    considered_text (some side) (some best) h = elim (Bool-cases (str_eq side.model model)) [
      | inr foreign ↦ rw foreign h
      | inl fits ↦ elim (Bool-cases (ranks_before name_lt side best)) [
        | inl wins ↦ rw (fits, wins) fits
        | inr stays ↦ rw (fits, stays) h
      ]
    ]

    considered :
        (is_one : Bool) (text best : Option Sidecar)
        → IsOf best
        → IsOf (if not is_one then best else consider name_lt model text best)
    considered true text best h = considered_text text best h
    considered false text best h = h

    pick_model :
        (es : List Entry) (best : Option Sidecar) → IsOf best → IsOf (pick name_lt model es best)
    unfolding pick
    pick_model [] best h = h
    pick_model (e ∷ es) best h = pick_model es _ (considered e.is_sidecar e.text best h)

    -- Where the folder holds a readable sample set for the model, `resolve_set` finds one, and no
    -- set for the model ranks before it. The comparison of names is a strict order.
    pub resolve_set_best :
        (es : List Entry) (side : Sidecar)
        → Any (Offers side) es
        → (best : Sidecar) × (resolve_set name_lt model (some es) ≡ some best)
          × (str_eq best.model model ≡ true)
          × (ranks_before name_lt side best ≡ false)
    unfolding resolve_set
    resolve_set_best es side h =
        let (best, found, first) = pick_best es none side h in
        (best, found, subst IsOf found (pick_model es none tt), first)
