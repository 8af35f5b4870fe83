-- ===== src/Scores/Envelope.antt =====
-- The precision envelope: detection_map.py, `compute_ap`.
use symphony_akida.Prelude.{◌≡◌, true, List, [], ◌∷◌}
use symphony_akida.Merge.Boxes.{Floats}
use symphony_akida.Merge.Fuse.Covers.{IsOrdered}
use symphony_akida.Scores.{raise_to, envelope}

module _ {F : Type 0} (f : Floats F) (o : IsOrdered f) where
  -- No entry is below a later one.
  abbrev pub Falls : List F → Type 0
  Falls [] = Unit {0}
  Falls (p ∷ []) = Unit {0}
  Falls (p ∷ q ∷ rest) = (f.le q p ≡ true) × Falls (q ∷ rest)

  -- Entry by entry at least another list of the same length.
  abbrev pub AtLeast : List F → List F → Type 0
  AtLeast [] [] = Unit {0}
  AtLeast [] (q ∷ qs) = ⊥
  AtLeast (p ∷ ps) [] = ⊥
  AtLeast (p ∷ ps) (q ∷ qs) = (f.le q p ≡ true) × AtLeast ps qs

  raise_to-Falls : (p : F) (ps : List F) → Falls ps → Falls (raise_to f p ps)
  raise_to-Falls p [] h = tt
  raise_to-Falls p (q ∷ qs) h = (o.max_right p q, h)

  raise_to-AtLeast : (p : F) (ps qs : List F) → AtLeast ps qs → AtLeast (raise_to f p ps) (p ∷ qs)
  raise_to-AtLeast p [] [] h = (o.le_refl p, tt)
  raise_to-AtLeast p [] (q ∷ qs) h = absurd h
  raise_to-AtLeast p (r ∷ rs) [] h = absurd h
  raise_to-AtLeast p (r ∷ rs) (q ∷ qs) h = (o.max_left p r, h)

  -- The envelope falls, and is nowhere below the precision that it was made from.
  pub envelope-Falls : (ps : List F) → Falls (envelope f ps) × AtLeast (envelope f ps) ps
  unfolding envelope
  envelope-Falls [] = (tt, tt)
  envelope-Falls (p ∷ ps) =
      let (falls, over) = envelope-Falls ps in
      (raise_to-Falls p (envelope f ps) falls, raise_to-AtLeast p (envelope f ps) ps over)
