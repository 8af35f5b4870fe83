-- ===== src/Pipeline/Frames.antt =====
-- `img_state` of the shard client: its keys are the frames submitted so far, and sums over it
-- follow an update of one entry.
use symphony_akida.Prelude.{ℕ, ◌+◌, ◌≤◌, ◌<◌, ◌≡◌, ◌≢◌, List, [], ◌∷◌, Option, none, some, arith}
use symphony_akida.Prelude.Dict.{lookup, insert, lookup-insert, nat_eq}
use symphony_akida.Pipeline.State.{Config, FrameState, Client, reply_of}
use symphony_akida.Pipeline.Steps.{Event, seg_outputs, inf_outputs, stitch_outputs, step}

module _ (f : FrameState → ℕ) where
  -- The sum of `f` over the entries.
  abbrev pub weight : List (ℕ × FrameState) → ℕ
  weight [] = 0
  weight ((i, st) ∷ m) = f st + weight m

  abbrev pub weight_at : Option FrameState → ℕ
  weight_at none = 0
  weight_at (some st) = f st

  -- Writing one entry exchanges its old share of the sum for the new one.
  pub weight-insert :
      (i : ℕ) (st : FrameState) (m : List (ℕ × FrameState))
      → weight (insert i st m) + weight_at (lookup i m) ≡ weight m + f st
  unfolding lookup insert
  weight-insert i st [] = omega arith
  weight-insert i st ((j, old) ∷ m) = ground (arith, weight-insert i st m)

-- The keys are the numbers below `n`.
abbrev pub Domain : ℕ → List (ℕ × FrameState) → Type 0
Domain n m = (j : ℕ) → (j < n → lookup j m ≢ none) × (n ≤ j → lookup j m ≡ none)

pub Domain-insert_known :
    (n i : ℕ) (st : FrameState) (m : List (ℕ × FrameState))
    → i < n
    → Domain n m
    → Domain n (insert i st m)
Domain-insert_known n i st m h d j = ground (arith, lookup-insert i j st m, d j)

pub Domain-insert_new :
    (n : ℕ) (st : FrameState) (m : List (ℕ × FrameState))
    → Domain n m
    → Domain (n + 1) (insert n st m)
Domain-insert_new n st m d j = ground (arith, lookup-insert n j st m, d j)

-- An image id in a reply is absent, or that of a frame submitted before.
abbrev pub Known : ℕ → Option ℕ → Type 0
Known n none = Unit {0}
Known n (some i) = i < n

-- What is assumed of the services: they answer about frames that they were sent.
abbrev pub IsHonest : Event → Client → Type 0
IsHonest (seg_outputs out) s = Known s.submitted (reply_of out).image_id
IsHonest (inf_outputs out) s = Known s.submitted (reply_of out).image_id
IsHonest (stitch_outputs out) s = Known s.submitted (reply_of out).image_id
IsHonest _ s = Unit {0}

abbrev pub AreHonest : Config → List Event → Client → Type 0
AreHonest cfg [] s = Unit {0}
AreHonest cfg (e ∷ es) s = IsHonest e s × AreHonest cfg es (step cfg e s)
