-- ===== src/Pipeline/Dispatch/Outputs.antt =====
-- The marks that a frame gets on its way to the stitch stage, and that each output keeps them.
use Prim.Native.String.{String}
use symphony_akida.Prelude.{
  ℕ, ◌+◌, ◌≤◌, ◌*◌, ◌≡◌, refl, inl, inr, Bool, true, false, ◌&&◌, List, [], ◌∷◌, ◌++◌, Option, none,
  some, arith, ltb, ◌==◌, if◌then◌else◌, Bool-cases,
}
use symphony_akida.Prelude.Dict.{lookup, lookup-insert, nat_eq}
use symphony_akida.Pipeline.State.{
  Config, Output, reply_of, FrameState, Pc, fetching, stitching, SubmitPc, waiting, acquired,
  Client, find_frame, Reply,
}
use symphony_akida.Pipeline.Steps.{
  acquire_at, register_at, new_frame, seg_output_at, inf_output_at, inf_frame, inf_tally,
  inf_receive, tally_tile, count_tile, stitch_output_at,
}

-- How often frame `i` was sent to the stitch stage.
abbrev pub stitches : ℕ → List (Option ℕ) → ℕ
stitches i [] = 0
stitches i (none ∷ sent) = stitches i sent
stitches i (some j ∷ sent) = (if j == i then 1 else 0) + stitches i sent

pub stitches-append :
    (i : ℕ) (xs ys : List (Option ℕ)) → stitches i (xs ++ ys) ≡ stitches i xs + stitches i ys
stitches-append i [] ys = omega arith
stitches-append i (none ∷ xs) ys = stitches-append i xs ys
stitches-append i (some j ∷ xs) ys = omega (arith, stitches-append i xs ys)

abbrev pending : ℕ → Pc → ℕ
pending i (stitching (some j)) = if j == i then 1 else 0
pending i _ = 0

abbrev pub marks : Option FrameState → ℕ
marks none = 0
marks (some st) = if st.dispatched then 1 else 0

pub marks_bound : (found : Option FrameState) → marks found ≤ 1
marks_bound none = omega arith
marks_bound (some st) = ground arith

abbrev pub IsComplete : Config → Option FrameState → Type 0
IsComplete cfg none = Unit {0}
IsComplete cfg (some st) = st.dispatched ≡ true → cfg.n_tiles ≤ st.got

-- Frame `i` is sent at most as often as it is marked, and is marked only with all tiles in.
pub record Dispatched (cfg : Config) (n : ℕ) (frames : List (ℕ × FrameState)) (inf_pc : Pc)
    (sent : List (Option ℕ)) (i : ℕ) : Type 0 where
  pub once : stitches i sent + pending i inf_pc ≤ marks (lookup i frames)
  pub complete : IsComplete cfg (lookup i frames)
  pub fresh : n ≤ i → lookup i frames ≡ none

abbrev pub Dispatches : Config → Client → ℕ → Type 0
Dispatches cfg s i = Dispatched cfg s.submitted s.frames s.inf_pc s.sent_stitch i

module _ (i : ℕ) where
  pub acquire-Dispatches :
      (pc : SubmitPc) (cfg : Config) (s : Client)
      → Dispatches cfg s i
      → Dispatches cfg (acquire_at pc cfg s) i
  unfolding acquire_at
  acquire-Dispatches acquired cfg s v = v
  acquire-Dispatches waiting cfg s v = ground arith

  pub register-Dispatches :
      (pc : SubmitPc) (cfg : Config) (sample : ℕ) (s : Client)
      → Dispatches cfg s i
      → Dispatches cfg (register_at pc sample s) i
  unfolding register_at
  register-Dispatches waiting cfg sample s v = v
  register-Dispatches acquired cfg sample s v =
      ground (arith, lookup-insert s.submitted i (new_frame sample) s.frames)

  inf_frame-Dispatches :
      (cfg : Config) (ok : Bool) (image_id : Option ℕ) (s : Client) (found : Option FrameState)
      → s.inf_pc ≡ fetching
      → find_frame image_id s.frames ≡ found
      → Dispatches cfg s i
      → Dispatches cfg (inf_frame cfg ok image_id s found) i
  unfolding inf_frame
  inf_frame-Dispatches cfg ok none s found e f v = v
  inf_frame-Dispatches cfg ok (some j) s none e f v = v
  inf_frame-Dispatches cfg ok (some j) s (some st) e f v =
      ground (arith, lookup-insert j i (count_tile cfg ok st) s.frames)

  inf_tally-Dispatches :
      (cfg : Config) (reply : Reply) (host : Option String) (s : Client)
      → s.inf_pc ≡ fetching
      → Dispatches cfg s i
      → Dispatches cfg (inf_tally cfg reply host s) i
  unfolding inf_tally
  inf_tally-Dispatches cfg reply none s e v = ground arith
  inf_tally-Dispatches cfg reply (some host) s e v =
      inf_frame-Dispatches cfg true reply.image_id (tally_tile reply host s) _ e refl v

  pub inf_output-Dispatches :
      (pc : Pc) (cfg : Config) (out : Output) (s : Client)
      → s.inf_pc ≡ pc
      → Dispatches cfg s i
      → Dispatches cfg (inf_output_at pc cfg out s) i
  unfolding inf_output_at
  inf_output-Dispatches fetching cfg out s e v =
      elim (Bool-cases (ltb s.inf_seen (cfg.count * cfg.n_tiles))) [
        | inl more ↦ rw more (elim (Bool-cases (out.is_successful && (reply_of out).ok)) [
          | inl ok ↦
              rw (ok, inf_receive)
                (inf_tally-Dispatches cfg (reply_of out) (reply_of out).host _ e v)
          | inr bad ↦
              rw (bad, inf_receive)
                (inf_frame-Dispatches cfg false (reply_of out).image_id _ _ e refl v)
        ])
        | inr over ↦ rw over v
      ]
  inf_output-Dispatches _ cfg out s e v = v

  pub seg_output-Dispatches :
      (pc : Pc) (cfg : Config) (out : Output) (s : Client)
      → Dispatches cfg s i
      → Dispatches cfg (seg_output_at pc cfg out s) i
  unfolding seg_output_at
  seg_output-Dispatches fetching cfg out s v = ground arith
  seg_output-Dispatches _ cfg out s v = v

  pub stitch_output-Dispatches :
      (pc : Pc) (cfg : Config) (out : Output) (s : Client)
      → Dispatches cfg s i
      → Dispatches cfg (stitch_output_at pc out s) i
  unfolding stitch_output_at
  stitch_output-Dispatches fetching cfg out s v = ground arith
  stitch_output-Dispatches _ cfg out s v = v
