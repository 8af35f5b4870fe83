-- ===== src/Pipeline/Counts/Outputs.antt =====
-- What the frame counters of the shard client stand for, and that each output keeps it.
use Prim.Native.String.{String}
use native.Mathlib.Nat.{le_refl}
use symphony_akida.Prelude.{
  ℕ, ◌+◌, ◌≤◌, ◌*◌, ◌≡◌, refl, inl, inr, Bool, true, false, ◌&&◌, List, [], ◌∷◌, Option, none, some,
  arith, ltb, if◌then◌else◌, Bool-cases,
}
use symphony_akida.Prelude.Outcome.{type_error}
use symphony_akida.Prelude.Dict.{nat_eq}
use symphony_akida.Pipeline.State.{
  Config, Output, reply_of, FrameState, Pc, fetching, cleaning, stitching, crashed, SubmitPc,
  waiting, acquired, Client, find_frame, Reply,
}
use symphony_akida.Pipeline.Steps.{
  acquire_at, register_at, new_frame, seg_output_at, inf_output_at, inf_frame, inf_tally,
  inf_receive, tally_tile, count_tile, stitch_output_at, dispatch_at,
}
use symphony_akida.Pipeline.Frames.{weight, weight-insert, Domain}
use symphony_akida.Pipeline.Slots.Defs.{held}

abbrev pub settled : FrameState → ℕ
settled st = if st.done then 1 else 0

abbrev pub entry : FrameState → ℕ
entry st = 1

-- A call of `_finish` with no image id, which counts a frame that it cannot name and then raises.
abbrev pub missing : Pc → ℕ
missing (cleaning none) = 1
missing (crashed type_error) = 1
missing _ = 0

-- Frames that are done.
abbrev pub done_frames : Client → ℕ
done_frames s = weight settled s.frames

abbrev pub nameless : Client → ℕ
nameless s = missing s.seg_pc + missing s.inf_pc + missing s.stitch_pc

pub record CountedAt (cfg : Config) (frames : List (ℕ × FrameState)) (n : ℕ) (submit_pc : SubmitPc)
    (img_done img_err : ℕ) (done_evt stalled : Bool) (lost : ℕ) : Type 0 where
  pub accounted : img_done ≡ weight settled frames + lost
  pub errors : img_err ≤ img_done
  pub ended : done_evt ≡ true → stalled ≡ false → cfg.count ≤ img_done
  pub entered : weight entry frames ≡ n
  pub bounded : n + held submit_pc ≤ cfg.count

abbrev pub Counted : Config → Client → Type 0
Counted cfg s =
    CountedAt cfg s.frames s.submitted s.submit_pc s.img_done s.img_err s.done_evt s.stalled
      (nameless s)

pub settled-le-entry : (m : List (ℕ × FrameState)) → weight settled m ≤ weight entry m
settled-le-entry [] = omega arith
settled-le-entry ((i, st) ∷ m) = ground (arith, settled-le-entry m)

pub acquire-Counted :
    (pc : SubmitPc) (cfg : Config) (s : Client)
    → s.submit_pc ≡ pc
    → Counted cfg s
    → Counted cfg (acquire_at pc cfg s)
unfolding acquire_at
acquire-Counted acquired cfg s e v = v
acquire-Counted waiting cfg s e v = ground arith

pub register-Counted :
    (pc : SubmitPc) (cfg : Config) (sample : ℕ) (s : Client)
    → s.submit_pc ≡ pc
    → Domain s.submitted s.frames
    → Counted cfg s
    → Counted cfg (register_at pc sample s)
unfolding register_at
register-Counted waiting cfg sample s e d v = v
register-Counted acquired cfg sample s e d v = ground (
  arith,
  weight-insert settled s.submitted (new_frame sample) s.frames,
  weight-insert entry s.submitted (new_frame sample) s.frames,
  (d s.submitted).1 (le_refl s.submitted),
)

pub seg_output-Counted :
    (pc : Pc) (cfg : Config) (out : Output) (s : Client)
    → s.seg_pc ≡ pc
    → Counted cfg s
    → Counted cfg (seg_output_at pc cfg out s)
unfolding seg_output_at
seg_output-Counted fetching cfg out s e v = ground arith
seg_output-Counted _ cfg out s e v = v

inf_frame-Counted :
    (cfg : Config) (ok : Bool) (image_id : Option ℕ) (s : Client) (found : Option FrameState)
    → s.inf_pc ≡ fetching
    → find_frame image_id s.frames ≡ found
    → Counted cfg s
    → Counted cfg (inf_frame cfg ok image_id s found)
unfolding inf_frame
inf_frame-Counted cfg ok none s found e f v = v
inf_frame-Counted cfg ok (some i) s none e f v = v
inf_frame-Counted cfg ok (some i) s (some st) e f v = ground (
  arith,
  weight-insert settled i (count_tile cfg ok st) s.frames,
  weight-insert entry i (count_tile cfg ok st) s.frames,
)

inf_tally-Counted :
    (cfg : Config) (reply : Reply) (host : Option String) (s : Client)
    → s.inf_pc ≡ fetching
    → Counted cfg s
    → Counted cfg (inf_tally cfg reply host s)
unfolding inf_tally
inf_tally-Counted cfg reply none s e v = ground arith
inf_tally-Counted cfg reply (some host) s e v =
    inf_frame-Counted cfg true reply.image_id (tally_tile reply host s) _ e refl v

pub inf_output-Counted :
    (pc : Pc) (cfg : Config) (out : Output) (s : Client)
    → s.inf_pc ≡ pc
    → Counted cfg s
    → Counted cfg (inf_output_at pc cfg out s)
unfolding inf_output_at
inf_output-Counted fetching cfg out s e v =
    elim (Bool-cases (ltb s.inf_seen (cfg.count * cfg.n_tiles))) [
      | inl more ↦ rw more (elim (Bool-cases (out.is_successful && (reply_of out).ok)) [
        | inl ok ↦
            rw (ok, inf_receive) (inf_tally-Counted cfg (reply_of out) (reply_of out).host _ e v)
        | inr bad ↦
            rw (bad, inf_receive) (inf_frame-Counted cfg false (reply_of out).image_id _ _ e refl v)
      ])
      | inr over ↦ rw over v
    ]
inf_output-Counted _ cfg out s e v = v

pub stitch_output-Counted :
    (pc : Pc) (cfg : Config) (out : Output) (s : Client)
    → s.stitch_pc ≡ pc
    → Counted cfg s
    → Counted cfg (stitch_output_at pc out s)
unfolding stitch_output_at
stitch_output-Counted fetching cfg out s e v = ground arith
stitch_output-Counted _ cfg out s e v = v

pub dispatch-Counted :
    (pc : Pc) (cfg : Config) (s : Client)
    → s.inf_pc ≡ pc
    → Counted cfg s
    → Counted cfg (dispatch_at pc s)
unfolding dispatch_at
dispatch-Counted (stitching image_id) cfg s e v = ground arith
dispatch-Counted _ cfg s e v = v
