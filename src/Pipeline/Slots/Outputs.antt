-- ===== src/Pipeline/Slots/Outputs.antt =====
-- The account is kept by the submitting thread, by each fetched output and by a stitch task.
use Prim.Native.String.{String}
use native.Mathlib.Nat.{le_refl}
use symphony_akida.Prelude.{
  ℕ, ◌+◌, ◌*◌, ◌&&◌, ltb, ◌≡◌, refl, inl, inr, Bool, true, false, Option, none, some, arith,
  Bool-cases,
}
use symphony_akida.Prelude.Dict.{nat_eq}
use symphony_akida.Pipeline.State.{
  Config, Reply, Output, reply_of, FrameState, Pc, fetching, finishing, cleaning, stitching,
  crashed, SubmitPc, waiting, acquired, Client, find_frame,
}
use symphony_akida.Pipeline.Steps.{
  acquire_at, new_frame, register_at, seg_output_at, inf_output_at, inf_frame, inf_tally,
  tally_tile, inf_receive, count_tile, stitch_output_at, dispatch_at,
}
use symphony_akida.Pipeline.Frames.{weight-insert, Domain-insert_known, Domain-insert_new, Known}
use symphony_akida.Pipeline.Slots.Defs.{undone, IsSound, Slots}

pub acquire-Slots :
    (pc : SubmitPc) (cfg : Config) (s : Client)
    → s.submit_pc ≡ pc
    → Slots cfg s
    → Slots cfg (acquire_at pc cfg s)
unfolding acquire_at
acquire-Slots acquired cfg s e v = v
acquire-Slots waiting cfg s e v = ground arith

pub IsSound-mono : (n : ℕ) (pc : Pc) → IsSound n pc → IsSound (n + 1) pc
IsSound-mono n fetching h = tt
IsSound-mono n (finishing none failed) h = tt
IsSound-mono n (finishing (some i) failed) h = omega arith
IsSound-mono n (cleaning image_id) h = tt
IsSound-mono n (stitching none) h = tt
IsSound-mono n (stitching (some i)) h = omega arith
IsSound-mono n (crashed e) h = h

pub register-Slots :
    (pc : SubmitPc) (cfg : Config) (sample : ℕ) (s : Client)
    → s.submit_pc ≡ pc
    → Slots cfg s
    → Slots cfg (register_at pc sample s)
unfolding register_at
register-Slots waiting cfg sample s e v = v
register-Slots acquired cfg sample s e v = record {
  balance = ground (
    arith,
    weight-insert undone s.submitted (new_frame sample) s.frames,
    (v.domain s.submitted).1 (le_refl s.submitted),
  );
  domain = Domain-insert_new s.submitted _ s.frames v.domain;
  seg_sound = IsSound-mono s.submitted s.seg_pc v.seg_sound;
  inf_sound = IsSound-mono s.submitted s.inf_pc v.inf_sound;
  stitch_sound = IsSound-mono s.submitted s.stitch_pc v.stitch_sound;
}

pub seg_output-Slots :
    (pc : Pc) (cfg : Config) (out : Output) (s : Client)
    → s.seg_pc ≡ pc
    → Known s.submitted (reply_of out).image_id
    → Slots cfg s
    → Slots cfg (seg_output_at pc cfg out s)
unfolding seg_output_at
seg_output-Slots fetching cfg out s e known v = ground arith
seg_output-Slots _ cfg out s e known v = v

-- Counting a tile keeps the frame open or done, as it was.
pub inf_frame-Slots :
    (cfg : Config) (ok : Bool) (image_id : Option ℕ) (s : Client) (found : Option FrameState)
    → s.inf_pc ≡ fetching
    → find_frame image_id s.frames ≡ found
    → Known s.submitted image_id
    → Slots cfg s
    → Slots cfg (inf_frame cfg ok image_id s found)
unfolding inf_frame
inf_frame-Slots cfg ok none s found e f known v = v
inf_frame-Slots cfg ok (some i) s none e f known v = v
inf_frame-Slots cfg ok (some i) s (some st) e f known v = record {
  balance = ground (arith, weight-insert undone i (count_tile cfg ok st) s.frames);
  domain = Domain-insert_known s.submitted i _ s.frames known v.domain;
  seg_sound = v.seg_sound;
  inf_sound = ground arith;
  stitch_sound = v.stitch_sound;
}

pub inf_tally-Slots :
    (cfg : Config) (reply : Reply) (host : Option String) (s : Client)
    → s.inf_pc ≡ fetching
    → Known s.submitted reply.image_id
    → Slots cfg s
    → Slots cfg (inf_tally cfg reply host s)
unfolding inf_tally
inf_tally-Slots cfg reply none s e known v = ground arith
inf_tally-Slots cfg reply (some host) s e known v =
    inf_frame-Slots cfg true reply.image_id (tally_tile reply host s) _ e refl known v

pub inf_output-Slots :
    (pc : Pc) (cfg : Config) (out : Output) (s : Client)
    → s.inf_pc ≡ pc
    → Known s.submitted (reply_of out).image_id
    → Slots cfg s
    → Slots cfg (inf_output_at pc cfg out s)
unfolding inf_output_at
inf_output-Slots fetching cfg out s e known v =
    elim (Bool-cases (ltb s.inf_seen (cfg.count * cfg.n_tiles))) [
      | inl more ↦ rw more (elim (Bool-cases (out.is_successful && (reply_of out).ok)) [
        | inl ok ↦
            rw (ok, inf_receive)
              (inf_tally-Slots cfg (reply_of out) (reply_of out).host _ e known v)
        | inr bad ↦
            rw (bad, inf_receive)
              (inf_frame-Slots cfg false (reply_of out).image_id _ _ e refl known v)
      ])
      | inr over ↦ rw over v
    ]
inf_output-Slots _ cfg out s e known v = v

pub stitch_output-Slots :
    (pc : Pc) (cfg : Config) (out : Output) (s : Client)
    → s.stitch_pc ≡ pc
    → Known s.submitted (reply_of out).image_id
    → Slots cfg s
    → Slots cfg (stitch_output_at pc out s)
unfolding stitch_output_at
stitch_output-Slots fetching cfg out s e known v = ground arith
stitch_output-Slots _ cfg out s e known v = v

pub dispatch-Slots :
    (pc : Pc) (cfg : Config) (s : Client)
    → s.inf_pc ≡ pc
    → Slots cfg s
    → Slots cfg (dispatch_at pc s)
unfolding dispatch_at
dispatch-Slots (stitching image_id) cfg s e v = ground arith
dispatch-Slots _ cfg s e v = v
