-- ===== src/Pipeline/Counts.antt =====
-- The frame counters of the shard client, over every interleaving of its threads.
pub mod Outputs
use Prim.Native.String.{String}
use native.Mathlib.Nat.{le_refl}
use symphony_akida.Prelude.{
  ℕ, ◌+◌, ◌≤◌, ◌<◌, ◌*◌, ◌≡◌, ◌≢◌, refl, inl, inr, Bool, true, false, ◌&&◌, List, [], ◌∷◌, Option,
  none, some, arith, ltb, if◌then◌else◌, Bool-cases,
}
use symphony_akida.Prelude.Outcome.{type_error}
use symphony_akida.Prelude.Dict.{lookup, nat_eq}
use symphony_akida.Pipeline.State.{
  Config, Output, reply_of, FrameState, Pc, fetching, finishing, cleaning, stitching, crashed,
  SubmitPc, waiting, acquired, Thread, seg_fetch, inf_fetch, stitch_fetch, Client, start,
  find_frame, Reply,
}
use symphony_akida.Pipeline.Steps.{
  Event, acquires, registers, seg_outputs, inf_outputs, stitch_outputs, dispatches, finishes,
  cleans_up, watches, acquire_at, register_at, new_frame, seg_output_at, inf_output_at, inf_frame,
  inf_tally, inf_receive, tally_tile, count_tile, next_action, stitch_output_at, dispatch_at,
  finish_at, finish_locked, mark_done, was_done, clean_up_at, clean_up, watch, pc_of, step, run,
}
use symphony_akida.Pipeline.Frames.{weight, weight-insert, Domain, Known, IsHonest, AreHonest}
use symphony_akida.Pipeline.Slots.Defs.{held, Slots, start-Slots}
use symphony_akida.Pipeline.Slots.{step-Slots}
use symphony_akida.Pipeline.Counts.Outputs.{
  settled, entry, missing, done_frames, nameless, Counted, settled-le-entry, acquire-Counted,
  register-Counted, seg_output-Counted, inf_output-Counted, stitch_output-Counted, dispatch-Counted,
}

-- Marking a frame settles it; a call with no id settles none, and will be counted as missing.
weights-mark_done :
    (n : ℕ) (image_id : Option ℕ) (found : Option FrameState) (m : List (ℕ × FrameState))
    → find_frame image_id m ≡ found
    → Known n image_id
    → Domain n m
    → was_done found ≡ false
    → (weight settled (mark_done image_id found m) + missing (cleaning image_id)
        ≡ weight settled m + 1)
      × (weight entry (mark_done image_id found m) ≡ weight entry m)
weights-mark_done n none found m e known d h = omega arith
weights-mark_done n (some i) none m e known d h = absurd ((d i).0 known e)
weights-mark_done n (some i) (some st) m e known d h = ground (
  arith,
  weight-insert settled i (record st { done = true }) m,
  weight-insert entry i (record st { done = true }) m,
)

module _ (cfg : Config) (now : ℕ) (image_id : Option ℕ) (failed : Bool) (s : Client) where
  marked :
      Known s.submitted image_id
      → Domain s.submitted s.frames
      → was_done (find_frame image_id s.frames) ≡ false
      → (weight settled (mark_done image_id (find_frame image_id s.frames) s.frames)
            + missing (cleaning image_id)
          ≡ weight settled s.frames + 1)
        × (weight entry (mark_done image_id (find_frame image_id s.frames) s.frames)
            ≡ weight entry s.frames)
  marked = weights-mark_done s.submitted image_id (find_frame image_id s.frames) s.frames refl

  finish_locked-Counted :
      (t : Thread)
      → pc_of t s ≡ finishing image_id failed
      → Slots cfg s
      → Counted cfg s
      → Counted cfg (finish_locked cfg now t image_id failed s)
  unfolding finish_locked
  finish_locked-Counted seg_fetch e a v = ground (arith, marked (rw e at a.seg_sound) a.domain)
  finish_locked-Counted inf_fetch e a v = ground (arith, marked (rw e at a.inf_sound) a.domain)
  finish_locked-Counted stitch_fetch e a v =
      ground (arith, marked (rw e at a.stitch_sound) a.domain)

finish-Counted :
    (pc : Pc) (cfg : Config) (now : ℕ) (t : Thread) (s : Client)
    → pc_of t s ≡ pc
    → Slots cfg s
    → Counted cfg s
    → Counted cfg (finish_at pc cfg now t s)
unfolding finish_at
finish-Counted (finishing image_id failed) cfg now t s e a v =
    finish_locked-Counted cfg now image_id failed s t e a v
finish-Counted _ cfg now t s e a v = v

clean_up-Counted :
    (pc : Pc) (cfg : Config) (t : Thread) (s : Client)
    → pc_of t s ≡ pc
    → Counted cfg s
    → Counted cfg (clean_up_at pc cfg t s)
unfolding clean_up_at
clean_up-Counted (cleaning none) cfg seg_fetch s e v = ground arith
clean_up-Counted (cleaning none) cfg inf_fetch s e v = ground arith
clean_up-Counted (cleaning none) cfg stitch_fetch s e v = ground arith
clean_up-Counted (cleaning (some j)) cfg seg_fetch s e v = ground arith
clean_up-Counted (cleaning (some j)) cfg inf_fetch s e v = ground arith
clean_up-Counted (cleaning (some j)) cfg stitch_fetch s e v = ground arith
clean_up-Counted _ cfg t s e v = v

step-Counted :
    (cfg : Config) (e : Event) (s : Client)
    → Slots cfg s
    → Counted cfg s
    → Counted cfg (step cfg e s)
unfolding step watch
step-Counted cfg acquires s a v = acquire-Counted s.submit_pc cfg s refl v
step-Counted cfg (registers sample) s a v =
    register-Counted s.submit_pc cfg sample s refl a.domain v
step-Counted cfg (seg_outputs out) s a v = seg_output-Counted s.seg_pc cfg out s refl v
step-Counted cfg (inf_outputs out) s a v = inf_output-Counted s.inf_pc cfg out s refl v
step-Counted cfg (stitch_outputs out) s a v = stitch_output-Counted s.stitch_pc cfg out s refl v
step-Counted cfg dispatches s a v = dispatch-Counted s.inf_pc cfg s refl v
step-Counted cfg (finishes t now) s a v = finish-Counted (pc_of t s) cfg now t s refl a v
step-Counted cfg (cleans_up t) s a v = clean_up-Counted (pc_of t s) cfg t s refl v
step-Counted cfg (watches now) s a v = ground arith

run-Counted :
    (cfg : Config) (es : List Event) (s : Client)
    → AreHonest cfg es s
    → Slots cfg s
    → Counted cfg s
    → Counted cfg (run cfg es s)
unfolding run
run-Counted cfg [] s h a v = v
run-Counted cfg (e ∷ es) s h a v =
    run-Counted cfg es (step cfg e s) h.1 (step-Slots cfg e s h.0 a) (step-Counted cfg e s a v)

start-Counted : (cfg : Config) (now : ℕ) → Counted cfg (start cfg now)
unfolding start
start-Counted cfg now = ground arith

-- Over every interleaving, if the services answer about frames that they were sent: `img_done`
-- counts the frames that are done, each once, and the calls of `_finish` that had no image id;
-- no more frames are done than submitted, and no more are submitted than asked for.
pub img_done-done_frames :
    (cfg : Config) (now : ℕ) (es : List Event)
    → AreHonest cfg es (start cfg now)
    → let s = run cfg es (start cfg now) in
      (s.img_done ≡ done_frames s + nameless s)
      × (s.img_err ≤ s.img_done)
      × (done_frames s ≤ s.submitted)
      × (s.submitted ≤ cfg.count)
img_done-done_frames cfg now es h =
    let s = run cfg es (start cfg now) in
    let v : Counted cfg s =
      run-Counted cfg es (start cfg now) h (start-Slots cfg now) (start-Counted cfg now) in
    (
      v.accounted,
      v.errors,
      omega (arith, v.entered, settled-le-entry s.frames),
      omega (arith, v.bounded),
    )

-- A run that has ended without a stall, and without a call of `_finish` that had no image id, has
-- submitted every frame, and every one is done, if the services answer about frames that they
-- were sent.
pub ended_all_done :
    (cfg : Config) (now : ℕ) (es : List Event)
    → AreHonest cfg es (start cfg now)
    → (run cfg es (start cfg now)).done_evt ≡ true
    → (run cfg es (start cfg now)).stalled ≡ false
    → nameless (run cfg es (start cfg now)) ≡ 0
    → let s = run cfg es (start cfg now) in
      (done_frames s ≡ cfg.count) × (s.submitted ≡ cfg.count) × (s.img_done ≡ cfg.count)
ended_all_done cfg now es h ended goes named =
    let s = run cfg es (start cfg now) in
    let v : Counted cfg s =
      run-Counted cfg es (start cfg now) h (start-Slots cfg now) (start-Counted cfg now) in
    let all : cfg.count ≤ s.img_done = v.ended ended goes in
    let done : done_frames s ≤ s.submitted = omega (arith, v.entered, settled-le-entry s.frames) in
    let accounted : s.img_done ≡ done_frames s + nameless s = v.accounted in
    let bounded : s.submitted ≤ cfg.count = omega (arith, v.bounded) in
    (omega arith, omega arith, omega arith)
