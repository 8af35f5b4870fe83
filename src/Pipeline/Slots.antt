-- ===== src/Pipeline/Slots.antt =====
-- The bounded semaphore of the shard client, over every interleaving of its threads.
pub mod Defs
mod Outputs
mod Finish
use Prim.Native.String.{String}
use native.Mathlib.Nat.{le_refl}
use symphony_akida.Prelude.{
  ℕ, suc, ◌+◌, ◌-◌, ◌≤◌, ◌<◌, ◌*◌, ◌&&◌, ltb, ◌≡◌, ◌≢◌, refl, ◌⊎◌, inl, inr, Bool, true, false,
  List, [], ◌∷◌, Option, none, some, arith, if◌then◌else◌, Bool-cases, Option-cases,
}
use symphony_akida.Prelude.Outcome.{Exception, value_error}
use symphony_akida.Prelude.Dict.{lookup, insert, nat_eq}
use symphony_akida.Pipeline.State.{
  Config, Reply, Output, reply_of, FrameState, Pc, fetching, finishing, cleaning, stitching,
  crashed, SubmitPc, waiting, acquired, Thread, seg_fetch, inf_fetch, stitch_fetch, Client, start,
  find_frame,
}
use symphony_akida.Pipeline.Steps.{
  Event, acquires, registers, seg_outputs, inf_outputs, stitch_outputs, dispatches, finishes,
  cleans_up, watches, acquire_at, new_frame, register_at, seg_output_at, inf_output_at, inf_frame,
  inf_tally, tally_tile, inf_receive, count_tile, next_action, stitch_output_at, dispatch_at,
  finish_at, finish_locked, clean_up_at, clean_up, watch, mark_done, was_done, pc_of, step, run,
}
use symphony_akida.Pipeline.Frames.{
  weight, weight_at, weight-insert, Domain, Domain-insert_known, Domain-insert_new, Known, IsHonest,
  AreHonest,
}
use Defs.{held, undone, returning, IsSound, Balanced, Slots, open_frames, no_release, start-Slots}
use Outputs.{
  acquire-Slots, register-Slots, seg_output-Slots, inf_output-Slots, stitch_output-Slots,
  dispatch-Slots,
}
use Finish.{finish-Slots, clean_up_at-Slots}

pub step-Slots :
    (cfg : Config) (e : Event) (s : Client) → IsHonest e s → Slots cfg s → Slots cfg (step cfg e s)
unfolding step watch
step-Slots cfg acquires s h v = acquire-Slots s.submit_pc cfg s refl v
step-Slots cfg (registers sample) s h v = register-Slots s.submit_pc cfg sample s refl v
step-Slots cfg (seg_outputs out) s h v = seg_output-Slots s.seg_pc cfg out s refl h v
step-Slots cfg (inf_outputs out) s h v = inf_output-Slots s.inf_pc cfg out s refl h v
step-Slots cfg (stitch_outputs out) s h v = stitch_output-Slots s.stitch_pc cfg out s refl h v
step-Slots cfg dispatches s h v = dispatch-Slots s.inf_pc cfg s refl v
step-Slots cfg (finishes t now) s h v = finish-Slots (pc_of t s) cfg now t s refl v
step-Slots cfg (cleans_up t) s h v = clean_up_at-Slots (pc_of t s) cfg t s refl v
step-Slots cfg (watches now) s h v = ground arith

run-Slots :
    (cfg : Config) (es : List Event) (s : Client)
    → AreHonest cfg es s
    → Slots cfg s
    → Slots cfg (run cfg es s)
unfolding run
run-Slots cfg [] s h v = v
run-Slots cfg (e ∷ es) s h v = run-Slots cfg es (step cfg e s) h.1 (step-Slots cfg e s h.0 v)

-- Over every interleaving of the client's threads, whatever the services answer about frames that
-- they were sent, duplicates and failures included: each slot of the semaphore is free, or held by
-- the submitting thread, or by a frame that is not done, or by a thread about to release it. So
-- at most `in_flight` frames are open at once.
pub start-run-Slots :
    (cfg : Config) (now : ℕ) (es : List Event)
    → AreHonest cfg es (start cfg now)
    → let s = run cfg es (start cfg now) in
      (s.sem
          + held s.submit_pc
          + open_frames s
          + (returning s.seg_pc + returning s.inf_pc + returning s.stitch_pc)
        ≡ cfg.in_flight)
      × (open_frames s ≤ cfg.in_flight)
start-run-Slots cfg now es h =
    let v = run-Slots cfg es (start cfg now) h (start-Slots cfg now) in
    (v.balance, omega (arith, v.balance))

-- No thread ever ends on the `ValueError` of a semaphore released more often than acquired, over
-- every interleaving, if the services answer about frames that they were sent.
pub release_never_raises :
    (cfg : Config) (now : ℕ) (es : List Event) (t : Thread)
    → AreHonest cfg es (start cfg now)
    → pc_of t (run cfg es (start cfg now)) ≢ crashed value_error
release_never_raises cfg now es t h e =
    no_release t _ e (run-Slots cfg es (start cfg now) h (start-Slots cfg now))
