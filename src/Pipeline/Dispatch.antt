-- ===== src/Pipeline/Dispatch.antt =====
-- When the shard client hands a frame to the stitch stage, over every interleaving of its threads
-- and whatever the services answer.
pub mod Outputs
use Prim.Native.String.{String}
use symphony_akida.Prelude.{
  ℕ, ◌+◌, ◌≤◌, ◌<◌, ◌*◌, ◌≡◌, refl, inl, inr, Bool, true, false, ◌&&◌, List, [], ◌∷◌, ◌++◌, Option,
  none, some, arith, ltb, ◌==◌, if◌then◌else◌, Bool-cases,
}
use symphony_akida.Prelude.Dict.{lookup, insert, lookup-insert, nat_eq}
use symphony_akida.Pipeline.State.{
  Config, Output, reply_of, FrameState, Pc, fetching, finishing, cleaning, stitching, SubmitPc,
  waiting, acquired, Thread, seg_fetch, inf_fetch, stitch_fetch, Client, start, find_frame, Reply,
}
use symphony_akida.Pipeline.Steps.{
  Event, acquires, registers, seg_outputs, inf_outputs, stitch_outputs, dispatches, finishes,
  cleans_up, watches, acquire_at, register_at, new_frame, seg_output_at, inf_output_at, inf_frame,
  inf_tally, inf_receive, tally_tile, count_tile, next_action, stitch_output_at, dispatch_at,
  finish_at, finish_locked, mark_done, was_done, clean_up_at, clean_up, watch, pc_of, step, run,
}
use symphony_akida.Pipeline.Dispatch.Outputs.{
  stitches, stitches-append, marks, marks_bound, IsComplete, Dispatched, Dispatches,
  acquire-Dispatches, register-Dispatches, inf_output-Dispatches, seg_output-Dispatches,
  stitch_output-Dispatches,
}

module _ (i : ℕ) where
  dispatch-Dispatches :
      (pc : Pc) (cfg : Config) (s : Client)
      → s.inf_pc ≡ pc
      → Dispatches cfg s i
      → Dispatches cfg (dispatch_at pc s) i
  unfolding dispatch_at
  dispatch-Dispatches (stitching none) cfg s e v =
      ground (arith, stitches-append i s.sent_stitch (none ∷ []))
  dispatch-Dispatches (stitching (some j)) cfg s e v =
      ground (arith, stitches-append i s.sent_stitch (some j ∷ []))
  dispatch-Dispatches _ cfg s e v = v

  mark_done-Dispatched :
      (cfg : Config) (n : ℕ) (image_id : Option ℕ) (found : Option FrameState)
      (m : List (ℕ × FrameState)) (pc : Pc) (sent : List (Option ℕ))
      → find_frame image_id m ≡ found
      → Dispatched cfg n m pc sent i
      → Dispatched cfg n (mark_done image_id found m) pc sent i
  mark_done-Dispatched cfg n none found m pc sent e v = v
  mark_done-Dispatched cfg n (some j) none m pc sent e v = v
  mark_done-Dispatched cfg n (some j) (some st) m pc sent e v =
      ground (arith, lookup-insert j i (record st { done = true }) m)

  finish_locked-Dispatches :
      (cfg : Config) (now : ℕ) (t : Thread) (image_id : Option ℕ) (failed : Bool) (s : Client)
      → Dispatched cfg s.submitted
          (mark_done image_id (find_frame image_id s.frames) s.frames)
          s.inf_pc
          s.sent_stitch
          i
      → Dispatches cfg s i
      → Dispatches cfg (finish_locked cfg now t image_id failed s) i
  unfolding finish_locked
  finish_locked-Dispatches cfg now seg_fetch image_id failed s m v = ground arith
  finish_locked-Dispatches cfg now _ image_id failed s m v = ground arith

  finish-Dispatches :
      (pc : Pc) (cfg : Config) (now : ℕ) (t : Thread) (s : Client)
      → Dispatches cfg s i
      → Dispatches cfg (finish_at pc cfg now t s) i
  unfolding finish_at
  finish-Dispatches (finishing image_id failed) cfg now t s v =
      finish_locked-Dispatches cfg now t image_id failed s
        (mark_done-Dispatched cfg s.submitted image_id _ s.frames s.inf_pc s.sent_stitch refl v) v
  finish-Dispatches _ cfg now t s v = v

  clean_up-Dispatches :
      (pc : Pc) (cfg : Config) (t : Thread) (s : Client)
      → Dispatches cfg s i
      → Dispatches cfg (clean_up_at pc cfg t s) i
  unfolding clean_up_at
  clean_up-Dispatches (cleaning none) cfg seg_fetch s v = v
  clean_up-Dispatches (cleaning none) cfg inf_fetch s v = ground arith
  clean_up-Dispatches (cleaning none) cfg stitch_fetch s v = v
  clean_up-Dispatches (cleaning (some j)) cfg seg_fetch s v = ground arith
  clean_up-Dispatches (cleaning (some j)) cfg inf_fetch s v = ground arith
  clean_up-Dispatches (cleaning (some j)) cfg stitch_fetch s v = ground arith
  clean_up-Dispatches _ cfg t s v = v

  step-Dispatches :
      (cfg : Config) (e : Event) (s : Client) → Dispatches cfg s i → Dispatches cfg (step cfg e s) i
  unfolding step watch
  step-Dispatches cfg acquires s v = acquire-Dispatches i s.submit_pc cfg s v
  step-Dispatches cfg (registers sample) s v = register-Dispatches i s.submit_pc cfg sample s v
  step-Dispatches cfg (seg_outputs out) s v = seg_output-Dispatches i s.seg_pc cfg out s v
  step-Dispatches cfg (inf_outputs out) s v = inf_output-Dispatches i s.inf_pc cfg out s refl v
  step-Dispatches cfg (stitch_outputs out) s v = stitch_output-Dispatches i s.stitch_pc cfg out s v
  step-Dispatches cfg dispatches s v = dispatch-Dispatches s.inf_pc cfg s refl v
  step-Dispatches cfg (finishes t now) s v = finish-Dispatches (pc_of t s) cfg now t s v
  step-Dispatches cfg (cleans_up t) s v = clean_up-Dispatches (pc_of t s) cfg t s v
  step-Dispatches cfg (watches now) s v = ground arith

  run-Dispatches :
      (cfg : Config) (es : List Event) (s : Client)
      → Dispatches cfg s i
      → Dispatches cfg (run cfg es s) i
  unfolding run
  run-Dispatches cfg [] s v = v
  run-Dispatches cfg (e ∷ es) s v = run-Dispatches cfg es (step cfg e s) (step-Dispatches cfg e s v)

start-Dispatches : (i : ℕ) (cfg : Config) (now : ℕ) → Dispatches cfg (start cfg now) i
unfolding start lookup
start-Dispatches i cfg now = record { once = omega arith; complete = tt; fresh = λ h. refl }

sent_frame :
    (cfg : Config) (i k : ℕ) (found : Option FrameState)
    → IsComplete cfg found
    → k ≤ marks found
    → 0 < k
    → (st : FrameState) × (found ≡ some st) × (cfg.n_tiles ≤ st.got)
sent_frame cfg i k none c h p = absurd (omega arith)
sent_frame cfg i k (some st) c h p = (st, refl, ground arith)

-- Over every interleaving of the client's threads and whatever the services answer, duplicated
-- and failed outputs included: a frame is sent to the stitch stage at most once.
pub stitched_once :
    (cfg : Config) (now i : ℕ) (es : List Event)
    → stitches i (run cfg es (start cfg now)).sent_stitch ≤ 1
stitched_once cfg now i es =
    let s = run cfg es (start cfg now) in
    let v : Dispatches cfg s i =
      run-Dispatches i cfg es (start cfg now) (start-Dispatches i cfg now) in
    omega (arith, v.once, marks_bound (lookup i s.frames))

-- A frame that was sent to the stitch stage is in `img_state`, and at least `n_tiles` tile outputs
-- that name it have been counted, over every interleaving and whatever the services answer.
pub stitched_complete :
    (cfg : Config) (now i : ℕ) (es : List Event)
    → 0 < stitches i (run cfg es (start cfg now)).sent_stitch
    → (st : FrameState) × (lookup i (run cfg es (start cfg now)).frames ≡ some st)
      × (cfg.n_tiles ≤ st.got)
stitched_complete cfg now i es p =
    let s = run cfg es (start cfg now) in
    let v : Dispatches cfg s i =
      run-Dispatches i cfg es (start cfg now) (start-Dispatches i cfg now) in
    sent_frame cfg i _ (lookup i s.frames) v.complete (omega (arith, v.once)) p
