-- ===== src/Examples/Pipeline.antt =====
-- The theorems on the shard client, at runs of two frames of two tiles.
use symphony_akida.Prelude.{
  ℕ, ◌+◌, ◌≤◌, ◌≡◌, ◌≢◌, refl, true, false, List, [], ◌∷◌, none, some, arith,
}
use symphony_akida.Prelude.Outcome.{value_error, type_error}
use symphony_akida.Prelude.Dict.{lookup, insert, nat_eq}
use symphony_akida.Pipeline.{
  Config, empty_reply, Output, reply_of, fetching, crashed, seg_fetch, stitch_fetch, Client, start,
}
use symphony_akida.Pipeline.{
  Event, acquires, registers, seg_outputs, inf_outputs, stitch_outputs, dispatches, finishes,
  cleans_up, pc_of, step, run, acquire_at, register_at, seg_output_at, inf_output_at,
  stitch_output_at, dispatch_at, finish_at, clean_up_at,
}
use symphony_akida.Pipeline.Frames.{AreHonest}
use symphony_akida.Pipeline.Slots.Defs.{held, open_frames, returning}
use symphony_akida.Pipeline.Slots.{start-run-Slots, release_never_raises}
use symphony_akida.Pipeline.Dispatch.Outputs.{stitches}
use symphony_akida.Pipeline.Dispatch.{stitched_once}
use symphony_akida.Pipeline.Counts.Outputs.{done_frames, nameless}
use symphony_akida.Pipeline.Counts.{img_done-done_frames, ended_all_done}
use symphony_akida.Pipeline.Progress.Defs.{success, serial_events}
use symphony_akida.Pipeline.Progress.{serial_run_ends}
use symphony_akida.Pipeline.Losses.{lost_segment}

abbrev two_frames : Config
two_frames = record { count = 2; n_tiles = 2; in_flight = 1; stall_timeout = 10 }

abbrev failure : ℕ → Output
failure i = record { is_successful = true; text = some (record empty_reply { image_id = some i }) }

-- Frame 0 goes through with one tile output twice; frame 1 fails in the split stage.
abbrev some_events : List Event
some_events =
    acquires
    ∷ registers 7
    ∷ seg_outputs (success 0)
    ∷ inf_outputs (success 0)
    ∷ inf_outputs (success 0)
    ∷ dispatches
    ∷ inf_outputs (success 0)
    ∷ stitch_outputs (success 0)
    ∷ finishes stitch_fetch 3
    ∷ cleans_up stitch_fetch
    ∷ acquires
    ∷ registers 8
    ∷ seg_outputs (failure 1)
    ∷ finishes seg_fetch 4
    ∷ cleans_up seg_fetch
    ∷ []

some_events-AreHonest : AreHonest two_frames some_events (start two_frames 0)
unfolding run step start acquire_at register_at seg_output_at inf_output_at stitch_output_at
    dispatch_at finish_at clean_up_at reply_of lookup insert
some_events-AreHonest = (
  tt,
  (
    tt,
    (
      omega arith,
      (
        omega arith,
        (
          omega arith,
          (tt, (omega arith, (omega arith, (tt, (tt, (tt, (tt, (omega arith, (tt, (tt, tt)))))))))),
        ),
      ),
    ),
  ),
)

abbrev some_run : Client
some_run = run two_frames some_events (start two_frames 0)

start-run-Slots_example :
    (some_run.sem
        + held some_run.submit_pc
        + open_frames some_run
        + (returning some_run.seg_pc + returning some_run.inf_pc + returning some_run.stitch_pc)
      ≡ 1)
    × (open_frames some_run ≤ 1)
start-run-Slots_example = start-run-Slots two_frames 0 some_events some_events-AreHonest

release_never_raises_example : pc_of stitch_fetch some_run ≢ crashed value_error
release_never_raises_example =
    release_never_raises two_frames 0 some_events stitch_fetch some_events-AreHonest

stitched_once_example : stitches 0 some_run.sent_stitch ≤ 1
stitched_once_example = stitched_once two_frames 0 0 some_events

some_run_stitches : stitches 0 some_run.sent_stitch ≡ 1
unfolding run step start acquire_at register_at seg_output_at inf_output_at stitch_output_at
    dispatch_at finish_at clean_up_at reply_of lookup insert
some_run_stitches = refl

img_done-done_frames_example :
    (some_run.img_done ≡ done_frames some_run + nameless some_run)
    × (some_run.img_err ≤ some_run.img_done)
    × (done_frames some_run ≤ some_run.submitted)
    × (some_run.submitted ≤ 2)
img_done-done_frames_example = img_done-done_frames two_frames 0 some_events some_events-AreHonest

some_run_ended : (some_run.done_evt ≡ true) × (some_run.stalled ≡ false) × (nameless some_run ≡ 0)
unfolding run step start acquire_at register_at seg_output_at inf_output_at stitch_output_at
    dispatch_at finish_at clean_up_at reply_of lookup insert
some_run_ended = (refl, refl, refl)

ended_all_done_example :
    (done_frames some_run ≡ 2) × (some_run.submitted ≡ 2) × (some_run.img_done ≡ 2)
ended_all_done_example =
    ended_all_done two_frames 0 some_events some_events-AreHonest some_run_ended.0 some_run_ended.1
      some_run_ended.2

serial_run_ends_example :
    let s = run two_frames (serial_events two_frames 5 0 2) (start two_frames 5) in
    (s.done_evt ≡ true)
    × (s.stalled ≡ false)
    × (s.img_done ≡ 2)
    × (s.img_err ≡ 0)
    × (s.inf_seen ≡ 4)
    × (s.sem ≡ 1)
serial_run_ends_example = serial_run_ends two_frames 5 (omega arith) (omega arith) (omega arith)

abbrev unsuccessful : Output
unsuccessful = record { is_successful = false; text = none }

-- One frame is registered, and nothing has come back.
abbrev one_sent : Client
one_sent = run two_frames (acquires ∷ registers 7 ∷ []) (start two_frames 0)

one_sent_lem : (one_sent.seg_pc ≡ fetching) × (one_sent.seg_seen ≡ 0)
unfolding run step start acquire_at register_at seg_output_at inf_output_at stitch_output_at
    dispatch_at finish_at clean_up_at reply_of lookup insert
one_sent_lem = (refl, refl)

lost_segment_example :
    let t =
      run two_frames
        (seg_outputs unsuccessful ∷ finishes seg_fetch 1 ∷ cleans_up seg_fetch ∷ [])
        one_sent in
    (t.frames ≡ one_sent.frames)
    × (t.sem ≡ one_sent.sem)
    × (t.img_done ≡ one_sent.img_done + 1)
    × (t.img_err ≡ one_sent.img_err + 1)
    × ((run two_frames some_events t).seg_pc ≡ crashed type_error)
lost_segment_example =
    lost_segment two_frames 1 unsuccessful some_events one_sent one_sent_lem.0
      (omega (arith, one_sent_lem.1)) refl

abbrev one_split : Client
one_split = run two_frames (seg_outputs (success 0) ∷ []) one_sent

one_split_lem : (one_split.inf_pc ≡ fetching) × (one_split.inf_seen ≡ 0)
unfolding run step start acquire_at register_at seg_output_at inf_output_at stitch_output_at
    dispatch_at finish_at clean_up_at reply_of lookup insert
one_split_lem = (refl, refl)
