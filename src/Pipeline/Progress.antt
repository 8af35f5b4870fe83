-- ===== src/Pipeline/Progress.antt =====
-- A run of the shard client in which every task succeeds comes to its end.
pub mod Defs
use native.Mathlib.Nat.{le_refl}
use Prim.Native.String.{String}
use symphony_akida.Prelude.{
  ℕ, zero, suc, ◌+◌, ◌-◌, ◌*◌, ◌≤◌, ◌<◌, ◌≡◌, refl, sym, subst, ◌∙◌, Bool, true, false, List, [],
  ◌∷◌, ◌++◌, Option, none, some, arith, leb, ltb,
}
use symphony_akida.Prelude.Dict.{lookup, insert, lookup-insert, lookup-insert_self, nat_eq}
use symphony_akida.Pipeline.State.{
  Config, Reply, Output, reply_of, FrameState, fetching, stitching, waiting, acquired, stitch_fetch,
  Client, start,
}
use symphony_akida.Pipeline.Steps.{
  Event, acquires, registers, seg_outputs, inf_outputs, stitch_outputs, dispatches, finishes,
  cleans_up, acquire_at, register_at, new_frame, seg_output_at, inf_output_at, stitch_output_at,
  dispatch_at, finish_at, clean_up_at, step, run,
}
use symphony_akida.Pipeline.Progress.Defs.{
  success, tiles, frame_events, serial_events, Quiet, Splitting, Ready, tile_in_range, run-append,
}

module _ (cfg : Config) (now k : ℕ) where
  begin_frame :
      (s : Client)
      → k < cfg.count
      → 0 < cfg.in_flight
      → Quiet cfg k s
      → Splitting cfg k 0
          (step cfg (seg_outputs (success k)) (step cfg (registers k) (step cfg acquires s)))
  unfolding step acquire_at register_at seg_output_at reply_of
  begin_frame s more slots q = ground (arith, lookup-insert k k (new_frame k) s.frames)

  tile_arrives :
      (j : ℕ) (s : Client)
      → k < cfg.count
      → suc j < cfg.n_tiles
      → Splitting cfg k j s
      → Splitting cfg k (suc j) (step cfg (inf_outputs (success k)) s)
  unfolding step inf_output_at reply_of
  tile_arrives j s more room q =
      let fetches = tile_in_range k cfg.count j cfg.n_tiles more (omega arith) in
      let st : FrameState = record {
        got = j + 1;
        err = false;
        done = false;
        dispatched = false;
        sample = k;
      } in
      ground (arith, lookup-insert_self k st s.frames)

  last_tile_arrives :
      (j : ℕ) (s : Client)
      → k < cfg.count
      → suc j ≡ cfg.n_tiles
      → Splitting cfg k j s
      → Ready cfg k (step cfg (inf_outputs (success k)) s)
  unfolding step inf_output_at reply_of
  last_tile_arrives j s more room q =
      let fetches = tile_in_range k cfg.count j cfg.n_tiles more (omega arith) in
      let st : FrameState = record {
        got = j + 1;
        err = false;
        done = false;
        dispatched = true;
        sample = k;
      } in
      ground (arith, lookup-insert_self k st s.frames)

  tiles_arrive :
      (m j : ℕ) (s : Client)
      → k < cfg.count
      → j + suc m ≡ cfg.n_tiles
      → Splitting cfg k j s
      → Ready cfg k (run cfg (tiles k (suc m)) s)
  unfolding run
  tiles_arrive zero j s more room q = last_tile_arrives j s more (omega arith) q
  tiles_arrive (suc m) j s more room q =
      tiles_arrive m (suc j) _ more (omega arith) (tile_arrives j s more (omega arith) q)

  end_frame :
      (s : Client)
      → k < cfg.count
      → Ready cfg k s
      → Quiet cfg (suc k) (
          step cfg (cleans_up stitch_fetch) (
            step cfg
              (finishes stitch_fetch now)
              (step cfg (stitch_outputs (success k)) (step cfg dispatches s))))
  unfolding step dispatch_at stitch_output_at finish_at clean_up_at reply_of
  end_frame s more r = ground arith

  frame_passes :
      (s : Client)
      → k < cfg.count
      → 0 < cfg.in_flight
      → 0 < cfg.n_tiles
      → Quiet cfg k s
      → Quiet cfg (suc k) (run cfg (frame_events cfg now k) s)
  unfolding run
  frame_passes s more slots some_tiles q =
      let m = cfg.n_tiles - 1 in
      let n : cfg.n_tiles ≡ suc m = omega arith in
      let s' = step cfg (seg_outputs (success k)) (step cfg (registers k) (step cfg acquires s)) in
      let r : Ready cfg k (run cfg (tiles k cfg.n_tiles) s') =
        subst (λ t. Ready cfg k (run cfg (tiles k t) s')) (sym n)
          (tiles_arrive m 0 s' more (omega arith) (begin_frame s more slots q)) in
      rw (run-append cfg (tiles k cfg.n_tiles)) (end_frame _ more r)

serial_run :
    (cfg : Config) (now n k : ℕ) (s : Client)
    → k + n ≡ cfg.count
    → 0 < cfg.in_flight
    → 0 < cfg.n_tiles
    → Quiet cfg k s
    → Quiet cfg cfg.count (run cfg (serial_events cfg now k n) s)
unfolding run
serial_run cfg now zero k s e slots some_tiles q =
    let same : k ≡ cfg.count = omega arith in subst (λ t. Quiet cfg t s) same q
serial_run cfg now (suc n) k s e slots some_tiles q = rw (run-append cfg (frame_events cfg now k)) (
    serial_run cfg now n (suc k) _ (omega arith) slots some_tiles
      (frame_passes cfg now k s (omega arith) slots some_tiles q))

start-Quiet : (cfg : Config) (now : ℕ) → 0 < cfg.count → Quiet cfg 0 (start cfg now)
unfolding start
start-Quiet cfg now h = ground arith

-- If there are frames, tiles and slots, a run that takes the frames one after another, all of
-- whose tasks succeed, sets the end event without a stall: every frame and every tile is counted
-- once, none as an error, and every slot of the semaphore is free again.
pub serial_run_ends :
    (cfg : Config) (now : ℕ)
    → 0 < cfg.count
    → 0 < cfg.in_flight
    → 0 < cfg.n_tiles
    → let s = run cfg (serial_events cfg now 0 cfg.count) (start cfg now) in
      (s.done_evt ≡ true)
      × (s.stalled ≡ false)
      × (s.img_done ≡ cfg.count)
      × (s.img_err ≡ 0)
      × (s.inf_seen ≡ cfg.count * cfg.n_tiles)
      × (s.sem ≡ cfg.in_flight)
serial_run_ends cfg now some_frames slots some_tiles =
    let q =
      serial_run cfg now cfg.count 0 (start cfg now) (omega arith) slots some_tiles
        (start-Quiet cfg now some_frames) in
    let s = run cfg (serial_events cfg now 0 cfg.count) (start cfg now) in
    let done : s.done_evt ≡ true = q.ends ∙ ground arith in
    (done, q.not_stalled, q.all_done, q.no_errors, q.inf_all, q.all_free)
