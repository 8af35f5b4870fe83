-- ===== src/Pipeline/Steps.antt =====
-- The steps of the shard client's threads: shard_client.py, the functions inside `main`.
use Prim.Native.String.{String}
use symphony_akida.Prelude.{
  ℕ, ◌+◌, ◌-◌, ◌*◌, Bool, true, false, not, ◌&&◌, ◌||◌, List, [], ◌∷◌, ◌++◌, map, Option, none,
  some, ltb, leb, range, if◌then◌else◌,
}
use symphony_akida.Prelude.Outcome.{type_error, value_error, key_error}
use symphony_akida.Prelude.Dict.{insert, set_default, nat_eq, string_eq}
use symphony_akida.Pipeline.State.{
  Config, Reply, Output, reply_of, FrameState, Pc, fetching, finishing, cleaning, stitching,
  crashed, SubmitPc, waiting, acquired, Thread, seg_fetch, inf_fetch, stitch_fetch, Client, tally,
  tally_all, find_frame,
}

-- `sem.acquire()` in `seg_submit`; the call waits while no slot is free.
unfoldable pub acquire_at : SubmitPc → Config → Client → Client
acquire_at acquired cfg s = s
acquire_at waiting cfg s =
    if ltb s.submitted cfg.count && ltb 0 s.sem
    then record s { sem = s.sem - 1; submit_pc = acquired }
    else s

abbrev pub new_frame : ℕ → FrameState
new_frame sample = record {
  got = 0;
  err = false;
  done = false;
  dispatched = false;
  sample = sample;
}

-- The rest of the loop's body in `seg_submit`: the frame is entered in `img_state` and sent.
unfoldable pub register_at : SubmitPc → ℕ → Client → Client
register_at waiting sample s = s
register_at acquired sample s = record s {
  frames = insert s.submitted (new_frame sample) s.frames;
  submitted = s.submitted + 1;
  submit_pc = waiting;
  sent_seg = s.sent_seg ++ s.submitted ∷ [];
}

-- One output in `seg_fetch`: a failed frame goes to `_finish`, a split one becomes tile tasks.
unfoldable pub seg_receive : Config → Output → Client → Client
seg_receive cfg out s =
    let reply = reply_of out in
    let seen = record s { seg_seen = s.seg_seen + 1 } in
    if not out.is_successful || not reply.ok
    then record seen {
      totals = record s.totals { seg_err = s.seg_err + 1 };
      seg_pc = finishing reply.image_id true;
    }
    else record seen {
      sent_inf = s.sent_inf ++ map (λ tile. (reply.image_id, tile)) (range cfg.n_tiles);
    }

unfoldable pub seg_output_at : Pc → Config → Output → Client → Client
unfolding seg_receive
seg_output_at fetching cfg out s = if ltb s.seg_seen cfg.count then seg_receive cfg out s else s
seg_output_at _ cfg out s = s

-- What `inf_fetch` does to the frame's entry, under the lock: count the tile, note its failure, and
-- mark the frame as dispatched when the last one is in.
unfoldable pub count_tile : Config → Bool → FrameState → FrameState
count_tile cfg ok st = record st {
  got = st.got + 1;
  err = if ok then st.err else true;
  dispatched = st.dispatched || leb cfg.n_tiles (st.got + 1);
}

-- What it does next, from the entry before the tile was counted.
unfoldable pub next_action : Config → Bool → Option ℕ → FrameState → Pc
next_action cfg ok image_id st =
    if leb cfg.n_tiles (st.got + 1) && not st.dispatched
    then (if (if ok then st.err else true) then finishing image_id true else stitching image_id)
    else fetching

unfoldable pub inf_frame : Config → Bool → Option ℕ → Client → Option FrameState → Client
unfolding count_tile next_action
inf_frame cfg ok none s found = s
inf_frame cfg ok (some i) s none = s
inf_frame cfg ok (some i) s (some st) = record s {
  frames = insert i (count_tile cfg ok st) s.frames;
  inf_pc = next_action cfg ok (some i) st;
}

-- The tallies of a tile that was inferred; `reply["host"]` raises where the reply names no host.
unfoldable pub tally_tile : Reply → String → Client → Client
tally_tile reply host s = record s {
  totals = record s.totals { decode_us = s.decode_us + reply.decode_us };
  per_host = tally host 1 s.per_host;
  per_host_us = tally host reply.inference_us s.per_host_us;
  per_host_id = set_default host reply.identity s.per_host_id;
}

unfoldable pub inf_tally : Config → Reply → Option String → Client → Client
unfolding tally_tile inf_frame
inf_tally cfg reply none s = record s { inf_pc = crashed key_error }
inf_tally cfg reply (some host) s =
    inf_frame cfg true reply.image_id (tally_tile reply host s) (find_frame reply.image_id s.frames)

-- One output in `inf_fetch`.
unfoldable pub inf_receive : Config → Output → Client → Client
unfolding inf_tally inf_frame
inf_receive cfg out s =
    let reply = reply_of out in
    let seen = record s {
      inf_seen = s.inf_seen + 1;
      totals = record s.totals { inf_done = s.inf_done + 1 };
    } in
    if out.is_successful && reply.ok
    then inf_tally cfg reply reply.host seen
    else inf_frame cfg false reply.image_id
        (record seen { totals = record seen.totals { inf_err = s.inf_err + 1 } })
        (find_frame reply.image_id s.frames)

unfoldable pub inf_output_at : Pc → Config → Output → Client → Client
unfolding inf_receive
inf_output_at fetching cfg out s =
    if ltb s.inf_seen (cfg.count * cfg.n_tiles) then inf_receive cfg out s else s
inf_output_at _ cfg out s = s

-- `(img_state.get(image_id) or {}).get("sample")`
abbrev sample_of : Option FrameState → Option ℕ
sample_of (some st) = some st.sample
sample_of none = none

-- One output in `stitch_fetch`, up to its call of `_finish`.
unfoldable pub stitch_receive : Output → Client → Client
stitch_receive out s =
    let reply = reply_of out in
    if out.is_successful && reply.ok
    then record s {
      totals = record s.totals { boxes = s.boxes + reply.boxes };
      classes = tally_all reply.class_hist s.classes;
      dump = s.dump ++ (sample_of (find_frame reply.image_id s.frames), reply.boxes) ∷ [];
      stitch_pc = finishing reply.image_id false;
    }
    else record s { stitch_pc = finishing reply.image_id true }

-- The thread tests `done_evt` before it waits for an output, so one that comes after the event is set
-- is received too.
unfoldable pub stitch_output_at : Pc → Output → Client → Client
unfolding stitch_receive
stitch_output_at fetching out s = stitch_receive out s
stitch_output_at _ out s = s

-- `stitch_sess.send_task_input`, the end of `inf_fetch`'s body.
unfoldable pub dispatch_at : Pc → Client → Client
dispatch_at (stitching image_id) s = record s {
  sent_stitch = s.sent_stitch ++ image_id ∷ [];
  inf_pc = fetching;
}
dispatch_at _ s = s

abbrev pub pc_of : Thread → Client → Pc
pc_of seg_fetch s = s.seg_pc
pc_of inf_fetch s = s.inf_pc
pc_of stitch_fetch s = s.stitch_pc

abbrev pub move_to : Thread → Pc → Client → Client
move_to seg_fetch pc s = record s { seg_pc = pc }
move_to inf_fetch pc s = record s { inf_pc = pc }
move_to stitch_fetch pc s = record s { stitch_pc = pc }

-- The entry that `_finish` marks, where there is one.
abbrev pub mark_done : Option ℕ → Option FrameState → List (ℕ × FrameState) → List (ℕ × FrameState)
mark_done (some i) (some st) m = insert i (record st { done = true }) m
mark_done _ _ m = m

abbrev pub was_done : Option FrameState → Bool
was_done (some st) = st.done
was_done none = false

-- The section of `_finish` under the lock. A frame that is done already is left alone.
unfoldable pub finish_locked : Config → ℕ → Thread → Option ℕ → Bool → Client → Client
finish_locked cfg now t image_id failed s =
    if was_done (find_frame image_id s.frames)
    then move_to t fetching s
    else move_to t (cleaning image_id) (record s {
      frames = mark_done image_id (find_frame image_id s.frames) s.frames;
      totals = record s.totals {
        img_done = s.img_done + 1;
        img_err = if failed then s.img_err + 1 else s.img_err;
      };
      last = now;
      done_evt = s.done_evt || leb cfg.count (s.img_done + 1);
    })

unfoldable pub finish_at : Pc → Config → ℕ → Thread → Client → Client
unfolding finish_locked
finish_at (finishing image_id failed) cfg now t s = finish_locked cfg now t image_id failed s
finish_at _ cfg now t s = s

-- The end of `_finish`: `os.path.join` raises on `None`, and a release of a bounded semaphore
-- raises where it would pass its bound.
unfoldable pub clean_up : Config → Thread → Option ℕ → Client → Client
clean_up cfg t none s = move_to t (crashed type_error) s
clean_up cfg t (some i) s =
    if ltb s.sem cfg.in_flight
    then move_to t fetching (record s { sem = s.sem + 1; removed = s.removed ++ i ∷ [] })
    else move_to t (crashed value_error) (record s { removed = s.removed ++ i ∷ [] })

unfoldable pub clean_up_at : Pc → Config → Thread → Client → Client
unfolding clean_up
clean_up_at (cleaning image_id) cfg t s = clean_up cfg t image_id s
clean_up_at _ cfg t s = s

-- One look of the watchdog.
unfoldable pub watch : Config → ℕ → Client → Client
watch cfg now s =
    if not s.done_evt && (ltb s.img_done cfg.count && ltb cfg.stall_timeout (now - s.last))
    then record s { stalled = true; done_evt = true }
    else s

pub data Event : Type 0 where
  acquires : Event
  registers : (sample : ℕ) → Event
  seg_outputs inf_outputs stitch_outputs : Output → Event
  dispatches : Event
  finishes : Thread → (now : ℕ) → Event
  cleans_up : Thread → Event
  watches : (now : ℕ) → Event

unfoldable pub step : Config → Event → Client → Client
step cfg acquires s = acquire_at s.submit_pc cfg s
step cfg (registers sample) s = register_at s.submit_pc sample s
step cfg (seg_outputs out) s = seg_output_at s.seg_pc cfg out s
step cfg (inf_outputs out) s = inf_output_at s.inf_pc cfg out s
step cfg (stitch_outputs out) s = stitch_output_at s.stitch_pc out s
step cfg dispatches s = dispatch_at s.inf_pc s
step cfg (finishes t now) s = finish_at (pc_of t s) cfg now t s
step cfg (cleans_up t) s = clean_up_at (pc_of t s) cfg t s
step cfg (watches now) s = watch cfg now s

unfoldable pub run : Config → List Event → Client → Client
run cfg [] s = s
run cfg (e ∷ es) s = run cfg es (step cfg e s)
