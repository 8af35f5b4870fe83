-- ===== src/Pipeline/Progress/Defs.antt =====
-- The events of a run in which every task succeeds, and the states between them.
use symphony_akida.Prelude.{
  ℕ, zero, suc, ◌+◌, ◌*◌, ◌<◌, ◌≡◌, refl, true, false, List, [], ◌∷◌, ◌++◌, some, arith, leb,
}
use symphony_akida.Prelude.Dict.{lookup, nat_eq}
use symphony_akida.Pipeline.State.{
  Config, Output, fetching, stitching, waiting, stitch_fetch, Client,
}
use symphony_akida.Pipeline.Steps.{
  Event, acquires, registers, seg_outputs, inf_outputs, stitch_outputs, dispatches, finishes,
  cleans_up, step, run,
}

-- A successful output about frame `i`, from a host with a name.
abbrev pub success : ℕ → Output
success i = record {
  is_successful = true;
  text = some (record {
    image_id = some i;
    ok = true;
    host = some "node";
    inference_us = 0;
    decode_us = 0;
    identity = "chip";
    boxes = 0;
    class_hist = [];
  });
}

-- `n` tiles of frame `i` come back.
abbrev pub tiles : ℕ → ℕ → List Event
tiles i zero = []
tiles i (suc n) = inf_outputs (success i) ∷ tiles i n

-- One frame goes through the three stages.
abbrev pub frame_events : Config → ℕ → ℕ → List Event
frame_events cfg now i =
    acquires
    ∷ registers i
    ∷ seg_outputs (success i)
    ∷ (tiles i cfg.n_tiles
        ++ dispatches
          ∷ stitch_outputs (success i)
          ∷ finishes stitch_fetch now
          ∷ cleans_up stitch_fetch
          ∷ [])

-- Frames `i` up to `i + n`, one after another.
abbrev pub serial_events : Config → ℕ → ℕ → ℕ → List Event
serial_events cfg now i zero = []
serial_events cfg now i (suc n) = frame_events cfg now i ++ serial_events cfg now (suc i) n

-- Between two frames: `k` are done, and nothing is on its way.
pub record Quiet (cfg : Config) (k : ℕ) (s : Client) : Type 0 where
  pub submit_waits : s.submit_pc ≡ waiting
  pub seg_fetches : s.seg_pc ≡ fetching
  pub inf_fetches : s.inf_pc ≡ fetching
  pub stitch_fetches : s.stitch_pc ≡ fetching
  pub all_free : s.sem ≡ cfg.in_flight
  pub all_sent : s.submitted ≡ k
  pub seg_all : s.seg_seen ≡ k
  pub inf_all : s.inf_seen ≡ k * cfg.n_tiles
  pub all_done : s.img_done ≡ k
  pub no_errors : s.img_err ≡ 0
  pub not_stalled : s.stalled ≡ false
  pub ends : s.done_evt ≡ leb cfg.count k

-- Frame `k` is split, and `j` of its tiles are in.
pub record Splitting (cfg : Config) (k j : ℕ) (s : Client) : Type 0 where
  pub submit_waits : s.submit_pc ≡ waiting
  pub seg_fetches : s.seg_pc ≡ fetching
  pub inf_fetches : s.inf_pc ≡ fetching
  pub stitch_fetches : s.stitch_pc ≡ fetching
  pub one_taken : s.sem + 1 ≡ cfg.in_flight
  pub all_sent : s.submitted ≡ suc k
  pub seg_all : s.seg_seen ≡ suc k
  pub inf_all : s.inf_seen ≡ k * cfg.n_tiles + j
  pub all_done : s.img_done ≡ k
  pub no_errors : s.img_err ≡ 0
  pub not_stalled : s.stalled ≡ false
  pub goes_on : s.done_evt ≡ false
  pub got_j :
      lookup k s.frames
      ≡ some (record { got = j; err = false; done = false; dispatched = false; sample = k })

-- All tiles of frame `k` are in, and its stitch task is about to be sent.
pub record Ready (cfg : Config) (k : ℕ) (s : Client) : Type 0 where
  pub submit_waits : s.submit_pc ≡ waiting
  pub seg_fetches : s.seg_pc ≡ fetching
  pub inf_stitches : s.inf_pc ≡ stitching (some k)
  pub stitch_fetches : s.stitch_pc ≡ fetching
  pub one_taken : s.sem + 1 ≡ cfg.in_flight
  pub all_sent : s.submitted ≡ suc k
  pub seg_all : s.seg_seen ≡ suc k
  pub inf_all : s.inf_seen ≡ suc k * cfg.n_tiles
  pub all_done : s.img_done ≡ k
  pub no_errors : s.img_err ≡ 0
  pub not_stalled : s.stalled ≡ false
  pub goes_on : s.done_evt ≡ false
  pub all_got :
      lookup k s.frames
      ≡ some
          (record { got = cfg.n_tiles; err = false; done = false; dispatched = true; sample = k })

pub tile_in_range : (k c j n : ℕ) → k < c → j < n → k * n + j < c * n
tile_in_range k c j n h p = grind arith

pub run-append :
    (cfg : Config) (xs ys : List Event) (s : Client)
    → run cfg (xs ++ ys) s ≡ run cfg ys (run cfg xs s)
unfolding run
run-append cfg [] ys s = refl
run-append cfg (x ∷ xs) ys s = run-append cfg xs ys (step cfg x s)
