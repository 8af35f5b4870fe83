-- ===== src/Pipeline/State.antt =====
-- The state of the shard client: shard_client.py, `_reply` and the variables of `main`.
use Prim.Native.String.{String}
use symphony_akida.Prelude.{ℕ, ◌+◌, Bool, false, List, [], ◌∷◌, Option, none, some, if◌then◌else◌}
use symphony_akida.Prelude.Outcome.{Exception}
use symphony_akida.Prelude.Dict.{lookup, insert, nat_eq, string_eq}

-- The arguments of the run: `--count`, the tiles of a frame, the bound of the semaphore, and
-- `--stall-timeout`.
pub record Config : Type 0 where
  pub count : ℕ
  pub n_tiles : ℕ
  pub in_flight : ℕ
  pub stall_timeout : ℕ

-- What the parsed reply of a service says; an absent key is `none`, `false`, 0 or empty.
pub record Reply : Type 0 where
  pub image_id : Option ℕ
  pub ok : Bool
  pub host : Option String
  pub inference_us : ℕ
  pub decode_us : ℕ
  pub identity : String
  pub boxes : ℕ
  pub class_hist : List (String × ℕ)

abbrev pub empty_reply : Reply
empty_reply = record {
  image_id = none;
  ok = false;
  host = none;
  inference_us = 0;
  decode_us = 0;
  identity = "";
  boxes = 0;
  class_hist = [];
}

-- A task output: whether SOAM calls it successful, and its text where that parses.
pub record Output : Type 0 where
  pub is_successful : Bool
  pub text : Option Reply

abbrev parse : Option Reply → Reply
parse (some r) = r
parse none = empty_reply

-- `_reply`
unfoldable pub reply_of : Output → Reply
reply_of out = if out.is_successful then parse out.text else empty_reply

-- An entry of `img_state`.
pub record FrameState : Type 0 where
  pub got : ℕ
  pub err : Bool
  pub done : Bool
  pub dispatched : Bool
  pub sample : ℕ

pub record Totals : Type 0 where
  pub seg_err : ℕ
  pub inf_done : ℕ
  pub inf_err : ℕ
  pub img_done : ℕ
  pub img_err : ℕ
  pub boxes : ℕ
  pub decode_us : ℕ

-- Where a fetching thread stands: waiting for an output, about to call `_finish`, past the lock of
-- `_finish`, about to submit a stitch task, or ended by an exception.
pub data Pc : Type 0 where
  fetching : Pc
  finishing : Option ℕ → Bool → Pc
  cleaning : Option ℕ → Pc
  stitching : Option ℕ → Pc
  crashed : Exception → Pc

-- The submitting thread, before and after `sem.acquire()`.
pub data SubmitPc : Type 0 where
  waiting acquired : SubmitPc

pub data Thread : Type 0 where
  seg_fetch inf_fetch stitch_fetch : Thread

pub record Client : Type 0 where
  pub frames : List (ℕ × FrameState)
  pub totals : Totals
  pub open totals use *
  pub per_host : List (String × ℕ)
  pub per_host_us : List (String × ℕ)
  pub per_host_id : List (String × String)
  pub classes : List (String × ℕ)
  pub sem : ℕ
  pub last : ℕ
  pub done_evt : Bool
  pub stalled : Bool
  pub submitted : ℕ
  pub submit_pc : SubmitPc
  pub seg_pc : Pc
  pub inf_pc : Pc
  pub stitch_pc : Pc
  pub seg_seen : ℕ
  pub inf_seen : ℕ
  pub sent_seg : List ℕ
  pub sent_inf : List (Option ℕ × ℕ)
  pub sent_stitch : List (Option ℕ)
  pub removed : List ℕ
  pub dump : List (Option ℕ × ℕ)

abbrev no_totals : Totals
no_totals = record {
  seg_err = 0;
  inf_done = 0;
  inf_err = 0;
  img_done = 0;
  img_err = 0;
  boxes = 0;
  decode_us = 0;
}

-- The state when the threads start, at time `now`.
unfoldable pub start : Config → ℕ → Client
start cfg now = record {
  frames = [];
  totals = no_totals;
  per_host = [];
  per_host_us = [];
  per_host_id = [];
  classes = [];
  sem = cfg.in_flight;
  last = now;
  done_evt = false;
  stalled = false;
  submitted = 0;
  submit_pc = waiting;
  seg_pc = fetching;
  inf_pc = fetching;
  stitch_pc = fetching;
  seg_seen = 0;
  inf_seen = 0;
  sent_seg = [];
  sent_inf = [];
  sent_stitch = [];
  removed = [];
  dump = [];
}

-- `counter[key] += n`
abbrev pub tally : String → ℕ → List (String × ℕ) → List (String × ℕ)
tally key n m = insert key (elim (lookup key m) [ some old ↦ old + n | none ↦ n ]) m

abbrev pub tally_all : List (String × ℕ) → List (String × ℕ) → List (String × ℕ)
tally_all [] m = m
tally_all ((key, n) ∷ more) m = tally_all more (tally key n m)

-- `img_state.get(image_id)`
abbrev pub find_frame : Option ℕ → List (ℕ × FrameState) → Option FrameState
find_frame none m = none
find_frame (some i) m = lookup i m
