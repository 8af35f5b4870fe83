-- ===== src/Pipeline/Losses.antt =====
-- What the shard client does with an output that SOAM calls unsuccessful: `_reply` answers `{}` for
-- it, so the image id is lost.
use symphony_akida.Prelude.{ℕ, ◌+◌, ◌<◌, ◌*◌, ◌≡◌, refl, ◌∙◌, false, List, [], ◌∷◌, arith}
use symphony_akida.Prelude.Outcome.{type_error, Exception}
use symphony_akida.Pipeline.State.{
  Config, Output, reply_of, Pc, fetching, crashed, seg_fetch, inf_fetch, stitch_fetch, Client,
}
use symphony_akida.Pipeline.Steps.{
  Event, seg_outputs, inf_outputs, stitch_outputs, finishes, cleans_up, acquire_at, register_at,
  seg_output_at, inf_output_at, stitch_output_at, dispatch_at, finish_at, clean_up_at, watch, step,
  run,
}

inf_output-seg_pc :
    (pc : Pc) (cfg : Config) (out : Output) (s : Client)
    → (inf_output_at pc cfg out s).seg_pc ≡ s.seg_pc
unfolding inf_output_at
inf_output-seg_pc fetching cfg out s = ground arith
inf_output-seg_pc _ cfg out s = refl

stitch_output-seg_pc :
    (pc : Pc) (out : Output) (s : Client) → (stitch_output_at pc out s).seg_pc ≡ s.seg_pc
unfolding stitch_output_at
stitch_output-seg_pc fetching out s = ground arith
stitch_output-seg_pc _ out s = refl

-- A thread that has ended on an exception stays ended, whatever the other threads do.
step_crashed :
    (cfg : Config) (e : Event) (s : Client) (x : Exception)
    → s.seg_pc ≡ crashed x
    → (step cfg e s).seg_pc ≡ crashed x
unfolding step acquire_at register_at dispatch_at watch finish_at clean_up_at seg_output_at
step_crashed cfg (inf_outputs out) s x h = inf_output-seg_pc s.inf_pc cfg out s ∙ h
step_crashed cfg (stitch_outputs out) s x h = stitch_output-seg_pc s.stitch_pc out s ∙ h
step_crashed cfg (finishes seg_fetch now) s x h = ground arith
step_crashed cfg (finishes inf_fetch now) s x h = ground arith
step_crashed cfg (finishes stitch_fetch now) s x h = ground arith
step_crashed cfg (cleans_up seg_fetch) s x h = ground arith
step_crashed cfg (cleans_up inf_fetch) s x h = ground arith
step_crashed cfg (cleans_up stitch_fetch) s x h = ground arith
step_crashed cfg _ s x h = ground arith

run_crashed :
    (cfg : Config) (es : List Event) (s : Client) (x : Exception)
    → s.seg_pc ≡ crashed x
    → (run cfg es s).seg_pc ≡ crashed x
unfolding run
run_crashed cfg [] s x h = h
run_crashed cfg (e ∷ es) s x h = run_crashed cfg es (step cfg e s) x (step_crashed cfg e s x h)

crash :
    (cfg : Config) (now : ℕ) (out : Output) (s : Client)
    → s.seg_pc ≡ fetching
    → s.seg_seen < cfg.count
    → out.is_successful ≡ false
    → let t = run cfg (seg_outputs out ∷ finishes seg_fetch now ∷ cleans_up seg_fetch ∷ []) s in
      (t.frames ≡ s.frames)
      × (t.sem ≡ s.sem)
      × (t.img_done ≡ s.img_done + 1)
      × (t.img_err ≡ s.img_err + 1)
      × (t.seg_pc ≡ crashed type_error)
unfolding run step seg_output_at finish_at clean_up_at reply_of
crash cfg now out s waits more bad = ground arith

-- An unsuccessful segment output ends the thread `seg_fetch`: `_finish` is called with no image
-- id, counts a failed frame, and raises a TypeError before it releases the slot. The entry of the
-- frame and the free slots stay as they were, and the thread is ended for every continuation.
pub lost_segment :
    (cfg : Config) (now : ℕ) (out : Output) (es : List Event) (s : Client)
    → s.seg_pc ≡ fetching
    → s.seg_seen < cfg.count
    → out.is_successful ≡ false
    → let t = run cfg (seg_outputs out ∷ finishes seg_fetch now ∷ cleans_up seg_fetch ∷ []) s in
      (t.frames ≡ s.frames)
      × (t.sem ≡ s.sem)
      × (t.img_done ≡ s.img_done + 1)
      × (t.img_err ≡ s.img_err + 1)
      × ((run cfg es t).seg_pc ≡ crashed type_error)
lost_segment cfg now out es s waits more bad =
    let t = run cfg (seg_outputs out ∷ finishes seg_fetch now ∷ cleans_up seg_fetch ∷ []) s in
    let l = crash cfg now out s waits more bad in
    (l.0, l.1, l.2, l.3, run_crashed cfg es t type_error l.4)

-- An unsuccessful tile output is spent without a trace on its frame: no entry of `img_state`
-- changes, the frame is neither stitched nor finished by it, and `inf_fetch`, which fetches one
-- output for each tile and no more, has one fewer to come.
pub lost_tile :
    (cfg : Config) (out : Output) (s : Client)
    → s.inf_pc ≡ fetching
    → s.inf_seen < cfg.count * cfg.n_tiles
    → out.is_successful ≡ false
    → let t = step cfg (inf_outputs out) s in
      (t.frames ≡ s.frames)
      × (t.inf_pc ≡ fetching)
      × (t.sem ≡ s.sem)
      × (t.inf_err ≡ s.inf_err + 1)
      × (t.inf_seen ≡ s.inf_seen + 1)
unfolding step inf_output_at reply_of
lost_tile cfg out s waits more bad = ground arith
