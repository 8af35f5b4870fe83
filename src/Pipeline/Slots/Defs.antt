-- ===== src/Pipeline/Slots/Defs.antt =====
-- The account of the semaphore's slots, as an invariant of the client's state.
use symphony_akida.Prelude.{ℕ, ◌+◌, ◌≡◌, ◌≢◌, refl, List, some, arith, if◌then◌else◌}
use symphony_akida.Prelude.Outcome.{value_error}
use symphony_akida.Prelude.Dict.{lookup, nat_eq}
use symphony_akida.Pipeline.State.{
  Config, FrameState, Pc, finishing, cleaning, stitching, crashed, SubmitPc, waiting, acquired,
  Thread, seg_fetch, inf_fetch, stitch_fetch, Client, start,
}
use symphony_akida.Pipeline.Steps.{pc_of}
use symphony_akida.Pipeline.Frames.{weight, Domain, Known}

-- A slot that the submitting thread has taken and not yet given to a frame.
abbrev pub held : SubmitPc → ℕ
held waiting = 0
held acquired = 1

abbrev pub undone : FrameState → ℕ
undone st = if st.done then 0 else 1

-- A slot that a thread is about to release.
abbrev pub returning : Pc → ℕ
returning (cleaning (some i)) = 1
returning _ = 0

-- A thread works on submitted frames only, and no release of the semaphore has raised.
abbrev pub IsSound : ℕ → Pc → Type 0
IsSound n (finishing image_id failed) = Known n image_id
IsSound n (stitching image_id) = Known n image_id
IsSound n (crashed e) = e ≢ value_error
IsSound n _ = Unit {0}

-- The invariant, of the variables that it speaks of: `n` frames were submitted.
pub record Balanced (cfg : Config) (sem : ℕ) (submit_pc : SubmitPc) (frames : List (ℕ × FrameState))
    (n : ℕ) (seg_pc inf_pc stitch_pc : Pc) : Type 0 where
  pub balance :
      sem
        + held submit_pc
        + weight undone frames
        + (returning seg_pc + returning inf_pc + returning stitch_pc)
      ≡ cfg.in_flight
  pub domain : Domain n frames
  pub seg_sound : IsSound n seg_pc
  pub inf_sound : IsSound n inf_pc
  pub stitch_sound : IsSound n stitch_pc

abbrev pub Slots : Config → Client → Type 0
Slots cfg s = Balanced cfg s.sem s.submit_pc s.frames s.submitted s.seg_pc s.inf_pc s.stitch_pc

-- Frames in the pipeline: entered in `img_state` and not done.
abbrev pub open_frames : Client → ℕ
open_frames s = weight undone s.frames

pub no_release :
    {cfg : Config} (t : Thread) (s : Client) → pc_of t s ≡ crashed value_error → Slots cfg s → ⊥
no_release seg_fetch s e v = let bad = rw e at v.seg_sound in bad refl
no_release inf_fetch s e v = let bad = rw e at v.inf_sound in bad refl
no_release stitch_fetch s e v = let bad = rw e at v.stitch_sound in bad refl

pub start-Slots : (cfg : Config) (now : ℕ) → Slots cfg (start cfg now)
unfolding start lookup
start-Slots cfg now = record {
  balance = omega arith;
  domain = λ j. (λ h. absurd (omega arith), λ h. refl);
  seg_sound = tt;
  inf_sound = tt;
  stitch_sound = tt;
}
