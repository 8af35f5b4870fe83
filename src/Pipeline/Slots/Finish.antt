-- ===== src/Pipeline/Slots/Finish.antt =====
-- The account is kept by the two halves of `_finish`.
use symphony_akida.Prelude.{
  ℕ, ◌+◌, ◌≡◌, refl, inl, inr, Bool, true, false, List, Option, none, some, arith, Bool-cases,
}
use symphony_akida.Prelude.Dict.{nat_eq}
use symphony_akida.Pipeline.State.{
  Config, FrameState, Pc, finishing, cleaning, Thread, seg_fetch, inf_fetch, stitch_fetch, Client,
  find_frame,
}
use symphony_akida.Pipeline.Steps.{
  finish_at, finish_locked, clean_up_at, clean_up, mark_done, was_done, pc_of,
}
use symphony_akida.Pipeline.Frames.{weight, weight-insert, Domain, Domain-insert_known, Known}
use symphony_akida.Pipeline.Slots.Defs.{undone, returning, Slots}

pub mark_done-Domain :
    (n : ℕ) (image_id : Option ℕ) (found : Option FrameState) (m : List (ℕ × FrameState))
    → Known n image_id
    → Domain n m
    → Domain n (mark_done image_id found m)
mark_done-Domain n none found m known d = d
mark_done-Domain n (some i) none m known d = d
mark_done-Domain n (some i) (some st) m known d = Domain-insert_known n i _ m known d

-- Marking an open frame hands its slot to the thread that is about to release it.
pub weight-mark_done :
    (n : ℕ) (image_id : Option ℕ) (found : Option FrameState) (m : List (ℕ × FrameState))
    → find_frame image_id m ≡ found
    → Known n image_id
    → Domain n m
    → was_done found ≡ false
    → weight undone (mark_done image_id found m) + returning (cleaning image_id) ≡ weight undone m
weight-mark_done n none found m e known d h = omega arith
weight-mark_done n (some i) none m e known d h = absurd ((d i).0 known e)
weight-mark_done n (some i) (some st) m e known d h =
    ground (arith, weight-insert undone i (record st { done = true }) m)

module _ (cfg : Config) (now : ℕ) (image_id : Option ℕ) (failed : Bool) (s : Client) where
  abbrev marked_frames : List (ℕ × FrameState)
  marked_frames = mark_done image_id (find_frame image_id s.frames) s.frames

  marked :
      Known s.submitted image_id
      → Domain s.submitted s.frames
      → was_done (find_frame image_id s.frames) ≡ false
      → weight undone marked_frames + returning (cleaning image_id) ≡ weight undone s.frames
  marked known d first =
      weight-mark_done s.submitted image_id (find_frame image_id s.frames) s.frames refl known d
        first

  entered :
      Known s.submitted image_id → Domain s.submitted s.frames → Domain s.submitted marked_frames
  entered known d =
      mark_done-Domain s.submitted image_id (find_frame image_id s.frames) s.frames known d

  pub finish_locked-Slots :
      (t : Thread)
      → pc_of t s ≡ finishing image_id failed
      → Slots cfg s
      → Slots cfg (finish_locked cfg now t image_id failed s)
  unfolding finish_locked
  finish_locked-Slots seg_fetch e v = elim (Bool-cases (was_done (find_frame image_id s.frames))) [
    | inl again ↦ rw again (ground arith)
    | inr first ↦ rw first (record {
      balance = ground (arith, marked (rw e at v.seg_sound) v.domain first);
      domain = entered (rw e at v.seg_sound) v.domain;
      seg_sound = tt;
      inf_sound = v.inf_sound;
      stitch_sound = v.stitch_sound;
    })
  ]
  finish_locked-Slots inf_fetch e v = elim (Bool-cases (was_done (find_frame image_id s.frames))) [
    | inl again ↦ rw again (ground arith)
    | inr first ↦ rw first (record {
      balance = ground (arith, marked (rw e at v.inf_sound) v.domain first);
      domain = entered (rw e at v.inf_sound) v.domain;
      seg_sound = v.seg_sound;
      inf_sound = tt;
      stitch_sound = v.stitch_sound;
    })
  ]
  finish_locked-Slots stitch_fetch e v =
      elim (Bool-cases (was_done (find_frame image_id s.frames))) [
        | inl again ↦ rw again (ground arith)
        | inr first ↦ rw first (record {
          balance = ground (arith, marked (rw e at v.stitch_sound) v.domain first);
          domain = entered (rw e at v.stitch_sound) v.domain;
          seg_sound = v.seg_sound;
          inf_sound = v.inf_sound;
          stitch_sound = tt;
        })
      ]

pub finish-Slots :
    (pc : Pc) (cfg : Config) (now : ℕ) (t : Thread) (s : Client)
    → pc_of t s ≡ pc
    → Slots cfg s
    → Slots cfg (finish_at pc cfg now t s)
unfolding finish_at
finish-Slots (finishing image_id failed) cfg now t s e v =
    finish_locked-Slots cfg now image_id failed s t e v
finish-Slots _ cfg now t s e v = v

pub clean_up-Slots :
    (image_id : Option ℕ) (cfg : Config) (t : Thread) (s : Client)
    → pc_of t s ≡ cleaning image_id
    → Slots cfg s
    → Slots cfg (clean_up cfg t image_id s)
unfolding clean_up
clean_up-Slots none cfg seg_fetch s e v = ground arith
clean_up-Slots none cfg inf_fetch s e v = ground arith
clean_up-Slots none cfg stitch_fetch s e v = ground arith
clean_up-Slots (some i) cfg seg_fetch s e v = ground arith
clean_up-Slots (some i) cfg inf_fetch s e v = ground arith
clean_up-Slots (some i) cfg stitch_fetch s e v = ground arith

pub clean_up_at-Slots :
    (pc : Pc) (cfg : Config) (t : Thread) (s : Client)
    → pc_of t s ≡ pc
    → Slots cfg s
    → Slots cfg (clean_up_at pc cfg t s)
unfolding clean_up_at
clean_up_at-Slots (cleaning image_id) cfg t s e v = clean_up-Slots image_id cfg t s e v
clean_up_at-Slots _ cfg t s e v = v
