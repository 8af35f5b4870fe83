-- ===== src/Evaluation/Reference.antt =====
-- The two rows of the report: eval_shard_map.py, `main`.
use symphony_akida.Prelude.{ℕ, ◌≡◌, refl, true, List, [], ◌∷◌, Option, some, All, inl, inr, ltb}
use symphony_akida.Prelude.Outcome.{
  Outcome, return, Ensures, Ensures-bind, Ensures-any, Outcome-cases, require, system_exit,
}
use symphony_akida.Merge.Boxes.{Floats}
use symphony_akida.Kit.{TestKit}
use symphony_akida.Evaluation.{
  DumpLine, Records, Frame, Report, read_dump, samples_of, collect_one, collect, from_dump,
  from_kit, score_row, report_on, main, boxes_limit, targets_for, max_of,
}

module _ {F : Type 0} (f : Floats F) (argsort_down : List F → List ℕ) (kit : TestKit F) where
  -- What is collected depends on the frames of the dump only.
  collect_same :
      (max_boxes : ℕ) (samples : List ℕ) (boxes_of boxes_of' : ℕ → Outcome (Frame F))
      → All (λ s. boxes_of s ≡ boxes_of' s) samples
      → collect f argsort_down kit max_boxes samples boxes_of
        ≡ collect f argsort_down kit max_boxes samples boxes_of'
  unfolding collect collect_one
  collect_same max_boxes [] boxes_of boxes_of' h = refl
  collect_same max_boxes (s ∷ samples) boxes_of boxes_of' h =
      rw (h.0, collect_same max_boxes samples boxes_of boxes_of' h.1) refl

  module _ (argmax : ℕ → (ℕ → F) → ℕ) (eps : F) (thresholds : List F) (round : F → ℕ → F) where
    score_row_same :
        (max_boxes : ℕ) (samples : List ℕ) (boxes_of boxes_of' : ℕ → Outcome (Frame F))
        → All (λ s. boxes_of s ≡ boxes_of' s) samples
        → score_row f argmax argsort_down eps thresholds kit max_boxes samples boxes_of'
          ≡ score_row f argmax argsort_down eps thresholds kit max_boxes samples boxes_of
    unfolding score_row
    score_row_same max_boxes samples boxes_of boxes_of' h =
        rw (collect_same max_boxes samples boxes_of boxes_of' h) refl

    abbrev IsSame : Report F → Type 0
    IsSame report = report.reference ≡ some report.fleet

    report_on-IsSame :
        (max_boxes : ℕ) (post_thresh : F) (records : Records F)
        → kit.has_reference ≡ true
        → All (λ s. from_dump records s ≡ from_kit f kit post_thresh s) (samples_of records)
        → Ensures IsSame
            (report_on f argmax argsort_down eps thresholds round kit max_boxes post_thresh records)
    unfolding report_on
    report_on-IsSame n post_thresh records has same =
        let samples = samples_of records in
        let rows = score_row_same n samples (from_dump records) (from_kit f kit post_thresh) same in
        elim (Outcome-cases
          (score_row f argmax argsort_down eps thresholds kit n samples (from_dump records))) [
            | inr (e, broken) ↦ rw broken tt
            | inl (row, scored) ↦
                rw (scored, has, rows, scored)
                  (Ensures-bind (λ _. Unit) IsSame
                    (targets_for f argmax argsort_down eps thresholds kit samples) _
                    (Ensures-any (targets_for f argmax argsort_down eps thresholds kit samples))
                    (λ given _. refl))
          ]

    -- Where the frames of the dump hold just the kit's own reference detections that pass the gate,
    -- a report has the same scores for the fleet and for the reference.
    pub main-reference :
        (lines : List (DumpLine F)) (records : Records F) (limit : Option ℕ) (post_thresh : F)
        → kit.has_reference ≡ true
        → read_dump lines ≡ return records
        → All (λ s. from_dump records s ≡ from_kit f kit post_thresh s) (samples_of records)
        → Ensures
            (λ report. report.reference ≡ some report.fleet)
            (main f argmax argsort_down eps thresholds round lines kit limit post_thresh)
    unfolding main
    main-reference lines records limit post_thresh has read same =
        let truth = require kit.has_ground_truth system_exit in
        let limited = boxes_limit limit kit in
        let known = require (ltb (max_of (samples_of records)) kit.count) system_exit in
        rw read (
          Ensures-bind (λ _. Unit) IsSame truth _ (Ensures-any truth)
            λ _ _.
              Ensures-bind (λ _. Unit) IsSame limited _ (Ensures-any limited)
                λ n _.
                  Ensures-bind (λ _. Unit) IsSame known _ (Ensures-any known)
                    λ _ _. report_on-IsSame n post_thresh records has same)
