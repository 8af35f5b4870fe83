-- ===== src/Dashboard/Accuracy.antt =====
-- The scores that the dashboard shows: `score` of src/apps/image-shard-inference/dashboard/app.py.
use Prim.Native.String.{String}
use mathlib.Core.List.{append_assoc, append-nil}
use symphony_akida.Prelude.{
  ℕ, ◌≡◌, refl, ◌∙◌, inl, inr, true, ◌&&◌, ◌==◌, List, [], ◌∷◌, ◌++◌, Option, none, some, length,
  map, if◌then◌else◌, Bool-cases,
}
use symphony_akida.Prelude.Outcome.{Outcome, return, raise, ◌>>=◌, Outcome-cases}
use symphony_akida.Merge.Boxes.{Floats}
use symphony_akida.Kit.{TestKit, annotations, targets}
use symphony_akida.Scores.{group_by_label, summarise}
use symphony_akida.Scores.Evaluate.{Scored, Annotated, evaluate}
use symphony_akida.Evaluation.{
  Frame, Records, Report, samples_of, top_boxes, stack, pair_labels, collect_one, collect,
  from_dump, from_kit, zip, dict_of, score_row, reference_row, targets_for, report_on,
}

module _ {F : Type 0} (f : Floats F) (argsort_down : List F → List ℕ) (kit : TestKit F)
    (max_boxes : ℕ) where
  -- The loop of `build`, which appends to its two lists.
  unfoldable pub build_from :
      List ℕ
      → (ℕ → Outcome (Frame F))
      → List (Scored F)
      → List (Annotated F)
      → Outcome (List (Scored F) × List (Annotated F))
  unfolding top_boxes stack annotations pair_labels group_by_label
  build_from [] boxes_of detections truths = return (detections, truths)
  build_from (sample ∷ samples) boxes_of detections truths =
      boxes_of sample >>= top_boxes f argsort_down kit max_boxes sample >>= λ top.
      stack top.boxes top.scores top.labels >>= λ rows.
      annotations f kit sample >>= λ (gt_boxes, gt_labels).
      pair_labels gt_boxes gt_labels >>= λ truth.
      build_from samples boxes_of (detections ++ group_by_label rows (length kit.labels) ∷ [])
        (truths ++ group_by_label truth (length kit.labels) ∷ [])

  unfoldable pub build :
      List ℕ → (ℕ → Outcome (Frame F)) → Outcome (List (Scored F) × List (Annotated F))
  unfolding build_from
  build samples boxes_of = build_from samples boxes_of [] []

-- What `score` returns.
pub record Accuracy (F : Type 0) : Type 0 where
  pub summary : F × F × F
  pub per_class : List (String × F)
  pub reference : Option (F × F × F)
  pub targets : Option (F × F × F)
  pub post_thresh : F

module _ {F : Type 0} (f : Floats F) where
  abbrev pub place_class : String × F → List (String × F) → List (String × F)
  place_class a [] = a ∷ []
  place_class a (b ∷ bs) =
      let rest = place_class a bs in if f.lt a.1 b.1 then b ∷ rest else a ∷ b ∷ bs

  -- `sorted(..., key=lambda kv: -kv[1])`, which keeps the order of equal figures.
  unfoldable pub ranked : List (String × F) → List (String × F)
  ranked [] = []
  ranked (a ∷ more) = place_class a (ranked more)

-- `round` is Python's, on floats.
module _ {F : Type 0} (f : Floats F) (argmax : ℕ → (ℕ → F) → ℕ) (argsort_down : List F → List ℕ)
    (eps : F) (thresholds : List F) (round : F → ℕ → F) (kit : TestKit F) where
  abbrev pub evaluated : List (Scored F) × List (Annotated F) → (F × F × F) × List F
  evaluated built =
      let (means, classes) =
        evaluate f eps argmax argsort_down thresholds built (length kit.labels) in
      (summarise f means, classes)

  abbrev pub reference_of : ℕ → F → List ℕ → Outcome (Option (F × F × F))
  reference_of max_boxes post_thresh samples =
      if kit.has_reference
      then (build f argsort_down kit max_boxes samples (from_kit f kit post_thresh) >>= λ built.
          return (some (evaluated built).0))
      else return none

  abbrev pub targets_of : F → List ℕ → Outcome (Option (F × F × F))
  targets_of post_thresh samples =
      if (length samples == kit.count) && f.le post_thresh f.zero_f
      then targets f kit
      else return none

  unfoldable pub score : Records F → ℕ → F → Outcome (Accuracy F)
  unfolding samples_of build evaluate summarise from_dump from_kit targets ranked
  score records max_boxes post_thresh =
      let samples = samples_of records in
      build f argsort_down kit max_boxes samples (from_dump records) >>= λ built.
      reference_of max_boxes post_thresh samples >>= λ reference.
      targets_of post_thresh samples >>= λ targets. return (record {
        summary = (evaluated built).0;
        per_class = ranked f (zip kit.labels (map (λ ap. round ap 4) (evaluated built).1));
        reference = reference;
        targets = targets;
        post_thresh = post_thresh;
      })

  -- The lists that are appended to come first.
  abbrev prefixed :
      List (Scored F)
      → List (Annotated F)
      → List (Scored F) × List (Annotated F)
      → List (Scored F) × List (Annotated F)
  prefixed ds ts (more_ds, more_ts) = (ds ++ more_ds, ts ++ more_ts)

  appended :
      (max_boxes : ℕ) (samples : List ℕ) (boxes_of : ℕ → Outcome (Frame F)) (ds : List (Scored F))
      (ts : List (Annotated F)) (d : Scored F) (t : Annotated F)
      → (collect f argsort_down kit max_boxes samples boxes_of >>= λ found.
          return (prefixed (ds ++ d ∷ []) (ts ++ t ∷ []) found))
        ≡ ((collect f argsort_down kit max_boxes samples boxes_of >>= λ found.
              return (d ∷ found.0, t ∷ found.1))
            >>= λ found. return (prefixed ds ts found))
  appended max_boxes samples boxes_of ds ts d t =
      elim (Outcome-cases (collect f argsort_down kit max_boxes samples boxes_of)) [
        | inr (e, broken) ↦ rw broken refl
        | inl (found, collected) ↦
            rw (collected, append_assoc ds (d ∷ []) found.0, append_assoc ts (t ∷ []) found.1) refl
      ]

  build_from-collect :
      (max_boxes : ℕ) (samples : List ℕ) (boxes_of : ℕ → Outcome (Frame F)) (ds : List (Scored F))
      (ts : List (Annotated F))
      → build_from f argsort_down kit max_boxes samples boxes_of ds ts ≡ (
          collect f argsort_down kit max_boxes samples boxes_of >>= λ found.
          return (prefixed ds ts found))
  unfolding build_from collect collect_one
  build_from-collect max_boxes [] boxes_of ds ts = rw (append-nil ds, append-nil ts) refl
  build_from-collect max_boxes (sample ∷ samples) boxes_of ds ts =
      elim (Outcome-cases (boxes_of sample >>= top_boxes f argsort_down kit max_boxes sample)) [
        | inr (e, no_top) ↦ rw no_top refl
        | inl (top, topped) ↦ elim (Outcome-cases (stack top.boxes top.scores top.labels)) [
          | inr (e, no_rows) ↦ rw (topped, no_rows) refl
          | inl (rows, stacked) ↦ elim (Outcome-cases (annotations f kit sample)) [
            | inr (e, no_truth) ↦ rw (topped, stacked, no_truth) refl
            | inl (truth, known) ↦ elim (Outcome-cases (pair_labels truth.0 truth.1)) [
              | inr (e, no_pairs) ↦ rw (topped, stacked, known, no_pairs) refl
              | inl (pairs, paired) ↦
                  rw (topped, stacked, known, paired)
                    (build_from-collect max_boxes samples boxes_of
                        (ds ++ group_by_label rows (length kit.labels) ∷ [])
                        (ts ++ group_by_label pairs (length kit.labels) ∷ [])
                      ∙ appended max_boxes samples boxes_of ds ts
                          (group_by_label rows (length kit.labels))
                          (group_by_label pairs (length kit.labels)))
            ]
          ]
        ]
      ]

  build-collect :
      (max_boxes : ℕ) (samples : List ℕ) (boxes_of : ℕ → Outcome (Frame F))
      → build f argsort_down kit max_boxes samples boxes_of
        ≡ collect f argsort_down kit max_boxes samples boxes_of
  unfolding build
  build-collect max_boxes samples boxes_of =
      build_from-collect max_boxes samples boxes_of [] []
      ∙ elim (Outcome-cases (collect f argsort_down kit max_boxes samples boxes_of)) [
        | inr (e, broken) ↦ rw broken refl
        | inl (found, collected) ↦ rw collected refl
      ]

  reference_same :
      (max_boxes : ℕ) (post_thresh : F) (samples : List ℕ)
      → reference_of max_boxes post_thresh samples
        ≡ reference_row f argmax argsort_down eps thresholds kit max_boxes post_thresh samples
  unfolding score_row
  reference_same max_boxes post_thresh samples = elim (Bool-cases kit.has_reference) [
    | inr bare ↦ rw bare refl
    | inl has ↦
        let boxes_of = from_kit f kit post_thresh in
        elim (Outcome-cases (collect f argsort_down kit max_boxes samples boxes_of)) [
          | inr (e, broken) ↦ rw (build-collect max_boxes samples boxes_of, broken, has) refl
          | inl (found, collected) ↦
              rw (build-collect max_boxes samples boxes_of, collected, has) refl
        ]
  ]

  targets_same :
      (post_thresh : F) (samples : List ℕ)
      → f.le post_thresh f.zero_f ≡ true
      → targets_of post_thresh samples
        ≡ targets_for f argmax argsort_down eps thresholds kit samples
  targets_same post_thresh samples open_gate = elim (Bool-cases (length samples == kit.count)) [
    | inl whole ↦ rw (whole, open_gate) refl
    | inr part ↦ rw part refl
  ]

  -- The dashboard's answer and the script's report on the same records: the same scores, and the
  -- same classes' figures, which the dashboard rounds to 4 digits and sorts, and the script to 6.
  abbrev pub AreSame : Records F → ℕ → Outcome (Accuracy F) → Outcome (Report F) → Type 0
  AreSame records max_boxes (return shown) (return report) =
      (shown.summary ≡ report.fleet)
      × (shown.reference ≡ report.reference)
      × (shown.targets ≡ report.targets)
      × ((classes : List F) × (score_row f argmax argsort_down eps thresholds kit max_boxes
              (samples_of records) (from_dump records)
            ≡ return (report.fleet, classes))
          × (shown.per_class ≡ ranked f (zip kit.labels (map (λ ap. round ap 4) classes)))
          × (report.per_class ≡ dict_of (zip kit.labels (map (λ ap. round ap 6) classes)) []))
  AreSame records max_boxes (raise e) (raise e') = e ≡ e'
  AreSame records max_boxes _ _ = ⊥

  scored_row :
      (records : Records F) (max_boxes : ℕ) (found : List (Scored F) × List (Annotated F))
      → collect f argsort_down kit max_boxes (samples_of records) (from_dump records) ≡ return found
      → score_row f argmax argsort_down eps thresholds kit max_boxes
          (samples_of records)
          (from_dump records)
        ≡ return (evaluated found)
  unfolding score_row
  scored_row records max_boxes found collected = rw collected refl

  -- Where the gate of the run is at most zero, the dashboard's scores of the records are those that
  -- the script reports of them with the same cap and gate, with the kit's reference and its targets;
  -- the figures of the classes are the same ones, rounded to 4 digits and sorted by the dashboard and
  -- to 6 in the script's dict; and the dashboard raises where the script does, and what it raises.
  pub score-report_on :
      (records : Records F) (max_boxes : ℕ) (post_thresh : F)
      → f.le post_thresh f.zero_f ≡ true
      → AreSame records max_boxes
          (score records max_boxes post_thresh)
          (report_on f argmax argsort_down eps thresholds round kit max_boxes post_thresh records)
  unfolding score report_on score_row
  score-report_on records max_boxes post_thresh open_gate =
      let samples = samples_of records in
      let row =
        reference_row f argmax argsort_down eps thresholds kit max_boxes post_thresh samples in
      let given = targets_for f argmax argsort_down eps thresholds kit samples in
      let built = build-collect max_boxes samples (from_dump records) in
      let rows = reference_same max_boxes post_thresh samples in
      let figures = targets_same post_thresh samples open_gate in
      elim (Outcome-cases (collect f argsort_down kit max_boxes samples (from_dump records))) [
        | inr (e, broken) ↦ rw (built, broken) refl
        | inl (found, collected) ↦ elim (Outcome-cases row) [
          | inr (e, no_row) ↦ rw (built, collected, rows, no_row) refl
          | inl (reference, scored) ↦ elim (Outcome-cases given) [
            | inr (e, no_targets) ↦ rw (built, collected, rows, scored, figures, no_targets) refl
            | inl (targets, known) ↦
                rw (built, collected, rows, scored, figures, known)
                  (
                    refl,
                    refl,
                    refl,
                    ((evaluated found).1, scored_row records max_boxes found collected, refl, refl),
                  )
          ]
        ]
      ]
