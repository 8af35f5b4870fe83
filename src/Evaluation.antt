-- ===== src/Evaluation.antt =====
-- The scoring of a run's detections against the ground truth: scripts/eval_shard_map.py. numpy's
-- sort, Python's string methods and the libraries that read a kit are parameters; a dump is its
-- parsed lines.
pub mod Collect
pub mod Sources
pub mod Reference
use Prim.Native.String.{String}
use symphony_akida.Prelude.{
  ℕ, zero, suc, ◌+◌, ◌*◌, Bool, true, false, not, ◌&&◌, List, [], ◌∷◌, map, Option, none, some, ltb,
  leb, ◌==◌, length, get_elem?, take, if◌then◌else◌,
}
use symphony_akida.Prelude.Outcome.{
  Outcome, return, raise, ◌>>=◌, ◌>>◌, require, or_raise, system_exit, index_error, key_error,
  value_error,
}
use symphony_akida.Prelude.Dict.{lookup, insert, nat_eq, string_eq}
use symphony_akida.Merge.Boxes.{Floats, Box}
use symphony_akida.Kit.{TestKit, annotations, reference, targets, scale_to_raw}
use symphony_akida.Scores.{group_by_label, summarise}
use symphony_akida.Scores.Evaluate.{Scored, Annotated, evaluate}

-- A line of the dump, and a line that is blank or does not parse.
pub record Record (F : Type 0) : Type 0 where
  pub sample : ℕ
  pub boxes : List (Box F)
  pub scores : List F
  pub labels : List ℕ

pub data DumpLine (F : Type 0) : Type 0 where
  blank garbled : DumpLine F
  record_line : Record F → DumpLine F

abbrev pub Records : Type 0 → Type 0
Records F = List (ℕ × Record F)

unfoldable pub add_lines : {F : Type 0} → List (DumpLine F) → Records F → Outcome (Records F)
unfolding insert
add_lines [] records = return records
add_lines (blank ∷ lines) records = add_lines lines records
add_lines (garbled ∷ lines) records = raise value_error
add_lines (record_line r ∷ lines) records = add_lines lines (insert r.sample r records)

abbrev pub non_empty {ℓ} : {A : Type ℓ} → List A → Outcome (List A)
non_empty [] = raise system_exit
non_empty (x ∷ xs) = return (x ∷ xs)

-- `read_dump`
unfoldable pub read_dump : {F : Type 0} → List (DumpLine F) → Outcome (Records F)
unfolding add_lines
read_dump lines = add_lines lines [] >>= non_empty

-- `sorted(records)`
unfoldable pub place_sample : ℕ → List ℕ → List ℕ
place_sample n [] = n ∷ []
place_sample n (m ∷ ms) = let rest = place_sample n ms in if leb n m then n ∷ m ∷ ms else m ∷ rest

unfoldable pub samples_of : {A : Type 0} → List (ℕ × A) → List ℕ
unfolding place_sample
samples_of [] = []
samples_of ((n, r) ∷ records) = place_sample n (samples_of records)

-- Boxes, scores and labels of a frame.
pub record Frame (F : Type 0) : Type 0 where
  pub boxes : List (Box F)
  pub scores : List F
  pub labels : List ℕ

-- `array[order]`
unfoldable pub gather : {A : Type 0} → List A → List ℕ → Outcome (List A)
gather xs [] = return []
gather xs (k ∷ order) =
    or_raise (get_elem? xs k) index_error >>= λ a. gather xs order >>= λ rest. return (a ∷ rest)

-- `np.column_stack` of boxes and scores, with the labels that choose the class.
unfoldable pub stack :
    {F : Type 0} → List (Box F) → List F → List ℕ → Outcome (List ((Box F × F) × ℕ))
stack [] [] [] = return []
stack (b ∷ bs) (s ∷ ss) (l ∷ ls) = stack bs ss ls >>= λ rest. return (((b, s), l) ∷ rest)
stack _ _ _ = raise value_error

unfoldable pub pair_labels : {A : Type 0} → List A → List ℕ → Outcome (List (A × ℕ))
pair_labels [] [] = return []
pair_labels (a ∷ more) (l ∷ ls) = pair_labels more ls >>= λ rest. return ((a, l) ∷ rest)
pair_labels _ _ = raise index_error

module _ {F : Type 0} (f : Floats F) (argsort_down : List F → List ℕ) (kit : TestKit F)
    (max_boxes : ℕ) where
  -- The frame's detections that are scored: in raw pixels, the best first, and capped.
  abbrev pub top_of : Frame F → ℕ × ℕ → Outcome (Frame F)
  top_of frame raw_shape =
      let order = take max_boxes (argsort_down frame.scores) in
      gather (scale_to_raw f frame.boxes raw_shape) order >>= λ boxes.
      gather frame.scores order >>= λ scores. gather frame.labels order >>= λ labels.
      return (record { boxes = boxes; scores = scores; labels = labels })

  unfoldable pub top_boxes : ℕ → Frame F → Outcome (Frame F)
  unfolding gather scale_to_raw
  top_boxes sample frame =
      if length frame.boxes == 0
      then return (record { boxes = []; scores = []; labels = [] })
      else (or_raise (get_elem? kit.raw_shapes sample) index_error >>= top_of frame)

  -- One turn of the loop of `collect`.
  unfoldable pub collect_one :
      (ℕ → Outcome (Frame F)) → ℕ → Outcome (List (List (Box F × F)) × List (List (Box F)))
  unfolding top_boxes stack pair_labels group_by_label annotations
  collect_one boxes_of sample = boxes_of sample >>= top_boxes sample >>= λ top.
      stack top.boxes top.scores top.labels >>= λ detections.
      annotations f kit sample >>= λ (gt_boxes, gt_labels).
      pair_labels gt_boxes gt_labels >>= λ truth.
      return
        (group_by_label detections (length kit.labels), group_by_label truth (length kit.labels))

  -- `collect`
  unfoldable pub collect :
      List ℕ → (ℕ → Outcome (Frame F)) → Outcome (List (Scored F) × List (Annotated F))
  unfolding collect_one
  collect [] boxes_of = return ([], [])
  collect (sample ∷ samples) boxes_of = collect_one boxes_of sample >>= λ (detections, truth).
      collect samples boxes_of >>= λ (all_detections, all_truth).
      return (detections ∷ all_detections, truth ∷ all_truth)

abbrev pub frame_of : {F : Type 0} → Record F → Frame F
frame_of r = record { boxes = r.boxes; scores = r.scores; labels = r.labels }

-- `from_dump`
unfoldable pub from_dump : {F : Type 0} → Records F → ℕ → Outcome (Frame F)
unfolding lookup
from_dump records sample = or_raise (lookup sample records) key_error >>= λ r. return (frame_of r)

-- `array[keep]`, where `keep` is the test of the scores.
unfoldable pub keep_by : {F A : Type 0} → (F → Bool) → List F → List A → Outcome (List A)
keep_by test [] [] = return []
keep_by test (s ∷ ss) (a ∷ more) =
    keep_by test ss more >>= λ rest. return (if test s then a ∷ rest else rest)
keep_by test _ _ = raise index_error

module _ {F : Type 0} (f : Floats F) where
  -- `from_kit`: the reference, gated as the run was.
  unfoldable pub from_kit : TestKit F → F → ℕ → Outcome (Frame F)
  unfolding reference keep_by
  from_kit kit post_thresh sample = reference f kit sample >>= λ r.
      let test = λ (s : F). f.le post_thresh s in
      keep_by test r.scores r.boxes >>= λ boxes. keep_by test r.scores r.scores >>= λ scores.
      keep_by test r.scores r.labels >>= λ labels.
      return (record { boxes = boxes; scores = scores; labels = labels })

-- What `main` reports.
pub record Report (F : Type 0) : Type 0 where
  pub frames : ℕ
  pub max_boxes : ℕ
  pub fleet : F × F × F
  pub reference : Option (F × F × F)
  pub targets : Option (F × F × F)
  pub per_class : List (String × F)

-- `args.max_boxes or int(kit["max_boxes"])`
abbrev pub boxes_limit : {F : Type 0} → Option ℕ → TestKit F → Outcome ℕ
boxes_limit none kit = or_raise kit.npz.max_boxes key_error
boxes_limit (some n) kit = if n == 0 then or_raise kit.npz.max_boxes key_error else return n

abbrev pub max_of : List ℕ → ℕ
max_of [] = 0
max_of (n ∷ ns) = let rest = max_of ns in if ltb rest n then n else rest

abbrev pub zip : {A B : Type 0} → List A → List B → List (A × B)
zip [] bs = []
zip (a ∷ more) [] = []
zip (a ∷ more) (b ∷ bs) = (a, b) ∷ zip more bs

-- `{name: value for name, value in pairs}`, on what is there.
abbrev pub dict_of : {B : Type 0} → List (String × B) → List (String × B) → List (String × B)
dict_of [] there = there
dict_of ((name, value) ∷ pairs) there = dict_of pairs (insert name value there)

module _ {F : Type 0} (f : Floats F) (argmax : ℕ → (ℕ → F) → ℕ) (argsort_down : List F → List ℕ)
    (eps : F) (thresholds : List F) where
  -- A row: the detections that `boxes_of` gives, scored.
  unfoldable pub score_row :
      TestKit F → ℕ → List ℕ → (ℕ → Outcome (Frame F)) → Outcome ((F × F × F) × List F)
  unfolding collect evaluate summarise
  score_row kit max_boxes samples boxes_of =
      collect f argsort_down kit max_boxes samples boxes_of >>= λ found.
      let (means, classes) =
        evaluate f eps argmax argsort_down thresholds found (length kit.labels) in
      return (summarise f means, classes)

  abbrev pub reference_row : TestKit F → ℕ → F → List ℕ → Outcome (Option (F × F × F))
  reference_row kit max_boxes post_thresh samples =
      if kit.has_reference
      then (score_row kit max_boxes samples (from_kit f kit post_thresh) >>= λ row.
          return (some row.0))
      else return none

  abbrev pub targets_for : TestKit F → List ℕ → Outcome (Option (F × F × F))
  targets_for kit samples = if length samples == kit.count then targets f kit else return none

  -- `main` after its tests: both rows, and the published figures, with `round` on floats.
  unfoldable pub report_on : (F → ℕ → F) → TestKit F → ℕ → F → Records F → Outcome (Report F)
  unfolding samples_of score_row from_dump from_kit targets insert
  report_on round kit max_boxes post_thresh records =
      let samples = samples_of records in
      score_row kit max_boxes samples (from_dump records) >>= λ (fleet, classes).
      reference_row kit max_boxes post_thresh samples >>= λ reference.
      targets_for kit samples >>= λ targets. return (record {
        frames = length samples;
        max_boxes = max_boxes;
        fleet = fleet;
        reference = reference;
        targets = targets;
        per_class = dict_of (zip kit.labels (map (λ ap. round ap 6) classes)) [];
      })

  -- `main`, from the dump's lines and the kit, with `--max-boxes` and `--post-thresh`.
  unfoldable pub main :
      (F → ℕ → F) → List (DumpLine F) → TestKit F → Option ℕ → F → Outcome (Report F)
  unfolding read_dump samples_of report_on
  main round lines kit limit post_thresh = read_dump lines >>= λ records.
      require kit.has_ground_truth system_exit
      >> (boxes_limit limit kit >>= λ max_boxes.
          require (ltb (max_of (samples_of records)) kit.count) system_exit
          >> report_on round kit max_boxes post_thresh records)
