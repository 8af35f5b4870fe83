-- ===== src/Dashboard/Run.antt =====
-- A run from the dashboard: `api_run` of src/apps/image-shard-inference/dashboard/app.py.
use Prim.Native.String.{String}
use symphony_akida.Prelude.{
  ℕ, ◌≤◌, ◌≡◌, refl, inl, inr, Bool, true, false, List, [], ◌∷◌, Option, none, some, length, All,
  Any, if◌then◌else◌,
}
use symphony_akida.Prelude.Outcome.{
  Outcome, return, raise, ◌>>=◌, or_raise, key_error, Ensures, Outcome-cases,
}
use symphony_akida.Wire.Stream.{Bytes}
use symphony_akida.Merge.Boxes.{Floats}
use symphony_akida.Kit.{TestKit}
use symphony_akida.Evaluation.{DumpLine, Records, add_lines}
use symphony_akida.Dashboard.{
  Ran, Reply, ok, refused, client_reply, Dataset, SideFile, list_datasets, find_dataset,
  open_frames, clamp_count, given_or, text_or, counts_of, ranked, gallery,
}
use symphony_akida.Dashboard.Frame.{State}
use symphony_akida.Dashboard.Accuracy.{Accuracy}
use symphony_akida.Dashboard.Gallery.{gallery-Best}

-- The body of the request, and what the client reports that the server reads.
pub record Request (F : Type 0) : Type 0 where
  pub dataset : Option String
  pub count : Option ℕ
  pub post_thresh : Option F

pub record Result (F : Type 0) : Type 0 where
  pub dump : Option String
  pub post_thresh : Option F

-- What the server reads beside the client: the folders, the lines of a dump, the bytes of a set,
-- a kit, and the class names of a model, each where the file is there.
pub record Files (F : Type 0) : Type 0 where
  pub models : Option (List String)
  pub sides : List (Option SideFile)
  pub dump : String → Option (List (DumpLine F))
  pub bin : String → Option Bytes
  pub kit : String → Option (Outcome (TestKit F))
  pub class_names : String → Outcome (List String)

-- The answer to a run that came through.
pub record Body (F : Type 0) : Type 0 where
  pub dataset : Dataset
  pub accuracy : Option (Accuracy F)
  pub accuracy_error : Bool
  pub gallery : List ℕ
  pub gallery_counts : List (ℕ × ℕ)

abbrev pub dump_lines : {F : Type 0} → Option (List (DumpLine F)) → Outcome (Records F)
dump_lines none = return []
dump_lines (some lines) = add_lines lines []

-- `read_dump`, where the client names a dump that is there.
abbrev pub records_of : {F : Type 0} → Files F → Option String → Outcome (Records F)
records_of files none = return []
records_of files (some dump) = dump_lines (files.dump dump)

-- A kit, and whether opening it raised.
abbrev pub tried_kit : {F : Type 0} → Option (Outcome (TestKit F)) → Option (TestKit F) × Bool
tried_kit none = (none, false)
tried_kit (some (return kit)) = (some kit, false)
tried_kit (some (raise e)) = (none, true)

unfoldable pub kit_for : {F : Type 0} → Files F → Dataset → Option (TestKit F) × Bool
kit_for files dataset =
    if dataset.has_ground_truth then tried_kit (files.kit dataset.source_npz) else (none, false)

-- The scores, and whether the scoring raised.
abbrev pub tried_score : {F : Type 0} → Outcome (Accuracy F) → Option (Accuracy F) × Bool
tried_score (return accuracy) = (some accuracy, false)
tried_score (raise e) = (none, true)

abbrev pub class_names_for :
    {F : Type 0} → Files F → Option (TestKit F) → Dataset → Outcome (List String)
class_names_for files none dataset = files.class_names dataset.model
class_names_for files (some kit) dataset = return kit.labels

-- `score` is an argument of these: it takes the kit, the records, the cap and the gate.
module _ {F : Type 0} (f : Floats F)
    (score_of : TestKit F → Records F → ℕ → F → Outcome (Accuracy F)) (files : Files F) where
  abbrev pub accuracy_of :
      Option (TestKit F) × Bool → Records F → Option F → Option (Accuracy F) × Bool
  accuracy_of (none, broken) records post_thresh = (none, broken)
  accuracy_of (some kit, broken) [] post_thresh = (none, broken)
  accuracy_of (some kit, broken) (r ∷ records) post_thresh = tried_score (
      or_raise kit.npz.max_boxes key_error >>= λ max_boxes.
      score_of kit (r ∷ records) max_boxes (given_or post_thresh f.zero_f))

  -- The end of the run, from the records of the dump and the frames on, each of which may raise
  -- when a part of the state is set already.
  abbrev pub with_names :
      State F → Body F → Outcome (List String) → State F × Outcome (Reply (Body F))
  with_names s body (raise e) = (s, raise e)
  with_names s body (return class_names) =
      (record s { class_names = class_names }, return (ok body))

  abbrev pub with_frames :
      State F
      → Dataset
      → Body F
      → Outcome (Option (List Bytes))
      → State F × Outcome (Reply (Body F))
  with_frames s dataset body (raise e) = (s, raise e)
  with_frames s dataset body (return frames) =
      with_names (record s { frames = frames; dataset = some dataset.name }) body
        (class_names_for files s.kit dataset)

  abbrev pub body_of : Dataset → Records F → Option (Accuracy F) × Bool → Body F
  body_of dataset records scored = record {
    dataset = dataset;
    accuracy = scored.0;
    accuracy_error = scored.1;
    gallery = gallery records;
    gallery_counts = ranked records;
  }

  abbrev pub with_records :
      State F → Dataset → Result F → Outcome (Records F) → State F × Outcome (Reply (Body F))
  with_records s dataset result (raise e) = (s, raise e)
  with_records s dataset result (return records) =
      let kit = kit_for files dataset in
      with_frames (record s { records = records; kit = kit.0 }) dataset
        (body_of dataset records (accuracy_of kit records result.post_thresh))
        (open_frames (files.bin dataset.name) dataset)

  -- From the client's result on.
  unfoldable pub finish_run : State F → Dataset → Result F → State F × Outcome (Reply (Body F))
  unfolding add_lines kit_for open_frames gallery ranked
  finish_run s dataset result = with_records s dataset result (records_of files result.dump)

  abbrev pub after_client :
      State F → Dataset → Reply (Result F) → State F × Outcome (Reply (Body F))
  after_client s dataset (refused status) = (s, return (refused status))
  after_client s dataset (ok result) = finish_run s dataset result

  abbrev pub run_set :
      (Dataset → ℕ → Option F → Ran (Result F))
      → State F
      → Request F
      → Option Dataset
      → State F × Outcome (Reply (Body F))
  run_set run s request none = (s, return (refused 400))
  run_set run s request (some dataset) =
      after_client s dataset
        (client_reply (run dataset (clamp_count request.count dataset.count) request.post_thresh))

  -- `api_run`, with the client, on a set, a count and a gate, as an argument.
  unfoldable pub api_run :
      (Dataset → ℕ → Option F → Ran (Result F))
      → State F
      → Request F
      → State F × Outcome (Reply (Body F))
  unfolding finish_run client_reply clamp_count list_datasets find_dataset
  api_run run s request =
      run_set run s request
        (find_dataset (text_or request.dataset "") (list_datasets files.models files.sides))

  -- An answer and the state that it leaves.
  abbrev pub IsSound : State F → State F → Reply (Body F) → Type 0
  IsSound s next (refused status) = next ≡ s
  IsSound s next (ok body) =
      (next.dataset ≡ some body.dataset.name)
      × (open_frames (files.bin body.dataset.name) body.dataset ≡ return next.frames)
      × (length body.gallery ≤ 9)
      × All (λ n. Any (λ e. e.0 ≡ n) (counts_of next.records)) body.gallery

  abbrev pub Answers : State F → State F × Outcome (Reply (Body F)) → Type 0
  Answers s (next, reply) = Ensures (IsSound s next) reply

  finish_run-Answers :
      (s : State F) (dataset : Dataset) (result : Result F)
      → Answers s (finish_run s dataset result)
  unfolding finish_run
  finish_run-Answers s dataset result = elim (Outcome-cases (records_of files result.dump)) [
    | inr (e, broken) ↦ rw broken tt
    | inl (records, read) ↦
        let opened = open_frames (files.bin dataset.name) dataset in
        let kit = kit_for files dataset in
        elim (Outcome-cases opened) [
          | inr (e, broken) ↦ rw (read, broken) tt
          | inl (frames, mapped) ↦ elim (Outcome-cases (class_names_for files kit.0 dataset)) [
            | inr (e, broken) ↦ rw (read, mapped, broken) tt
            | inl (names, known) ↦
                let best = gallery-Best records in
                rw (read, mapped, known) (refl, mapped, best.0, best.2)
          ]
        ]
  ]

  -- Where the server refuses a run with an error status, what it draws frames from is as it was.
  -- Where it answers with a result, the state is of the set that the answer names, its frames are
  -- those of that set's file, and the gallery has nine frames at most, each with a record in the
  -- state.
  pub api_run-Answers :
      (run : Dataset → ℕ → Option F → Ran (Result F)) (s : State F) (request : Request F)
      → Answers s (api_run run s request)
  unfolding api_run
  api_run-Answers run s request =
      set_sound (find_dataset (text_or request.dataset "") (list_datasets files.models files.sides))
    where
      reply_sound :
          (dataset : Dataset) (reply : Reply (Result F)) → Answers s (after_client s dataset reply)
      reply_sound dataset (refused status) = refl
      reply_sound dataset (ok result) = finish_run-Answers s dataset result

      set_sound : (found : Option Dataset) → Answers s (run_set run s request found)
      set_sound none = refl
      set_sound (some dataset) = reply_sound dataset _
