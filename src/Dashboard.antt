-- ===== src/Dashboard.antt =====
-- The dashboards' servers: src/apps/image-shard-inference/dashboard/app.py and
-- src/apps/batch-inference/dashboard/app.py. What `docker exec` of a client comes to, and what the
-- files hold, are arguments; the pages and the drawing are not modelled.
pub mod Accuracy
pub mod Ranked
pub mod Gallery
pub mod Drawn
pub mod Run
pub mod Frame
use Prim.Native.String.{String}
use text.Mathlib.Text.{◌==◌ as str_eq}
use symphony_akida.Prelude.{
  ℕ, zero, suc, ◌+◌, ◌*◌, min, max, Bool, true, false, not, ◌&&◌, ◌||◌, List, [], ◌∷◌, map, Option,
  none, some, ltb, leb, ◌==◌, length, get_elem?, take, drop, range, if◌then◌else◌,
}
use symphony_akida.Prelude.Outcome.{
  Outcome, return, raise, ◌>>=◌, or_raise, value_error, index_error, file_not_found,
}
use symphony_akida.Prelude.Dict.{lookup, nat_eq}
use symphony_akida.Wire.Stream.{Bytes}
use symphony_akida.Pool.{product}
use symphony_akida.Names.{among, visible, shard_visible}
use symphony_akida.Merge.Boxes.{Floats, Box}
use symphony_akida.Kit.{TestKit, annotations}
use symphony_akida.Evaluation.{Record, Records, place_sample}

-- A client's run: it takes too long, or exits with a code and the non-blank lines that it wrote,
-- each with what its JSON says where it parses.
pub data Ran (A : Type 0) : Type 0 where
  timed_out : Ran A
  exited : ℕ → List (Option A) → Ran A

-- An answer to a request: with a body, or an error with its status.
pub data Reply (A : Type 0) : Type 0 where
  ok : A → Reply A
  refused : ℕ → Reply A

abbrev pub last_of : {A : Type 0} → List (Option A) → Option A
last_of [] = none
last_of (line ∷ []) = line
last_of (line ∷ next ∷ lines) = last_of (next ∷ lines)

abbrev pub parsed : {A : Type 0} → Option A → Reply A
parsed none = refused 500
parsed (some a) = ok a

-- The part of both `api_run` from `subprocess.run` to the parsed result.
unfoldable pub client_reply : {A : Type 0} → Ran A → Reply A
client_reply timed_out = refused 504
client_reply (exited code lines) = if code == 0 then parsed (last_of lines) else refused 500

-- `api_run` of the batch dashboard: `run` is the client on a model and a count.
unfoldable pub batch_run :
    {A : Type 0} → (String → ℕ → Ran A) → Option (List String) → String → Option ℕ → Reply A
unfolding client_reply visible among
batch_run run folder model none =
    if among model (visible folder) then client_reply (run model 500) else refused 400
batch_run run folder model (some count) =
    if among model (visible folder) then client_reply (run model count) else refused 400

-- What the listing reads of a `.samples.json`, under the first part of its name.
pub record SideFile : Type 0 where
  pub base : String
  pub set_name : Option String
  pub model : Option String
  pub count : Option ℕ
  pub input_shape : Option (List ℕ)
  pub has_ground_truth : Bool
  pub source_npz : Option String
  pub random : Bool

pub record Dataset : Type 0 where
  pub name : String
  pub model : String
  pub count : ℕ
  pub input_shape : List ℕ
  pub has_ground_truth : Bool
  pub source_npz : String
  pub is_random : Bool

abbrev pub given_or : {A : Type 0} → Option A → A → A
given_or none a = a
given_or (some b) a = b

-- `a or b`, for a text.
abbrev pub text_or : Option String → String → String
text_or none other = other
text_or (some text) other = if str_eq text "" then other else text

abbrev pub dataset_of : SideFile → String → Dataset
dataset_of side model = record {
  name = text_or side.set_name side.base;
  model = model;
  count = given_or side.count 0;
  input_shape = given_or side.input_shape [];
  has_ground_truth = side.has_ground_truth;
  source_npz = text_or side.source_npz "";
  is_random = side.random;
}

-- `(d["is_random"], -d["count"])`, compared.
unfoldable pub comes_first : Dataset → Dataset → Bool
comes_first a b =
    if a.is_random
    then b.is_random && leb b.count a.count
    else (if b.is_random then true else leb b.count a.count)

unfoldable pub place_dataset : Dataset → List Dataset → List Dataset
unfolding comes_first
place_dataset a [] = a ∷ []
place_dataset a (b ∷ bs) =
    let rest = place_dataset a bs in if comes_first a b then a ∷ b ∷ bs else b ∷ rest

abbrev pub add_side : List String → SideFile → Option String → List Dataset → List Dataset
add_side models side none rest = rest
add_side models side (some model) rest =
    if among model models then place_dataset (dataset_of side model) rest else rest

-- `list_datasets`, over the sidecars in the order of their names; one that does not parse is none.
unfoldable pub list_datasets : Option (List String) → List (Option SideFile) → List Dataset
unfolding place_dataset shard_visible among
list_datasets folder [] = []
list_datasets folder (none ∷ sides) = list_datasets folder sides
list_datasets folder (some side ∷ sides) =
    add_side (shard_visible folder) side side.model (list_datasets folder sides)

unfoldable pub find_dataset : String → List Dataset → Option Dataset
find_dataset name [] = none
find_dataset name (d ∷ ds) = if str_eq d.name name then some d else find_dataset name ds

-- `np.memmap` of a file as `count` entries of `per` bytes: an empty one or one past the end raises.
abbrev pub memmap_rows : Bytes → ℕ → ℕ → Outcome (List Bytes)
memmap_rows file count per =
    if (count * per == 0) || ltb (length file) (count * per)
    then raise value_error
    else return (map (λ i. take per (drop (i * per) file)) (range count))

abbrev pub rows_in : Option Bytes → Dataset → Outcome (Option (List Bytes))
rows_in none dataset = return none
rows_in (some file) dataset =
    if length dataset.input_shape == 3
    then (memmap_rows file dataset.count (product dataset.input_shape) >>= λ rows.
        return (some rows))
    else return none

-- `open_frames`, where the set's `.bin` may be absent.
unfoldable pub open_frames : Option Bytes → Dataset → Outcome (Option (List Bytes))
open_frames file dataset = rows_in file dataset

-- `max(1, min(int(body.get("count", 200)), dataset["count"] or 200))`; a negative count comes to
-- what 0 does.
unfoldable pub clamp_count : Option ℕ → ℕ → ℕ
clamp_count asked stored = max 1 (min (given_or asked 200) (if stored == 0 then 200 else stored))

abbrev pub gallery_size : ℕ
gallery_size = 9

-- `sorted(records, key=lambda s: -len(records[s]["boxes"]))`, with each sample's number of boxes.
abbrev pub counts_of : {F : Type 0} → Records F → List (ℕ × ℕ)
counts_of records = map (λ r. (r.0, length r.1.boxes)) records

unfoldable pub place_ranked : ℕ × ℕ → List (ℕ × ℕ) → List (ℕ × ℕ)
place_ranked a [] = a ∷ []
place_ranked a (b ∷ bs) =
    let rest = place_ranked a bs in if leb b.1 a.1 then a ∷ b ∷ bs else b ∷ rest

unfoldable pub sort_ranked : List (ℕ × ℕ) → List (ℕ × ℕ)
unfolding place_ranked
sort_ranked [] = []
sort_ranked (a ∷ more) = place_ranked a (sort_ranked more)

-- `ranked`, each sample with its entry of `gallery_counts`.
unfoldable pub ranked : {F : Type 0} → Records F → List (ℕ × ℕ)
unfolding sort_ranked
ranked records = take gallery_size (sort_ranked (counts_of records))

-- `sorted(ranked)`
unfoldable pub sort_samples : List (ℕ × ℕ) → List ℕ
unfolding place_sample
sort_samples [] = []
sort_samples (a ∷ more) = place_sample a.0 (sort_samples more)

unfoldable pub gallery : {F : Type 0} → Records F → List ℕ
unfolding ranked sort_samples
gallery records = sort_samples (ranked records)
