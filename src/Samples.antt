-- ===== src/Samples.antt =====
-- The preparation of sample sets: src/common/prepare_samples.py. A folder is what the code reads of
-- it; Python's string methods and sort, and the libraries of Kit, are parameters.
pub mod Chunks
pub mod Resolve
pub mod Scan
pub mod Served
pub mod Convert
use Prim.Native.String.{String}
use text.Mathlib.Text.{◌==◌ as str_eq}
use symphony_akida.Prelude.{
  ℕ, zero, suc, ◌+◌, ◌-◌, ◌*◌, ◌/◌, Bool, true, false, not, ◌&&◌, List, [], ◌∷◌, ◌++◌, map, Option,
  none, some, ltb, leb, ◌==◌, length, take, drop, range, if◌then◌else◌,
}
use symphony_akida.Prelude.Outcome.{
  Outcome, return, raise, ◌>>=◌, ◌>>◌, require, or_raise, Exception, key_error, value_error,
  index_error, prepare_error, system_exit,
}
use symphony_akida.Prelude.Dict.{lookup, insert, string_eq}
use symphony_akida.Wire.Stream.{Bytes}
use symphony_akida.Pool.{product}
use symphony_akida.Kit.{Array, Npz, Libraries, TestKit, open_kit, is_given}

-- `<model>_meta.json`, as far as it is used here.
pub record ModelMeta : Type 0 where
  pub sample_input_shape : Option (List ℕ)
  pub input_shape : Option (List ℕ)
  pub num_classes : Option ℕ
  pub class_names : Option (List String)

-- A JSON file that may be absent or not parse.
pub data MetaFile : Type 0 where
  absent garbled : MetaFile
  holds : ModelMeta → MetaFile

-- `<set>.samples.json`
pub record Sidecar : Type 0 where
  pub set_name : String
  pub model : String
  pub count : ℕ
  pub per_sample_bytes : ℕ
  pub input_shape : List ℕ
  pub num_classes : Option ℕ
  pub class_names : Option (List String)
  pub source_npz : String
  pub has_ground_truth : Bool
  pub random : Bool

-- A prepared set: the `.bin` and its sidecar.
pub record Prepared : Type 0 where
  pub bin : Bytes
  pub side : Sidecar

-- `array.size`
abbrev pub size : Array → ℕ
size array = product array.shape

abbrev pub bigger : String × Array → Option (String × Array) → Option (String × Array)
bigger entry none = some entry
bigger (key, array) (some (best_key, best)) =
    if ltb (size best) (size array) then some (key, array) else some (best_key, best)

-- The loop of `pick_inputs`.
unfoldable pub pick_from : List (String × Array) → Option (String × Array) → Option (String × Array)
pick_from [] best = best
pick_from ((key, array) ∷ rest) best =
    let next =
      if array.is_uint8 && leb 2 (length array.shape) then bigger (key, array) best else best in
    pick_from rest next

-- `npz[pick_inputs(npz)]`
unfoldable pub pick_inputs : List (String × Array) → Outcome (String × Array)
unfolding pick_from
pick_inputs arrays = or_raise (pick_from arrays none) prepare_error

-- An absent or empty shape is false.
abbrev pub shape_or : Option (List ℕ) → Option (List ℕ) → Outcome (List ℕ)
shape_or none other = or_raise other key_error
shape_or (some []) other = or_raise other key_error
shape_or (some (d ∷ ds)) other = return (d ∷ ds)

unfoldable pub sample_shape : ModelMeta → Outcome (List ℕ)
sample_shape meta = shape_or meta.sample_input_shape meta.input_shape

abbrev pub meta_in : MetaFile → Outcome ModelMeta
meta_in absent = raise prepare_error
meta_in garbled = raise value_error
meta_in (holds meta) = return meta

-- The models folder: its sorted names, `name[:-len(META_SUFFIX)]` of those that end with the
-- suffix, and the metadata of each model.
pub record Models : Type 0 where
  pub names : List String
  pub stem : String → Option String
  pub file : String → MetaFile

module _ (models : Models) where
  unfoldable pub read_meta : String → Outcome ModelMeta
  read_meta model = meta_in (models.file model)

  unfoldable pub sample_size : String → Outcome ℕ
  unfolding read_meta sample_shape
  sample_size model =
      read_meta model >>= λ meta. sample_shape meta >>= λ shape. return (product shape)

  -- The loop of `resolve_model`: the models of this size, in their order.
  abbrev pub add_match : ℕ → Option String → Outcome (List String) → Outcome (List String)
  add_match per_sample none rest = rest
  add_match per_sample (some model) rest = sample_size model >>= λ n.
      rest >>= λ others. return (if n == per_sample then model ∷ others else others)

  unfoldable pub matches : ℕ → List String → Outcome (List String)
  unfolding sample_size
  matches per_sample [] = return []
  matches per_sample (name ∷ names) =
      add_match per_sample (models.stem name) (matches per_sample names)

  abbrev pub only_one : List String → Outcome String
  only_one (model ∷ []) = return model
  only_one _ = raise prepare_error

  unfoldable pub resolve_model : ℕ → Outcome String
  unfolding matches
  resolve_model per_sample = matches per_sample models.names >>= only_one

  -- `model or resolve_model(...)`
  abbrev pub model_or : Option String → ℕ → Outcome String
  model_or none per_sample = resolve_model per_sample
  model_or (some model) per_sample =
      if str_eq model "" then resolve_model per_sample else return model

abbrev pub chunk : ℕ
chunk = 64

-- `range(0, stop, step)`
abbrev pub starts : ℕ → ℕ → List ℕ
starts stop step = map (λ k. k * step) (range ((stop + (step - 1)) / step))

abbrev pub concat : List Bytes → Bytes
concat [] = []
concat (b ∷ bs) = b ++ concat bs

-- The loop of `convert` over the chunks: the bytes it writes.
unfoldable pub write_chunks : List Bytes → List ℕ → Bytes
write_chunks rows [] = []
write_chunks rows (start ∷ more) = concat (take chunk (drop start rows)) ++ write_chunks rows more

abbrev pub lfs_limit : ℕ
lfs_limit = 1024

-- `_is_lfs_pointer`, with the text of `LFS_POINTER` as an argument.
unfoldable pub is_lfs_pointer : (Bytes → Bytes → Bool) → Bytes → Bytes → Bool
is_lfs_pointer same pointer file =
    if ltb lfs_limit (length file) then false else same (take (length pointer) file) pointer

-- The frames of an archive, whether they have a ground truth, and whether they are noise.
pub record Opened : Type 0 where
  pub frames : Array
  pub has_ground_truth : Bool
  pub is_random : Bool

module _ {F H : Type 0} (lib : Libraries F H) (is_zipfile : Bytes → Bool)
    (same_bytes : Bytes → Bytes → Bool) (pointer : Bytes) where
  -- The plain load, where the archive is no test kit.
  unfoldable pub plain_load : Bytes → Outcome Opened
  unfolding pick_inputs
  plain_load file = lib.load file >>= λ npz. pick_inputs npz.arrays >>= λ (key, frames).
      return (record {
        frames = frames;
        has_ground_truth = false;
        is_random = is_given (lookup "synthetic_random" npz.arrays);
      })

  -- `except (KeyError, ValueError)`
  abbrev pub kit_or_plain : Bytes → Outcome (TestKit F) → Outcome Opened
  kit_or_plain file (return kit) =
      return
        (record { frames = kit.frames; has_ground_truth = kit.has_ground_truth; is_random = false })
  kit_or_plain file (raise key_error) = plain_load file
  kit_or_plain file (raise value_error) = plain_load file
  kit_or_plain file (raise e) = raise e

  -- `_open_frames`, where the file may be absent.
  unfoldable pub open_frames : Option Bytes → Outcome Opened
  unfolding plain_load
  open_frames none = raise prepare_error
  open_frames (some file) =
      require (not (is_lfs_pointer same_bytes pointer file)) prepare_error
      >> (require (is_zipfile file) prepare_error >> kit_or_plain file (open_kit lib file))
