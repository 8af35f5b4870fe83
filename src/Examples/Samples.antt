-- ===== src/Examples/Samples.antt =====
-- The theorems on the preparation of samples and on the test kits, at small inputs.
use Prim.Native.String.{String}
use text.Mathlib.Text.{◌==◌ as str_eq}
use symphony_akida.Prelude.{
  ℕ, ◌≡◌, refl, true, false, List, [], ◌∷◌, none, some, All, drop, replicate, if◌then◌else◌,
}
use symphony_akida.Prelude.Outcome.{Outcome, return, raise, value_error, Returns}
use symphony_akida.Prelude.Dict.{lookup, string_eq}
use symphony_akida.Wire.Stream.{Bytes}
use symphony_akida.Merge.Boxes.{Box}
use symphony_akida.Kit.{Array, Npz, Libraries, map_from, map_member}
use symphony_akida.Kit.Member.{header_of, mapped_at_data}
use symphony_akida.Samples.{
  ModelMeta, absent, holds, Models, Opened, resolve_model, matches, sample_size, read_meta,
  sample_shape,
}
use symphony_akida.Samples.Convert.{convert, scan_data}
use symphony_akida.Samples.Served.{IsServed, convert-IsServed}
use symphony_akida.Samples.Scan.{left_by, scan_data-All}

abbrev small_meta : ModelMeta
small_meta = record {
  sample_input_shape = none;
  input_shape = some (2 ∷ 1 ∷ []);
  num_classes = none;
  class_names = none;
}

-- A folder with the metadata of one model, and a file beside it.
abbrev some_models : Models
some_models = record {
  names = "README.md" ∷ "kws_meta.json" ∷ [];
  stem = λ name. if str_eq name "kws_meta.json" then some "kws" else none;
  file = λ model. if str_eq model "kws" then holds small_meta else absent;
}

abbrev three_frames : Opened
three_frames = record {
  frames = record {
    is_uint8 = true;
    shape = 3 ∷ 2 ∷ 1 ∷ [];
    rows = (1 ∷ 2 ∷ []) ∷ (3 ∷ 4 ∷ []) ∷ (5 ∷ 6 ∷ []) ∷ [];
  };
  has_ground_truth = false;
  is_random = false;
}

resolved : resolve_model some_models 2 ≡ return "kws"
unfolding resolve_model matches sample_size read_meta sample_shape
resolved = refl

convert-IsServed_example :
    Returns
      (IsServed (λ is. is) (λ k. 0 ∷ 0 ∷ []) some_models 2 three_frames.frames)
      (convert some_models none "speech" "speech.npz" three_frames)
convert-IsServed_example =
    convert-IsServed (λ is. is) (λ k. 0 ∷ 0 ∷ []) some_models 2 3 "speech" "speech.npz" three_frames
      (2 ∷ 1 ∷ [], refl, refl, refl, (refl, (refl, (refl, tt)))) "kws" resolved

-- One dataset that opens, one that does not, and one folder with two files.
abbrev opens : String → Outcome Opened
opens path = if str_eq path "a/a.npz" then return three_frames else raise value_error

abbrev some_folders : List (String × List String)
some_folders =
    ("bad", "bad/x.npz" ∷ []) ∷ ("a", "a/a.npz" ∷ []) ∷ ("two", "1.npz" ∷ "2.npz" ∷ []) ∷ []

scan_data-All_example :
    All
      (λ folder.
        lookup folder.0 (scan_data some_models opens some_folders []).1
        ≡ left_by some_models opens folder.0 folder.1 (lookup folder.0 []))
      some_folders
scan_data-All_example =
    scan_data-All some_models opens some_folders [] ((refl, (refl, tt)), ((refl, tt), (tt, tt)))

-- numpy's readers, as far as the mapping calls them.
abbrev some_npz : Npz ℕ
some_npz = record {
  arrays = [];
  labels = none;
  raw_shapes = none;
  max_boxes = none;
  offsets = λ prefix. some (0 ∷ 1 ∷ 1 ∷ 2 ∷ []);
  boxes = λ prefix. some (small_box ∷ small_box ∷ []);
  box_labels = λ prefix. some (4 ∷ 7 ∷ []);
  ref_scores = none;
  ref_truncated = none;
  map50_target = none;
  map75_target = none;
  map_target = none;
}
  where
    small_box : Box ℕ
    small_box = record { x_low = 0; y_low = 0; x_high = 1; y_high = 1 }

abbrev some_array : Array
some_array = record { is_uint8 = true; shape = 1 ∷ []; rows = (9 ∷ []) ∷ [] }

abbrev readers : Libraries ℕ ℕ
readers = record {
  load = λ file. return some_npz;
  getinfo = λ file member. return (record { is_stored = true; header_offset = 2 });
  read_magic = λ file position. return ((1, 0), position);
  read_array_header_1_0 = λ file position. return (0, position);
  read_array_header_2_0 = λ file position. raise value_error;
  memmap = λ file header offset. return some_array;
}

-- A member with a name of three bytes and an extra field of one.
abbrev stored : Bytes
stored = 7 ∷ 7 ∷ header_of (replicate 26 0) 3 0 1 0 (1 ∷ 2 ∷ 3 ∷ []) (8 ∷ []) (9 ∷ 9 ∷ [])

mapped_at_data_example :
    (start : ℕ) × (drop start stored ≡ 9 ∷ 9 ∷ [])
    × (map_member readers stored "frames.npy" ≡ map_from readers stored start)
mapped_at_data_example =
    mapped_at_data (replicate 26 0) 3 0 1 0 (1 ∷ 2 ∷ 3 ∷ []) (8 ∷ []) (9 ∷ 9 ∷ []) refl refl refl
      readers (7 ∷ 7 ∷ []) "frames.npy" refl
