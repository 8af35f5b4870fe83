-- ===== src/Samples/Convert.antt =====
-- The conversion of datasets: `convert`, `scan_data` and `main` of prepare_samples.py.
use Prim.Native.String.{String}
use text.Mathlib.Text.{◌==◌ as str_eq}
use symphony_akida.Prelude.{ℕ, List, [], ◌∷◌, Option, none, some, ◌==◌, if◌then◌else◌}
use symphony_akida.Prelude.Outcome.{
  Outcome, return, raise, ◌>>=◌, ◌>>◌, require, Exception, index_error, prepare_error, system_exit,
}
use symphony_akida.Prelude.Dict.{insert, string_eq}
use symphony_akida.Pool.{product}
use symphony_akida.Samples.{
  Prepared, sample_shape, Models, read_meta, resolve_model, model_or, chunk, starts, write_chunks,
  Opened,
}

abbrev pub count_and_size : List ℕ → Outcome (ℕ × ℕ)
count_and_size [] = raise index_error
count_and_size (n ∷ dims) = return (n, product dims)

-- The part of `convert` after the archive is opened: what it writes as the set.
unfoldable pub convert : Models → Option String → String → String → Opened → Outcome Prepared
unfolding resolve_model sample_shape read_meta write_chunks
convert models given set_name source opened =
    count_and_size opened.frames.shape >>= λ (count, per_sample).
    model_or models given per_sample >>= λ model. read_meta models model >>= λ meta.
    sample_shape meta >>= λ shape.
    require (per_sample == product shape) prepare_error
    >> return (record {
      bin = write_chunks opened.frames.rows (starts count chunk);
      side = record {
        set_name = set_name;
        model = model;
        count = count;
        per_sample_bytes = per_sample;
        input_shape = shape;
        num_classes = meta.num_classes;
        class_names = meta.class_names;
        source_npz = source;
        has_ground_truth = opened.has_ground_truth;
        random = opened.is_random;
      };
    })

-- What came of a dataset folder.
pub data Line : Type 0 where
  prepared no_npz several_npz : Line
  failed : Exception → Line

abbrev pub Sets : Type 0
Sets = List (String × Prepared)

abbrev pub with_set : Sets → Prepared → Sets
with_set out set = insert set.side.set_name set out

-- `except PrepareError`
abbrev pub prepare_to_exit {ℓ} : {A : Type ℓ} → Outcome A → Outcome A
prepare_to_exit (return a) = return a
prepare_to_exit (raise prepare_error) = raise system_exit
prepare_to_exit (raise e) = raise e

abbrev pub name_or : Option String → String → String
name_or none base = base
name_or (some name) base = if str_eq name "" then base else name

-- What `main` is given: `--npz` with the basename less its last four characters, `--model` and
-- `--name`.
pub record Request : Type 0 where
  pub npz : String
  pub base : String
  pub model : Option String
  pub name : Option String

-- `_open_frames` at a path is an argument.
module _ (models : Models) (open_path : String → Outcome Opened) where
  abbrev pub store : String → Outcome Prepared → Sets → Line × Sets
  store name (return set) out = (prepared, insert name set out)
  store name (raise e) out = (failed e, out)

  -- One turn of the loop of `scan_data`, over the sorted paths of a folder's `.npz` files.
  unfoldable pub scan_one : String → List String → Sets → Line × Sets
  unfolding convert insert
  scan_one name [] out = (no_npz, out)
  scan_one name (path ∷ []) out = store name (open_path path >>= convert models none name path) out
  scan_one name (_ ∷ _ ∷ _) out = (several_npz, out)

  -- The loop of `scan_data`, over the sorted dataset folders: a line for each, and the sets.
  unfoldable pub scan_data : List (String × List String) → Sets → List (String × Line) × Sets
  unfolding scan_one
  scan_data [] out = ([], out)
  scan_data ((name, found) ∷ folders) out =
      let (line, next) = scan_one name found out in
      let (lines, last) = scan_data folders next in ((name, line) ∷ lines, last)

  -- `main`
  unfoldable pub main : Option Request → List (String × List String) → Sets → Outcome Sets
  unfolding convert scan_data insert
  main (some request) folders out = prepare_to_exit (
      open_path request.npz >>= λ opened.
      convert models request.model (name_or request.name request.base) request.npz opened >>= λ set.
      return (with_set out set))
  main none folders out = return (scan_data folders out).1
