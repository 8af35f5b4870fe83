-- ===== src/Chip.antt =====
-- One Akida device: src/common/akida_chip.py, `Chip`. The Akida runtime is a parameter: opening a
-- model file, mapping the model onto the device, and running it may each raise, and so may the
-- reading of the class names beside the file.
pub mod Meta
pub mod Strict
pub mod PredictTile
use Prim.Native.String.{String}
use symphony_akida.Prelude.{
  ℕ, ◌+◌, ◌*◌, Bool, true, false, not, List, [], ◌∷◌, Option, none, some, ltb, ◌==◌, length,
  get_elem?, if◌then◌else◌,
}
use symphony_akida.Prelude.Outcome.{
  Outcome, return, raise, ◌>>=◌, Exception, runtime_error, type_error, value_error,
}
use symphony_akida.Chip.Meta.{MetaFile, classes_of}

-- `open_model` is `load` up to the mapping; `sidecars` are the files beside the named model in the
-- order in which `_classes` looks for them, which do not change.
pub record Runtime (M : Type 0) : Type 0 where
  pub open_model : String → Outcome M
  pub map_model : M → Outcome (Unit {0})
  pub input_shape : M → List ℕ
  pub output_shape : M → List ℕ
  pub sidecars : String → List MetaFile
  pub forward : M → List ℕ → Outcome (List ℕ)
  pub stem_of : String → String
  pub number : ℕ → String

-- The attributes of a `Chip` that change.
pub record Chip (M : Type 0) : Type 0 where
  pub model : Option M
  pub stem : Option String
  pub ishape : List ℕ
  pub n : ℕ
  pub classes : Option (List String)
  pub on_chip : Bool
  pub map_error : Option Exception

-- `Chip.__init__`
unfoldable pub new_chip : {M : Type 0} → Chip M
new_chip = record {
  model = none;
  stem = none;
  ishape = [];
  n = 0;
  classes = none;
  on_chip = false;
  map_error = none;
}

-- `np.prod`
abbrev pub prod : List ℕ → ℕ
prod [] = 1
prod (d ∷ ds) = d * prod ds

-- What `load` returns.
pub record Info : Type 0 where
  pub name : String
  pub shape : List ℕ
  pub num_classes : ℕ
  pub labels : List String
  pub akida_mapped : Bool
  pub error : Option Exception

-- What `infer` returns, but for the time that it took.
pub record Prediction : Type 0 where
  pub cls : ℕ
  pub cls_name : String
  pub stem : Option String

-- `np.argmax`: the first index of a largest value, from `i` on, with the best so far.
abbrev pub argmax_from : ℕ → List ℕ → ℕ → ℕ → ℕ
argmax_from i [] best value = best
argmax_from i (x ∷ xs) best value =
    let higher = ltb value x in
    argmax_from (i + 1) xs (if higher then i else best) (if higher then x else value)

abbrev pub argmax : List ℕ → Outcome ℕ
argmax [] = raise value_error
argmax (x ∷ xs) = return (argmax_from 1 xs 0 x)

module _ {M : Type 0} (akida : Runtime M) where
  -- `_classes` of the model's file.
  unfoldable pub classes_for : M → String → Outcome (List String)
  unfolding classes_of
  classes_for m name = classes_of akida.number (akida.sidecars name) (prod (akida.output_shape m))

  -- The attributes that are set before the class names are read: the model is on the device or,
  -- where it does not map, in software with the error.
  unfoldable pub keep : M → String → Bool → Option Exception → Chip M → Chip M
  keep m name mapped failure c = record c {
    model = some m;
    stem = some (akida.stem_of name);
    ishape = akida.input_shape m;
    n = prod (akida.input_shape m);
    on_chip = mapped;
    map_error = failure;
  }

  unfoldable pub info_of : M → String → Bool → Option Exception → List String → Info
  info_of m name mapped failure classes = record {
    name = akida.stem_of name;
    shape = akida.input_shape m;
    num_classes = prod (akida.output_shape m);
    labels = classes;
    akida_mapped = mapped;
    error = failure;
  }

  -- Where `_classes` raises, the chip has the new model with the class names of the old one.
  abbrev pub after_classes :
      M → String → Bool → Option Exception → Outcome (List String) → Chip M → Chip M × Outcome Info
  after_classes m name mapped failure (raise e) c = (keep m name mapped failure c, raise e)
  after_classes m name mapped failure (return classes) c = (
    record (keep m name mapped failure c) { classes = some classes },
    return (info_of m name mapped failure classes),
  )

  abbrev pub after_map : M → String → Bool → Outcome (Unit {0}) → Chip M → Chip M × Outcome Info
  after_map m name allow_software (return u) c =
      after_classes m name true none (classes_for m name) c
  after_map m name true (raise e) c = after_classes m name false (some e) (classes_for m name) c
  after_map m name false (raise e) c = (c, raise e)

  abbrev pub after_open : String → Bool → Outcome M → Chip M → Chip M × Outcome Info
  after_open name allow_software (raise e) c = (c, raise e)
  after_open name allow_software (return m) c =
      after_map m name allow_software (akida.map_model m) c

  -- `Chip.load`
  unfoldable pub load : String → Bool → Chip M → Chip M × Outcome Info
  unfolding keep info_of classes_for
  load name allow_software c = after_open name allow_software (akida.open_model name) c

  -- `Chip.unload`
  unfoldable pub unload : Chip M → Chip M
  unload c = record c { model = none; stem = none; on_chip = false; map_error = none }

  abbrev pub name_of : Option String → ℕ → String
  name_of (some name) cls = name
  name_of none cls = akida.number cls

  -- `len(self.classes)` raises where no class names were ever read.
  abbrev pub class_name : Option (List String) → ℕ → Outcome String
  class_name none cls = raise type_error
  class_name (some classes) cls = return (name_of (get_elem? classes cls) cls)

  abbrev pub predict : Chip M → Outcome (List ℕ) → Outcome Prediction
  predict c logits = do
    values ← logits
    cls ← argmax values
    cls_name ← class_name c.classes cls
    return (record { cls = cls; cls_name = cls_name; stem = c.stem })

  abbrev pub infer_with : Option M → List ℕ → Chip M → Outcome Prediction
  infer_with none arr c = raise runtime_error
  infer_with (some m) arr c =
      if not (length arr == c.n) then raise value_error else predict c (akida.forward m arr)

  -- `Chip.infer`
  unfoldable pub infer : List ℕ → Chip M → Outcome Prediction
  infer arr c = infer_with c.model arr c
