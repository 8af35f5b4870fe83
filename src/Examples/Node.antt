-- ===== src/Examples/Node.antt =====
-- The theorems on the chip and on its HTTP service, with a runtime whose models are numbers.
use Prim.Native.String.{String}
use text.Mathlib.Text.{◌==◌ as str_eq}
use symphony_akida.Prelude.{Bool, true, false, List, [], ◌∷◌, none, some, if◌then◌else◌}
use symphony_akida.Prelude.Outcome.{return, raise, file_not_found, runtime_error}
use symphony_akida.Chip.{Runtime, new_chip, load}
use symphony_akida.Chip.Meta.{absent, not_an_object, readable}
use symphony_akida.Chip.Strict.{IsStrict, load-IsStrict}
use symphony_akida.Names.{Methods}
use symphony_akida.Node.{Body, init_node, do_posts}
use symphony_akida.Node.Invariant.{IsConsistent, served-IsConsistent}

-- "kws" maps onto the device, "asl" only runs in software and its class names raise, and no other
-- model is there.
abbrev pub two_models : Runtime Bool
two_models = record {
  open_model = λ name.
      if str_eq name "kws"
      then return true
      else if str_eq name "asl"
      then return false
      else raise file_not_found;
  map_model = λ m. if m then return tt else raise runtime_error;
  input_shape = λ m. 2 ∷ 2 ∷ [];
  output_shape = λ m. 3 ∷ [];
  sidecars = λ name.
      if str_eq name "asl"
      then not_an_object ∷ []
      else absent
        ∷ readable
            (record { name_lists = some ("yes" ∷ "no" ∷ "other" ∷ []) ∷ []; map_mode = none })
        ∷ [];
  forward = λ m arr. return arr;
  stem_of = λ name. name;
  number = λ n. "0";
}

load-IsStrict_example : IsStrict two_models "kws" new_chip (load two_models "kws" false new_chip)
load-IsStrict_example = load-IsStrict two_models "kws" new_chip

abbrev some_posts : List (String × Body)
some_posts =
    ("/load", record { name = some "asl"; input = none })
    ∷ ("/infer", record { name = none; input = some (1 ∷ 5 ∷ 2 ∷ 0 ∷ []) })
    ∷ ("/unload", record { name = none; input = none })
    ∷ ("/reload", record { name = some "gone"; input = none })
    ∷ []

served-IsConsistent_example :
    IsConsistent two_models
      ((do_posts two_models some_posts (init_node two_models (return "AKD1500") (some "kws"))).chip)
served-IsConsistent_example =
    served-IsConsistent two_models (return "AKD1500") (some "kws") some_posts

-- String methods that leave a text without blanks as it is.
abbrev pub plain : Methods
plain = record {
  strip = λ text. text;
  split = λ text. "PCIe" ∷ "NSoC_v2" ∷ "0" ∷ [];
  starts_with = λ text start. str_eq text start;
}
