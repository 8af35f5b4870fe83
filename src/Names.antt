-- ===== src/Names.antt =====
-- The names of chips and of models: src/common/akida_product.py and src/common/models.py. Python's
-- string methods are parameters.
pub mod Product
use Prim.Native.String.{String}
use text.Mathlib.Text.{◌==◌ as str_eq}
use symphony_akida.Prelude.{
  ℕ, Bool, true, false, ◌||◌, List, [], ◌∷◌, map, Option, none, some, if◌then◌else◌,
}
use symphony_akida.Prelude.Dict.{lookup, string_eq}

-- `str.strip`, `str.split("/")` and `str.startswith`.
pub record Methods : Type 0 where
  pub strip : String → String
  pub split : String → List String
  pub starts_with : String → String → Bool

abbrev pub products : List (String × String)
products =
    ("BC.00.000.001", "AKD1000")
    ∷ ("BC.00.000.002", "AKD1000")
    ∷ ("BC.A1.003.009", "AKD1500")
    ∷ ("BC.A1.003.006", "TwoNodesIP")
    ∷ ("BC.A2.001.000", "TwoNodesIPv2")
    ∷ ("BC.B1.001.000", "Akida Pico")
    ∷ []

abbrev pub silicon_names : List (String × String)
silicon_names = ("NSoC_v1", "AKD1000") ∷ ("NSoC_v2", "AKD1000") ∷ []

abbrev pub unknown_product : String
unknown_product = "Akida"

-- `a or b`, where `None` and the empty string are false.
abbrev pub or_else : Option String → String → String
or_else none other = other
or_else (some name) other = if str_eq name "" then other else name

-- `str(value or "")`
abbrev pub or_empty : Option String → String
or_empty none = ""
or_empty (some value) = value

module _ (str : Methods) where
  unfoldable pub from_version : Option String → Option String
  unfolding lookup
  from_version version = lookup (str.strip (or_empty version)) products

  abbrev pub silicon_of : List String → String → String
  silicon_of (bus ∷ silicon ∷ more) desc = str.strip silicon
  silicon_of _ desc = desc

  unfoldable pub from_silicon : String → String → String
  unfolding from_version
  from_silicon silicon desc = or_else (from_version (some silicon)) (
      or_else (lookup silicon silicon_names)
        (or_else (some silicon) (or_else (some desc) unknown_product)))

  unfoldable pub from_desc : Option String → String
  unfolding from_silicon
  from_desc text =
      let desc = str.strip (or_empty text) in
      if str_eq desc ""
      then unknown_product
      else from_silicon (silicon_of (str.split desc) desc) desc

  unfoldable pub from_chip_node : Option String → Option String
  from_chip_node text =
      let node = str.strip (or_empty text) in
      if str.starts_with node "akd1500"
      then some "AKD1500"
      else if str.starts_with node "akida"
      then some "AKD1000"
      else none

abbrev pub shown_models : List String
shown_models =
    "kws_keyword_spotting_sparse" ∷ "vww_person_detect" ∷ "surface_search_classifier" ∷ []

abbrev pub shard_models : List String
shard_models = "tiled_yolov2_voc" ∷ []

unfoldable pub among : String → List String → Bool
among name [] = false
among name (m ∷ ms) = let rest = among name ms in str_eq name m || rest

-- `is_shown`, with `_stem` as a parameter.
unfoldable pub is_shown : (String → String) → String → Bool
unfolding among
is_shown stem name = among (stem name) shown_models

-- `_visible`, from the stems of the `.fbz` files in the folder, or `none` where there is no folder.
abbrev pub present_in : Option (List String) → List String
present_in none = []
present_in (some stems) = stems

unfoldable pub keep_present : List String → List String → List String
unfolding among
keep_present [] present = []
keep_present (m ∷ ms) present =
    let rest = keep_present ms present in if among m present then m ∷ rest else rest

unfoldable pub visible_of : List String → Option (List String) → List String
unfolding keep_present
visible_of allowlist folder = keep_present allowlist (present_in folder)

unfoldable pub visible : Option (List String) → List String
unfolding visible_of
visible folder = visible_of shown_models folder

unfoldable pub shard_visible : Option (List String) → List String
unfolding visible_of
shard_visible folder = visible_of shard_models folder
