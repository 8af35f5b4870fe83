-- ===== src/Names/Product.antt =====
-- A device always has a product name: akida_product.py, `from_desc`.
use Prim.Native.String.{String}
use text.Mathlib.Text.{◌==◌ as str_eq}
use symphony_akida.Prelude.{
  ◌≡◌, refl, inl, inr, Bool, true, false, Option, none, some, if◌then◌else◌, Bool-cases,
}
use symphony_akida.Prelude.Dict.{lookup, string_eq}
use symphony_akida.Names.{
  Methods, from_version, silicon_names, or_empty, or_else, silicon_of, from_silicon, from_desc,
  unknown_product,
}

or_else_some :
    (name : Option String) (other : String)
    → str_eq other "" ≡ false
    → str_eq (or_else name other) "" ≡ false
or_else_some none other h = h
or_else_some (some name) other h = elim (Bool-cases (str_eq name "")) [
  | inl empty ↦ rw empty h
  | inr full ↦ rw full full
]

either_some :
    (test : Bool) (a b : String)
    → str_eq a "" ≡ false
    → str_eq b "" ≡ false
    → str_eq (if test then a else b) "" ≡ false
either_some true a b h h' = h
either_some false a b h h' = h'

module _ (str : Methods) where
  from_silicon_some : (silicon desc : String) → str_eq (from_silicon str silicon desc) "" ≡ false
  unfolding from_silicon
  from_silicon_some silicon desc =
      let own = or_else (some silicon) (or_else (some desc) unknown_product) in
      or_else_some (from_version str (some silicon)) (or_else (lookup silicon silicon_names) own) (
        or_else_some (lookup silicon silicon_names) own (
          or_else_some (some silicon) (or_else (some desc) unknown_product)
            (or_else_some (some desc) unknown_product refl)))

  -- `from_desc` never returns an empty name, whatever the device says of itself.
  pub from_desc_some : (text : Option String) → str_eq (from_desc str text) "" ≡ false
  unfolding from_desc
  from_desc_some text =
      let desc = str.strip (or_empty text) in
      let silicon = silicon_of str (str.split desc) desc in
      either_some (str_eq desc "") unknown_product (from_silicon str silicon desc) refl
        (from_silicon_some silicon desc)
