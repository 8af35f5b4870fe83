-- ===== src/Chip/Meta.antt =====
-- What a chip reads beside a model file: src/common/akida_chip.py, `_classes` and `_map_mode`.
use Prim.Native.String.{String}
use text.Mathlib.Text.{◌==◌ as str_eq}
use symphony_akida.Prelude.{
  length-range_from, ℕ, ◌≡◌, inl, inr, List, [], ◌∷◌, ◌==◌, ==_iff, map, Option, none, some, arith,
  length, length-map, range, Bool-cases, if◌then◌else◌,
}
use symphony_akida.Prelude.Outcome.{Outcome, return, raise, attribute_error, Ensures}

-- A JSON object: the lists under the four keys of class names in their order, and the map mode.
pub record ModelMeta : Type 0 where
  pub name_lists : List (Option (List String))
  pub map_mode : Option String

pub data MetaFile : Type 0 where
  absent unreadable not_an_object : MetaFile
  readable : ModelMeta → MetaFile

-- The loop over the keys: the first list of `n` names.
unfoldable pub first_fit : ℕ → List (Option (List String)) → Option (List String)
first_fit n [] = none
first_fit n (none ∷ more) = first_fit n more
first_fit n (some names ∷ more) =
    let rest = first_fit n more in if length names == n then some names else rest

abbrev pub first_or :
    Option (List String) → Outcome (Option (List String)) → Outcome (Option (List String))
first_or (some names) rest = return (some names)
first_or none rest = rest

-- The loop over the files: JSON that is not an object has no `get`, outside the loop's `try`.
unfoldable pub find_classes : ℕ → List MetaFile → Outcome (Option (List String))
unfolding first_fit
find_classes n [] = return none
find_classes n (not_an_object ∷ more) = raise attribute_error
find_classes n (absent ∷ more) = find_classes n more
find_classes n (unreadable ∷ more) = find_classes n more
find_classes n (readable meta ∷ more) =
    let rest = find_classes n more in first_or (first_fit n meta.name_lists) rest

abbrev pub or_numbers : (ℕ → String) → ℕ → Outcome (Option (List String)) → Outcome (List String)
or_numbers number n (raise e) = raise e
or_numbers number n (return (some names)) = return names
or_numbers number n (return none) = return (map number (range n))

-- `_classes`, with `str` on numbers as a parameter.
unfoldable pub classes_of : (ℕ → String) → List MetaFile → ℕ → Outcome (List String)
unfolding find_classes
classes_of number files n = or_numbers number n (find_classes n files)

abbrev pub or_all : Option String → String
or_all none = "AllNps"
or_all (some mode) = if str_eq mode "" then "AllNps" else mode

-- `_map_mode`: an unreadable file, or one that is no object, ends the search.
unfoldable pub map_mode_of : List MetaFile → String
map_mode_of [] = "AllNps"
map_mode_of (absent ∷ more) = map_mode_of more
map_mode_of (unreadable ∷ more) = "AllNps"
map_mode_of (not_an_object ∷ more) = "AllNps"
map_mode_of (readable meta ∷ more) = or_all meta.map_mode

-- A list of names, where there is one, of the right length.
abbrev Fits : ℕ → Option (List String) → Type 0
Fits n none = Unit {0}
Fits n (some names) = length names ≡ n

first_fit-Fits : (n : ℕ) (lists : List (Option (List String))) → Fits n (first_fit n lists)
unfolding first_fit
first_fit-Fits n [] = tt
first_fit-Fits n (none ∷ more) = first_fit-Fits n more
first_fit-Fits n (some names ∷ more) = elim (Bool-cases (length names == n)) [
  | inl fits ↦ rw fits ((==_iff (length names) n).0 fits)
  | inr odd ↦ rw odd (first_fit-Fits n more)
]

chosen-Fits :
    (n : ℕ) (found : Option (List String)) (rest : Outcome (Option (List String)))
    → Fits n found
    → Ensures (Fits n) rest
    → Ensures (Fits n) (first_or found rest)
chosen-Fits n none rest h h' = h'
chosen-Fits n (some names) rest h h' = h

find_classes-Fits : (n : ℕ) (files : List MetaFile) → Ensures (Fits n) (find_classes n files)
unfolding find_classes
find_classes-Fits n [] = tt
find_classes-Fits n (absent ∷ more) = find_classes-Fits n more
find_classes-Fits n (unreadable ∷ more) = find_classes-Fits n more
find_classes-Fits n (not_an_object ∷ more) = tt
find_classes-Fits n (readable meta ∷ more) =
    chosen-Fits n (first_fit n meta.name_lists) (find_classes n more)
      (first_fit-Fits n meta.name_lists) (find_classes-Fits n more)

length-or_numbers :
    (number : ℕ → String) (n : ℕ) (found : Outcome (Option (List String)))
    → Ensures (Fits n) found
    → Ensures (λ names. length names ≡ n) (or_numbers number n found)
length-or_numbers number n (raise e) h = tt
length-or_numbers number n (return (some names)) h = h
length-or_numbers number n (return none) h =
    omega (arith, length-map number (range n), length-range_from 0 n)

-- Whatever the files beside a model say, and where there are none, `_classes` raises or returns
-- exactly `n` names for its `n` outputs.
pub length-classes_of :
    (number : ℕ → String) (files : List MetaFile) (n : ℕ)
    → Ensures (λ names. length names ≡ n) (classes_of number files n)
unfolding classes_of
length-classes_of number files n =
    length-or_numbers number n (find_classes n files) (find_classes-Fits n files)
