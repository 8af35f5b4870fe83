-- ===== src/Samples/Scan.antt =====
-- One bad dataset does not affect the others: prepare_samples.py, `scan_data`.
use Prim.Native.String.{String}
use text.Mathlib.Text.{◌==◌ as str_eq}
use text.Mathlib.TextEquality.{eq_iff}
use symphony_akida.Prelude.{
  All-both, ◌≡◌, refl, sym, ap, ◌∙◌, inl, inr, false, List, [], ◌∷◌, Option, none, some, All,
  Bool-cases,
}
use symphony_akida.Prelude.Outcome.{Outcome, return, raise, ◌>>=◌}
use symphony_akida.Prelude.Dict.{lookup, lookup-insert, string_eq, beq_refl}
use symphony_akida.Samples.{Models, Opened, Prepared}
use symphony_akida.Samples.Convert.{Sets, convert, store, scan_one, scan_data}

apart_sym : (a b : String) → str_eq a b ≡ false → str_eq b a ≡ false
apart_sym a b h = elim (Bool-cases (str_eq b a)) [
  | inr apart ↦ apart
  | inl same ↦ absurd (cc (h, (eq_iff a b).1 (sym ((eq_iff b a).0 same))))
]

module _ (models : Models) (open_path : String → Outcome Opened) where
  -- What a folder's own conversion leaves for its name, next to what was there.
  abbrev pub or_kept : Outcome Prepared → Option Prepared → Option Prepared
  or_kept (return set) old = some set
  or_kept (raise e) old = old

  abbrev pub left_by : String → List String → Option Prepared → Option Prepared
  left_by name (path ∷ []) old = or_kept (open_path path >>= convert models none name path) old
  left_by name _ old = old

  -- Whether the folder's name is none of these.
  abbrev pub IsApart : String → List (String × List String) → Type 0
  IsApart name folders = All (λ folder. str_eq folder.0 name ≡ false) folders

  -- Folder names differ.
  abbrev pub AreDistinct : List (String × List String) → Type 0
  AreDistinct [] = Unit
  AreDistinct ((name, found) ∷ folders) = IsApart name folders × AreDistinct folders

  stored_elsewhere :
      (name other : String) (o : Outcome Prepared) (out : Sets)
      → str_eq name other ≡ false
      → lookup other (store models open_path name o out).1 ≡ lookup other out
  stored_elsewhere name other (return set) out h = rw (lookup-insert, h) refl
  stored_elsewhere name other (raise e) out h = refl

  stored_here :
      (name : String) (o : Outcome Prepared) (out : Sets)
      → lookup name (store models open_path name o out).1 ≡ or_kept o (lookup name out)
  stored_here name (return set) out = rw (lookup-insert, beq_refl name) refl
  stored_here name (raise e) out = refl

  scanned_elsewhere :
      (name other : String) (found : List String) (out : Sets)
      → str_eq name other ≡ false
      → lookup other (scan_one models open_path name found out).1 ≡ lookup other out
  unfolding scan_one
  scanned_elsewhere name other [] out h = refl
  scanned_elsewhere name other (path ∷ []) out h = stored_elsewhere name other _ out h
  scanned_elsewhere name other (_ ∷ _ ∷ _) out h = refl

  scanned_here :
      (name : String) (found : List String) (out : Sets)
      → lookup name (scan_one models open_path name found out).1
        ≡ left_by name found (lookup name out)
  unfolding scan_one
  scanned_here name [] out = refl
  scanned_here name (path ∷ []) out = stored_here name _ out
  scanned_here name (_ ∷ _ ∷ _) out = refl

  scan_data-kept :
      (name : String) (folders : List (String × List String)) (out : Sets)
      → IsApart name folders
      → lookup name (scan_data models open_path folders out).1 ≡ lookup name out
  unfolding scan_data
  scan_data-kept name [] out h = refl
  scan_data-kept name ((other, found) ∷ folders) out h =
      scan_data-kept name folders (scan_one models open_path other found out).1 h.1
      ∙ scanned_elsewhere other name found out h.0

  -- After a scan of folders with different names, each of them has left what its own conversion
  -- gives, as if it were the only folder: a set that converts is there, and where the folder is
  -- skipped or its conversion raises, for any reason, its old set is.
  pub scan_data-All :
      (folders : List (String × List String)) (out : Sets)
      → AreDistinct folders
      → All
          (λ folder.
            lookup folder.0 (scan_data models open_path folders out).1
            ≡ left_by folder.0 folder.1 (lookup folder.0 out))
          folders
  unfolding scan_data
  scan_data-All [] out h = tt
  scan_data-All ((name, found) ∷ folders) out h = (
    scan_data-kept name folders (scan_one models open_path name found out).1 h.0
        ∙ scanned_here name found out,
    let next = (scan_one models open_path name found out).1 in
        All-both (λ folder. str_eq folder.0 name ≡ false)
          (λ folder.
            lookup folder.0 (scan_data models open_path folders next).1
            ≡ left_by folder.0 folder.1 (lookup folder.0 next))
          (λ folder.
            lookup folder.0 (scan_data models open_path folders next).1
            ≡ left_by folder.0 folder.1 (lookup folder.0 out))
          folders h.0 (scan_data-All folders next h.1)
          λ folder apart same.
            same
            ∙ ap (left_by folder.0 folder.1)
                (scanned_elsewhere name folder.0 found out (apart_sym folder.0 name apart)),
  )
