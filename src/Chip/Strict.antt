-- ===== src/Chip/Strict.antt =====
-- The strict mode of `Chip.load`, which the SOAM workers use.
use Prim.Native.String.{String}
use symphony_akida.Prelude.{◌≡◌, refl, ◌⊎◌, inl, inr, true, false, none, some, List}
use symphony_akida.Prelude.Outcome.{Outcome, return, raise}
use symphony_akida.Chip.{
  Runtime, Chip, Info, prod, classes_for, keep, info_of, load, after_open, after_map, after_classes,
}

module _ {M : Type 0} (akida : Runtime M) where
  -- The chip has the opened model, on the device, with its shape and the stem of its file.
  abbrev pub IsMapped : String → M → Chip M → Type 0
  IsMapped name m c =
      (akida.open_model name ≡ return m)
      × (akida.map_model m ≡ return tt)
      × (c.model ≡ some m)
      × (c.stem ≡ some (akida.stem_of name))
      × (c.ishape ≡ akida.input_shape m)
      × (c.n ≡ prod (akida.input_shape m))
      × (c.on_chip ≡ true)
      × (c.map_error ≡ none)

  -- Refused with nothing changed; or mapped onto the device with the old class names, where reading
  -- the new ones raises; or mapped with its own.
  abbrev pub IsStrict : String → Chip M → Chip M × Outcome Info → Type 0
  IsStrict name c (c', raise e) =
      (c' ≡ c)
      ⊎ ((m : M) × IsMapped name m c'
          × (classes_for akida m name ≡ raise e)
          × (c'.classes ≡ c.classes))
  IsStrict name c (c', return info) =
      (m : M) × IsMapped name m c'
      × (classes_for akida m name ≡ return info.labels)
      × (c'.classes ≡ some info.labels)
      × (info ≡ info_of akida m name true none info.labels)

  classes-IsStrict :
      (m : M) (name : String) (out : Outcome (List _)) (c : Chip M)
      → akida.open_model name ≡ return m
      → akida.map_model m ≡ return tt
      → classes_for akida m name ≡ out
      → IsStrict name c (after_classes akida m name true none out c)
  unfolding keep info_of
  classes-IsStrict m name (return classes) c opened mapped read =
      (m, (opened, mapped, refl, refl, refl, refl, refl, refl), read, refl, refl)
  classes-IsStrict m name (raise e) c opened mapped read =
      inr (m, (opened, mapped, refl, refl, refl, refl, refl, refl), read, refl)

  map-IsStrict :
      (m : M) (name : String) (out : Outcome (Unit {0})) (c : Chip M)
      → akida.open_model name ≡ return m
      → akida.map_model m ≡ out
      → IsStrict name c (after_map akida m name false out c)
  map-IsStrict m name (return u) c opened mapped =
      classes-IsStrict m name (classes_for akida m name) c opened mapped refl
  map-IsStrict m name (raise e) c opened mapped = inl refl

  open-IsStrict :
      (name : String) (out : Outcome M) (c : Chip M)
      → akida.open_model name ≡ out
      → IsStrict name c (after_open akida name false out c)
  open-IsStrict name (return m) c opened = map-IsStrict m name (akida.map_model m) c opened refl
  open-IsStrict name (raise e) c opened = inl refl

  -- In strict mode `load` returns only with the named model on the chip, mapped onto the device, with
  -- its shape, its stem and its class names, and says so. Where it raises, the chip is as it was, or
  -- the class names could not be read: then the new model is mapped under the old class names.
  pub load-IsStrict : (name : String) (c : Chip M) → IsStrict name c (load akida name false c)
  unfolding load
  load-IsStrict name c = open-IsStrict name (akida.open_model name) c refl
