-- ===== src/Node/Invariant.antt =====
-- What a node's HTTP service keeps true of its chip.
use Prim.Native.String.{String}
use text.Mathlib.Text.{◌==◌ as str_eq}
use symphony_akida.Prelude.{
  ◌≡◌, ◌⊎◌, refl, subst, inl, inr, Bool, true, false, ◌||◌, List, [], ◌∷◌, Option, none, some,
  Bool-cases,
}
use symphony_akida.Prelude.Outcome.{Outcome, return, raise, Exception}
use symphony_akida.Chip.{
  Runtime, Chip, new_chip, prod, classes_for, keep, load, after_open, after_map, after_classes,
  unload,
}
use symphony_akida.Node.{
  Node, Body, init_node, with_default, load_on, post_load, unload_on, do_post, do_posts,
}

abbrev is_none : Option Exception → Bool
is_none none = true
is_none (some e) = false

module _ {M : Type 0} (akida : Runtime M) where
  -- The class names are those of the model's file, unless reading them raised.
  abbrev pub AreNames : M → String → Option (List String) → Type 0
  AreNames m name classes =
      ((names : List String) × (classes_for akida m name ≡ return names) × (classes ≡ some names))
      ⊎ ((e : Exception) × (classes_for akida m name ≡ raise e))

  -- With no model, nothing is mapped and nothing named; with one, its name, its shapes and its class
  -- names are of one file, and it is on the chip unless an error of mapping is noted.
  abbrev pub Describes : Option M → Chip M → Type 0
  Describes none c = (c.stem ≡ none) × (c.on_chip ≡ false) × (c.map_error ≡ none)
  Describes (some m) c =
      (name : String) × (akida.open_model name ≡ return m)
      × (c.stem ≡ some (akida.stem_of name))
      × (c.ishape ≡ akida.input_shape m)
      × (c.n ≡ prod (akida.input_shape m))
      × AreNames m name c.classes
      × (c.on_chip ≡ is_none c.map_error)

  abbrev pub IsConsistent : Option (Chip M) → Type 0
  IsConsistent none = Unit {0}
  IsConsistent (some c) = Describes c.model c

  after_classes-IsConsistent :
      (m : M) (name : String) (mapped : Bool) (failure : Option Exception)
      (out : Outcome (List String)) (c : Chip M)
      → akida.open_model name ≡ return m
      → classes_for akida m name ≡ out
      → mapped ≡ is_none failure
      → IsConsistent (some ((after_classes akida m name mapped failure out c).0))
  unfolding keep
  after_classes-IsConsistent m name mapped failure (return classes) c opened read noted =
      (name, opened, refl, refl, refl, inl (classes, read, refl), noted)
  after_classes-IsConsistent m name mapped failure (raise e) c opened read noted =
      (name, opened, refl, refl, refl, inr (e, read), noted)

  after_map-IsConsistent :
      (m : M) (name : String) (allow_software : Bool) (out : Outcome (Unit {0})) (c : Chip M)
      → akida.open_model name ≡ return m
      → IsConsistent (some c)
      → IsConsistent (some ((after_map akida m name allow_software out c).0))
  after_map-IsConsistent m name allow_software (return u) c opened h =
      after_classes-IsConsistent m name true none (classes_for akida m name) c opened refl refl
  after_map-IsConsistent m name true (raise e) c opened h =
      after_classes-IsConsistent m name false (some e) (classes_for akida m name) c opened refl refl
  after_map-IsConsistent m name false (raise e) c opened h = h

  after_open-IsConsistent :
      (name : String) (allow_software : Bool) (out : Outcome M) (c : Chip M)
      → akida.open_model name ≡ out
      → IsConsistent (some c)
      → IsConsistent (some ((after_open akida name allow_software out c).0))
  after_open-IsConsistent name allow_software (raise e) c opened h = h
  after_open-IsConsistent name allow_software (return m) c opened h =
      after_map-IsConsistent m name allow_software (akida.map_model m) c opened h

  load-IsConsistent :
      (name : String) (allow_software : Bool) (c : Chip M)
      → IsConsistent (some c)
      → IsConsistent (some ((load akida name allow_software c).0))
  unfolding load
  load-IsConsistent name allow_software c h =
      after_open-IsConsistent name allow_software (akida.open_model name) c refl h

  load_on-IsConsistent :
      (chip : Option (Chip M)) (name : String) (s : Node M)
      → chip ≡ s.chip
      → IsConsistent chip
      → IsConsistent ((load_on akida chip name s).0.chip)
  load_on-IsConsistent none name s e h = subst IsConsistent e h
  load_on-IsConsistent (some c) name s e h = load-IsConsistent name true c h

  unload_on-IsConsistent :
      (chip : Option (Chip M)) (s : Node M)
      → chip ≡ s.chip
      → IsConsistent ((unload_on akida chip s).chip)
  unfolding unload
  unload_on-IsConsistent none s e = subst IsConsistent e tt
  unload_on-IsConsistent (some c) s e = (refl, refl, refl)

  post_load-IsConsistent :
      (name : Option String) (s : Node M)
      → IsConsistent s.chip
      → IsConsistent ((post_load akida name s).0.chip)
  unfolding post_load
  post_load-IsConsistent none s h = h
  post_load-IsConsistent (some name) s h = elim (Bool-cases (str_eq name "")) [
    | inl empty ↦ rw empty h
    | inr named ↦ rw named (load_on-IsConsistent s.chip name s refl h)
  ]

  do_post-IsConsistent :
      (path : String) (body : Body) (s : Node M)
      → IsConsistent s.chip
      → IsConsistent ((do_post akida path body s).0.chip)
  unfolding do_post
  do_post-IsConsistent path body s h =
      elim (Bool-cases (str_eq path "/load" || str_eq path "/reload")) [
        | inl loads ↦ rw loads (post_load-IsConsistent body.name s h)
        | inr other ↦ elim (Bool-cases (str_eq path "/unload")) [
          | inl unloads ↦ rw (other, unloads) (unload_on-IsConsistent s.chip s refl)
          | inr more ↦ elim (Bool-cases (str_eq path "/infer")) [
            | inl infers ↦ rw (other, more, infers) h
            | inr unknown ↦ rw (other, more, unknown) h
          ]
        ]
      ]

  do_posts-IsConsistent :
      (posts : List (String × Body)) (s : Node M)
      → IsConsistent s.chip
      → IsConsistent ((do_posts akida posts s).chip)
  unfolding do_posts
  do_posts-IsConsistent [] s h = h
  do_posts-IsConsistent ((path, body) ∷ posts) s h =
      do_posts-IsConsistent posts ((do_post akida path body s).0)
        (do_post-IsConsistent path body s h)

  with_default-IsConsistent :
      (default_model : Option String) (c : Chip M)
      → IsConsistent (some c)
      → IsConsistent (some (with_default akida default_model c))
  with_default-IsConsistent none c h = h
  with_default-IsConsistent (some name) c h = load-IsConsistent name true c h

  init_node-IsConsistent :
      (device : Outcome String) (default_model : Option String)
      → IsConsistent ((init_node akida device default_model).chip)
  unfolding init_node new_chip
  init_node-IsConsistent (raise e) default_model = tt
  init_node-IsConsistent (return product) default_model =
      with_default-IsConsistent default_model new_chip (refl, refl, refl)

  -- After any sequence of POST requests to a node, whether its device was found, whatever its
  -- default model, and whichever calls of the runtime and readings of class names raise: with no
  -- model mapped the chip names none and reports no mapping; with one, some name opens that model,
  -- and the chip has that name's stem, the model's shapes and the class names read for it, unless
  -- reading them raised; and the chip reports it as mapped exactly where no mapping error is noted.
  pub served-IsConsistent :
      (device : Outcome String) (default_model : Option String) (posts : List (String × Body))
      → IsConsistent ((do_posts akida posts (init_node akida device default_model)).chip)
  served-IsConsistent device default_model posts =
      do_posts-IsConsistent posts _ (init_node-IsConsistent device default_model)
