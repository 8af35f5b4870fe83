-- ===== src/Examples/Stages.antt =====
-- A frame of two by two pixels through the three stages, with five tiles of one pixel.
use Prim.Native.String.{String}
use symphony_akida.Prelude.{
  ℕ, zero, suc, ◌+◌, ◌*◌, Bool, true, ◌<◌, ◌≡◌, refl, inl, inr, List, [], ◌∷◌, ◌++◌, none, some,
  map, arith, get_or, All, Any,
}
use symphony_akida.Prelude.Outcome.{Outcome, return}
use symphony_akida.Prelude.Dict.{lookup, string_eq}
use symphony_akida.Tiles.{Tile, Image, make_tile_layout, split_frame, cut_tile, crop_at, quadrants}
use symphony_akida.Decode.{Output}
use symphony_akida.Wire.Stream.{Bytes}
use symphony_akida.Chip.{Chip}
use symphony_akida.Stages.Bus.{Bus, ShardMeta, tobytes, frombuffer}
use symphony_akida.Stages.Segment.{segment}
use symphony_akida.Stages.Infer.{Numpy}
use symphony_akida.Stages.Stitch.{stitch, merge_gated}
use symphony_akida.Stages.Frame.{Visit, visits, Outputs, IsOurs, IsKnown, entry_of}
use symphony_akida.Stages.Composed.{stages_composed}
use symphony_akida.Examples.Node.{two_models}
use symphony_akida.Examples.Sorting.{tenths, stable}
use symphony_akida.Examples.Fuse.{some_settings}
use symphony_akida.Examples.Scores.{no_maths, some_arguments, is_nought}

abbrev some_meta : ShardMeta ℕ
some_meta = record {
  tile_layout = "quadrants_center";
  frame_size = 2;
  input_size = 1;
  arguments = some_arguments;
  merge = some_settings;
  max_boxes = none;
  post_merge_thresh = 5;
  class_names = "dog" ∷ "cat" ∷ [];
}

abbrev any_meta : String → Outcome (ShardMeta ℕ)
any_meta model = return some_meta

abbrev stable_numpy : Numpy ℕ
stable_numpy = record { argsort_down = stable.argsort; is_zero = is_nought }

-- One cell, whose channels all hold the tile's first byte.
abbrev first_byte : Bytes → Output ℕ
first_byte bytes = record { grid_h = 1; grid_w = 1; channel = λ row col channel. get_or bytes 0 0 }

abbrev run_on : {M : Type 0} → M → Bytes → Outcome (Output ℕ)
run_on m bytes = return (first_byte bytes)

abbrev five_tiles : List Tile
five_tiles = quadrants 1 1 ++ record { name = "center"; x0 = 0; y0 = 0; size = 1 } ∷ []

abbrev pixels : Bytes
pixels = 10 ∷ 0 ∷ 0 ∷ 20 ∷ 0 ∷ 0 ∷ 30 ∷ 0 ∷ 0 ∷ 40 ∷ 0 ∷ 0 ∷ []

abbrev framed : Image
framed = record {
  height = 2;
  width = 2;
  pixel = λ row col channel. get_or pixels ((row * 2 + col) * 3 + channel) 0;
}

framed_lem : frombuffer 2 pixels ≡ return framed
unfolding frombuffer
framed_lem = refl

five_tiles_lem : make_tile_layout "quadrants_center" 2 1 ≡ return five_tiles
unfolding make_tile_layout
five_tiles_lem = refl

abbrev five_crops : List Image
five_crops = map (crop_at framed) five_tiles

five_crops_lem : split_frame framed five_tiles 1 ≡ return five_crops
unfolding split_frame cut_tile
five_crops_lem = refl

abbrev five_outputs : List (Output ℕ)
five_outputs = map (λ crop. first_byte (tobytes crop)) five_crops

five_outputs_lem :
    Outputs tenths no_maths stable_numpy two_models run_on any_meta true 3 five_crops five_outputs
unfolding tobytes crop_at
five_outputs_lem = (refl, refl, (refl, refl, (refl, refl, (refl, refl, (refl, refl, tt)))))

abbrev ready_chip : Chip Bool
ready_chip = record {
  model = some true;
  stem = some "kws";
  ishape = 1 ∷ 1 ∷ 3 ∷ [];
  n = 3;
  classes = none;
  on_chip = true;
  map_error = none;
}

abbrev visit_of : String → ℕ → Visit Bool ℕ
visit_of image k = record {
  chip = ready_chip;
  meta_cache = [];
  request = record { image_id = image; tile = k; model = some "kws" };
}

nothing_cached :
    {A : Type 0} (model : String) (found : A) (P : Type 0) → lookup model [] ≡ some found → P
unfolding lookup
nothing_cached model found P e = absurd cc

visit_of-IsOurs :
    (k : ℕ)
    → IsOurs tenths no_maths stable_numpy two_models run_on any_meta "f0" "kws" true some_meta 3
        refl refl
        (visit_of "f0" k)
visit_of-IsOurs k = (
  λ bus. record {
    has_model = refl;
    has_stem = refl;
    fits = refl;
    honest = λ model meta e. nothing_cached model meta _ e;
  },
  refl,
)

-- The tiles in no order, one of them twice, and a tile of another frame.
abbrev some_visits : List (Visit Bool ℕ)
some_visits =
    visit_of "f0" 3
    ∷ visit_of "f0" 0
    ∷ visit_of "f1" 2
    ∷ visit_of "f0" 4
    ∷ visit_of "f0" 3
    ∷ visit_of "f0" 1
    ∷ visit_of "f0" 2
    ∷ []

all_asked :
    (k : ℕ)
    → k < 5
    → Any
        (λ v.
          IsOurs tenths no_maths stable_numpy two_models run_on any_meta "f0" "kws" true some_meta 3
            refl refl v
          × (v.request.tile ≡ k))
        some_visits
all_asked zero h = inr (inl (visit_of-IsOurs 0, refl))
all_asked (suc zero) h = inr (inr (inr (inr (inr (inl (visit_of-IsOurs 1, refl))))))
all_asked (suc (suc zero)) h = inr (inr (inr (inr (inr (inr (inl (visit_of-IsOurs 2, refl)))))))
all_asked (suc (suc (suc zero))) h = inl (visit_of-IsOurs 3, refl)
all_asked (suc (suc (suc (suc zero)))) h = inr (inr (inr (inl (visit_of-IsOurs 4, refl))))
all_asked (suc (suc (suc (suc (suc k))))) h = absurd (omega arith)

some_visits-IsKnown :
    All
      (IsKnown tenths no_maths stable_numpy two_models run_on any_meta "f0" "kws" true some_meta 3
        refl refl)
      some_visits
some_visits-IsKnown = (
  inr (visit_of-IsOurs 3),
  (
    inr (visit_of-IsOurs 0),
    (
      inl refl,
      (
        inr (visit_of-IsOurs 4),
        (inr (visit_of-IsOurs 3), (inr (visit_of-IsOurs 1), (inr (visit_of-IsOurs 2), tt))),
      ),
    ),
  ),
)

abbrev no_files : Bus ℕ
no_files = record { segs = λ image k. none; dets = λ image k. none }

stages_composed_example :
    ((segment any_meta
        (record { cache = []; bus = no_files })
        (record { image_id = "f0"; model = some "kws" })
        (some pixels)).1
      ≡ return (record { n_tiles = 5; tile_names = map (λ (t : Tile). t.name) five_tiles }))
    × ((stitch tenths stable any_meta
          (visits tenths no_maths stable_numpy two_models run_on any_meta some_visits
            (segment any_meta
              (record { cache = []; bus = no_files })
              (record { image_id = "f0"; model = some "kws" })
              (some pixels)).0.bus)
          (record { cache = [] })
          (record { image_id = "f0"; model = "kws"; post_thresh = some 3; max_boxes = none })).1
        ≡ merge_gated tenths stable some_meta five_tiles none 3 (
            map
              (entry_of tenths no_maths stable_numpy two_models run_on any_meta some_meta)
              five_outputs))
stages_composed_example =
    stages_composed tenths no_maths stable_numpy stable two_models run_on any_meta "f0" "kws" true
      some_meta five_tiles 3 refl refl five_tiles_lem pixels framed five_crops five_outputs
      framed_lem five_crops_lem five_outputs_lem (record { cache = []; bus = no_files })
      (λ model found e. nothing_cached model found _ e) some_visits some_visits-IsKnown all_asked
      (record { cache = [] }) (λ model found e. nothing_cached model found _ e) (some 3) none
