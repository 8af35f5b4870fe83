-- ===== src/Examples/Dashboard.antt =====
-- The theorems on the dashboard and on the check against the reference, at small inputs.
use symphony_akida.Prelude.{
  Any, ℕ, ◌+◌, ◌*◌, ◌/◌, ◌≡◌, ◌≤◌, refl, true, false, Bool, List, [], ◌∷◌, Option, none, some, All,
  arith, length, replicate, map, subst, ◌==◌, ◌&&◌,
}
use symphony_akida.Prelude.Outcome.{Outcome, return, raise, Ensures, key_error}
use symphony_akida.Prelude.Dict.{Eq, nat_eq}
use symphony_akida.Tiles.{Image, make_tile_layout, cut_tile}
use symphony_akida.Merge.Boxes.{Floats, Box}
use symphony_akida.Decode.{Maths, Output}
use symphony_akida.Wire.Stream.{Bytes}
use symphony_akida.Kit.{TestKit}
use symphony_akida.Stages.Bus.{ShardMeta}
use symphony_akida.Stages.Infer.{Numpy}
use symphony_akida.Evaluation.{Records, blank, record_line}
use symphony_akida.Dashboard.{Ran, exited, Dataset, open_frames, gallery, counts_of}
use symphony_akida.Dashboard.Frame.{State, api_frame}
use symphony_akida.Dashboard.Ranked.{Rises}
use symphony_akida.Dashboard.Gallery.{IsShownOrLess, gallery-Best}
use symphony_akida.Dashboard.Drawn.{IsSent, api_frame-IsSent}
use symphony_akida.Dashboard.Accuracy.{Accuracy}
use symphony_akida.Dashboard.Run.{Files, Request, Result, Answers, api_run, api_run-Answers}
use symphony_akida.Verify.{pos, Pinned, check_meta, main}
use symphony_akida.Verify.Passes.{RunsExact, main-AreExact}
use symphony_akida.Examples.Sorting.{tenths, stable}
use symphony_akida.Examples.Scores.{is_nought}
use symphony_akida.Examples.Fuse.{some_settings}
use symphony_akida.Examples.Evaluation.{two_frames, both_records, first_record, second_record}

abbrev same_box : Box ℕ → Box ℕ → Bool
same_box a b =
    (a.x_low == b.x_low)
    && ((a.y_low == b.y_low) && ((a.x_high == b.x_high) && (a.y_high == b.y_high)))

same_box_sound : (a b : Box ℕ) → same_box a b ≡ true → a ≡ b
same_box_sound a b h =
    let same_x : a.x_low ≡ b.x_low = ground (arith, h) in
    let same_y : a.y_low ≡ b.y_low = ground (arith, h) in
    let same_x' : a.x_high ≡ b.x_high = ground (arith, h) in
    let same_y' : a.y_high ≡ b.y_high = ground (arith, h) in
    λ i. record { x_low = same_x i; y_low = same_y i; x_high = same_x' i; y_high = same_y' i }

same_box_refl : (a : Box ℕ) → same_box a a ≡ true
same_box_refl a = ground arith

abbrev box_eq : Eq (Box ℕ)
box_eq = record {
  beq = same_box;
  beq_iff = λ a b. (same_box_sound a b, λ e. subst (λ c. same_box a c ≡ true) e (same_box_refl a));
}

abbrev pixels : Bytes
pixels = replicate 3072 10

abbrev small_meta : ShardMeta ℕ
small_meta = record {
  tile_layout = "whole";
  frame_size = 32;
  input_size = 32;
  arguments = record {
    anchors = (10, 10) ∷ [];
    num_classes = 1;
    obj_threshold = 4;
    nms_threshold = 5;
  };
  merge = some_settings;
  max_boxes = some 2;
  post_merge_thresh = 0;
  class_names = "dog" ∷ [];
}

-- Fixed-point numbers that also scale the product.
abbrev fixed : Floats ℕ
fixed = record tenths { mul = λ a b. a * b / 10 }

-- A model with one cell, whose channels all hold the first value of the tile.
abbrev first_pixel : List Image → Outcome (List (Output ℕ))
first_pixel crops = return (
    map (λ crop. record { grid_h = 1; grid_w = 1; channel = λ row col channel. crop.pixel 0 0 0 })
      crops)

abbrev kept_box : Box ℕ
kept_box = record { x_low = 4; y_low = 4; x_high = 10; y_high = 10 }

-- One frame, with its reference.
abbrev one_frame : TestKit ℕ
one_frame = record two_frames {
  npz = record two_frames.npz {
    offsets = λ prefix. some (0 ∷ 1 ∷ []);
    boxes = λ prefix. some (kept_box ∷ []);
    box_labels = λ prefix. some (0 ∷ []);
    ref_scores = some (9 ∷ []);
    ref_truncated = some (false ∷ []);
  };
  frames = record { is_uint8 = true; shape = 1 ∷ 32 ∷ 32 ∷ 3 ∷ []; rows = pixels ∷ [] };
  count = 1;
}

abbrev plus_one : Maths ℕ
plus_one = record { exp = λ a. a + 1; neg = λ a. 0 }

abbrev some_numpy : Numpy ℕ
some_numpy = record { argsort_down = stable.argsort; is_zero = is_nought }

abbrev small_pinned : Pinned ℕ
small_pinned = record {
  meta = small_meta;
  tiles = record { name = "whole"; x0 = 0; y0 = 0; size = 32 } ∷ [];
}

passes :
    main fixed plus_one some_numpy stable nat_eq box_eq first_pixel one_frame small_meta
      small_pinned
      (some (return (pos 3)))
      true
      none
    ≡ return 0
unfolding main cut_tile
passes = refl

main-AreExact_example :
    (make_tile_layout "whole" 32 32 ≡ return small_pinned.tiles)
    × (check_meta nat_eq box_eq small_meta small_meta ≡ true)
    × RunsExact fixed plus_one some_numpy stable nat_eq box_eq first_pixel one_frame small_meta
        small_pinned.tiles
        (some (return (pos 3)))
main-AreExact_example =
    main-AreExact fixed plus_one some_numpy stable nat_eq box_eq first_pixel one_frame small_meta
      small_pinned (some (return (pos 3))) true none passes

gallery-Best_example :
    (length (gallery both_records) ≤ 9)
    × Rises (gallery both_records)
    × All (λ n. Any (λ e. e.0 ≡ n) (counts_of both_records)) (gallery both_records)
    × All (IsShownOrLess both_records) (counts_of both_records)
gallery-Best_example = gallery-Best both_records

some_gallery : gallery both_records ≡ 0 ∷ 1 ∷ []
unfolding gallery
some_gallery = refl

-- A set of two images of one pixel.
abbrev two_pixels : Dataset
two_pixels = record {
  name = "pixels";
  model = "tiled_yolov2_voc";
  count = 2;
  input_shape = 1 ∷ 1 ∷ 3 ∷ [];
  has_ground_truth = false;
  source_npz = "";
  is_random = false;
}

abbrev six_bytes : Bytes
six_bytes = 1 ∷ 2 ∷ 3 ∷ 4 ∷ 5 ∷ 6 ∷ []

api_frame-IsSent_example :
    (frames : List Bytes) × (open_frames (some six_bytes) two_pixels ≡ return (some frames))
    × ((s : State ℕ) (asked : Bool)
        → s.frames ≡ some frames
        → Ensures
            (IsSent tenths
              (λ is. is)
              (λ k. [])
              (record { per_sample_bytes = 3; count = 2 })
              six_bytes
              two_pixels
              refl
              refl
              refl
              (omega arith)
              (omega arith)
              2
              1
              s)
            (api_frame tenths s asked 1))
api_frame-IsSent_example =
    api_frame-IsSent tenths (λ is. is) (λ k. []) (record { per_sample_bytes = 3; count = 2 })
      six_bytes two_pixels refl refl refl (omega arith) (omega arith) 2 1 (omega arith)
      (omega arith)

-- What the server reads of a run over that set: a dump of two records and no kit.
abbrev pixel_files : Files ℕ
pixel_files = record {
  models = some ("tiled_yolov2_voc" ∷ []);
  sides =
      none
      ∷ some (record {
        base = "pixels";
        set_name = some "pixels";
        model = some "tiled_yolov2_voc";
        count = some 2;
        input_shape = some (1 ∷ 1 ∷ 3 ∷ []);
        has_ground_truth = false;
        source_npz = none;
        random = false;
      })
      ∷ [];
  dump = λ name. some (record_line second_record ∷ blank ∷ record_line first_record ∷ []);
  bin = λ name. some six_bytes;
  kit = λ source. none;
  class_names = λ model. return ("dog" ∷ []);
}

abbrev empty_state : State ℕ
empty_state = record { records = []; kit = none; frames = none; class_names = []; dataset = none }

abbrev some_run : Dataset → ℕ → Option ℕ → Ran (Result ℕ)
some_run dataset count gate =
    exited 0 (none ∷ some (record { dump = some "pixels_1.jsonl"; post_thresh = none }) ∷ [])

abbrev some_request : Request ℕ
some_request = record { dataset = some "pixels"; count = none; post_thresh = none }

abbrev no_score : TestKit ℕ → Records ℕ → ℕ → ℕ → Outcome (Accuracy ℕ)
no_score kit records max_boxes gate = raise key_error

api_run-Answers_example :
    Answers tenths no_score pixel_files empty_state
      (api_run tenths no_score pixel_files some_run empty_state some_request)
api_run-Answers_example =
    api_run-Answers tenths no_score pixel_files some_run empty_state some_request

ran :
    (api_run tenths no_score pixel_files some_run empty_state some_request).0.dataset
    ≡ some "pixels"
unfolding api_run
ran = refl
