-- ===== src/Examples/Evaluation.antt =====
-- The theorems on the scoring of runs, at small inputs.
use Prim.Native.String.{String}
use text.Mathlib.Text.{◌==◌ as str_eq}
use symphony_akida.Prelude.{
  ℕ, zero, suc, ◌+◌, ◌*◌, ◌/◌, ◌≡◌, ◌<◌, refl, true, false, Bool, List, [], ◌∷◌, some, All, arith,
  length, get_or, range, range_from-All,
}
use symphony_akida.Prelude.Outcome.{return, Returns}
use symphony_akida.Merge.Boxes.{Box}
use symphony_akida.Kit.{TestKit, ann, annotations, slice_of}
use symphony_akida.Kit.Slices.{gathered}
use symphony_akida.Evaluation.{Record, Records, collect, from_dump, report_on}
use symphony_akida.Evaluation.Collect.{AreCapped, IsKnown, collect-Returns}
use symphony_akida.Evaluation.Sources.{Prepared, find_source_npz}
use symphony_akida.Dashboard.Accuracy.{score, AreSame, score-report_on}
use symphony_akida.Examples.Sorting.{tenths, sort_by}
use symphony_akida.Prelude.Dict.{lookup, nat_eq}
use symphony_akida.Examples.Fuse.{sort_by-All}
use symphony_akida.Examples.Scores.{argmax_two}

abbrev box_at : ℕ → Box ℕ
box_at n = record { x_low = n; y_low = n; x_high = n + 4; y_high = n + 4 }

-- Two frames, with one annotation and one reference detection each.
abbrev pub two_frames : TestKit ℕ
two_frames = record {
  npz = record {
    arrays = [];
    labels = some ("dog" ∷ "cat" ∷ []);
    raw_shapes = some ((10, 10) ∷ (10, 10) ∷ []);
    max_boxes = some 5;
    offsets = λ prefix. some (0 ∷ 1 ∷ 2 ∷ []);
    boxes = λ prefix. some (box_at 0 ∷ box_at 1 ∷ []);
    box_labels = λ prefix. some (0 ∷ 1 ∷ []);
    ref_scores = some (9 ∷ 4 ∷ []);
    ref_truncated = some (false ∷ true ∷ []);
    map50_target = some 10;
    map75_target = some 10;
    map_target = some 10;
  };
  frames = record { is_uint8 = true; shape = 2 ∷ 1 ∷ []; rows = (1 ∷ []) ∷ (2 ∷ []) ∷ [] };
  count = 2;
  labels = "dog" ∷ "cat" ∷ [];
  raw_shapes = (10, 10) ∷ (10, 10) ∷ [];
  has_ground_truth = true;
  has_reference = true;
}

abbrev start_of : ℕ → ℕ
start_of n = n

gathered_two : gathered tenths two_frames ann 2 ≡ return (box_at 0 ∷ box_at 1 ∷ [], 0 ∷ 1 ∷ [])
unfolding slice_of
gathered_two = refl

abbrev sort_down : List ℕ → List ℕ
sort_down xs = sort_by (λ k. get_or xs k 0) (range (length xs))

sort_down-orders : (xs : List ℕ) → All (λ k. k < length xs) (sort_down xs)
sort_down-orders xs =
    sort_by-All (λ k. get_or xs k 0) (λ k. k < length xs) (range (length xs))
      (range_from-All 0 (length xs) (length xs) (omega arith))

-- A dump that holds the reference, and one that holds a frame twice.
abbrev pub first_record : Record ℕ
first_record = record { sample = 0; boxes = box_at 0 ∷ []; scores = 9 ∷ []; labels = 0 ∷ [] }

abbrev pub second_record : Record ℕ
second_record = record { sample = 1; boxes = box_at 1 ∷ []; scores = 4 ∷ []; labels = 1 ∷ [] }

abbrev pub both_records : Records ℕ
both_records = (1, second_record) ∷ (0, first_record) ∷ []

two-IsKnown :
    All
      (IsKnown tenths sort_down two_frames 1 sort_down-orders (from_dump both_records))
      (0 ∷ 1 ∷ [])
unfolding from_dump lookup annotations slice_of
two-IsKnown = ((omega arith, (refl, refl), refl), ((omega arith, (refl, refl), refl), tt))

collect-Returns_example :
    Returns
      (AreCapped tenths sort_down two_frames 1 sort_down-orders (0 ∷ 1 ∷ []))
      (collect tenths sort_down two_frames 1 (0 ∷ 1 ∷ []) (from_dump both_records))
collect-Returns_example =
    collect-Returns tenths sort_down two_frames 1 sort_down-orders (0 ∷ 1 ∷ [])
      (from_dump both_records) two-IsKnown

-- To no digit of tenths, and else as it is.
abbrev whole_tenths : ℕ → ℕ → ℕ
whole_tenths value zero = value / 10 * 10
whole_tenths value (suc digits) = value

score-report_on_example :
    AreSame tenths argmax_two sort_down 1
      (5 ∷ 5 ∷ 6 ∷ 7 ∷ 8 ∷ 9 ∷ [])
      whole_tenths
      two_frames
      both_records
      5
      (score tenths argmax_two sort_down 1
        (5 ∷ 5 ∷ 6 ∷ 7 ∷ 8 ∷ 9 ∷ [])
        whole_tenths
        two_frames
        both_records
        5
        0)
      (report_on tenths argmax_two sort_down 1
        (5 ∷ 5 ∷ 6 ∷ 7 ∷ 8 ∷ 9 ∷ [])
        whole_tenths
        two_frames
        5
        0
        both_records)
score-report_on_example =
    score-report_on tenths argmax_two sort_down 1 (5 ∷ 5 ∷ 6 ∷ 7 ∷ 8 ∷ 9 ∷ []) whole_tenths
      two_frames both_records 5 0 refl

-- A dump of the set voc, next to sets with other names.
abbrev some_sides : List Prepared
some_sides =
    record {
      has_ground_truth = true;
      source_npz = "full";
      is_file = true;
      set_name = "full";
      count = 9;
    }
    ∷ record {
      has_ground_truth = true;
      source_npz = "voc";
      is_file = true;
      set_name = "voc";
      count = 5;
    }
    ∷ record {
      has_ground_truth = false;
      source_npz = "kws";
      is_file = true;
      set_name = "kws";
      count = 1;
    }
    ∷ []

abbrev named_voc : String → Bool
named_voc name = str_eq name "voc"

found_voc : find_source_npz named_voc 7 some_sides ≡ return "voc"
unfolding find_source_npz
found_voc = refl
