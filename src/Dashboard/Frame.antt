-- ===== src/Dashboard/Frame.antt =====
-- A frame of the last run: `api_frame` of src/apps/image-shard-inference/dashboard/app.py.
use Prim.Native.String.{String}
use symphony_akida.Prelude.{ℕ, Bool, ◌&&◌, List, [], Option, none, some, get_elem?, if◌then◌else◌}
use symphony_akida.Prelude.Outcome.{Outcome, return, ◌>>=◌, or_raise, index_error}
use symphony_akida.Prelude.Dict.{lookup, nat_eq}
use symphony_akida.Wire.Stream.{Bytes}
use symphony_akida.Merge.Boxes.{Floats, Box}
use symphony_akida.Kit.{TestKit, annotations}
use symphony_akida.Evaluation.{Record, Records}
use symphony_akida.Dashboard.{Reply, given_or, ok, refused}

-- `STATE`: what the frames of the last run are drawn from.
pub record State (F : Type 0) : Type 0 where
  pub records : Records F
  pub kit : Option (TestKit F)
  pub frames : Option (List Bytes)
  pub class_names : List String
  pub dataset : Option String

-- What `api_frame` draws.
pub record Drawing (F : Type 0) : Type 0 where
  pub frame : Bytes
  pub boxes : List (Box F)
  pub truth : Option (List (Box F) × List ℕ)
  pub raw_shape : Option (ℕ × ℕ)

abbrev pub boxes_at : {F : Type 0} → Option (Record F) → List (Box F)
boxes_at none = []
boxes_at (some r) = r.boxes

abbrev pub raw_shape_of : {F : Type 0} → Option (TestKit F) → ℕ → Outcome (Option (ℕ × ℕ))
raw_shape_of none sample = return none
raw_shape_of (some kit) sample =
    or_raise (get_elem? kit.raw_shapes sample) index_error >>= λ shape. return (some shape)

-- The ground truth is drawn behind where it is asked for and the kit has one.
abbrev pub truth_of :
    {F : Type 0}
    → Floats F
    → Bool
    → Option (TestKit F)
    → ℕ
    → Outcome (Option (List (Box F) × List ℕ))
truth_of f asked none sample = return none
truth_of f asked (some kit) sample =
    if asked && kit.has_ground_truth
    then (annotations f kit sample >>= λ truth. return (some truth))
    else return none

abbrev pub draw_frame :
    {F : Type 0} → Floats F → State F → Bool → ℕ → Option Bytes → Outcome (Reply (Drawing F))
draw_frame f s asked sample none = return (refused 404)
draw_frame f s asked sample (some frame) = truth_of f asked s.kit sample >>= λ truth.
    raw_shape_of s.kit sample >>= λ raw_shape. return (
      ok (record {
        frame = frame;
        boxes = boxes_at (lookup sample s.records);
        truth = truth;
        raw_shape = raw_shape;
      }))

-- `api_frame`: the arguments of `render`.
unfoldable pub api_frame :
    {F : Type 0} → Floats F → State F → Bool → ℕ → Outcome (Reply (Drawing F))
unfolding lookup annotations
api_frame f s asked sample = draw_frame f s asked sample (get_elem? (given_or s.frames []) sample)
