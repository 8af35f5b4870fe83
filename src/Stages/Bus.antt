-- ===== src/Stages/Bus.antt =====
-- The shared pipeline directory: the files seg<k>.bin and det<k>.npy of an image id, and the bytes
-- of an array, as segment_worker.py and inference_worker.py write and read them.
use Prim.Native.String.{String}
use text.Mathlib.Text.{◌==◌ as str_eq}
use symphony_akida.Prelude.{
  ℕ, ◌+◌, ◌*◌, ◌/◌, ◌%◌, ◌&&◌, List, Option, some, map, ◌==◌, length, get_or, range, if◌then◌else◌,
}
use symphony_akida.Prelude.Outcome.{Outcome, return, raise, value_error}
use symphony_akida.Tiles.{Image}
use symphony_akida.Merge.Boxes.{Box}
use symphony_akida.Merge.Whole.{Settings}
use symphony_akida.Decode.{Decoded, Arguments}
use symphony_akida.Wire.Stream.{Bytes}

-- A row of det<k>.npy: xyxy, score, label, class scores. The label goes through a float32, which
-- keeps every class number below 2 ^ 24.
pub record Row (F : Type 0) : Type 0 where
  pub box : Box F
  pub score : F
  pub label : ℕ
  pub classes : List F

-- The files, by image id and tile.
pub record Bus (F : Type 0) : Type 0 where
  pub segs : String → ℕ → Option Bytes
  pub dets : String → ℕ → Option (List (Row F))

-- The keys of a `_meta.json` that the stages read; `merge` holds the merge's keyword arguments.
pub record ShardMeta (F : Type 0) : Type 0 where
  pub tile_layout : String
  pub frame_size : ℕ
  pub input_size : ℕ
  pub arguments : Arguments F
  pub merge : Settings F
  pub max_boxes : Option ℕ
  pub post_merge_thresh : F
  pub class_names : List String

abbrev pub put : {A : Type 0} → String → ℕ → A → (String → ℕ → Option A) → String → ℕ → Option A
put image tile a files image' tile' =
    if str_eq image image' && tile == tile' then some a else files image' tile'

abbrev pub write_seg : {F : Type 0} → String → ℕ → Bytes → Bus F → Bus F
write_seg image tile bytes bus = record bus { segs = put image tile bytes bus.segs }

abbrev pub write_det : {F : Type 0} → String → ℕ → List (Row F) → Bus F → Bus F
write_det image tile rows bus = record bus { dets = put image tile rows bus.dets }

-- `np.ascontiguousarray(crop).tobytes()` of an image of three channels.
unfoldable pub tobytes : Image → Bytes
tobytes image =
    map (λ i. image.pixel (i / 3 / image.width) (i / 3 % image.width) (i % 3))
      (range (image.height * image.width * 3))

-- `np.frombuffer(payload, dtype=np.uint8).reshape(size, size, 3)`
unfoldable pub frombuffer : ℕ → Bytes → Outcome Image
frombuffer size bytes =
    if length bytes == size * size * 3
    then return (record {
      height = size;
      width = size;
      pixel = λ row col channel. get_or bytes ((row * size + col) * 3 + channel) 0;
    })
    else raise value_error

-- `np.column_stack([boxes, scores, labels, classes])`
unfoldable pub pack : {F : Type 0} → ℕ → Decoded F → List (Row F)
pack num_classes d =
    map
      (λ i. record {
        box = d.boxes i;
        score = d.scores i;
        label = d.labels i;
        classes = map (d.classes i) (range num_classes);
      })
      (range d.num)
