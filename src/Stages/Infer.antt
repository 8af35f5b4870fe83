-- ===== src/Stages/Infer.antt =====
-- The inference stage: inference_worker.py, `TileDetector`.
use Prim.Native.String.{String}
use text.Mathlib.Text.{◌==◌ as str_eq}
use symphony_akida.Prelude.{ℕ, List, Bool, false, Option, none, some, if◌then◌else◌}
use symphony_akida.Prelude.Outcome.{
  Outcome, return, raise, ◌>>=◌, or_raise, type_error, file_not_found,
}
use symphony_akida.Prelude.Dict.{lookup, insert, string_eq}
use symphony_akida.Merge.Boxes.{Floats}
use symphony_akida.Decode.{Maths, Output, Decoded, decode_tile}
use symphony_akida.Chip.{Chip, Runtime, Info, load}
use symphony_akida.Chip.PredictTile.{predict_tile}
use symphony_akida.Stages.Bus.{Bus, ShardMeta, write_det, pack}

pub record InfRequest : Type 0 where
  pub image_id : String
  pub tile : ℕ
  pub model : Option String

-- The reply, but for the times and for what is constant on the node.
pub record InfReply : Type 0 where
  pub tile : ℕ
  pub n_boxes : ℕ
  pub model : Option String

pub record TileDetector (M F : Type 0) : Type 0 where
  pub chip : Chip M
  pub meta_cache : List (String × ShardMeta F)
  pub bus : Bus F

-- `model and _stem(model) != self.chip.stem`
abbrev pub is_stem : String → Option String → Bool
is_stem stem none = false
is_stem stem (some own) = str_eq stem own

-- What the decoding takes from numpy: `np.argsort(...)[::-1]` and the test `== 0`.
pub record Numpy (F : Type 0) : Type 0 where
  pub argsort_down : ℕ → (ℕ → F) → List ℕ
  pub is_zero : F → Bool

module _ {M F : Type 0} (f : Floats F) (maths : Maths F) (np : Numpy F) (akida : Runtime M)
    (predict : M → List ℕ → Outcome (Output F)) (read_meta : String → Outcome (ShardMeta F)) where
  abbrev pub meta_or :
      String
      → Option (ShardMeta F)
      → List (String × ShardMeta F)
      → Outcome (List (String × ShardMeta F) × ShardMeta F)
  meta_or model (some meta) cache = return (cache, meta)
  meta_or model none cache = do meta ← read_meta model; return (insert model meta cache, meta)

  -- `TileDetector.meta` of the chip's stem; without a model on the chip the name of the file raises.
  unfoldable pub meta_for :
      Option String
      → List (String × ShardMeta F)
      → Outcome (List (String × ShardMeta F) × ShardMeta F)
  unfolding lookup insert
  meta_for none cache = raise type_error
  meta_for (some model) cache = meta_or model (lookup model cache) cache

  -- The boxes of one output, as the rows of a file.
  unfoldable pub decode : ShardMeta F → Output F → Decoded F
  unfolding decode_tile
  decode meta out = decode_tile f maths meta.arguments out np.argsort_down np.is_zero

  abbrev pub saved :
      String
      → ℕ
      → ShardMeta F
      → TileDetector M F
      → Outcome (Output F × Option String)
      → TileDetector M F × Outcome InfReply
  saved image_id tile meta s (raise e) = (s, raise e)
  saved image_id tile meta s (return (out, stem)) =
      let d = decode meta out in
      (
        record s { bus = write_det image_id tile (pack meta.arguments.num_classes d) s.bus },
        return (record { tile = tile; n_boxes = d.num; model = stem }),
      )

  -- The tile's file, and the chip's output on it.
  abbrev pub output_of : String → ℕ → TileDetector M F → Outcome (Output F × Option String)
  output_of image_id tile s = or_raise (s.bus.segs image_id tile) file_not_found >>= λ crop.
      predict_tile predict s.chip crop

  abbrev pub with_meta :
      String
      → ℕ
      → TileDetector M F
      → Outcome (List (String × ShardMeta F) × ShardMeta F)
      → TileDetector M F × Outcome InfReply
  with_meta image_id tile s (raise e) = (s, raise e)
  with_meta image_id tile s (return (cache, meta)) =
      saved image_id tile meta (record s { meta_cache = cache }) (output_of image_id tile s)

  unfoldable pub infer_mapped : String → ℕ → TileDetector M F → TileDetector M F × Outcome InfReply
  unfolding meta_for decode pack predict_tile
  infer_mapped image_id tile s = with_meta image_id tile s (meta_for s.chip.stem s.meta_cache)

  abbrev pub after_load :
      String → ℕ → TileDetector M F → Chip M × Outcome Info → TileDetector M F × Outcome InfReply
  after_load image_id tile s (c, return info) = infer_mapped image_id tile (record s { chip = c })
  after_load image_id tile s (c, raise e) = (record s { chip = c }, raise e)

  -- The chip's model is changed where the request names another.
  unfoldable pub map_then :
      String → ℕ → TileDetector M F → Option String → TileDetector M F × Outcome InfReply
  unfolding infer_mapped load
  map_then image_id tile s none = infer_mapped image_id tile s
  map_then image_id tile s (some model) =
      if str_eq model ""
      then infer_mapped image_id tile s
      else if is_stem (akida.stem_of model) s.chip.stem
      then infer_mapped image_id tile s
      else after_load image_id tile s (load akida model false s.chip)

  -- `TileDetector.__call__`
  unfoldable pub infer : TileDetector M F → InfRequest → TileDetector M F × Outcome InfReply
  unfolding map_then
  infer s request = map_then request.image_id request.tile s request.model
