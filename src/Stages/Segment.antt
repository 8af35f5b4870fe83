-- ===== src/Stages/Segment.antt =====
-- The segment stage: segment_worker.py, `Segmenter`.
use Prim.Native.String.{String}
use symphony_akida.Prelude.{ℕ, ◌+◌, List, [], ◌∷◌, Option, none, some, length, map}
use symphony_akida.Prelude.Outcome.{Outcome, return, raise, ◌>>=◌, type_error}
use symphony_akida.Prelude.Dict.{lookup, insert, string_eq}
use symphony_akida.Tiles.{Tile, Image, make_tile_layout, split_frame}
use symphony_akida.Wire.Stream.{Bytes}
use symphony_akida.Stages.Bus.{Bus, ShardMeta, write_seg, tobytes, frombuffer}

-- What `layout` caches of a model.
pub record Layout : Type 0 where
  pub tiles : List Tile
  pub frame_size : ℕ
  pub input_size : ℕ

pub record SegRequest : Type 0 where
  pub image_id : String
  pub model : Option String

pub record SegReply : Type 0 where
  pub n_tiles : ℕ
  pub tile_names : List String

-- The worker's cache, and the directory that it shares with the other stages.
pub record Segmenter (F : Type 0) : Type 0 where
  pub cache : List (String × Layout)
  pub bus : Bus F

module _ {F : Type 0} (read_meta : String → Outcome (ShardMeta F)) where
  abbrev pub make_layout : String → Outcome Layout
  make_layout model = do
    meta ← read_meta model
    tiles ← make_tile_layout meta.tile_layout meta.frame_size meta.input_size
    return (record { tiles = tiles; frame_size = meta.frame_size; input_size = meta.input_size })

  abbrev pub layout_or :
      String → Option Layout → List (String × Layout) → Outcome (List (String × Layout) × Layout)
  layout_or model (some found) cache = return (cache, found)
  layout_or model none cache = do made ← make_layout model; return (insert model made cache, made)

  -- `Segmenter.layout`: a layout is made once for a model. Without a model the file's name raises.
  unfoldable pub layout :
      Option String → List (String × Layout) → Outcome (List (String × Layout) × Layout)
  unfolding lookup insert
  layout none cache = raise type_error
  layout (some model) cache = layout_or model (lookup model cache) cache

  -- The loop that writes the crops, from tile `index` on.
  abbrev pub write_segs : String → ℕ → List Image → Bus F → Bus F
  write_segs image_id index [] bus = bus
  write_segs image_id index (crop ∷ crops) bus =
      write_segs image_id (index + 1) crops (write_seg image_id index (tobytes crop) bus)

  abbrev pub written :
      String → Layout → Segmenter F → Outcome (List Image) → Segmenter F × Outcome SegReply
  written image_id found s (raise e) = (s, raise e)
  written image_id found s (return crops) = (
    record s { bus = write_segs image_id 0 crops s.bus },
    return (record {
      n_tiles = length found.tiles;
      tile_names = map (λ (t : Tile). t.name) found.tiles;
    }),
  )

  -- The frame of the payload, cut; without a payload `np.frombuffer` raises.
  abbrev pub crops_of : Layout → Option Bytes → Outcome (List Image)
  crops_of found none = raise type_error
  crops_of found (some payload) = frombuffer found.frame_size payload >>= λ frame.
      split_frame frame found.tiles found.input_size

  abbrev pub with_layout :
      String
      → Option Bytes
      → Segmenter F
      → Outcome (List (String × Layout) × Layout)
      → Segmenter F × Outcome SegReply
  with_layout image_id payload s (raise e) = (s, raise e)
  with_layout image_id payload s (return (cache, found)) =
      written image_id found (record s { cache = cache }) (crops_of found payload)

  -- `Segmenter.__call__`
  unfoldable pub segment : Segmenter F → SegRequest → Option Bytes → Segmenter F × Outcome SegReply
  unfolding layout tobytes frombuffer split_frame
  segment s request payload = with_layout request.image_id payload s (layout request.model s.cache)
