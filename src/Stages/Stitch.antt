-- ===== src/Stages/Stitch.antt =====
-- The stitch stage: stitch_worker.py, `Stitcher`.
use Prim.Native.String.{String}
use symphony_akida.Prelude.{
  ℕ, ◌+◌, List, [], ◌∷◌, Bool, Option, none, some, map, length, get_elem?, get_or, range, take,
  if◌then◌else◌,
}
use symphony_akida.Prelude.Outcome.{
  Outcome, return, raise, ◌>>=◌, or_raise, type_error, file_not_found, index_error,
}
use symphony_akida.Prelude.Dict.{lookup, insert, string_eq}
use symphony_akida.Tiles.{Tile, make_tile_layout}
use symphony_akida.Merge.Boxes.{Floats, Box}
use symphony_akida.Merge.Suppress.{Detections, Sorting}
use symphony_akida.Merge.Whole.{TileEntry, merge_tile_detections}
use symphony_akida.Stages.Bus.{Bus, ShardMeta, Row}

pub record StitchRequest (F : Type 0) : Type 0 where
  pub image_id : String
  pub model : String
  pub post_thresh : Option F
  pub max_boxes : Option ℕ

pub record StitchReply (F : Type 0) : Type 0 where
  pub boxes : List (Box F)
  pub scores : List F
  pub labels : List ℕ
  pub truncated : List Bool
  pub class_hist : List (String × ℕ)

pub record Stitcher (F : Type 0) : Type 0 where
  pub cache : List (String × (ShardMeta F × List Tile))

-- A loaded file as an entry of the merge: its columns, by row.
abbrev pub row_of : {F : Type 0} → Floats F → List (Row F) → ℕ → Row F
row_of {F} f rows k =
    let blank : Box F = record {
      x_low = f.zero_f;
      y_low = f.zero_f;
      x_high = f.zero_f;
      y_high = f.zero_f;
    } in
    get_or rows k (record { box = blank; score = f.zero_f; label = 0; classes = [] })

unfoldable pub unpack : {F : Type 0} → Floats F → ℕ → List (Row F) → TileEntry F
unpack {F} f num_classes rows = record {
  num = length rows;
  boxes = λ k. (row_of f rows k).box;
  scores = λ k. (row_of f rows k).score;
  labels = λ k. (row_of f rows k).label;
  classes = some (λ k. take num_classes (row_of f rows k).classes);
}

abbrev pub given_or : {A : Type 0} → Option A → A → A
given_or none a = a
given_or (some b) a = b

-- `request.get("max_boxes", meta["max_boxes"])`
abbrev pub most_boxes : Option ℕ → Option ℕ → Option ℕ
most_boxes none limit = limit
most_boxes (some n) limit = some n

abbrev pub or_zero : Option ℕ → ℕ
or_zero none = 0
or_zero (some n) = n

-- The loop over the labels; `names[label]` raises where there is no such name.
abbrev pub count_label : Option String → List (String × ℕ) → Outcome (List (String × ℕ))
count_label none histogram = raise index_error
count_label (some name) histogram =
    return (insert name (or_zero (lookup name histogram) + 1) histogram)

unfoldable pub histogram_of : List String → List ℕ → List (String × ℕ) → Outcome (List (String × ℕ))
unfolding lookup insert
histogram_of names [] histogram = return histogram
histogram_of names (label ∷ labels) histogram =
    count_label (get_elem? names label) histogram >>= λ next. histogram_of names labels next

module _ {F : Type 0} (f : Floats F) (np : Sorting F) where
  -- The indices whose penalised score passes the gate.
  abbrev pub passing : F → (ℕ → F) → List ℕ → List ℕ
  passing post_thresh scores [] = []
  passing post_thresh scores (k ∷ ks) =
      let rest = passing post_thresh scores ks in
      if f.le post_thresh (scores k) then k ∷ rest else rest

  -- The reply from the merged detections; indexing no array at all raises.
  abbrev pub gated : ShardMeta F → F → Detections F → Option (ℕ → Bool) → Outcome (StitchReply F)
  gated meta post_thresh merged none = raise type_error
  gated meta post_thresh merged (some truncated) =
      let keep = passing post_thresh merged.scores (range merged.num) in
      let labels = map merged.labels keep in
      do
        histogram ← histogram_of meta.class_names labels []
        return (record {
          boxes = map merged.boxes keep;
          scores = map merged.scores keep;
          labels = labels;
          truncated = map truncated keep;
          class_hist = histogram;
        })

  unfoldable pub merge_gated :
      ShardMeta F → List Tile → Option ℕ → F → List (TileEntry F) → Outcome (StitchReply F)
  unfolding merge_tile_detections histogram_of
  merge_gated meta tiles max_boxes post_thresh per_tile = do
    merged ←
        merge_tile_detections f np meta.frame_size (record meta.merge { max_boxes = max_boxes })
          per_tile tiles
    gated meta post_thresh merged merged.truncated

  -- The loop over the tiles; `np.load` of a file that is not there raises.
  unfoldable pub load_dets :
      ShardMeta F → (ℕ → Option (List (Row F))) → List ℕ → Outcome (List (TileEntry F))
  unfolding unpack
  load_dets meta dets [] = return []
  load_dets meta dets (k ∷ ks) = do
    rows ← or_raise (dets k) file_not_found
    entries ← load_dets meta dets ks
    return (unpack f meta.arguments.num_classes rows ∷ entries)

  unfoldable pub stitch_from :
      Bus F → StitchRequest F → ShardMeta F → List Tile → Outcome (StitchReply F)
  unfolding load_dets merge_gated
  stitch_from bus request meta tiles = do
    per_tile ← load_dets meta (bus.dets request.image_id) (range (length tiles))
    merge_gated meta tiles (most_boxes request.max_boxes meta.max_boxes)
        (given_or request.post_thresh meta.post_merge_thresh) per_tile

  module _ (read_meta : String → Outcome (ShardMeta F)) where
    abbrev pub make_config : String → Outcome (ShardMeta F × List Tile)
    make_config model = do
      meta ← read_meta model
      tiles ← make_tile_layout meta.tile_layout meta.frame_size meta.input_size
      return (meta, tiles)

    abbrev pub config_or :
        String
        → Option (ShardMeta F × List Tile)
        → Stitcher F
        → Outcome (Stitcher F × (ShardMeta F × List Tile))
    config_or model (some found) s = return (s, found)
    config_or model none s = do
      made ← make_config model
      return (record s { cache = insert model made s.cache }, made)

    -- `Stitcher.config`
    unfoldable pub config : String → Stitcher F → Outcome (Stitcher F × (ShardMeta F × List Tile))
    unfolding lookup insert
    config model s = config_or model (lookup model s.cache) s

    abbrev pub with_config :
        Bus F
        → StitchRequest F
        → Stitcher F
        → Outcome (Stitcher F × (ShardMeta F × List Tile))
        → Stitcher F × Outcome (StitchReply F)
    with_config bus request s (raise e) = (s, raise e)
    with_config bus request s (return (s', (meta, tiles))) =
        (s', stitch_from bus request meta tiles)

    -- `Stitcher.__call__`; the files are only read.
    unfoldable pub stitch :
        Bus F → Stitcher F → StitchRequest F → Stitcher F × Outcome (StitchReply F)
    unfolding config stitch_from
    stitch bus s request = with_config bus request s (config request.model s)
