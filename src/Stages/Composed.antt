-- ===== src/Stages/Composed.antt =====
-- The three stages of the shard pipeline composed: what the stitch stage answers for a frame is
-- the merge of what the model says on the frame's crops.
use Prim.Native.String.{String}
use symphony_akida.Prelude.{
  ℕ, zero, suc, ◌+◌, ◌<◌, ◌≡◌, refl, sym, ◌∙◌, subst, ap, inl, inr, List, [], ◌∷◌, Option, some,
  map, arith, length, get_elem?, range, All, Any, Option-cases,
}
use symphony_akida.Prelude.Outcome.{Outcome, return, ◌>>=◌, ensured}
use symphony_akida.Prelude.Dict.{lookup, insert, string_eq}
use symphony_akida.Tiles.{Tile, Image, make_tile_layout, split_frame}
use symphony_akida.Tiles.Split.{split_frame-Ensures}
use symphony_akida.Merge.Boxes.{Floats}
use symphony_akida.Merge.Suppress.{Sorting}
use symphony_akida.Decode.{Maths, Output}
use symphony_akida.Chip.{Runtime}
use symphony_akida.Wire.Stream.{Bytes}
use symphony_akida.Stages.Bus.{Bus, ShardMeta, pack, tobytes, frombuffer}
use symphony_akida.Stages.Segment.{Layout, Segmenter, segment, write_segs, crops_of, make_layout}
use symphony_akida.Stages.Written.{IsHonest, write_segs_at, segment_writes}
use symphony_akida.Stages.Infer.{Numpy, decode}
use symphony_akida.Stages.Stitch.{
  StitchRequest, Stitcher, stitch, stitch_from, config, make_config, load_dets, merge_gated,
  with_config, most_boxes, given_or,
}
use symphony_akida.Stages.Frame.{
  Visit, visits, Outputs, Outputs-at, IsOurs, IsKnown, visits_det, entry_of, load_dets-map, Holds,
}

-- What is cached of a model is what would be made of it now.
abbrev pub IsHonestConfig :
    {F : Type 0}
    → Floats F
    → Sorting F
    → (String → Outcome (ShardMeta F))
    → List (String × (ShardMeta F × List Tile))
    → Type 0
IsHonestConfig {F} f sorting read_meta cache =
    (model : String) (found : ShardMeta F × List Tile)
    → lookup model cache ≡ some found
    → make_config f sorting read_meta model ≡ return found

config_cached :
    {F : Type 0} (f : Floats F) (sorting : Sorting F) (read_meta : String → Outcome (ShardMeta F))
    (model : String) (made : ShardMeta F × List Tile) (s : Stitcher F)
    → IsHonestConfig f sorting read_meta s.cache
    → make_config f sorting read_meta model ≡ return made
    → (s' : Stitcher F) × (config f sorting read_meta model s ≡ return (s', made))
unfolding config
config_cached f sorting read_meta model made s honest makes =
    elim (Option-cases (lookup model s.cache)) [
      | inl absent ↦ (record s { cache = insert model made s.cache }, rw (absent, makes) refl)
      | inr (found, present) ↦
          let makes' = honest model found present in
          let same : found ≡ made = cc in (s, rw present (ap (λ l. return (s, l)) same))
    ]

length-Outputs :
    {M F : Type 0} (f : Floats F) (maths : Maths F) (np : Numpy F) (akida : Runtime M)
    (predict : M → List ℕ → Outcome (Output F)) (read_meta : String → Outcome (ShardMeta F)) (m : M)
    (size : ℕ) (crops : List Image) (outs : List (Output F))
    → Outputs f maths np akida predict read_meta m size crops outs
    → length outs ≡ length crops
length-Outputs f maths np akida predict read_meta m size [] [] h = refl
length-Outputs f maths np akida predict read_meta m size [] (out ∷ outs) h = absurd h
length-Outputs f maths np akida predict read_meta m size (crop ∷ crops) [] h = absurd h
length-Outputs f maths np akida predict read_meta m size (crop ∷ crops) (out ∷ outs) h =
    ap suc (length-Outputs f maths np akida predict read_meta m size crops outs h.2)

get_elem?-lt : {A : Type 0} (xs : List A) (k : ℕ) (a : A) → get_elem? xs k ≡ some a → k < length xs
get_elem?-lt [] k a e = absurd cc
get_elem?-lt (x ∷ xs) zero a e = omega arith
get_elem?-lt (x ∷ xs) (suc k) a e = omega (arith, get_elem?-lt xs k a e)

module _ {M F : Type 0} (f : Floats F) (maths : Maths F) (np : Numpy F) (sorting : Sorting F)
    (akida : Runtime M) (predict : M → List ℕ → Outcome (Output F))
    (read_meta : String → Outcome (ShardMeta F)) where
  module _ (image model : String) (m : M) (meta : ShardMeta F) (tiles : List Tile) (size : ℕ)
      (stem : akida.stem_of model ≡ model) (reads : read_meta model ≡ return meta)
      (lays : make_tile_layout meta.tile_layout meta.frame_size meta.input_size ≡ return tiles)
      (payload : Bytes) (frame : Image) (crops : List Image) (outs : List (Output F))
      (holds : frombuffer meta.frame_size payload ≡ return frame)
      (cuts : split_frame frame tiles meta.input_size ≡ return crops)
      (runs : Outputs f maths np akida predict read_meta m size crops outs) where
    abbrev found_layout : Layout
    found_layout = record {
      tiles = tiles;
      frame_size = meta.frame_size;
      input_size = meta.input_size;
    }

    makes_layout : make_layout read_meta model ≡ return found_layout
    makes_layout = rw (reads, lays) refl

    makes_config : make_config f sorting read_meta model ≡ return (meta, tiles)
    makes_config = rw (reads, lays) refl

    makes_crops : crops_of read_meta found_layout (some payload) ≡ return crops
    makes_crops = rw (holds, cuts) refl

    outs-length : length outs ≡ length tiles
    outs-length =
        length-Outputs f maths np akida predict read_meta m size crops outs runs
        ∙ ensured (λ cs. length cs ≡ length tiles) (split_frame frame tiles meta.input_size) crops
            (split_frame-Ensures frame meta.input_size tiles) cuts

    module _ (s : Segmenter F) (honest : IsHonest read_meta s.cache) (vs : List (Visit M F))
        (known : All
          (IsKnown f maths np akida predict read_meta image model m meta size stem reads)
          vs)
        (all : (k : ℕ)
          → k < length tiles
          → Any
              (λ v.
                IsOurs f maths np akida predict read_meta image model m meta size stem reads v
                × (v.request.tile ≡ k))
              vs) where
      abbrev bus_after : Bus F
      bus_after =
          visits f maths np akida predict read_meta vs
            (segment read_meta s (record { image_id = image; model = some model })
              (some payload)).0.bus

      segments :
          let done =
            segment read_meta s (record { image_id = image; model = some model }) (some payload) in
          (done.1
            ≡ return
                (record { n_tiles = length tiles; tile_names = map (λ (t : Tile). t.name) tiles }))
          × (done.0.bus ≡ write_segs read_meta image 0 crops s.bus)
      segments =
          segment_writes read_meta image model found_layout payload crops s honest makes_layout
            makes_crops

      files_hold :
          Holds f maths np akida predict read_meta sorting meta (bus_after.dets image) 0 outs
      files_hold k out e =
          let (crop, at, fits, run) =
            Outputs-at f maths np akida predict read_meta m size crops outs k out runs e in
          let start : 0 + k ≡ k = omega arith in
          let below : k < length tiles = omega (arith, get_elem?-lt outs k out e, outs-length) in
          let bus =
            (segment read_meta s (record { image_id = image; model = some model })
              (some payload)).0.bus in
          let file =
            subst
              (λ j. (write_segs read_meta image 0 crops s.bus).segs image j ≡ some (tobytes crop))
              start (write_segs_at read_meta image 0 crops s.bus k crop at) in
          let there =
            visits_det f maths np akida predict read_meta image model m meta size stem reads k
              (tobytes crop) out fits run vs bus (ap (λ b. b.segs image k) segments.1 ∙ file) known
              (inr (all k below)) in
          subst
            (λ j.
              bus_after.dets image j
              ≡ some (
                  pack meta.arguments.num_classes
                    (decode f maths np akida predict read_meta meta out)))
            (sym start) there

      abbrev request : Option F → Option ℕ → StitchRequest F
      request post_thresh max_boxes = record {
        image_id = image;
        model = model;
        post_thresh = post_thresh;
        max_boxes = max_boxes;
      }

      loads :
          load_dets f sorting meta (bus_after.dets image) (range (length tiles))
          ≡ return (map (entry_of f maths np akida predict read_meta meta) outs)
      loads =
          ap (λ n. load_dets f sorting meta (bus_after.dets image) (range n)) (sym outs-length)
          ∙ load_dets-map f maths np akida predict read_meta sorting meta (bus_after.dets image)
              outs 0 files_hold

      stitches_from :
          (post_thresh : Option F) (max_boxes : Option ℕ)
          → stitch_from f sorting bus_after (request post_thresh max_boxes) meta tiles
            ≡ merge_gated f sorting meta tiles
                (most_boxes max_boxes meta.max_boxes)
                (given_or post_thresh meta.post_merge_thresh)
                (map (entry_of f maths np akida predict read_meta meta) outs)
      unfolding stitch_from
      stitches_from post_thresh max_boxes =
          ap
            (λ per_tile.
              per_tile
              >>= merge_gated f sorting meta tiles (most_boxes max_boxes meta.max_boxes)
                  (given_or post_thresh meta.post_merge_thresh))
            loads

      -- For a frame that the segment stage can cut, and a model that has an output on each crop,
      -- each crop being of the model's size, where the workers' caches hold what the model's
      -- files say: the segment stage answers with the number of tiles; and after any sequence of
      -- inference calls, on any nodes and in any order, in which each tile of the frame is asked
      -- for at least once, each time on a node that has the model mapped, and the other calls
      -- are for other frames, the stitch stage answers the merge of the detections decoded from
      -- the model's outputs on the crops.
      pub stages_composed :
          (st : Stitcher F)
          → IsHonestConfig f sorting read_meta st.cache
          → (post_thresh : Option F) (max_boxes : Option ℕ)
          → ((segment read_meta s
                (record { image_id = image; model = some model })
                (some payload)).1
              ≡ return (record {
                n_tiles = length tiles;
                tile_names = map (λ (t : Tile). t.name) tiles;
              }))
            × ((stitch f sorting read_meta bus_after st (request post_thresh max_boxes)).1
                ≡ merge_gated f sorting meta tiles
                    (most_boxes max_boxes meta.max_boxes)
                    (given_or post_thresh meta.post_merge_thresh)
                    (map (entry_of f maths np akida predict read_meta meta) outs))
      unfolding stitch
      stages_composed st honest' post_thresh max_boxes =
          let (st', configured) =
            config_cached f sorting read_meta model (meta, tiles) st honest' makes_config in
          (
            segments.0,
            ap
                  (λ found.
                    (with_config f sorting read_meta bus_after (request post_thresh max_boxes) st
                      found).1)
                  configured
                ∙ stitches_from post_thresh max_boxes,
          )
