-- ===== src/Stages/Visited.antt =====
-- What the inference stage changes in the pipeline directory: inference_worker.py, `TileDetector`.
use Prim.Native.String.{String}
use text.Mathlib.Text.{◌==◌ as str_eq}
use text.Mathlib.TextEquality.{eq_iff}
use symphony_akida.Prelude.{
  ℕ, ◌≡◌, ◌⊎◌, refl, sym, ◌∙◌, ap, inl, inr, true, false, List, Option, none, some, length, if_both,
  ◌==◌, ==_iff, Option-cases, Bool-cases,
}
use symphony_akida.Prelude.Outcome.{Outcome, return, raise}
use symphony_akida.Prelude.Dict.{lookup, insert, string_eq}
use symphony_akida.Merge.Boxes.{Floats}
use symphony_akida.Decode.{Maths, Output}
use symphony_akida.Chip.{Chip, Runtime, Info, load}
use symphony_akida.Chip.PredictTile.{predict_tile}
use symphony_akida.Wire.Stream.{Bytes}
use symphony_akida.Stages.Bus.{Bus, ShardMeta, put, pack}
use symphony_akida.Stages.Written.{put_same, put_other, put_elsewhere}
use symphony_akida.Stages.Infer.{
  InfRequest, InfReply, TileDetector, Numpy, is_stem, meta_for, decode, saved, output_of, with_meta,
  infer_mapped, after_load, map_then, infer,
}

-- A request for another image, or for another tile.
abbrev pub IsElsewhere : String → ℕ → String → ℕ → Type 0
IsElsewhere image k image' k' = (str_eq image' image ≡ false) ⊎ (k' ≡ k → ⊥)

put_apart :
    {A : Type 0} (image : String) (k : ℕ) (image' : String) (k' : ℕ) (a : A)
    (files : String → ℕ → Option A)
    → IsElsewhere image k image' k'
    → put image' k' a files image k ≡ files image k
put_apart image k image' k' a files (inl other) = put_elsewhere image' k' a files image k other
put_apart image k image' k' a files (inr other) = put_other image' k' a files image k other

-- No segment file changes, and no detections but those of the tile asked for.
abbrev pub Keeps : {F : Type 0} → Bus F → String → ℕ → Bus F → Type 0
Keeps bus image' k' bus' =
    (bus'.segs ≡ bus.segs)
    × ((image : String) (k : ℕ)
        → IsElsewhere image k image' k'
        → bus'.dets image k ≡ bus.dets image k)

module _ {M F : Type 0} (f : Floats F) (maths : Maths F) (np : Numpy F) (akida : Runtime M)
    (predict : M → List ℕ → Outcome (Output F)) (read_meta : String → Outcome (ShardMeta F)) where
  saved-Keeps :
      (image : String) (k : ℕ) (meta : ShardMeta F) (s : TileDetector M F)
      (out : Outcome (Output F × Option String))
      → Keeps s.bus image k (saved f maths np akida predict read_meta image k meta s out).0.bus
  saved-Keeps image k meta s (raise e) = (refl, λ image' k' h. refl)
  saved-Keeps image k meta s (return (out, stem)) =
      (refl, λ image' k' h. put_apart image' k' image k _ s.bus.dets h)

  with_meta-Keeps :
      (image : String) (k : ℕ) (s : TileDetector M F)
      (found : Outcome (List (String × ShardMeta F) × ShardMeta F))
      → Keeps s.bus image k (with_meta f maths np akida predict read_meta image k s found).0.bus
  with_meta-Keeps image k s (raise e) = (refl, λ image' k' h. refl)
  with_meta-Keeps image k s (return (cache, meta)) =
      saved-Keeps image k meta (record s { meta_cache = cache }) _

  infer_mapped-Keeps :
      (image : String) (k : ℕ) (s : TileDetector M F)
      → Keeps s.bus image k (infer_mapped f maths np akida predict read_meta image k s).0.bus
  unfolding infer_mapped
  infer_mapped-Keeps image k s = with_meta-Keeps image k s _

  after_load-Keeps :
      (image : String) (k : ℕ) (s : TileDetector M F) (loaded : Chip M × Outcome Info)
      → Keeps s.bus image k (after_load f maths np akida predict read_meta image k s loaded).0.bus
  after_load-Keeps image k s (c, return info) = infer_mapped-Keeps image k (record s { chip = c })
  after_load-Keeps image k s (c, raise e) = (refl, λ image' k' h. refl)

  map_then-Keeps :
      (image : String) (k : ℕ) (s : TileDetector M F) (model : Option String)
      → Keeps s.bus image k (map_then f maths np akida predict read_meta image k s model).0.bus
  unfolding map_then
  map_then-Keeps image k s none = infer_mapped-Keeps image k s
  map_then-Keeps image k s (some model) =
      let stays = infer_mapped-Keeps image k s in
      let KeepsOut : TileDetector M F × Outcome InfReply → Type 0 =
        λ out. Keeps s.bus image k out.0.bus in
      if_both KeepsOut (str_eq model "") _ _ stays (
        if_both KeepsOut (is_stem (akida.stem_of model) s.chip.stem) _ _ stays
          (after_load-Keeps image k s (load akida model false s.chip)))

  -- Whatever the handler comes to, it changes no segment file, and no detections but those of its
  -- own tile.
  pub infer-Keeps :
      (s : TileDetector M F) (r : InfRequest)
      → Keeps s.bus r.image_id r.tile (infer f maths np akida predict read_meta s r).0.bus
  unfolding infer
  infer-Keeps s r = map_then-Keeps r.image_id r.tile s r.model

  -- What is cached of a model is what its file says.
  abbrev pub IsHonest : List (String × ShardMeta F) → Type 0
  IsHonest cache =
      (model : String) (meta : ShardMeta F)
      → lookup model cache ≡ some meta
      → read_meta model ≡ return meta

  pub meta_cached :
      (model : String) (meta : ShardMeta F) (cache : List (String × ShardMeta F))
      → IsHonest cache
      → read_meta model ≡ return meta
      → (cache' : List (String × ShardMeta F)) × (meta_for f maths np akida predict read_meta
            (some model)
            cache
          ≡ return (cache', meta))
  unfolding meta_for
  meta_cached model meta cache honest reads = elim (Option-cases (lookup model cache)) [
    | inl absent ↦ (insert model meta cache, rw (absent, reads) refl)
    | inr (found, present) ↦
        let reads' = honest model found present in
        let same : found ≡ meta = cc in (cache, rw present (ap (λ l. return (cache, l)) same))
  ]

  -- A worker whose chip has the model mapped, for tiles of `size` bytes.
  pub record IsReady (model : String) (m : M) (size : ℕ) (s : TileDetector M F) : Type 0 where
    pub has_model : s.chip.model ≡ some m
    pub has_stem : s.chip.stem ≡ some model
    pub fits : s.chip.n ≡ size
    pub honest : IsHonest s.meta_cache

  module _ (image model : String) (k : ℕ) (m : M) (meta : ShardMeta F) (bytes : Bytes)
      (out : Output F) (stem : akida.stem_of model ≡ model) (reads : read_meta model ≡ return meta)
      (runs : predict m bytes ≡ return out) where
    abbrev pub tile_request : InfRequest
    tile_request = record { image_id = image; tile = k; model = some model }

    keeps_model :
        (s : TileDetector M F)
        → s.chip.stem ≡ some model
        → infer f maths np akida predict read_meta s tile_request
          ≡ infer_mapped f maths np akida predict read_meta image k s
    unfolding infer map_then
    keeps_model s has_stem =
        let same : str_eq model model ≡ true = (eq_iff model model).1 refl in
        elim (Bool-cases (str_eq model "")) [
          | inl empty ↦ rw empty refl
          | inr named ↦ rw (named, stem, has_stem, same) refl
        ]

    reads_output :
        (s : TileDetector M F)
        → IsReady model m (length bytes) s
        → s.bus.segs image k ≡ some bytes
        → output_of f maths np akida predict read_meta image k s ≡ return (out, some model)
    unfolding predict_tile
    reads_output s ready file =
        let size : (length bytes == s.chip.n) ≡ true =
          (==_iff (length bytes) s.chip.n).1 (sym ready.fits) in
        rw (file, ready.has_model, size, runs, ready.has_stem) refl

    -- A ready worker answers with the number of boxes, and writes the detections decoded from its
    -- chip's output on the tile's file.
    pub infer_writes :
        (s : TileDetector M F)
        → IsReady model m (length bytes) s
        → s.bus.segs image k ≡ some bytes
        → let done = infer f maths np akida predict read_meta s tile_request in
          (done.1
            ≡ return (record {
              tile = k;
              n_boxes = (decode f maths np akida predict read_meta meta out).num;
              model = some model;
            }))
          × (done.0.bus.dets image k
              ≡ some (
                  pack meta.arguments.num_classes
                    (decode f maths np akida predict read_meta meta out)))
    unfolding infer_mapped
    infer_writes s ready file =
        let (cache', found) = meta_cached model meta s.meta_cache ready.honest reads in
        let own : meta_for f maths np akida predict read_meta s.chip.stem s.meta_cache
            ≡ return (cache', meta) =
          ap (λ o. meta_for f maths np akida predict read_meta o s.meta_cache) ready.has_stem
          ∙ found in
        let all =
          keeps_model s ready.has_stem
          ∙ ap (with_meta f maths np akida predict read_meta image k s) own
          ∙ ap
              (saved f maths np akida predict read_meta image k meta
                (record s { meta_cache = cache' }))
              (reads_output s ready file) in
        (
          ap (λ done. done.1) all,
          ap (λ done. done.0.bus.dets image k) all ∙ put_same image k _ s.bus.dets,
        )
