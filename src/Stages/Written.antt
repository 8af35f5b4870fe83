-- ===== src/Stages/Written.antt =====
-- What the segment stage leaves in the pipeline directory: segment_worker.py, `Segmenter`.
use Prim.Native.String.{String}
use text.Mathlib.Text.{◌==◌ as str_eq}
use text.Mathlib.TextEquality.{eq_iff}
use symphony_akida.Prelude.{
  ℕ, zero, suc, ◌+◌, ◌<◌, ◌≡◌, refl, ◌∙◌, subst, ap, false, List, [], ◌∷◌, Option, some, arith,
  length, map, get_elem?, ==_iff, Option-cases, inl, inr,
}
use symphony_akida.Prelude.Outcome.{Outcome, return}
use symphony_akida.Prelude.Dict.{lookup, insert, string_eq}
use symphony_akida.Tiles.{Tile, Image}
use symphony_akida.Wire.Stream.{Bytes}
use symphony_akida.Stages.Bus.{Bus, ShardMeta, put, write_seg, tobytes}
use symphony_akida.Stages.Segment.{
  Layout, Segmenter, SegRequest, make_layout, layout, write_segs, crops_of, segment,
}

pub put_same :
    {A : Type 0} (image : String) (k : ℕ) (a : A) (files : String → ℕ → Option A)
    → put image k a files image k ≡ some a
put_same image k a files = rw ((eq_iff image image).1 refl, (==_iff k k).1 refl) refl

pub put_other :
    {A : Type 0} (image : String) (k : ℕ) (a : A) (files : String → ℕ → Option A) (image' : String)
    (k' : ℕ)
    → (k ≡ k' → ⊥)
    → put image k a files image' k' ≡ files image' k'
put_other image k a files image' k' differs = ground (arith, ==_iff k k')

pub put_elsewhere :
    {A : Type 0} (image : String) (k : ℕ) (a : A) (files : String → ℕ → Option A) (image' : String)
    (k' : ℕ)
    → str_eq image image' ≡ false
    → put image k a files image' k' ≡ files image' k'
put_elsewhere image k a files image' k' differs = rw differs refl

module _ {F : Type 0} (read_meta : String → Outcome (ShardMeta F)) (image : String) where
  write_segs_below :
      (i : ℕ) (crops : List Image) (bus : Bus F) (k : ℕ)
      → k < i
      → (write_segs read_meta image i crops bus).segs image k ≡ bus.segs image k
  write_segs_below i [] bus k h = refl
  write_segs_below i (crop ∷ crops) bus k h =
      write_segs_below (i + 1) crops (write_seg image i (tobytes crop) bus) k (omega arith)
      ∙ put_other image i (tobytes crop) bus.segs image k (λ e. omega (arith, e))

  -- Tile `k` of the crops stands in its file.
  pub write_segs_at :
      (i : ℕ) (crops : List Image) (bus : Bus F) (k : ℕ) (crop : Image)
      → get_elem? crops k ≡ some crop
      → (write_segs read_meta image i crops bus).segs image (i + k) ≡ some (tobytes crop)
  write_segs_at i [] bus k crop h = absurd cc
  write_segs_at i (first ∷ crops) bus zero crop h =
      let later =
        write_segs_below (i + 1) crops (write_seg image i (tobytes first) bus) i (omega arith) in
      let here = put_same image i (tobytes first) bus.segs in
      let files = (write_segs read_meta image i (first ∷ crops) bus).segs image in
      let same : first ≡ crop = cc in
      subst (λ j. files j ≡ some (tobytes crop)) (omega arith)
        (later ∙ here ∙ ap (λ c. some (tobytes c)) same)
  write_segs_at i (first ∷ crops) bus (suc k) crop h =
      let rest = write_segs_at (i + 1) crops (write_seg image i (tobytes first) bus) k crop h in
      let same : i + 1 + k ≡ i + suc k = omega arith in
      subst
        (λ j. (write_segs read_meta image i (first ∷ crops) bus).segs image j ≡ some (tobytes crop))
        same rest

module _ {F : Type 0} (read_meta : String → Outcome (ShardMeta F)) where
  -- What is cached of a model is what would be made of it now.
  abbrev pub IsHonest : List (String × Layout) → Type 0
  IsHonest cache =
      (model : String) (found : Layout)
      → lookup model cache ≡ some found
      → make_layout read_meta model ≡ return found

  -- Where a layout can be made, `layout` answers that one, cached or not.
  pub layout_cached :
      (model : String) (made : Layout) (cache : List (String × Layout))
      → IsHonest cache
      → make_layout read_meta model ≡ return made
      → (cache' : List (String × Layout)) × (layout read_meta (some model) cache
          ≡ return (cache', made))
  unfolding layout
  layout_cached model made cache honest makes = elim (Option-cases (lookup model cache)) [
    | inl absent ↦ (insert model made cache, rw (absent, makes) refl)
    | inr (found, present) ↦
        let makes' = honest model found present in
        let same : found ≡ made = cc in (cache, rw present (ap (λ l. return (cache, l)) same))
  ]

  module _ (image model : String) (made : Layout) (payload : Bytes) (crops : List Image)
      (s : Segmenter F) (honest : IsHonest s.cache)
      (makes : make_layout read_meta model ≡ return made)
      (cuts : crops_of read_meta made (some payload) ≡ return crops) where
    abbrev seg_request : SegRequest
    seg_request = record { image_id = image; model = some model }

    -- The handler answers the number of tiles, and leaves each crop in its tile's file.
    pub segment_writes :
        let out = segment read_meta s seg_request (some payload) in
        (out.1
          ≡ return (record {
            n_tiles = length made.tiles;
            tile_names = map (λ (t : Tile). t.name) made.tiles;
          }))
        × (out.0.bus ≡ write_segs read_meta image 0 crops s.bus)
    unfolding segment
    segment_writes =
        let (cache', answers) = layout_cached model made s.cache honest makes in
        rw (answers, cuts) (refl, refl)
