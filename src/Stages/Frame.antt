-- ===== src/Stages/Frame.antt =====
-- One frame through the three stages: segment_worker.py, inference_worker.py, stitch_worker.py.
use Prim.Native.String.{String}
use text.Mathlib.Text.{◌==◌ as str_eq}
use symphony_akida.Prelude.{
  ℕ, zero, suc, ◌+◌, ◌≡◌, ◌⊎◌, refl, sym, ◌∙◌, subst, ap, inl, inr, false, List, [], ◌∷◌, Option,
  some, map, arith, length, get_elem?, range_from, All, Any, ℕ_discrete,
}
use symphony_akida.Prelude.Outcome.{Outcome, return}
use symphony_akida.Prelude.Dict.{string_eq}
use symphony_akida.Tiles.{Image}
use symphony_akida.Merge.Boxes.{Floats}
use symphony_akida.Merge.Suppress.{Sorting}
use symphony_akida.Merge.Whole.{TileEntry}
use symphony_akida.Decode.{Maths, Output}
use symphony_akida.Chip.{Chip, Runtime}
use symphony_akida.Wire.Stream.{Bytes}
use symphony_akida.Stages.Bus.{Bus, ShardMeta, Row, pack, tobytes}
use symphony_akida.Stages.Infer.{InfRequest, TileDetector, Numpy, decode, infer}
use symphony_akida.Stages.Stitch.{unpack, load_dets}
use symphony_akida.Stages.Visited.{IsReady, infer-Keeps, infer_writes}

-- A call of an inference worker, on whichever node, in whatever state it is then.
pub record Visit (M F : Type 0) : Type 0 where
  pub chip : Chip M
  pub meta_cache : List (String × ShardMeta F)
  pub request : InfRequest

module _ {M F : Type 0} (f : Floats F) (maths : Maths F) (np : Numpy F) (akida : Runtime M)
    (predict : M → List ℕ → Outcome (Output F)) (read_meta : String → Outcome (ShardMeta F)) where
  abbrev pub worker_at : Visit M F → Bus F → TileDetector M F
  worker_at v bus = record { chip = v.chip; meta_cache = v.meta_cache; bus = bus }

  abbrev pub visit : Visit M F → Bus F → Bus F
  visit v bus = (infer f maths np akida predict read_meta (worker_at v bus) v.request).0.bus

  -- The calls one after the other.
  abbrev pub visits : List (Visit M F) → Bus F → Bus F
  visits [] bus = bus
  visits (v ∷ vs) bus = visits vs (visit v bus)

  -- Each crop has the model's size, and the model has an output on it.
  abbrev pub Outputs : M → ℕ → List Image → List (Output F) → Type 0
  Outputs m size [] [] = Unit {0}
  Outputs m size (crop ∷ crops) (out ∷ outs) =
      (length (tobytes crop) ≡ size)
      × (predict m (tobytes crop) ≡ return out)
      × Outputs m size crops outs
  Outputs m size _ _ = ⊥

  pub Outputs-at :
      (m : M) (size : ℕ) (crops : List Image) (outs : List (Output F)) (k : ℕ) (out : Output F)
      → Outputs m size crops outs
      → get_elem? outs k ≡ some out
      → (crop : Image) × (get_elem? crops k ≡ some crop)
        × (length (tobytes crop) ≡ size)
        × (predict m (tobytes crop) ≡ return out)
  Outputs-at m size [] [] k out h e = absurd cc
  Outputs-at m size [] (first ∷ outs) k out h e = absurd h
  Outputs-at m size (crop ∷ crops) [] k out h e = absurd h
  Outputs-at m size (crop ∷ crops) (first ∷ outs) zero out h e =
      let same : first ≡ out = cc in (crop, refl, h.0, h.1 ∙ ap return same)
  Outputs-at m size (crop ∷ crops) (first ∷ outs) (suc k) out h e =
      Outputs-at m size crops outs k out h.2 e

  module _ (image model : String) (m : M) (meta : ShardMeta F) (size : ℕ)
      (stem : akida.stem_of model ≡ model) (reads : read_meta model ≡ return meta) where
    -- A call for a tile of the frame, on a node that has the model mapped.
    abbrev pub IsOurs : Visit M F → Type 0
    IsOurs v =
        ((bus : Bus F) → IsReady f maths np akida predict read_meta model m size (worker_at v bus))
        × (v.request ≡ record { image_id = image; tile = v.request.tile; model = some model })

    -- A call for another frame, or one of the frame's own.
    abbrev pub IsKnown : Visit M F → Type 0
    IsKnown v = (str_eq v.request.image_id image ≡ false) ⊎ IsOurs v

    module _ (k : ℕ) (bytes : Bytes) (out : Output F) (fits : length bytes ≡ size)
        (runs : predict m bytes ≡ return out) where
      abbrev rows : List (Row F)
      rows = pack meta.arguments.num_classes (decode f maths np akida predict read_meta meta out)

      visit_writes :
          (v : Visit M F) (bus : Bus F)
          → IsOurs v
          → v.request.tile ≡ k
          → bus.segs image k ≡ some bytes
          → (visit v bus).dets image k ≡ some rows
      visit_writes v bus ours tile file =
          let asked : InfRequest → Option (List (Row F)) = λ r.
            (infer f maths np akida predict read_meta (worker_at v bus) r).0.bus.dets image k in
          let ready =
            subst (λ n. IsReady f maths np akida predict read_meta model m n (worker_at v bus))
              (sym fits) (ours.0 bus) in
          let writes =
            infer_writes f maths np akida predict read_meta image model k m meta bytes out stem
              reads runs (worker_at v bus) ready file in
          ap asked ours.1
          ∙ ap (λ t. asked (record { image_id = image; tile = t; model = some model })) tile
          ∙ writes.1

      visit_segs : (v : Visit M F) (bus : Bus F) → (visit v bus).segs image k ≡ bus.segs image k
      visit_segs v bus =
          ap (λ segs. segs image k)
            (infer-Keeps f maths np akida predict read_meta (worker_at v bus) v.request).0

      visit_keeps :
          (v : Visit M F) (bus : Bus F)
          → IsKnown v
          → bus.dets image k ≡ some rows
          → bus.segs image k ≡ some bytes
          → (visit v bus).dets image k ≡ some rows
      visit_keeps v bus (inl other) there file =
          (infer-Keeps f maths np akida predict read_meta (worker_at v bus) v.request).1 image k
            (inl other)
          ∙ there
      visit_keeps v bus (inr ours) there file = elim (ℕ_discrete v.request.tile k) [
        | yes same ↦ visit_writes v bus ours same file
        | no differs ↦
            (infer-Keeps f maths np akida predict read_meta (worker_at v bus) v.request).1 image k
              (inr differs)
            ∙ there
      ]

      pub visits_det :
          (vs : List (Visit M F)) (bus : Bus F)
          → bus.segs image k ≡ some bytes
          → All IsKnown vs
          → (bus.dets image k ≡ some rows) ⊎ Any (λ v. IsOurs v × (v.request.tile ≡ k)) vs
          → (visits vs bus).dets image k ≡ some rows
      visits_det [] bus file known (inl there) = there
      visits_det [] bus file known (inr none_left) = absurd none_left
      visits_det (v ∷ vs) bus file known (inl there) =
          visits_det vs (visit v bus) (visit_segs v bus ∙ file) known.1
            (inl (visit_keeps v bus known.0 there file))
      visits_det (v ∷ vs) bus file known (inr (inl ours)) =
          visits_det vs (visit v bus) (visit_segs v bus ∙ file) known.1
            (inl (visit_writes v bus ours.0 ours.1 file))
      visits_det (v ∷ vs) bus file known (inr (inr later)) =
          visits_det vs (visit v bus) (visit_segs v bus ∙ file) known.1 (inr later)

  -- What the merge gets of a tile's output.
  abbrev pub entry_of : ShardMeta F → Output F → TileEntry F
  entry_of meta out =
      unpack f meta.arguments.num_classes
        (pack meta.arguments.num_classes (decode f maths np akida predict read_meta meta out))

  module _ (sorting : Sorting F) (meta : ShardMeta F) (dets : ℕ → Option (List (Row F))) where
    abbrev rows_of : Output F → List (Row F)
    rows_of out =
        pack meta.arguments.num_classes (decode f maths np akida predict read_meta meta out)

    -- The files from tile `i` on hold the detections of the outputs.
    abbrev pub Holds : ℕ → List (Output F) → Type 0
    Holds i outs =
        (k : ℕ) (out : Output F) → get_elem? outs k ≡ some out → dets (i + k) ≡ some (rows_of out)

    pub load_dets-map :
        (outs : List (Output F)) (i : ℕ)
        → Holds i outs
        → load_dets f sorting meta dets (range_from i (length outs))
          ≡ return (map (entry_of meta) outs)
    unfolding load_dets
    load_dets-map [] i there = refl
    load_dets-map (out ∷ outs) i there =
        let start : i + 0 ≡ i = omega arith in
        let at = subst (λ j. dets j ≡ some (rows_of out)) start (there 0 out refl) in
        let later : Holds (suc i) outs = λ k next e.
          let same : i + suc k ≡ suc i + k = omega arith in
          subst (λ j. dets j ≡ some (rows_of next)) same (there (suc k) next e) in
        rw (at, load_dets-map outs (suc i) later) refl
