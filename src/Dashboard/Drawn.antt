-- ===== src/Dashboard/Drawn.antt =====
-- The dashboard draws the frames that the client sent: `open_frames` and `api_frame` of
-- src/apps/image-shard-inference/dashboard/app.py, next to `FramePool` of shard_client.py.
use symphony_akida.Prelude.{
  ℕ, zero, suc, ◌+◌, ◌*◌, ◌≤◌, ◌<◌, ◌≡◌, refl, ap, ◌∙◌, Bool, true, false, List, map, some, ltb,
  ◌==◌, arith, length, take, drop, get_elem?, range, range_from,
}
use symphony_akida.Prelude.Outcome.{return, Ensures, Ensures-bind, Ensures-any}
use symphony_akida.Prelude.Dict.{lookup, nat_eq}
use symphony_akida.Wire.Stream.{Bytes}
use symphony_akida.Merge.Boxes.{Floats}
use symphony_akida.Pool.{Side, product, frame_pool, read}
use symphony_akida.Samples.Served.{read_ordered}
use symphony_akida.Dashboard.{Dataset, Reply, ok, open_frames}
use symphony_akida.Dashboard.Frame.{State, Drawing, api_frame, boxes_at, truth_of, raw_shape_of}

map_at :
    (g : ℕ → Bytes) (i n k : ℕ) → k < n → get_elem? (map g (range_from i n)) k ≡ some (g (i + k))
map_at g i zero k h = absurd (omega arith)
map_at g i (suc n) zero h = let same : i ≡ i + 0 = omega arith in ap (λ j. some (g j)) same
map_at g i (suc n) (suc k) h =
    let same : suc i + k ≡ i + suc k = omega arith in
    map_at g (suc i) n k (omega arith) ∙ ap (λ j. some (g j)) same

module _ {F : Type 0} (f : Floats F) (shuffle : List ℕ → List ℕ) (random_frame : ℕ → List ℕ)
    (side : Side) (file : Bytes) (dataset : Dataset) (same_count : dataset.count ≡ side.count)
    (same_size : product dataset.input_shape ≡ side.per_sample_bytes)
    (is_image : length dataset.input_shape ≡ 3)
    (some_bytes : 0 < side.count * side.per_sample_bytes)
    (stored : side.count * side.per_sample_bytes ≤ length file) where
  abbrev rows : List Bytes
  rows =
      map (λ i. take side.per_sample_bytes (drop (i * side.per_sample_bytes) file))
        (range side.count)

  rows_opened : open_frames (some file) dataset ≡ return (some rows)
  unfolding open_frames
  rows_opened =
      let image : (length dataset.input_shape == 3) ≡ true = ground (arith, is_image) in
      let full : (side.count * side.per_sample_bytes == 0) ≡ false = ground (arith, some_bytes) in
      let fits : ltb (length file) (side.count * side.per_sample_bytes) ≡ false =
        ground (arith, stored) in
      rw (image, same_count, same_size, full, fits) refl

  -- What is drawn for a sample of an ordered run is the frame that the run sent.
  abbrev pub IsSent : ℕ → ℕ → State F → Reply (Drawing F) → Type 0
  IsSent count i s reply =
      (drawing : Drawing F) × (reply ≡ ok drawing)
      × (read
            (frame_pool shuffle random_frame (some side) (some file) side.per_sample_bytes count
              true)
            i
          ≡ return (i, drawing.frame))
      × (drawing.boxes ≡ boxes_at (lookup i s.records))

  -- After an ordered run over a prepared set of images, whose listing says what its sidecar does
  -- and whose file is not empty and holds what the sidecar says, the dashboard opens its frames,
  -- and what it then draws for a sample, unless the kit lacks the sample and that raises, is byte by
  -- byte the frame that the client sent, under the boxes of that sample's record.
  pub api_frame-IsSent :
      (count i : ℕ)
      → i < side.count
      → i < count
      → (frames : List Bytes) × (open_frames (some file) dataset ≡ return (some frames))
        × ((s : State F) (asked : Bool)
            → s.frames ≡ some frames
            → Ensures (IsSent count i s) (api_frame f s asked i))
  unfolding api_frame
  api_frame-IsSent count i low short = (
    rows,
    rows_opened,
    λ s asked opened.
        let zero_left : 0 + i ≡ i = omega arith in
        let sent = read_ordered shuffle random_frame side file count i low short in
        rw (opened, map_at _ 0 side.count i low, zero_left)
          (Ensures-bind (λ _. Unit) (IsSent count i s) (truth_of f asked s.kit i) _
            (Ensures-any (truth_of f asked s.kit i))
            λ truth _.
              Ensures-bind (λ _. Unit) (IsSent count i s) (raw_shape_of s.kit i) _
                (Ensures-any (raw_shape_of s.kit i)) (λ raw_shape _. (_, refl, sent, refl))),
  )
