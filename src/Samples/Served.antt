-- ===== src/Samples/Served.antt =====
-- From a dataset to the frames that the client sends: `convert` of prepare_samples.py, and then
-- `frame_bytes` and `FramePool` of shard_client.py on what it wrote.
use Prim.Native.String.{String}
use native.Mathlib.Nat.{mod-eq_of_lt}
use symphony_akida.Prelude.{
  ℕ, zero, suc, ◌+◌, ◌*◌, ◌≤◌, ◌<◌, ◌≡◌, refl, sym, ap, ◌∙◌, inl, inr, true, false, dec_le, List,
  [], ◌∷◌, Option, none, some, ◌==◌, ==_iff, arith, ltb, length, length-range_from, get_elem?,
  get_or, take, drop, range, range_from, All,
}
use symphony_akida.Prelude.Outcome.{Outcome-cases, ensured, return, ◌>>=◌, Returns}
use symphony_akida.Kit.{Array}
use symphony_akida.Pool.{
  Meta, Side, product, or_shape, total_of, frame_bytes, file_pool, frame_pool, or_first, read,
}
use symphony_akida.Samples.{
  MetaFile, ModelMeta, Models, Prepared, Opened, shape_or, sample_shape, meta_in, read_meta,
  sample_size, holds, absent, garbled, resolve_model, write_chunks, starts, chunk,
}
use symphony_akida.Samples.Convert.{convert}
use symphony_akida.Samples.Chunks.{write_chunks-concat, concat_at}
use symphony_akida.Samples.Resolve.{IsOnly, resolve_model-Fits}

-- What the client reads of the metadata and of the sidecar.
abbrev pub client_meta : ModelMeta → Meta
client_meta meta = record {
  sample_input_shape = meta.sample_input_shape;
  input_shape = meta.input_shape;
}

abbrev pub client_side : Prepared → Side
client_side set = record { per_sample_bytes = set.side.per_sample_bytes; count = set.side.count }

-- An array whose contents are what its shape says.
abbrev pub IsArray : ℕ → ℕ → Array → Type 0
IsArray count per array =
    (dims : List ℕ) × (array.shape ≡ count ∷ dims)
    × (product dims ≡ per)
    × (length array.rows ≡ count)
    × All (λ row. length row ≡ per) array.rows

same_total :
    (sample input : Option (List ℕ)) (shape : List ℕ)
    → shape_or sample input ≡ return shape
    → total_of (or_shape sample input) ≡ return (product shape, shape)
same_total none none shape h = cc h
same_total none (some input) shape h = cc h
same_total (some []) none shape h = cc h
same_total (some []) (some input) shape h = cc h
same_total (some (d ∷ ds)) input shape h = cc h

-- The client takes the size and the shape that the preparation takes.
same_bytes :
    (meta : ModelMeta) (shape : List ℕ)
    → sample_shape meta ≡ return shape
    → frame_bytes (client_meta meta) ≡ return (product shape, shape)
unfolding sample_shape frame_bytes
same_bytes meta shape h = same_total meta.sample_input_shape meta.input_shape shape h

range_at : (i n k : ℕ) → k < n → get_elem? (range_from i n) k ≡ some (i + k)
range_at i zero k h = absurd (omega arith)
range_at i (suc n) zero h = ap some (omega arith)
range_at i (suc n) (suc k) h = range_at (suc i) n k (omega arith) ∙ ap some (omega arith)

take_range : (k i n : ℕ) → k ≤ n → take k (range_from i n) ≡ range_from i k
take_range zero i n h = refl
take_range (suc k) i zero h = absurd (omega arith)
take_range (suc k) i (suc n) h = ap (◌∷◌ i) (take_range k (suc i) n (omega arith))

take_short : (k i n : ℕ) → n ≤ k → take k (range_from i n) ≡ range_from i n
take_short zero i zero h = refl
take_short zero i (suc n) h = absurd (omega arith)
take_short (suc k) i zero h = refl
take_short (suc k) i (suc n) h = ap (◌∷◌ i) (take_short k (suc i) n (omega arith))

or_first-range : (m : ℕ) → 0 < m → or_first (range m) ≡ range m
or_first-range zero h = absurd (omega arith)
or_first-range (suc m) h = refl

-- The first indices of an ordered run, as a range.
ordered_run :
    (n i count : ℕ)
    → i < n
    → i < count
    → (m : ℕ) × (i < m) × (or_first (take count (range n)) ≡ range m)
ordered_run n i count low short = elim (dec_le count n) [
  | yes fits ↦ (
    count,
    short,
    ap or_first (take_range count 0 n fits) ∙ or_first-range count (omega (arith, short)),
  )
  | no over ↦ (
    n,
    low,
    ap or_first (take_short count 0 n (omega (arith, over)))
        ∙ or_first-range n (omega (arith, low)),
  )
]

-- What a model of a known size has.
abbrev HasShape : MetaFile → ℕ → Type 0
HasShape file n =
    (meta : ModelMeta) × (shape : List ℕ) × (file ≡ holds meta)
    × (sample_shape meta ≡ return shape)
    × (product shape ≡ n)

shape_in :
    (n : ℕ) (file : MetaFile)
    → (meta_in file >>= λ meta. sample_shape meta >>= λ shape. return (product shape)) ≡ return n
    → HasShape file n
shape_in n absent h = cc h
shape_in n garbled h = cc h
shape_in n (holds meta) h = elim (Outcome-cases (sample_shape meta)) [
  | inr (e, broken) ↦ cc (h, broken)
  | inl (shape, known) ↦ (meta, shape, refl, known, cc (h, known))
]

size_known :
    (models : Models) (n : ℕ) (model : String)
    → sample_size models model ≡ return n
    → HasShape (models.file model) n
unfolding sample_size read_meta
size_known models n model h = shape_in n (models.file model) h

module _ (shuffle : List ℕ → List ℕ) (random_frame : ℕ → List ℕ) where
  -- An ordered run reads its frames by their place in the file.
  pub read_ordered :
      (side : Side) (file : List ℕ) (count i : ℕ)
      → i < side.count
      → i < count
      → read
          (frame_pool shuffle random_frame (some side) (some file) side.per_sample_bytes count true)
          i
        ≡ return (i, take side.per_sample_bytes (drop (i * side.per_sample_bytes) file))
  unfolding frame_pool file_pool read
  read_ordered side file count i low short =
      let per = side.per_sample_bytes in
      let (m, below, indices) = ordered_run side.count i count low short in
      let zero_left : 0 + i ≡ i = omega arith in
      let same : (per == per) ≡ true = ground arith in
      let full : ltb 0 side.count ≡ true = ground (arith, low) in
      let some_frames : (m == 0) ≡ false = ground (arith, below) in
      rw
        (
          same,
          full,
          indices,
          length-range_from 0 m,
          some_frames,
          mod-eq_of_lt below,
          range_at 0 m i below,
          zero_left,
        )
        refl

  -- A prepared set as the client finds it.
  abbrev pub IsServed : Models → ℕ → Array → Prepared → Type 0
  IsServed models per frames set =
      ((meta : ModelMeta) × (models.file set.side.model ≡ holds meta)
        × (frame_bytes (client_meta meta) ≡ return (per, set.side.input_shape)))
      × (set.side.per_sample_bytes ≡ per)
      × (set.side.count ≡ length frames.rows)
      × ((count i : ℕ)
          → i < length frames.rows
          → i < count
          → read
              (frame_pool shuffle random_frame (some (client_side set)) (some set.bin) per count
                true)
              i
            ≡ return (i, get_or frames.rows i []))

  module _ (models : Models) (per n : ℕ) (set_name source : String) (opened : Opened)
      (sized : IsArray n per opened.frames) (model : String)
      (found : resolve_model models per ≡ return model) where
    -- A dataset whose array holds what its shape says, and that the preparation can match to a
    -- model, is prepared, and the client, which reads the model's metadata and the two files, then
    -- takes as many bytes for a frame as the dataset has, and its ordered run sends the dataset's
    -- frames, byte by byte and in their order.
    pub convert-IsServed :
        Returns (IsServed models per opened.frames) (convert models none set_name source opened)
    unfolding convert
    convert-IsServed =
        let (dims, shaped, size, rows, each) = sized in
        let ((listed, fits), unique) =
          ensured (IsOnly models per) (resolve_model models per) model
            (resolve_model-Fits models per) found in
        let (meta, shape, holds_it, known, same) = size_known models per model fits in
        let enough : (per == product shape) ≡ true = (==_iff per (product shape)).1 (sym same) in
        rw (shaped, size, found, holds_it, known, enough)
          (
            (meta, holds_it, same_bytes meta shape known ∙ ap (λ k. return (k, shape)) same),
            refl,
            sym rows,
            λ count i low short.
                read_ordered _ _ count i (omega (arith, low, rows)) short
                ∙ ap
                    (λ k. return (
                      i,
                      take per (drop (i * per) (write_chunks opened.frames.rows (starts k chunk))),
                    ))
                    (sym rows)
                ∙ ap (λ bs. return (i, take per (drop (i * per) bs)))
                    (write_chunks-concat opened.frames.rows)
                ∙ ap (λ row. return (i, row)) (concat_at per opened.frames.rows i each low),
          )
