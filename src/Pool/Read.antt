-- ===== src/Pool/Read.antt =====
-- What `FramePool.read` of shard_client.py returns.
use native.Mathlib.Nat.{mod-lt}
use symphony_akida.Prelude.{
  length-range_from, range_from-All, slice_length, take-All, ℕ, zero, suc, ◌*◌, ◌%◌, ◌≤◌, ◌<◌, ◌≡◌,
  refl, subst, inl, inr, min, max, Bool, true, false, ◌&&◌, List, [], ◌∷◌, map, Option, none, some,
  ltb, ◌==◌, arith, length, length-map, get_elem?, range, All, if◌then◌else◌, Bool-cases,
}
use symphony_akida.Prelude.Outcome.{Outcome, return, raise, ◌>>=◌, Returns}
use symphony_akida.Pool.{
  Side, FramePool, or_first, file_pool, random_pool, frame_pool, frame_at, read,
}

get_elem?-All :
    {A : Type 0} (P : A → Type 0) (xs : List A) (i : ℕ)
    → All P xs
    → i < length xs
    → (a : A) × (get_elem? xs i ≡ some a) × P a
get_elem?-All P [] i p h = absurd (omega arith)
get_elem?-All P (x ∷ xs) zero p h = (x, refl, p.0)
get_elem?-All P (x ∷ xs) (suc i) p h = get_elem?-All P xs i p.1 (omega arith)

map-All :
    {A B : Type 0} (P : B → Type 0) (f : A → B) (xs : List A)
    → ((a : A) → P (f a))
    → All P (map f xs)
map-All P f [] h = tt
map-All P f (x ∷ xs) h = (h x, map-All P f xs h)

or_first-All : (P : ℕ → Type 0) (is : List ℕ) → P 0 → All P is → All P (or_first is)
or_first-All P [] first p = (first, tt)
or_first-All P (i ∷ is) first p = p

or_first_some : (is : List ℕ) → 0 < length (or_first is)
or_first_some [] = omega arith
or_first_some (i ∷ is) = omega arith

-- A frame of the right size.
abbrev pub IsFrame : ℕ → ℕ × List ℕ → Type 0
IsFrame per_frame r = length r.1 ≡ per_frame

-- The file holds as many samples as its sidecar says.
abbrev pub IsStored : Option Side → Option (List ℕ) → Type 0
IsStored (some side) (some file) = side.count * side.per_sample_bytes ≤ length file
IsStored _ _ = Unit {0}

found-IsFrame :
    (index per_frame : ℕ) (o : Outcome (List ℕ))
    → Returns (λ frame. length frame ≡ per_frame) o
    → Returns (IsFrame per_frame) (o >>= λ frame. return (index, frame))
found-IsFrame index per_frame (return frame) h = h
found-IsFrame index per_frame (raise e) h = h

chosen :
    (first : Bool) (P : ℕ → Type 0) (xs ys : List ℕ)
    → All P xs
    → All P ys
    → All P (if first then xs else ys)
chosen true P xs ys p q = p
chosen false P xs ys p q = q

pool_reads :
    (pool : FramePool) (P : ℕ → Type 0) (i : ℕ)
    → All P pool.indices
    → 0 < length pool.indices
    → ((index : ℕ)
        → P index
        → Returns (λ frame. length frame ≡ pool.per_frame) (frame_at pool.random pool index))
    → Returns (IsFrame pool.per_frame) (read pool i)
unfolding read
pool_reads pool P i p some_indices h =
    let (index, found, holds) =
      get_elem?-All P pool.indices (i % length pool.indices) p (mod-lt i some_indices) in
    let nonzero : (length pool.indices == 0) ≡ false = ground arith in
    rw (nonzero, found)
      (found-IsFrame index pool.per_frame (frame_at pool.random pool index) (h index holds))

module _ (shuffle : List ℕ → List ℕ) (random_frame : ℕ → List ℕ) (per_frame count i : ℕ)
    (some_frames : 0 < count) where
  file_pool_reads :
      (side : Side) (file : List ℕ) (ordered : Bool)
      → ((P : ℕ → Type 0) (is : List ℕ) → All P is → All P (shuffle is))
      → side.per_sample_bytes ≡ per_frame
      → 0 < side.count
      → side.count * side.per_sample_bytes ≤ length file
      → Returns
          (IsFrame per_frame)
          (read (file_pool shuffle random_frame side file per_frame count ordered) i)
  unfolding file_pool
  file_pool_reads side file ordered permutes same some_samples stored =
      let all_in = range_from-All 0 side.count side.count (omega arith) in
      let below = λ (k : ℕ). k < side.count in
      pool_reads (file_pool shuffle random_frame side file per_frame count ordered) below i
        (or_first-All below _ some_samples (
          take-All below count _ (
            chosen ordered below (range side.count) (shuffle (range side.count)) all_in
              (permutes below (range side.count) all_in))))
        (or_first_some _)
        λ index low.
          slice_length file side.count per_frame index low
            (subst (λ p. side.count * p ≤ length file) same stored)

  random_pool_reads :
      ((k : ℕ) → length (random_frame k) ≡ per_frame)
      → Returns (IsFrame per_frame) (read (random_pool shuffle random_frame per_frame count) i)
  unfolding random_pool
  random_pool_reads sized =
      let size = max 1 (min count 64) in
      let below = λ (k : ℕ). k < size in
      let frames = map random_frame (range size) in
      pool_reads (random_pool shuffle random_frame per_frame count) below i
        (map-All below (λ k. k % size) (range count) λ k. mod-lt k (omega arith))
        (omega (arith, length-map (λ (k : ℕ). k % size) (range count), length-range_from 0 count))
        λ index low.
          let (frame, found, holds) =
            get_elem?-All (λ (f : List ℕ). length f ≡ per_frame) frames index
              (map-All (λ (f : List ℕ). length f ≡ per_frame) random_frame (range size) sized)
              (omega
                (arith, low, length-map random_frame (range size), length-range_from 0 size)) in
          rw found holds

  -- Whether the prepared samples fit the model or random frames stand in for them, `read` returns a
  -- frame of the model's size for every `i`, in a run of at least one frame. The shuffle only
  -- reorders, the random frames have that size, and the file holds what its sidecar says.
  pub read-IsFrame :
      (side : Option Side) (file : Option (List ℕ)) (ordered : Bool)
      → ((P : ℕ → Type 0) (is : List ℕ) → All P is → All P (shuffle is))
      → ((k : ℕ) → length (random_frame k) ≡ per_frame)
      → IsStored side file
      → Returns
          (IsFrame per_frame)
          (read (frame_pool shuffle random_frame side file per_frame count ordered) i)
  unfolding frame_pool
  read-IsFrame none file ordered permutes sized stored = random_pool_reads sized
  read-IsFrame (some side) none ordered permutes sized stored = random_pool_reads sized
  read-IsFrame (some side) (some file) ordered permutes sized stored =
      elim (Bool-cases ((side.per_sample_bytes == per_frame) && ltb 0 side.count)) [
        | inl fits ↦ rw fits (
            file_pool_reads side file ordered permutes (ground (arith, fits)) (ground (arith, fits))
              stored)
        | inr odd ↦ rw odd (random_pool_reads sized)
      ]
