-- ===== src/Batch/Samples.antt =====
-- The tensors that the batch client sends: soam_client.py, `build_pool`. The sample file is its
-- bytes; `random.shuffle` and `random.getrandbits(8)` are parameters.
use symphony_akida.Prelude.{
  ℕ, ◌*◌, ◌%◌, ◌≤◌, ◌<◌, ◌≡◌, ◌∙◌, min, max, ◌&&◌, List, map, Option, none, some, arith, ltb, ◌==◌,
  length, length-take, length-map, take, take-All, drop, get_or-All, range, length-range_from,
  range_from-All, slice_length, map-All, All, if◌then◌else◌, Bool-cases, inl, inr, subst, ==_iff,
  ltb→lt,
}
use symphony_akida.Batch.Client.{Sidecar, sample_of_task}
use symphony_akida.Wire.Stream.{Bytes}
use native.Mathlib.Nat.{mod-lt}

module _ (shuffle : List ℕ → List ℕ) (random_byte : ℕ → ℕ → ℕ) where
  -- `fh.seek(i * per)` and `fh.read(per)`
  abbrev pub tensor_at : Bytes → ℕ → ℕ → Bytes
  tensor_at file per i = take per (drop (i * per) file)

  unfoldable pub file_pool : ℕ → ℕ → Bytes → ℕ → List Bytes
  file_pool per avail file count =
      map (tensor_at file per) (take (max 1 (min avail count)) (shuffle (range avail)))

  unfoldable pub random_pool : ℕ → ℕ → List Bytes
  random_pool n count = map (λ k. map (random_byte k) (range n)) (range (max 1 (min count 256)))

  -- Whether the set fits: the test is made only where there is a set.
  abbrev pub pool_from : Option Sidecar → Option Bytes → ℕ → ℕ → List Bytes
  pool_from (some side) (some file) n count =
      if (side.per_sample_bytes == n) && ltb 0 side.count
      then file_pool side.per_sample_bytes side.count file count
      else random_pool n count
  pool_from (some side) none n count = random_pool n count
  pool_from none file n count = random_pool n count

  -- `build_pool`, from what `resolve_set` found and the set's file, where it is there.
  unfoldable pub build_pool : Option Sidecar → Option Bytes → ℕ → ℕ → List Bytes
  unfolding file_pool random_pool
  build_pool found file n count = pool_from found file n count

  -- A pool that tasks can cycle through.
  abbrev pub IsPool : ℕ → List Bytes → Type 0
  IsPool n pool = (0 < length pool) × All (λ tensor. length tensor ≡ n) pool

  module _ (keeps_length : (xs : List ℕ) → length (shuffle xs) ≡ length xs)
      (keeps_members : (P : ℕ → Type 0) (xs : List ℕ) → All P xs → All P (shuffle xs)) where
    file_pool-IsPool :
        (per avail count : ℕ) (file : Bytes)
        → 0 < avail
        → avail * per ≤ length file
        → IsPool per (file_pool per avail file count)
    unfolding file_pool
    file_pool-IsPool per avail count file pos stored =
        let picked = take (max 1 (min avail count)) (shuffle (range avail)) in
        let members =
          take-All (λ i. i < avail) (max 1 (min avail count)) (shuffle (range avail))
            (keeps_members (λ i. i < avail) (range avail)
              (range_from-All 0 avail avail (omega arith))) in
        (
          omega (
            arith,
            length-map (tensor_at file per) picked,
            length-take (max 1 (min avail count)) (shuffle (range avail)),
            keeps_length (range avail),
            length-range_from 0 avail,
            pos,
          ),
          map-All (λ i. i < avail) (λ tensor. length tensor ≡ per) (tensor_at file per) picked
              members (λ i below. slice_length file avail per i below stored),
        )

    random_pool-IsPool : (n count : ℕ) → IsPool n (random_pool n count)
    unfolding random_pool
    random_pool-IsPool n count =
        let k = max 1 (min count 256) in
        (
          omega (
            arith,
            length-map (λ k. map (random_byte k) (range n)) (range k),
            length-range_from 0 k,
          ),
          map-All (λ i. i < k) (λ tensor. length tensor ≡ n) (λ k. map (random_byte k) (range n))
              (range k) (range_from-All 0 k k (omega arith))
              (λ i below. length-map (random_byte i) (range n) ∙ length-range_from 0 n),
        )

    -- The file holds as many samples as its sidecar says.
    abbrev pub IsStored : Option Sidecar → Option Bytes → Type 0
    IsStored (some side) (some file) = side.count * side.per_sample_bytes ≤ length file
    IsStored _ _ = Unit {0}

    build_pool-IsPool :
        (found : Option Sidecar) (file : Option Bytes) (n count : ℕ)
        → IsStored found file
        → IsPool n (build_pool found file n count)
    unfolding build_pool
    build_pool-IsPool none file n count stored = random_pool-IsPool n count
    build_pool-IsPool (some side) none n count stored = random_pool-IsPool n count
    build_pool-IsPool (some side) (some file) n count stored =
        let per = side.per_sample_bytes in
        let random = random_pool-IsPool n count in
        elim (Bool-cases (per == n)) [
          | inl same ↦ elim (Bool-cases (ltb 0 side.count)) [
            | inl full ↦
                rw (same, full)
                  (subst (λ m. IsPool m (file_pool per side.count file count))
                    ((==_iff per n).0 same)
                    (file_pool-IsPool per side.count count file (ltb→lt 0 side.count full) stored))
            | inr empty ↦ rw (same, empty) random
          ]
          | inr other ↦ rw other random
        ]

    -- Where the set's file holds what its sidecar says, every task of every run is sent a tensor of
    -- the model's size, from the set or random.
    pub tasks_sized :
        (found : Option Sidecar) (file : Option Bytes) (n count i : ℕ) (other : Bytes)
        → IsStored found file
        → length (sample_of_task (build_pool found file n count) other i) ≡ n
    unfolding sample_of_task
    tasks_sized found file n count i other stored =
        let pool = build_pool-IsPool found file n count stored in
        get_or-All (λ tensor. length tensor ≡ n) (build_pool found file n count)
          (i % length (build_pool found file n count)) other pool.1 (mod-lt i pool.0)
