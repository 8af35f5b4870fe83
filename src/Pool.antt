-- ===== src/Pool.antt =====
-- The frames that the shard client sends: shard_client.py, `load_meta`, `frame_bytes` and
-- `FramePool`. A file is the list of its bytes; the random generator is a parameter.
pub mod Read
use symphony_akida.Prelude.{
  ℕ, zero, suc, ◌+◌, ◌-◌, ◌*◌, ◌%◌, min, max, Bool, true, false, not, ◌&&◌, List, [], ◌∷◌, map,
  Option, none, some, ltb, ◌==◌, length, get_elem?, take, drop, range, if◌then◌else◌,
}
use symphony_akida.Prelude.Outcome.{
  Outcome, return, raise, ◌>>=◌, system_exit, type_error, zero_division_error, index_error,
}

-- The shapes in `<model>_meta.json`.
pub record Meta : Type 0 where
  pub sample_input_shape : Option (List ℕ)
  pub input_shape : Option (List ℕ)

-- `load_meta`, where the file may be absent.
unfoldable pub load_meta : Option Meta → Outcome Meta
load_meta none = raise system_exit
load_meta (some meta) = return meta

abbrev pub product : List ℕ → ℕ
product [] = 1
product (dim ∷ dims) = dim * product dims

-- An absent or empty shape is false.
abbrev pub or_shape : Option (List ℕ) → Option (List ℕ) → Option (List ℕ)
or_shape none other = other
or_shape (some []) other = other
or_shape (some (dim ∷ dims)) other = some (dim ∷ dims)

abbrev pub total_of : Option (List ℕ) → Outcome (ℕ × List ℕ)
total_of none = raise type_error
total_of (some shape) = return (product shape, shape)

unfoldable pub frame_bytes : Meta → Outcome (ℕ × List ℕ)
frame_bytes meta = total_of (or_shape meta.sample_input_shape meta.input_shape)

-- What a `.samples.json` beside a `.bin` says.
pub record Side : Type 0 where
  pub per_sample_bytes : ℕ
  pub count : ℕ

pub record FramePool : Type 0 where
  pub available : ℕ
  pub indices : List ℕ
  pub per_frame : ℕ
  pub file : List ℕ
  pub random : Option (List (List ℕ))

-- `indices[:count] or [0]`
abbrev pub or_first : List ℕ → List ℕ
or_first [] = 0 ∷ []
or_first (i ∷ is) = i ∷ is

module _ (shuffle : List ℕ → List ℕ) (random_frame : ℕ → List ℕ) where
  unfoldable pub file_pool : Side → List ℕ → ℕ → ℕ → Bool → FramePool
  file_pool side file per_frame count ordered = record {
    available = side.count;
    indices =
        or_first (take count (if ordered then range side.count else shuffle (range side.count)));
    per_frame = per_frame;
    file = file;
    random = none;
  }

  unfoldable pub random_pool : ℕ → ℕ → FramePool
  random_pool per_frame count =
      let pool_size = max 1 (min count 64) in
      record {
        available = 0;
        indices = map (λ i. i % pool_size) (range count);
        per_frame = per_frame;
        file = [];
        random = some (map random_frame (range pool_size));
      }

  -- `FramePool.__init__`, where the sidecar and the frames may be absent.
  unfoldable pub frame_pool : Option Side → Option (List ℕ) → ℕ → ℕ → Bool → FramePool
  unfolding file_pool random_pool
  frame_pool (some side) (some file) per_frame count ordered =
      if (side.per_sample_bytes == per_frame) && ltb 0 side.count
      then file_pool side file per_frame count ordered
      else random_pool per_frame count
  frame_pool _ _ per_frame count ordered = random_pool per_frame count

abbrev pub or_index_error {ℓ} : {A : Type ℓ} → Option A → Outcome A
or_index_error none = raise index_error
or_index_error (some a) = return a

-- The frame at an index: from the random ones, or by a seek in the file.
abbrev pub frame_at : Option (List (List ℕ)) → FramePool → ℕ → Outcome (List ℕ)
frame_at (some frames) pool index = or_index_error (get_elem? frames index)
frame_at none pool index = return (take pool.per_frame (drop (index * pool.per_frame) pool.file))

abbrev pub with_index : Option ℕ → FramePool → Outcome (ℕ × List ℕ)
with_index none pool = raise index_error
with_index (some index) pool = frame_at pool.random pool index >>= λ frame. return (index, frame)

-- `FramePool.read`
unfoldable pub read : FramePool → ℕ → Outcome (ℕ × List ℕ)
read pool i =
    if length pool.indices == 0
    then raise zero_division_error
    else with_index (get_elem? pool.indices (i % length pool.indices)) pool
