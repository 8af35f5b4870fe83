-- ===== src/Kit.antt =====
-- The reader of the test kits: src/common/testkit.py. A file is its bytes; what numpy and zipfile
-- read of them are parameters.
pub mod Slices
pub mod Member
use Prim.Native.String.{String}
use symphony_akida.Prelude.{
  ℕ, zero, suc, ◌+◌, ◌-◌, ◌*◌, Bool, true, false, not, ◌||◌, List, [], ◌∷◌, map, Option, none, some,
  ◌==◌, length, get_elem?, take, drop, if◌then◌else◌,
}
use symphony_akida.Prelude.Outcome.{
  Outcome, return, raise, ◌>>=◌, ◌>>◌, require, or_raise, key_error, index_error, value_error,
  struct_error, type_error,
}
use symphony_akida.Merge.Boxes.{Floats, Box}
use symphony_akida.Wire.Stream.{Bytes}

-- A numpy array: whether its dtype is uint8, its shape, and the bytes of each entry of its first
-- axis in C order.
pub record Array : Type 0 where
  pub is_uint8 : Bool
  pub shape : List ℕ
  pub rows : List Bytes

-- Detections or annotations of all frames, packed into arrays with the frames' offsets.
pub data Prefix : Type 0 where
  ann ref : Prefix

-- What `np.load` opens, each array of a kit with its contents where it is there.
pub record Npz (F : Type 0) : Type 0 where
  pub arrays : List (String × Array)
  pub labels : Option (List String)
  pub raw_shapes : Option (List (ℕ × ℕ))
  pub max_boxes : Option ℕ
  pub offsets : Prefix → Option (List ℕ)
  pub boxes : Prefix → Option (List (Box F))
  pub box_labels : Prefix → Option (List ℕ)
  pub ref_scores : Option (List F)
  pub ref_truncated : Option (List Bool)
  pub map50_target : Option F
  pub map75_target : Option F
  pub map_target : Option F

-- `zipfile`'s entry for a member.
pub record Info : Type 0 where
  pub is_stored : Bool
  pub header_offset : ℕ

-- The parts of numpy and of zipfile that the reader calls. A reader of a header is given the file
-- and the position of its handle, and also returns the position after it.
pub record Libraries (F H : Type 0) : Type 0 where
  pub load : Bytes → Outcome (Npz F)
  pub getinfo : Bytes → String → Outcome Info
  pub read_magic : Bytes → ℕ → Outcome ((ℕ × ℕ) × ℕ)
  pub read_array_header_1_0 : Bytes → ℕ → Outcome (H × ℕ)
  pub read_array_header_2_0 : Bytes → ℕ → Outcome (H × ℕ)
  pub memmap : Bytes → H → ℕ → Outcome Array

-- `struct.unpack("<HH", ...)`
unfoldable pub unpack_two : Bytes → Outcome (ℕ × ℕ)
unpack_two (a ∷ b ∷ c ∷ d ∷ []) = return (a + 256 * b, c + 256 * d)
unpack_two _ = raise struct_error

-- Where the local header of a member ends: `handle.read(30)[26:30]` holds the lengths of the name
-- and of the extra field.
unfoldable pub member_start : Bytes → ℕ → Outcome ℕ
unfolding unpack_two
member_start file header_offset =
    unpack_two (take 4 (drop 26 (take 30 (drop header_offset file)))) >>= λ (name_len, extra_len).
    return (header_offset + 30 + name_len + extra_len)

module _ {F H : Type 0} (lib : Libraries F H) where
  -- `_HEADER_READERS`
  abbrev pub header_reader : ℕ × ℕ → Option (Bytes → ℕ → Outcome (H × ℕ))
  header_reader (major, minor) =
      if major == 1
      then (if minor == 0 then some lib.read_array_header_1_0 else none)
      else if major == 2
      then (if minor == 0 then some lib.read_array_header_2_0 else none)
      else none

  -- From the start of the member's bytes.
  unfoldable pub map_from : Bytes → ℕ → Outcome Array
  map_from file start = lib.read_magic file start >>= λ (version, after_magic).
      or_raise (header_reader version) value_error >>= λ reader.
      reader file after_magic >>= λ (header, offset). lib.memmap file header offset

  -- `_map_member`
  unfoldable pub map_member : Bytes → String → Outcome Array
  unfolding member_start map_from
  map_member file member = lib.getinfo file member >>= λ info.
      require info.is_stored value_error >> (member_start file info.header_offset >>= map_from file)

pub record TestKit (F : Type 0) : Type 0 where
  pub npz : Npz F
  pub frames : Array
  pub count : ℕ
  pub labels : List String
  pub raw_shapes : List (ℕ × ℕ)
  pub has_ground_truth : Bool
  pub has_reference : Bool

-- `len(array)`
abbrev pub len_of : List ℕ → Outcome ℕ
len_of [] = raise type_error
len_of (n ∷ dims) = return n

abbrev pub is_given {ℓ} : {A : Type ℓ} → Option A → Bool
is_given none = false
is_given (some a) = true

-- `TestKit.__init__`
unfoldable pub open_kit : {F H : Type 0} → Libraries F H → Bytes → Outcome (TestKit F)
unfolding map_member
open_kit lib file = lib.load file >>= λ npz. map_member lib file "frames.npy" >>= λ frames.
    len_of frames.shape >>= λ count. or_raise npz.labels key_error >>= λ labels.
    or_raise npz.raw_shapes key_error >>= λ raw_shapes. return (record {
      npz = npz;
      frames = frames;
      count = count;
      labels = labels;
      raw_shapes = raw_shapes;
      has_ground_truth = is_given (npz.offsets ann);
      has_reference = is_given (npz.offsets ref);
    })

-- `array[lo:hi]`
abbrev pub slice {ℓ} : {A : Type ℓ} → List A → ℕ → ℕ → List A
slice xs lo hi = drop lo (take hi xs)

-- What `_slice` returns: boxes, labels, and where they are.
pub record Slice (F : Type 0) : Type 0 where
  pub boxes : List (Box F)
  pub labels : List ℕ
  pub lo : ℕ
  pub hi : ℕ

-- What `reference` returns.
pub record Reference (F : Type 0) : Type 0 where
  pub boxes : List (Box F)
  pub scores : List F
  pub labels : List ℕ
  pub truncated : List Bool

module _ {F : Type 0} (f : Floats F) (kit : TestKit F) where
  -- `_slice`
  unfoldable pub slice_of : ℕ → Prefix → Outcome (Slice F)
  slice_of index prefix = or_raise (kit.npz.offsets prefix) key_error >>= λ offsets.
      or_raise (get_elem? offsets index) index_error >>= λ lo.
      or_raise (get_elem? offsets (index + 1)) index_error >>= λ hi.
      or_raise (kit.npz.boxes prefix) key_error >>= λ boxes.
      or_raise (kit.npz.box_labels prefix) key_error >>= λ labels.
      return (record { boxes = slice boxes lo hi; labels = slice labels lo hi; lo = lo; hi = hi })

  unfoldable pub annotations : ℕ → Outcome (List (Box F) × List ℕ)
  unfolding slice_of
  annotations index = slice_of index ann >>= λ s. return (s.boxes, s.labels)

  unfoldable pub reference : ℕ → Outcome (Reference F)
  unfolding slice_of
  reference index = slice_of index ref >>= λ s. or_raise kit.npz.ref_scores key_error >>= λ scores.
      or_raise kit.npz.ref_truncated key_error >>= λ truncated. return (record {
        boxes = s.boxes;
        scores = slice scores s.lo s.hi;
        labels = s.labels;
        truncated = slice truncated s.lo s.hi;
      })

  -- `targets`: none where a published figure is negative.
  unfoldable pub targets : Outcome (Option (F × F × F))
  targets = or_raise kit.npz.map50_target key_error >>= λ map50.
      or_raise kit.npz.map75_target key_error >>= λ map75.
      or_raise kit.npz.map_target key_error >>= λ map_all. return (
        if f.lt map50 f.zero_f || (f.lt map75 f.zero_f || f.lt map_all f.zero_f)
        then none
        else some (map50, map75, map_all))

-- `scale_to_raw`: a stretch on each axis.
unfoldable pub scale_to_raw : {F : Type 0} → Floats F → List (Box F) → ℕ × ℕ → List (Box F)
scale_to_raw f boxes (height, width) =
    map
      (λ b. record {
        x_low = f.mul b.x_low (f.of_nat width);
        y_low = f.mul b.y_low (f.of_nat height);
        x_high = f.mul b.x_high (f.of_nat width);
        y_high = f.mul b.y_high (f.of_nat height);
      })
      boxes
