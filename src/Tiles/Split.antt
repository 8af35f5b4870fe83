-- ===== src/Tiles/Split.antt =====
-- `split_frame` over the layouts of `make_tile_layout`: it never raises on a frame that the model
-- input divides, its crops have the model's input size, and the downscaled tile is a rounded mean.
use Prim.Native.String.{String}
use native.Mathlib.Nat.{div-lt_iff_lt-mul, lt-div-mul-add, div-mul-le_self, mod_self}
use symphony_akida.Prelude.{
  ℕ, zero, suc, ◌+◌, ◌*◌, ◌/◌, ◌%◌, ◌^◌, ◌≤◌, ◌<◌, ◌≡◌, ◌≢◌, refl, sym, ap, List, [], ◌∷◌, length,
  All, arith, ==_iff, ◌==◌,
}
use symphony_akida.Prelude.Outcome.{
  return, Returns, require, value_error, Ensures, Ensures-bind, Ensures-any,
}
use symphony_akida.Tiles.{
  Tile, Image, make_tile_layout, crop_at, sum_below, block_sum, rounded_mean, resize_down, cut_tile,
  cut_tiles, split_frame,
}
use symphony_akida.Tiles.Cover.{Fits, make_tile_layout-Fits}

-- `n` values up to `top` sum to at most `n` times `top`, and to at least `n` times a lower bound.
sum_below_bounds :
    (n lo hi : ℕ) (f : ℕ → ℕ)
    → ((i : ℕ) → (lo ≤ f i) × (f i ≤ hi))
    → (n * lo ≤ sum_below n f) × (sum_below n f ≤ n * hi)
unfolding sum_below
sum_below_bounds zero lo hi f h = omega arith
sum_below_bounds (suc n) lo hi f h = omega (arith, sum_below_bounds n lo hi f h, h n)

block_sum_bounds :
    (crop : Image) (k row col channel lo hi : ℕ)
    → ((r c : ℕ) → (lo ≤ crop.pixel r c channel) × (crop.pixel r c channel ≤ hi))
    → (k * (k * lo) ≤ block_sum crop k row col channel)
      × (block_sum crop k row col channel ≤ k * (k * hi))
unfolding block_sum
block_sum_bounds crop k row col channel lo hi h = sum_below_bounds k (k * lo) (k * hi) _ λ a.
    sum_below_bounds k lo hi (λ b. crop.pixel (row * k + a) (col * k + b) channel)
      λ b. h (row * k + a) (col * k + b)

rounded_exact :
    (q total : ℕ)
    → 0 < q
    → q ≤ 16777216
    → total ≤ q * 255
    → ((total % 2 ^ 32 + q / 2) % 2 ^ 32 / q) % 256 ≡ (total + q / 2) / q
rounded_exact q total pos small h =
    let a : total % 2 ^ 32 ≡ total = omega arith in
    let b : (total + q / 2) % 2 ^ 32 ≡ total + q / 2 = omega arith in
    let c : (total + q / 2) / q < 256 = (div-lt_iff_lt-mul pos).1 (omega arith) in
    rw (a, b) (omega arith)

-- For a factor of at most 4096, neither the uint32 sum nor the cast to uint8 wraps.
rounded_mean_exact :
    (k total : ℕ)
    → 0 < k
    → k ≤ 4096
    → total ≤ k * (k * 255)
    → rounded_mean k total ≡ (total + k * k / 2) / (k * k)
unfolding rounded_mean
rounded_mean_exact k total pos small h =
    rounded_exact (k * k) total (grind arith) (grind arith) (omega arith)

-- Each pixel of a frame downscaled by a factor of 2 to 4096 is the mean of its block, rounded to
-- the nearest: times the size of the block it is at most half of that size away from the sum.
pub resize_down_mean :
    (crop : Image) (input_size row col channel : ℕ) {out : Image}
    → ((r c : ℕ) → crop.pixel r c channel ≤ 255)
    → crop.height / input_size ≢ 1
    → 0 < crop.height / input_size
    → crop.height / input_size ≤ 4096
    → resize_down crop input_size ≡ return out
    → let k = crop.height / input_size in
      (out.pixel row col channel * (k * k) ≤ block_sum crop k row col channel + k * k / 2)
      × (block_sum crop k row col channel + k * k / 2 < out.pixel row col channel * (k * k) + k * k)
unfolding resize_down
resize_down_mean crop input_size row col channel {out} bytes several pos small e =
    let k = crop.height / input_size in
    let total = block_sum crop k row col channel in
    let fits =
      (block_sum_bounds crop k row col channel 0 255 (λ r c. (omega arith, bytes r c))).1 in
    let exact = rounded_mean_exact k total pos small fits in
    let value : out.pixel row col channel ≡ rounded_mean k total = ground arith in
    let q : 0 < k * k = grind arith in
    rw (value, exact) (div-mul-le_self (total + k * k / 2) (k * k), lt-div-mul-add q)

-- A square crop that the input size divides comes out with the input size.
resize_down-size :
    (crop : Image) (input_size : ℕ)
    → 0 < input_size
    → crop.height % input_size ≡ 0
    → crop.width ≡ crop.height
    → Returns
        (λ out. (out.height ≡ input_size) × (out.width ≡ input_size))
        (resize_down crop input_size)
unfolding resize_down
resize_down-size crop input_size pos divides square = ground arith

abbrev pub IsSized : ℕ → Image → Type 0
IsSized input_size crop = (crop.height ≡ input_size) × (crop.width ≡ input_size)

cut_tile-IsSized :
    (frame : Image) (input_size : ℕ) (t : Tile)
    → 0 < input_size
    → Fits frame.height t
    → t.size % input_size ≡ 0
    → Returns (IsSized input_size) (cut_tile frame input_size t)
unfolding cut_tile
cut_tile-IsSized frame input_size t pos fits divides =
    ground (arith, resize_down-size (crop_at frame t) input_size pos divides refl)

abbrev pub IsCut : ℕ → List Tile → List Image → Type 0
IsCut input_size tiles crops = (length crops ≡ length tiles) × All (IsSized input_size) crops

cut_tiles-IsCut :
    (frame : Image) (input_size : ℕ) (tiles : List Tile)
    → 0 < input_size
    → All (Fits frame.height) tiles
    → All (λ t. t.size % input_size ≡ 0) tiles
    → Returns (IsCut input_size tiles) (cut_tiles frame input_size tiles)
unfolding cut_tiles
cut_tiles-IsCut frame input_size [] pos fits divides = (refl, tt)
cut_tiles-IsCut frame input_size (t ∷ ts) pos fits divides = ground (
  arith,
  cut_tile-IsSized frame input_size t pos fits.0 divides.0,
  cut_tiles-IsCut frame input_size ts pos fits.1 divides.1,
)

layout-divides :
    (layout : String) (frame_size tile_size : ℕ) (tiles : List Tile)
    → make_tile_layout layout frame_size tile_size ≡ return tiles
    → frame_size % tile_size ≡ 0
    → tile_size % tile_size ≡ 0
    → All (λ t. t.size % tile_size ≡ 0) tiles
unfolding make_tile_layout
layout-divides layout frame_size tile_size tiles e whole tile = ground arith

-- On a square frame that the tile size divides, `split_frame` with the tiles of any layout that
-- `make_tile_layout` returns does not raise: it makes one crop for each tile, each of the
-- model's input size.
pub split_frame-IsCut :
    (frame : Image) (layout : String) (tile_size : ℕ) (tiles : List Tile)
    → make_tile_layout layout frame.height tile_size ≡ return tiles
    → frame.width ≡ frame.height
    → 0 < tile_size
    → frame.height % tile_size ≡ 0
    → Returns (IsCut tile_size tiles) (split_frame frame tiles tile_size)
unfolding split_frame
split_frame-IsCut frame layout tile_size tiles e square pos divides =
    let fits = make_tile_layout-Fits layout frame.height tile_size e in
    let sizes = layout-divides layout frame.height tile_size tiles e divides (mod_self tile_size) in
    rw ((==_iff frame.height frame.width).1 (sym square))
      (cut_tiles-IsCut frame tile_size tiles pos fits sizes)

cut_tiles-Ensures :
    (frame : Image) (input_size : ℕ) (tiles : List Tile)
    → Ensures (λ crops. length crops ≡ length tiles) (cut_tiles frame input_size tiles)
unfolding cut_tiles
cut_tiles-Ensures frame input_size [] = refl
cut_tiles-Ensures frame input_size (t ∷ ts) =
    Ensures-bind (λ crop. Unit) _ (cut_tile frame input_size t) _ (Ensures-any _)
      λ crop u.
        Ensures-bind (λ crops. length crops ≡ length ts) _ (cut_tiles frame input_size ts) _
          (cut_tiles-Ensures frame input_size ts) λ crops h. ap suc h

-- Where `split_frame` returns, it returns a crop for each tile.
pub split_frame-Ensures :
    (frame : Image) (input_size : ℕ) (tiles : List Tile)
    → Ensures (λ crops. length crops ≡ length tiles) (split_frame frame tiles input_size)
unfolding split_frame
split_frame-Ensures frame input_size tiles =
    Ensures-bind (λ u. Unit) _ (require (frame.height == frame.width) value_error) _ (Ensures-any _)
      λ u h. cut_tiles-Ensures frame input_size tiles
