-- ===== src/Tiles.antt =====
-- Tile geometry and frame splitting: src/common/tiled_shard.py, `Tile` to `split_frame`, and the
-- client's table of tile counts (src/apps/image-shard-inference/client/shard_client.py).
-- Frame coordinates are naturals, so `split_frame`'s guards `x0 < 0` and `y0 < 0` cannot fire.
pub mod Cover
pub mod Split
use Prim.Native.String.{String}
use text.Mathlib.Text.{◌==◌ as str_eq}
use symphony_akida.Prelude.{
  ℕ, zero, suc, ◌+◌, ◌-◌, ◌*◌, ◌/◌, ◌%◌, ◌^◌, Bool, true, false, not, ◌&&◌, ◌||◌, List, [], ◌∷◌,
  ◌++◌, Option, none, some, ltb, leb, ◌==◌, if◌then◌else◌,
}
use symphony_akida.Prelude.Outcome.{
  Outcome, return, raise, ◌>>=◌, ◌>>◌, require, value_error, zero_division_error, key_error,
}

pub record Tile : Type 0 where
  pub name : String
  pub x0 : ℕ
  pub y0 : ℕ
  pub size : ℕ

abbrev pub x1 : Tile → ℕ
x1 t = t.x0 + t.size

abbrev pub y1 : Tile → ℕ
y1 t = t.y0 + t.size

pub record SeamSides : Type 0 where
  pub left : Bool
  pub right : Bool
  pub top : Bool
  pub bottom : Bool

unfoldable pub seam_sides : Tile → ℕ → SeamSides
seam_sides t frame_size = record {
  left = ltb 0 t.x0;
  right = ltb (x1 t) frame_size;
  top = ltb 0 t.y0;
  bottom = ltb (y1 t) frame_size;
}

is_layout : String → Bool
is_layout l =
    str_eq l "quadrants_center"
    || (str_eq l "quadrants_global" || (str_eq l "quadrants_center_global" || str_eq l "whole"))

abbrev pub quadrants : ℕ → ℕ → List Tile
quadrants step size =
    record { name = "top_left"; x0 = 0; y0 = 0; size = size }
    ∷ record { name = "top_right"; x0 = step; y0 = 0; size = size }
    ∷ record { name = "bottom_left"; x0 = 0; y0 = step; size = size }
    ∷ record { name = "bottom_right"; x0 = step; y0 = step; size = size }
    ∷ []

abbrev center_tile : ℕ → ℕ → List Tile
center_tile offset size = record { name = "center"; x0 = offset; y0 = offset; size = size } ∷ []

abbrev pub global_tile : String → ℕ → List Tile
global_tile name frame_size = record { name = name; x0 = 0; y0 = 0; size = frame_size } ∷ []

unfoldable pub make_tile_layout : String → ℕ → ℕ → Outcome (List Tile)
unfolding is_layout
make_tile_layout layout frame_size tile_size =
    if not (is_layout layout)
    then raise value_error
    else if str_eq layout "whole"
    then return (global_tile "whole" frame_size)
    else if not (ltb 0 tile_size && leb tile_size frame_size)
    then raise value_error
    else if ltb (2 * tile_size) frame_size
    then raise value_error
    else return (
        quadrants (frame_size - tile_size) tile_size
        ++ ((if str_eq layout "quadrants_center" || str_eq layout "quadrants_center_global"
              then center_tile ((frame_size - tile_size) / 2) tile_size
              else [])
            ++ (if str_eq layout "quadrants_global" || str_eq layout "quadrants_center_global"
                then global_tile "global" frame_size
                else [])))

-- The client's `_tile_count`: it only needs how many tiles the services will make.
unfoldable pub tile_count : String → Outcome ℕ
tile_count layout =
    if str_eq layout "whole"
    then return 1
    else if str_eq layout "quadrants_center"
    then return 5
    else if str_eq layout "quadrants_global"
    then return 5
    else if str_eq layout "quadrants_center_global"
    then return 6
    else raise key_error

-- A uint8 image array: its shape, and the value at (row, column, channel).
pub record Image : Type 0 where
  pub height : ℕ
  pub width : ℕ
  pub pixel : ℕ → ℕ → ℕ → ℕ

-- `frame[y0:y1, x0:x1]`, for a tile inside the frame.
unfoldable pub crop_at : Image → Tile → Image
crop_at frame t = record {
  height = t.size;
  width = t.size;
  pixel = λ row col channel. frame.pixel (t.y0 + row) (t.x0 + col) channel;
}

-- The sum of `f` over `range(n)`.
unfoldable pub sum_below : ℕ → (ℕ → ℕ) → ℕ
sum_below zero f = 0
sum_below (suc n) f = sum_below n f + f n

-- `blocks.sum(axis=(1, 3))`: one k × k block, before it wraps.
unfoldable pub block_sum : Image → ℕ → ℕ → ℕ → ℕ → ℕ
unfolding sum_below
block_sum crop k row col channel =
    sum_below k λ a. sum_below k λ b. crop.pixel (row * k + a) (col * k + b) channel

-- The uint32 sum is rounded to the mean of its block, and the quotient is cast to uint8.
unfoldable pub rounded_mean : ℕ → ℕ → ℕ
rounded_mean k total = ((total % 2 ^ 32 + k * k / 2) % 2 ^ 32 / (k * k)) % 256

unfoldable pub resize_down : Image → ℕ → Outcome Image
resize_down crop input_size =
    if input_size == 0
    then raise zero_division_error
    else if not (crop.height % input_size == 0)
    then raise value_error
    else if crop.height / input_size == 1
    then return crop
    else return (record {
      height = input_size;
      width = input_size;
      pixel = λ row col channel.
          rounded_mean (crop.height / input_size)
            (block_sum crop (crop.height / input_size) row col channel);
    })

-- The body of the loop of `split_frame`.
unfoldable pub cut_tile : Image → ℕ → Tile → Outcome Image
unfolding crop_at
cut_tile frame input_size t =
    if ltb frame.height (x1 t) || ltb frame.height (y1 t)
    then raise value_error
    else if not (t.size == input_size)
    then resize_down (crop_at frame t) input_size
    else return (crop_at frame t)

cut_tiles : Image → ℕ → List Tile → Outcome (List Image)
cut_tiles frame input_size [] = return []
cut_tiles frame input_size (t ∷ ts) = do
  crop ← cut_tile frame input_size t
  crops ← cut_tiles frame input_size ts
  return (crop ∷ crops)

unfoldable pub split_frame : Image → List Tile → ℕ → Outcome (List Image)
unfolding cut_tiles
split_frame frame tiles input_size = do
  require (frame.height == frame.width) value_error
  cut_tiles frame input_size tiles
