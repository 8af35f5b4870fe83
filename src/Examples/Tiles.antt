-- ===== src/Examples/Tiles.antt =====
-- The theorems on tiles, at the shipped geometry (448 and 224) and at a small one.
use symphony_akida.Prelude.{
  ℕ, zero, suc, ◌+◌, ◌*◌, ◌≤◌, ◌<◌, ◌≡◌, refl, List, ◌∷◌, ◌++◌, arith, Any,
}
use symphony_akida.Prelude.Outcome.{return, Returns}
use symphony_akida.Tiles.{
  Tile, quadrants, global_tile, make_tile_layout, Image, block_sum, rounded_mean, resize_down,
  split_frame,
}
use symphony_akida.Tiles.Cover.{Holds, make_tile_layout-Holds}
use symphony_akida.Tiles.Split.{IsCut, resize_down_mean, split_frame-IsCut}

abbrev shipped : List Tile
shipped =
    quadrants 224 224
    ++ record { name = "center"; x0 = 112; y0 = 112; size = 224 } ∷ global_tile "global" 448

shipped_lem : make_tile_layout "quadrants_center_global" 448 224 ≡ return shipped
unfolding make_tile_layout
shipped_lem = refl

make_tile_layout-Holds_example : Any (Holds 300 5) shipped
make_tile_layout-Holds_example =
    make_tile_layout-Holds "quadrants_center_global" 448 224 300 5 shipped shipped_lem (omega arith)
      (omega arith)

abbrev bright : ℕ → ℕ
bright zero = 200
bright (suc row) = 7

-- A frame of 4 × 4 pixels, 200 in its first row and 7 below.
abbrev small_frame : Image
small_frame = record { height = 4; width = 4; pixel = λ row col channel. bright row }

small_frame_bytes : (r c : ℕ) → small_frame.pixel r c 0 ≤ 255
small_frame_bytes zero c = omega arith
small_frame_bytes (suc r) c = omega arith

abbrev small_mean : Image
small_mean = record {
  height = 2;
  width = 2;
  pixel = λ row col channel. rounded_mean 2 (block_sum small_frame 2 row col channel);
}

resize_down_mean_example :
    (small_mean.pixel 0 1 0 * 4 ≤ block_sum small_frame 2 0 1 0 + 2)
    × (block_sum small_frame 2 0 1 0 + 2 < small_mean.pixel 0 1 0 * 4 + 4)
unfolding resize_down
resize_down_mean_example =
    resize_down_mean small_frame 2 0 1 0 {out = small_mean} small_frame_bytes
      (λ e. omega (arith, e)) (omega arith) (omega arith) refl

abbrev small_tiles : List Tile
small_tiles = quadrants 2 2 ++ global_tile "global" 4

split_frame-IsCut_example : Returns (IsCut 2 small_tiles) (split_frame small_frame small_tiles 2)
unfolding make_tile_layout
split_frame-IsCut_example =
    split_frame-IsCut small_frame "quadrants_global" 2 small_tiles refl refl (omega arith) refl
