-- ===== src/Tiles/Cover.antt =====
-- The layouts of `make_tile_layout`: they stay inside the frame, leave no gap, and have as many
-- tiles as the client expects.
use Prim.Native.String.{String}
use symphony_akida.Prelude.{
  ℕ, ◌-◌, ◌*◌, ◌≤◌, ◌<◌, ◌≡◌, refl, ◌⊎◌, inl, inr, List, [], ◌∷◌, ◌++◌, length, All, Any, arith,
  dec_lt,
}
use symphony_akida.Prelude.Outcome.{return}
use symphony_akida.Prelude.Dict.{text_exclusive}
use symphony_akida.Tiles.{Tile, x1, y1, quadrants, global_tile, make_tile_layout, tile_count}

-- The tile is inside the frame.
abbrev pub Fits : ℕ → Tile → Type 0
Fits frame_size t = (x1 t ≤ frame_size) × (y1 t ≤ frame_size)

-- The tile holds the pixel at column `px` and row `py`.
abbrev pub Holds : ℕ → ℕ → Tile → Type 0
Holds px py t = (t.x0 ≤ px) × (px < x1 t) × (t.y0 ≤ py) × (py < y1 t)

-- Every tile of a layout that `make_tile_layout` returns lies inside the frame.
pub make_tile_layout-Fits :
    (layout : String) (frame_size tile_size : ℕ) {tiles : List Tile}
    → make_tile_layout layout frame_size tile_size ≡ return tiles
    → All (Fits frame_size) tiles
unfolding make_tile_layout
make_tile_layout-Fits layout frame_size tile_size e = ground arith

-- Four quadrants of at least half the frame's side reach every pixel.
quadrants-Holds :
    (frame_size tile_size px py : ℕ)
    → tile_size ≤ frame_size
    → frame_size ≤ 2 * tile_size
    → px < frame_size
    → py < frame_size
    → Any (Holds px py) (quadrants (frame_size - tile_size) tile_size)
quadrants-Holds frame_size tile_size px py fits wide hx hy = elim (dec_lt px tile_size) [
  | yes left ↦ elim (dec_lt py tile_size) [
    | yes top ↦ inl (omega arith)
    | no bottom ↦ inr (inr (inl (omega arith)))
  ]
  | no right ↦ elim (dec_lt py tile_size) [
    | yes top ↦ inr (inl (omega arith))
    | no bottom ↦ inr (inr (inr (inl (omega arith))))
  ]
]

Any-append_left {ℓ} : {A : Type ℓ} (P : A → Type 0) (xs ys : List A) → Any P xs → Any P (xs ++ ys)
Any-append_left P [] ys h = absurd h
Any-append_left P (x ∷ xs) ys (inl h) = inl h
Any-append_left P (x ∷ xs) ys (inr h) = inr (Any-append_left P xs ys h)

-- What a returned layout is: the frame itself, or quadrants without a gap and then more tiles.
layout_cases :
    (layout : String) (frame_size tile_size : ℕ) (tiles : List Tile)
    → make_tile_layout layout frame_size tile_size ≡ return tiles
    → (tiles ≡ global_tile "whole" frame_size)
      ⊎ ((rest : List Tile) × (tiles ≡ quadrants (frame_size - tile_size) tile_size ++ rest)
          × (tile_size ≤ frame_size)
          × (frame_size ≤ 2 * tile_size))
unfolding make_tile_layout
layout_cases layout frame_size tile_size tiles e = ground arith

-- Every pixel of the frame lies in a tile of every layout that is returned.
pub make_tile_layout-Holds :
    (layout : String) (frame_size tile_size px py : ℕ) (tiles : List Tile)
    → make_tile_layout layout frame_size tile_size ≡ return tiles
    → px < frame_size
    → py < frame_size
    → Any (Holds px py) tiles
make_tile_layout-Holds layout frame_size tile_size px py tiles e hx hy =
    elim (layout_cases layout frame_size tile_size tiles e) [
      | inl whole ↦ rw whole (inl (omega arith))
      | inr (rest, split, fits, wide) ↦ rw split (
          Any-append_left (Holds px py) (quadrants (frame_size - tile_size) tile_size) rest
            (quadrants-Holds frame_size tile_size px py fits wide hx hy))
    ]

-- The client's table gives the number of tiles that the services make, for every layout name and
-- every size that the services accept.
pub tile_count-length :
    (layout : String) (frame_size tile_size : ℕ) (tiles : List Tile)
    → make_tile_layout layout frame_size tile_size ≡ return tiles
    → tile_count layout ≡ return (length tiles)
unfolding make_tile_layout tile_count
tile_count-length layout frame_size tile_size tiles e = ground (
  arith,
  text_exclusive layout "whole" "quadrants_center" refl,
  text_exclusive layout "quadrants_global" "quadrants_center" refl,
  text_exclusive layout "quadrants_center_global" "quadrants_center" refl,
  text_exclusive layout "quadrants_center_global" "quadrants_global" refl,
)
