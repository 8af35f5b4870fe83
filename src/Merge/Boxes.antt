-- ===== src/Merge/Boxes.antt =====
-- Boxes and their overlap: tiled_shard.py, `TileDetections` to `_projection_iou`.
use symphony_akida.Prelude.{ℕ, Bool, true, false, ◌&&◌, List, [], ◌∷◌, ◌++◌, if◌then◌else◌}
use symphony_akida.Tiles.{Tile, seam_sides}

-- The float operations that the code uses.
pub record Floats {ℓ} (F : Type ℓ) : Type ℓ where
  pub zero_f : F
  pub one_f : F
  pub of_nat : ℕ → F
  pub add : F → F → F
  pub sub : F → F → F
  pub mul : F → F → F
  pub div : F → F → F
  pub max_f : F → F → F
  pub min_f : F → F → F
  pub le : F → F → Bool
  pub lt : F → F → Bool

-- A box as xyxy.
pub record Box {ℓ} (F : Type ℓ) : Type ℓ where
  pub x_low : F
  pub y_low : F
  pub x_high : F
  pub y_high : F

-- An axis: 0 is x and 1 is y.
pub data Axis : Type 0 where
  axis_x axis_y : Axis

-- Which edge of an axis: 0 is low and 1 is high.
pub data Edge : Type 0 where
  low_edge high_edge : Edge

abbrev pub low_of {ℓ} : {F : Type ℓ} → Box F → Axis → F
low_of b axis_x = b.x_low
low_of b axis_y = b.y_low

abbrev pub high_of {ℓ} : {F : Type ℓ} → Box F → Axis → F
high_of b axis_x = b.x_high
high_of b axis_y = b.y_high

abbrev pub across : Axis → Axis
across axis_x = axis_y
across axis_y = axis_x

module _ {ℓ} {F : Type ℓ} (f : Floats F) where
  -- `np.clip(side, 0.0, None)`
  abbrev pub clip_low : F → F
  clip_low a = f.max_f a f.zero_f

  abbrev pub side : Box F → Box F → Axis → F
  side a b axis =
      clip_low (
        f.sub (f.min_f (high_of a axis) (high_of b axis)) (f.max_f (low_of a axis) (low_of b axis)))

  -- `_pairwise_areas`, for one pair: the intersection and the two areas.
  unfoldable pub area : Box F → F
  area a = f.mul (clip_low (f.sub a.x_high a.x_low)) (clip_low (f.sub a.y_high a.y_low))

  unfoldable pub intersection : Box F → Box F → F
  intersection a b = f.mul (side a b axis_x) (side a b axis_y)

  -- An entry of `iou_matrix`.
  unfoldable pub iou : Box F → Box F → F
  unfolding area intersection
  iou a b =
      let union = f.sub (f.add (area a) (area b)) (intersection a b) in
      if f.lt f.zero_f union then f.div (intersection a b) union else f.zero_f

  -- An entry of `ios_matrix`: the fraction of `b` that lies inside `a`.
  unfoldable pub ios : Box F → Box F → F
  unfolding area intersection
  ios a b = if f.lt f.zero_f (area b) then f.div (intersection a b) (area b) else f.zero_f

  -- `tile_boxes_to_frame`, for one box.
  unfoldable pub tile_box_to_frame : Tile → ℕ → Box F → Box F
  tile_box_to_frame tile frame_size b =
      let scale = f.div (f.of_nat tile.size) (f.of_nat frame_size) in
      let dx = f.div (f.of_nat tile.x0) (f.of_nat frame_size) in
      let dy = f.div (f.of_nat tile.y0) (f.of_nat frame_size) in
      record {
        x_low = f.add (f.mul b.x_low scale) dx;
        y_low = f.add (f.mul b.y_low scale) dy;
        x_high = f.add (f.mul b.x_high scale) dx;
        y_high = f.add (f.mul b.y_high scale) dy;
      }

  -- Whether the box comes within `edge_eps` of that side of the tile.
  abbrev pub touching : F → Box F → Axis → Edge → Bool
  touching edge_eps b axis low_edge = f.le (low_of b axis) edge_eps
  touching edge_eps b axis high_edge = f.le (f.sub f.one_f edge_eps) (high_of b axis)

  abbrev pub when : Bool → Axis → Edge → List (Axis × Edge)
  when true axis edge = (axis, edge) ∷ []
  when false axis edge = []

  -- `seam_truncations`, for one box: the edges at which an interior seam cuts it off.
  unfoldable pub seam_truncations : Tile → ℕ → F → Box F → List (Axis × Edge)
  unfolding seam_sides
  seam_truncations tile frame_size edge_eps b =
      let seams = seam_sides tile frame_size in
      when (seams.left && touching edge_eps b axis_x low_edge) axis_x low_edge
      ++ (when (seams.right && touching edge_eps b axis_x high_edge) axis_x high_edge
          ++ (when (seams.top && touching edge_eps b axis_y low_edge) axis_y low_edge
              ++ when (seams.bottom && touching edge_eps b axis_y high_edge) axis_y high_edge))

  -- `_projection_iou`
  unfoldable pub projection_iou : Box F → Box F → Axis → F
  projection_iou a b axis =
      let overlap = side a b axis in
      let extent_a = f.max_f (f.sub (high_of a axis) (low_of a axis)) f.zero_f in
      let extent_b = f.max_f (f.sub (high_of b axis) (low_of b axis)) f.zero_f in
      let union = f.sub (f.add extent_a extent_b) overlap in
      if f.lt f.zero_f union then f.div overlap union else f.zero_f

  -- `_fragments_join`, with `_SEAM_TOL` as `seam_tol`.
  unfoldable pub fragments_join : F → F → Box F → Box F → Axis → Bool
  unfolding projection_iou
  fragments_join seam_tol seam_iou box_low box_high axis =
      if f.lt (f.add (low_of box_high axis) seam_tol) (low_of box_low axis)
      then false
      else if f.lt (f.add (high_of box_high axis) seam_tol) (high_of box_low axis)
      then false
      else if f.lt (high_of box_low axis) (f.sub (low_of box_high axis) seam_tol)
      then false
      else f.le seam_iou (projection_iou box_low box_high (across axis))
