-- ===== src/Merge/Whole.antt =====
-- The whole merge: tiled_shard.py, `_empty_detections` and `merge_tile_detections`.
pub mod Result
use symphony_akida.Prelude.{
  ℕ, zero, suc, ◌+◌, ◌-◌, Bool, true, false, not, ◌&&◌, List, [], ◌∷◌, Option, none, some, ltb,
  ◌==◌, length, take, range, if◌then◌else◌,
}
use symphony_akida.Prelude.Outcome.{Outcome, return, raise, value_error}
use symphony_akida.Tiles.{Tile}
use symphony_akida.Merge.Boxes.{Floats, Box, Axis, Edge, tile_box_to_frame, seam_truncations}
use symphony_akida.Merge.Suppress.{Detections, index, Sorting, per_class_nms, suppress_contained}
use symphony_akida.Merge.Fuse.{is_cut, fuse_seam_fragments}

-- One tile's detections, in the tile's own coordinates.
pub record TileEntry (F : Type 0) : Type 0 where
  pub num : ℕ
  pub boxes : ℕ → Box F
  pub scores : ℕ → F
  pub labels : ℕ → ℕ
  pub classes : Option (ℕ → List F)

-- The arguments of the merge.
pub record Settings (F : Type 0) : Type 0 where
  pub nms_iou : F
  pub ios_thresh : F
  pub seam_iou : F
  pub seam_tol : F
  pub edge_eps : F
  pub fuse_seams : Bool
  pub prefer_complete : Bool
  pub only_truncated_victims : Bool
  pub clip : Bool
  pub max_boxes : Option ℕ
  pub truncated_penalty : F

-- What the loop over the tiles collects. The classes have a length of their own: a tile without
-- classes adds none.
pub record Collected (F : Type 0) : Type 0 where
  pub num : ℕ
  pub boxes : ℕ → Box F
  pub scores : ℕ → F
  pub labels : ℕ → ℕ
  pub tile_ids : ℕ → ℕ
  pub seams : ℕ → List (Axis × Edge)
  pub class_num : ℕ
  pub classes : ℕ → List F
  pub has_classes : Bool

-- `np.concatenate`, of an array of `n` entries and another.
abbrev pub join_at : {A : Type 0} → ℕ → (ℕ → A) → (ℕ → A) → ℕ → A
join_at n a b k = if ltb k n then a k else b (k - n)

abbrev pub is_given : {A : Type 0} → Option A → Bool
is_given none = false
is_given (some a) = true

abbrev pub rows_of : {F : Type 0} → Option (ℕ → List F) → ℕ → List F
rows_of none k = []
rows_of (some rows) k = rows k

-- `_empty_detections`, by whether the number of classes is known.
unfoldable pub empty_detections : {F : Type 0} → Floats F → Bool → Detections F
empty_detections {F} f has_classes =
    let blank : Box F = record {
      x_low = f.zero_f;
      y_low = f.zero_f;
      x_high = f.zero_f;
      y_high = f.zero_f;
    } in
    record {
      num = 0;
      boxes = λ k. blank;
      scores = λ k. f.zero_f;
      labels = λ k. 0;
      classes = if has_classes then some (λ k. []) else none;
      tile_ids = λ k. 0;
      truncated = some (λ k. false);
    }

module _ {F : Type 0} (f : Floats F) (np : Sorting F) (frame_size : ℕ) (s : Settings F) where
  abbrev pub nothing_collected : Collected F
  nothing_collected = record {
    num = 0;
    boxes =
        λ k. record { x_low = f.zero_f; y_low = f.zero_f; x_high = f.zero_f; y_high = f.zero_f };
    scores = λ k. f.zero_f;
    labels = λ k. 0;
    tile_ids = λ k. 0;
    seams = λ k. [];
    class_num = 0;
    classes = λ k. [];
    has_classes = false;
  }

  -- The body of the loop, before what the later tiles add.
  unfoldable pub add_entry : ℕ → Tile → TileEntry F → Collected F → Collected F
  unfolding tile_box_to_frame seam_truncations
  add_entry tile_id tile entry rest =
      if entry.num == 0
      then record rest { has_classes = if is_given entry.classes then true else rest.has_classes }
      else record {
        num = entry.num + rest.num;
        boxes =
            join_at entry.num (λ k. tile_box_to_frame f tile frame_size (entry.boxes k)) rest.boxes;
        scores = join_at entry.num entry.scores rest.scores;
        labels = join_at entry.num entry.labels rest.labels;
        tile_ids = join_at entry.num (λ k. tile_id) rest.tile_ids;
        seams =
            join_at entry.num (λ k. seam_truncations f tile frame_size s.edge_eps (entry.boxes k))
              rest.seams;
        class_num = if is_given entry.classes then entry.num + rest.class_num else rest.class_num;
        classes =
            if is_given entry.classes
            then join_at entry.num (rows_of entry.classes) rest.classes
            else rest.classes;
        has_classes = if is_given entry.classes then true else rest.has_classes;
      }

  unfoldable pub collect : ℕ → List Tile → List (TileEntry F) → Collected F
  unfolding add_entry
  collect tile_id [] entries = nothing_collected
  collect tile_id (t ∷ ts) [] = nothing_collected
  collect tile_id (t ∷ ts) (e ∷ es) = add_entry tile_id t e (collect (tile_id + 1) ts es)

  abbrev pub pooled : Collected F → Detections F
  pooled c = record {
    num = c.num;
    boxes = c.boxes;
    scores = c.scores;
    labels = c.labels;
    classes = if c.class_num == 0 then none else some c.classes;
    tile_ids = c.tile_ids;
    truncated = some (λ k. is_cut (c.seams k));
  }

  -- Fusion, suppression of what is contained, and per-class NMS.
  unfoldable pub suppress : (ℕ → List (Axis × Edge)) → Detections F → Detections F
  unfolding fuse_seam_fragments suppress_contained per_class_nms
  suppress seams d =
      let fused = if s.fuse_seams then fuse_seam_fragments f s.seam_tol s.seam_iou d seams else d in
      let free =
        if f.le s.ios_thresh f.one_f
        then suppress_contained f np s.ios_thresh s.prefer_complete s.only_truncated_victims fused
        else fused in
      per_class_nms f np s.nms_iou s.prefer_complete free

  abbrev pub clip_unit : F → F
  clip_unit a = f.min_f (f.max_f a f.zero_f) f.one_f

  abbrev pub clip_box : Box F → Box F
  clip_box b = record {
    x_low = clip_unit b.x_low;
    y_low = clip_unit b.y_low;
    x_high = clip_unit b.x_high;
    y_high = clip_unit b.y_high;
  }

  abbrev pub has_area : Box F → Bool
  has_area b = f.lt f.zero_f (f.sub b.x_high b.x_low) && f.lt f.zero_f (f.sub b.y_high b.y_low)

  -- The indices where a mask is true.
  abbrev pub where_true : (ℕ → Bool) → List ℕ → List ℕ
  where_true mask [] = []
  where_true mask (k ∷ ks) = let rest = where_true mask ks in if mask k then k ∷ rest else rest

  unfoldable pub clip_detections : Detections F → Detections F
  unfolding index
  clip_detections d =
      let clipped = record d { boxes = λ k. clip_box (d.boxes k) } in
      if s.clip
      then index clipped (where_true (λ k. has_area (clipped.boxes k)) (range d.num))
      else d

  -- `truncated_penalty != 1.0`, by the order.
  abbrev pub is_one : F → Bool
  is_one a = f.le a f.one_f && f.le f.one_f a

  abbrev pub penalise : Option (ℕ → Bool) → Detections F → Detections F
  penalise none d = d
  penalise (some truncated) d = if is_one s.truncated_penalty then d else record d {
    scores = λ k. f.mul (d.scores k) (if truncated k then s.truncated_penalty else f.one_f);
  }

  abbrev pub at_most : Option ℕ → List ℕ → List ℕ
  at_most none order = order
  at_most (some n) order = take n order

  unfoldable pub rank : Detections F → Detections F
  unfolding index
  rank d = index d (at_most s.max_boxes (np.argsort d.num d.scores))

  unfoldable pub finish : Detections F → Detections F
  unfolding clip_detections rank
  finish d = let clipped = clip_detections d in rank (penalise clipped.truncated clipped)

  -- `merge_tile_detections`
  unfoldable pub merge_tile_detections : List (TileEntry F) → List Tile → Outcome (Detections F)
  unfolding collect suppress finish empty_detections
  merge_tile_detections per_tile tiles =
      let c = collect 0 tiles per_tile in
      if not (length per_tile == length tiles)
      then raise value_error
      else if c.num == 0
      then return (empty_detections f c.has_classes)
      else return (finish (suppress c.seams (pooled c)))
