-- ===== src/Verify.antt =====
-- The check of the shard pipeline against a kit's reference: scripts/verify_reference.py. The Akida
-- runtime is a parameter, and so is the equality of floats and of boxes.
pub mod Passes
use Prim.Native.String.{String}
use symphony_akida.Prelude.{
  ℕ, zero, suc, ◌+◌, ◌*◌, min, Bool, true, false, not, ◌&&◌, ◌||◌, List, [], ◌∷◌, map, Option, none,
  some, ◌==◌, length, get_elem?, range, if◌then◌else◌,
}
use symphony_akida.Prelude.Outcome.{
  Outcome, return, raise, ◌>>=◌, or_raise, index_error, value_error, zero_division_error,
}
use symphony_akida.Prelude.Dict.{Eq, string_eq, nat_eq}
use symphony_akida.Tiles.{Tile, Image, make_tile_layout, split_frame}
use symphony_akida.Merge.Boxes.{Floats, Box}
use symphony_akida.Merge.Suppress.{Detections, Sorting}
use symphony_akida.Merge.Whole.{TileEntry, merge_tile_detections}
use symphony_akida.Decode.{Maths, Output, Decoded, decode_tile}
use symphony_akida.Wire.Stream.{Bytes}
use symphony_akida.Kit.{TestKit, Reference, reference}
use symphony_akida.Stages.Bus.{ShardMeta, frombuffer}
use symphony_akida.Stages.Infer.{Numpy}

-- `==` of two lists, and of two arrays.
unfoldable pub same_list : {A : Type 0} → (A → A → Bool) → List A → List A → Bool
same_list eq [] [] = true
same_list eq (a ∷ more) (b ∷ others) = let rest = same_list eq more others in eq a b && rest
same_list eq _ _ = false

abbrev pub same_flag : Bool → Bool → Bool
same_flag true b = b
same_flag false b = not b

-- What the kit says of the model: its configuration, and its tiles by name, origin and size.
pub record Pinned (F : Type 0) : Type 0 where
  pub meta : ShardMeta F
  pub tiles : List Tile

-- Python's integers: `negsuc n` is `-(n + 1)`.
pub data ℤ : Type 0 where
  pos : ℕ → ℤ
  negsuc : ℕ → ℤ

-- How often the body of `for index in range(count)` runs.
abbrev pub rounds : ℤ → ℕ
rounds (pos n) = n
rounds (negsuc n) = 0

abbrev pub is_zero : ℤ → Bool
is_zero (pos n) = n == 0
is_zero (negsuc n) = false

module _ {F : Type 0} (eq_f : Eq F) (eq_box : Eq (Box F)) where
  abbrev pub same_pair : F × F → F × F → Bool
  same_pair a b = eq_f.beq a.0 b.0 && eq_f.beq a.1 b.1

  abbrev pub same_limit : Option ℕ → Option ℕ → Bool
  same_limit (some m) (some n) = m == n
  same_limit none none = true
  same_limit _ _ = false

  -- `check_meta`: every comparison of its list.
  unfoldable pub check_meta : ShardMeta F → ShardMeta F → Bool
  unfolding same_list
  check_meta meta npz =
      same_list string_eq.beq meta.class_names npz.class_names
      && (same_list same_pair meta.arguments.anchors npz.arguments.anchors
          && ((meta.frame_size == npz.frame_size)
              && ((meta.input_size == npz.input_size)
                  && (string_eq.beq meta.tile_layout npz.tile_layout
                      && (eq_f.beq meta.arguments.obj_threshold npz.arguments.obj_threshold
                          && (eq_f.beq meta.arguments.nms_threshold npz.arguments.nms_threshold
                              && (same_limit meta.max_boxes npz.max_boxes
                                  && (eq_f.beq meta.merge.nms_iou npz.merge.nms_iou
                                      && (eq_f.beq meta.merge.ios_thresh npz.merge.ios_thresh
                                          && (eq_f.beq meta.merge.seam_iou npz.merge.seam_iou
                                              && (eq_f.beq meta.merge.edge_eps npz.merge.edge_eps
                                                  && (same_flag meta.merge.fuse_seams
                                                        npz.merge.fuse_seams
                                                      && (same_flag meta.merge.prefer_complete
                                                            npz.merge.prefer_complete
                                                          && (same_flag
                                                            meta.merge.only_truncated_victims
                                                            npz.merge.only_truncated_victims
                                                            && (same_flag meta.merge.clip
                                                            npz.merge.clip
                                                            && eq_f.beq meta.merge.truncated_penalty
                                                            npz.merge.truncated_penalty)))))))))))))))

  -- `np.array_equal` of the four arrays.
  abbrev pub same_truncated : ℕ → Option (ℕ → Bool) → List Bool → Bool
  same_truncated num none want = false
  same_truncated num (some truncated) want = same_list same_flag (map truncated (range num)) want

  unfoldable pub same_frame : Detections F → Reference F → Bool
  unfolding same_list
  same_frame got want =
      same_list eq_box.beq (map got.boxes (range got.num)) want.boxes
      && (same_list eq_f.beq (map got.scores (range got.num)) want.scores
          && (same_list nat_eq.beq (map got.labels (range got.num)) want.labels
              && same_truncated got.num got.truncated want.truncated))

-- `(tile.name, tile.x0, tile.y0, tile.size)`, compared.
abbrev pub same_tile : Tile → Tile → Bool
same_tile a b =
    string_eq.beq a.name b.name && ((a.x0 == b.x0) && ((a.y0 == b.y0) && (a.size == b.size)))

-- The loop of `check_tiles` from a kit's tile on: where the kit has no such tile, its list of names
-- raises.
unfoldable pub check_tiles : List Tile → List Tile → Outcome Bool
check_tiles [] [] = return true
check_tiles [] (want ∷ wants) = return false
check_tiles (tile ∷ tiles) [] = raise index_error
check_tiles (tile ∷ tiles) (want ∷ wants) =
    check_tiles tiles wants >>= λ rest. return (same_tile tile want && rest)

-- What `decode_tile` returns, as an entry of the merge.
abbrev pub entry_of : {F : Type 0} → Decoded F → ℕ → TileEntry F
entry_of d num_classes = record {
  num = d.num;
  boxes = d.boxes;
  scores = d.scores;
  labels = d.labels;
  classes = some (λ k. map (d.classes k) (range num_classes));
}

module _ {F : Type 0} (f : Floats F) (maths : Maths F) (np : Numpy F) (sorting : Sorting F)
    (eq_f : Eq F) (eq_box : Eq (Box F)) (predict : List Image → Outcome (List (Output F)))
    (kit : TestKit F) (meta : ShardMeta F) where
  -- `anchor_pixel_sizes(...).max() > input_size`
  abbrev pub too_large : List (F × F) → Bool
  too_large [] = false
  too_large ((w, h) ∷ anchors) =
      let rest = too_large anchors in
      f.lt (f.of_nat meta.input_size) (f.mul w (f.of_nat 32))
      || (f.lt (f.of_nat meta.input_size) (f.mul h (f.of_nat 32)) || rest)

  unfoldable pub check_anchors : Outcome Bool
  check_anchors =
      if length meta.arguments.anchors == 0
      then raise value_error
      else return (not (too_large meta.arguments.anchors))

  -- What the pipeline makes of a frame of the kit.
  unfoldable pub got_at : List Tile → ℕ → Outcome (Detections F)
  unfolding frombuffer split_frame decode_tile merge_tile_detections
  got_at tiles index = or_raise (get_elem? kit.frames.rows index) index_error >>= λ bytes.
      frombuffer meta.frame_size bytes >>= λ frame.
      split_frame frame tiles meta.input_size >>= λ crops. predict crops >>= λ outputs.
      let per_tile =
        map
          (λ out.
            entry_of (decode_tile f maths meta.arguments out np.argsort_down np.is_zero)
              meta.arguments.num_classes)
          outputs in
      merge_tile_detections f sorting meta.frame_size
        (record meta.merge { max_boxes = meta.max_boxes }) per_tile tiles

  -- One turn of the loop of `main`: whether the frame agrees with the reference.
  unfoldable pub agrees : List Tile → ℕ → Outcome Bool
  unfolding got_at same_frame reference
  agrees tiles index = got_at tiles index >>= λ got.
      reference f kit index >>= λ want. return (same_frame eq_f eq_box got want)

  unfoldable pub mismatches : List Tile → List ℕ → Outcome ℕ
  unfolding agrees
  mismatches tiles [] = return 0
  mismatches tiles (index ∷ indices) = agrees tiles index >>= λ same.
      mismatches tiles indices >>= λ more. return (if same then more else suc more)

  -- The loop and the verdict; the times are divided by the number of frames.
  unfoldable pub verdict : List Tile → ℤ → Outcome ℕ
  unfolding mismatches
  verdict tiles count = mismatches tiles (range (rounds count)) >>= λ bad.
      if is_zero count then raise zero_division_error else return (if bad == 0 then 0 else 1)

  abbrev pub capped : ℤ → ℤ
  capped (pos n) = pos (min n kit.count)
  capped (negsuc n) = negsuc n

  -- `--frames`: all, or what `int` makes of the text, which it may refuse.
  abbrev pub frame_count : Option (Outcome ℤ) → Outcome ℤ
  frame_count none = return (pos kit.count)
  frame_count (some number) = number >>= λ n. return (capped n)

  -- The part of `main` after the configuration is checked: `mapped` is the mapping onto a device,
  -- none where no device is visible, and the software backend needs none.
  abbrev pub run_on :
      List Tile → Option (Outcome ℤ) → Bool → Option (Outcome (Unit {0})) → Outcome ℕ
  run_on tiles frames true mapped = frame_count frames >>= verdict tiles
  run_on tiles frames false none = return 1
  run_on tiles frames false (some mapped) = mapped >>= λ _. frame_count frames >>= verdict tiles

  -- `main`, with the exit code.
  unfoldable pub main :
      Pinned F → Option (Outcome ℤ) → Bool → Option (Outcome (Unit {0})) → Outcome ℕ
  unfolding check_meta check_tiles check_anchors verdict make_tile_layout
  main pinned frames software mapped =
      make_tile_layout meta.tile_layout meta.frame_size meta.input_size >>= λ tiles.
      check_tiles tiles pinned.tiles >>= λ tiles_match. check_anchors >>= λ anchors_fit.
      if check_meta eq_f eq_box meta pinned.meta && (tiles_match && anchors_fit)
      then run_on tiles frames software mapped
      else return 1
