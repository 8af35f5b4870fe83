-- ===== src/Verify/Passes.antt =====
-- What a passed check says: verify_reference.py, `main`.
use symphony_akida.Prelude.{
  ℕ, suc, ◌≡◌, refl, sym, subst, ap, ap₂, ◌∙◌, inl, inr, Bool, true, false, ◌&&◌, List, [], ◌∷◌,
  map, Option, none, some, arith, ◌==◌, ==_iff, range, All, Bool-cases, if◌then◌else◌,
}
use symphony_akida.Prelude.Outcome.{Outcome, return, raise, ◌>>=◌, bound}
use symphony_akida.Prelude.Dict.{Eq, string_eq, nat_eq}
use symphony_akida.Tiles.{Tile, Image, make_tile_layout}
use symphony_akida.Merge.Boxes.{Floats, Box}
use symphony_akida.Merge.Suppress.{Detections, Sorting}
use symphony_akida.Decode.{Maths, Output}
use symphony_akida.Kit.{TestKit, Reference, reference}
use symphony_akida.Stages.Bus.{ShardMeta}
use symphony_akida.Stages.Infer.{Numpy}
use symphony_akida.Verify.{
  ℤ, rounds, is_zero, Pinned, same_list, same_flag, check_meta, same_truncated, same_frame,
  same_tile, check_tiles, check_anchors, got_at, agrees, mismatches, verdict, frame_count, run_on,
  main,
}

both_true : (a b : Bool) → (a && b) ≡ true → (a ≡ true) × (b ≡ true)
both_true true b h = (refl, h)
both_true false b h = cc h

same_list_sound :
    {A : Type 0} (eq : A → A → Bool)
    → ((a b : A) → eq a b ≡ true → a ≡ b)
    → (xs ys : List A) → same_list eq xs ys ≡ true
    → xs ≡ ys
unfolding same_list
same_list_sound eq sound [] [] h = refl
same_list_sound eq sound (a ∷ more) (b ∷ others) h =
    let (here, there) = both_true (eq a b) (same_list eq more others) h in
    ap₂ ◌∷◌ (sound a b here) (same_list_sound eq sound more others there)
same_list_sound eq sound [] (b ∷ others) h = cc h
same_list_sound eq sound (a ∷ more) [] h = cc h

same_flag_sound : (a b : Bool) → same_flag a b ≡ true → a ≡ b
same_flag_sound true b h = sym h
same_flag_sound false true h = cc h
same_flag_sound false false h = refl

same_tile_sound : (a b : Tile) → same_tile a b ≡ true → a ≡ b
same_tile_sound a b h =
    let (name, rest) = both_true _ _ h in
    let (x, rest') = both_true _ _ rest in
    let (y, size) = both_true _ _ rest' in
    let same_name : a.name ≡ b.name = (string_eq.beq_iff a.name b.name).0 name in
    let same_x : a.x0 ≡ b.x0 = (==_iff a.x0 b.x0).0 x in
    let same_y : a.y0 ≡ b.y0 = (==_iff a.y0 b.y0).0 y in
    let same_size : a.size ≡ b.size = (==_iff a.size b.size).0 size in
    λ i. record { name = same_name i; x0 = same_x i; y0 = same_y i; size = same_size i }

check_tiles_sound :
    (tiles wants : List Tile) → check_tiles tiles wants ≡ return true → tiles ≡ wants
unfolding check_tiles
check_tiles_sound [] [] h = refl
check_tiles_sound [] (want ∷ wants) h = cc h
check_tiles_sound (tile ∷ tiles) [] h = cc h
check_tiles_sound (tile ∷ tiles) (want ∷ wants) h =
    let (rest, checked, both) =
      bound (check_tiles tiles wants) (λ rest. return (same_tile tile want && rest)) true h in
    let (here, there) = both_true (same_tile tile want) rest (cc both) in
    ap₂ ◌∷◌ (same_tile_sound tile want here)
      (check_tiles_sound tiles wants (rw (sym there) checked))

module _ {F : Type 0} (f : Floats F) (maths : Maths F) (np : Numpy F) (sorting : Sorting F)
    (eq_f : Eq F) (eq_box : Eq (Box F)) (predict : List Image → Outcome (List (Output F)))
    (kit : TestKit F) (meta : ShardMeta F) where
  -- A frame for which the pipeline gives the reference: the same boxes, scores, labels and marks.
  abbrev pub IsExact : List Tile → ℕ → Type 0
  IsExact tiles index =
      (got : Detections F) × (want : Reference F) × (got_at f maths np sorting eq_f eq_box predict
          kit meta tiles index
        ≡ return got)
      × (reference f kit index ≡ return want)
      × (map got.boxes (range got.num) ≡ want.boxes)
      × (map got.scores (range got.num) ≡ want.scores)
      × (map got.labels (range got.num) ≡ want.labels)
      × ((truncated : ℕ → Bool) × (got.truncated ≡ some truncated)
          × (map truncated (range got.num) ≡ want.truncated))

  truncated_sound :
      (num : ℕ) (truncated : Option (ℕ → Bool)) (want : List Bool)
      → same_truncated eq_f eq_box num truncated want ≡ true
      → (marks : ℕ → Bool) × (truncated ≡ some marks) × (map marks (range num) ≡ want)
  truncated_sound num none want h = cc h
  truncated_sound num (some marks) want h =
      (marks, refl, same_list_sound same_flag same_flag_sound _ want h)

  agrees-IsExact :
      (tiles : List Tile) (index : ℕ)
      → agrees f maths np sorting eq_f eq_box predict kit meta tiles index ≡ return true
      → IsExact tiles index
  unfolding agrees same_frame
  agrees-IsExact tiles index h =
      let (got, ran, compared) =
        bound (got_at f maths np sorting eq_f eq_box predict kit meta tiles index) _ true h in
      let (want, read, same) = bound (reference f kit index) _ true compared in
      let (boxes, rest) = both_true _ _ (cc same) in
      let (scores, rest') = both_true _ _ rest in
      let (labels, marks) = both_true _ _ rest' in
      (
        got,
        want,
        ran,
        read,
        same_list_sound eq_box.beq (λ a b. (eq_box.beq_iff a b).0) _ want.boxes boxes,
        same_list_sound eq_f.beq (λ a b. (eq_f.beq_iff a b).0) _ want.scores scores,
        same_list_sound nat_eq.beq (λ a b. (nat_eq.beq_iff a b).0) _ want.labels labels,
        truncated_sound got.num got.truncated want.truncated marks,
      )

  mismatches-IsExact :
      (tiles : List Tile) (indices : List ℕ)
      → mismatches f maths np sorting eq_f eq_box predict kit meta tiles indices ≡ return 0
      → All (IsExact tiles) indices
  unfolding mismatches
  mismatches-IsExact tiles [] h = tt
  mismatches-IsExact tiles (index ∷ indices) h =
      let (same, agreed, rest) =
        bound (agrees f maths np sorting eq_f eq_box predict kit meta tiles index) _ 0 h in
      let (more, ran, sum) =
        bound (mismatches f maths np sorting eq_f eq_box predict kit meta tiles indices) _ 0 rest in
      let total : (if same then more else suc more) ≡ 0 = cc sum in
      elim (Bool-cases same) [
        | inl exact ↦ (
          agrees-IsExact tiles index (agreed ∙ ap return exact),
          mismatches-IsExact tiles indices (ran ∙ ap return (rw exact at total)),
        )
        | inr differs ↦
            let wrong : suc more ≡ 0 = rw differs at total in absurd (omega (arith, wrong))
      ]

  abbrev zero_code : ℕ → ℕ
  zero_code bad = if bad == 0 then 0 else 1

  -- Every frame of a run is exact, and no run over no frame at all passes, but for a negative count.
  abbrev pub AreExact : List Tile → ℤ → Type 0
  AreExact tiles count = (is_zero count ≡ false) × All (IsExact tiles) (range (rounds count))

  abbrev pub RunsExact : List Tile → Option (Outcome ℤ) → Type 0
  RunsExact tiles frames =
      (count : ℤ) × (frame_count f maths np sorting eq_f eq_box predict kit meta frames
        ≡ return count)
      × AreExact tiles count

  verdict-AreExact :
      (tiles : List Tile) (count : ℤ)
      → verdict f maths np sorting eq_f eq_box predict kit meta tiles count ≡ return 0
      → AreExact tiles count
  unfolding verdict
  verdict-AreExact tiles count h =
      let (bad, ran, rest) =
        bound
          (mismatches f maths np sorting eq_f eq_box predict kit meta tiles (range (rounds count)))
          _ 0 h in
      elim (Bool-cases (is_zero count)) [
        | inl none_run ↦ absurd (cc (rw none_run at rest))
        | inr some_run ↦
            let code : zero_code bad ≡ 0 = cc (rw some_run at rest) in
            let no_bad : bad ≡ 0 = ground (arith, code) in
            (some_run, mismatches-IsExact tiles (range (rounds count)) (ran ∙ ap return no_bad))
      ]

  counted-RunsExact :
      (tiles : List Tile) (frames : Option (Outcome ℤ))
      → (frame_count f maths np sorting eq_f eq_box predict kit meta frames
          >>= verdict f maths np sorting eq_f eq_box predict kit meta tiles)
        ≡ return 0
      → RunsExact tiles frames
  counted-RunsExact tiles frames h =
      let (count, counted, passed) =
        bound (frame_count f maths np sorting eq_f eq_box predict kit meta frames)
          (verdict f maths np sorting eq_f eq_box predict kit meta tiles) 0 h in
      (count, counted, verdict-AreExact tiles count passed)

  run_on-RunsExact :
      (tiles : List Tile) (frames : Option (Outcome ℤ)) (software : Bool)
      (mapped : Option (Outcome (Unit {0})))
      → run_on f maths np sorting eq_f eq_box predict kit meta tiles frames software mapped
        ≡ return 0
      → RunsExact tiles frames
  run_on-RunsExact tiles frames true mapped h = counted-RunsExact tiles frames h
  run_on-RunsExact tiles frames false none h = absurd (cc h)
  run_on-RunsExact tiles frames false (some (return u)) h = counted-RunsExact tiles frames h
  run_on-RunsExact tiles frames false (some (raise e)) h = absurd (cc h)

  -- Where the check exits with 0, the model's layout is the kit's, tile by tile, the configuration
  -- compared equal, and for each frame that was run the splitting, the model, the decoding and the
  -- merge give exactly the kit's reference: its boxes, scores, labels and marks, in its order. The
  -- number of frames is the least of the one asked for and the kit's, and is not zero; where it is
  -- negative, no frame was run.
  pub main-AreExact :
      (pinned : Pinned F) (frames : Option (Outcome ℤ)) (software : Bool)
      (mapped : Option (Outcome (Unit {0})))
      → main f maths np sorting eq_f eq_box predict kit meta pinned frames software mapped
        ≡ return 0
      → (make_tile_layout meta.tile_layout meta.frame_size meta.input_size ≡ return pinned.tiles)
        × (check_meta eq_f eq_box meta pinned.meta ≡ true)
        × RunsExact pinned.tiles frames
  unfolding main
  main-AreExact pinned frames software mapped h =
      let (tiles, laid, rest) =
        bound (make_tile_layout meta.tile_layout meta.frame_size meta.input_size) _ 0 h in
      let (tiles_match, checked, rest') = bound (check_tiles tiles pinned.tiles) _ 0 rest in
      let (anchors_fit, measured, rest'') =
        bound (check_anchors f maths np sorting eq_f eq_box predict kit meta) _ 0 rest' in
      elim (Bool-cases (check_meta eq_f eq_box meta pinned.meta && (tiles_match && anchors_fit))) [
        | inr fails ↦ absurd (cc (rw fails at rest''))
        | inl holds ↦
            let (meta_same, both) = both_true _ _ holds in
            let (tiles_same, fits) = both_true _ _ both in
            let same = check_tiles_sound tiles pinned.tiles (checked ∙ ap return tiles_same) in
            (
              laid ∙ ap return same,
              meta_same,
              subst (λ ts. RunsExact ts frames) same
                  (run_on-RunsExact tiles frames software mapped (rw holds at rest'')),
            )
      ]
