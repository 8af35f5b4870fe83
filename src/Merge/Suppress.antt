-- ===== src/Merge/Suppress.antt =====
-- Greedy per-class suppression: tiled_shard.py, `_index`, `_greedy_suppress`, `per_class_nms` and
-- `suppress_contained`.
use symphony_akida.Prelude.{
  ℕ, ◌≡◌, ◌<◌, Bool, true, false, not, ◌&&◌, ◌||◌, List, [], ◌∷◌, ◌++◌, Option, none, some, ◌==◌,
  leb, length, get_or, Any, All, if◌then◌else◌,
}
use symphony_akida.Merge.Boxes.{Floats, Box, iou, ios}

-- `TileDetections`: `num` rows, each array by its index.
pub record Detections {ℓ} (F : Type ℓ) : Type ℓ where
  pub num : ℕ
  pub boxes : ℕ → Box F
  pub scores : ℕ → F
  pub labels : ℕ → ℕ
  pub classes : Option (ℕ → List F)
  pub tile_ids : ℕ → ℕ
  pub truncated : Option (ℕ → Bool)

abbrev pub at {ℓ} : {A : Type ℓ} → List ℕ → (ℕ → A) → ℕ → A
at keep array i = array (get_or keep i 0)

abbrev pub at_option {ℓ} : {A : Type ℓ} → List ℕ → Option (ℕ → A) → Option (ℕ → A)
at_option keep none = none
at_option keep (some array) = some (at keep array)

-- `_index`, by a list of indices.
unfoldable pub index {ℓ} : {F : Type ℓ} → Detections F → List ℕ → Detections F
index d keep = record {
  num = length keep;
  boxes = at keep d.boxes;
  scores = at keep d.scores;
  labels = at keep d.labels;
  classes = at_option keep d.classes;
  tile_ids = at keep d.tile_ids;
  truncated = at_option keep d.truncated;
}

-- `sorted` on indices.
abbrev pub place : ℕ → List ℕ → List ℕ
place i [] = i ∷ []
place i (j ∷ js) = let rest = place i js in if leb i j then i ∷ j ∷ js else j ∷ rest

abbrev pub sorted : List ℕ → List ℕ
sorted [] = []
sorted (i ∷ is) = place i (sorted is)

-- The loop over `order`: an index that is suppressed by now is skipped, any other is kept, and
-- suppresses its victims.
unfoldable pub suppress_loop : (ℕ → ℕ → Bool) → List ℕ → (ℕ → Bool) → List ℕ
suppress_loop victims [] suppressed = []
suppress_loop victims (i ∷ order) suppressed =
    let skipped = suppressed i in
    let rest =
      suppress_loop victims order
        (if skipped then suppressed else λ j. suppressed j || victims i j) in
    if skipped then rest else i ∷ rest

abbrev pub Among : ℕ → List ℕ → Type 0
Among j is = Any (λ i. j ≡ i) is

-- numpy's sorting: the visiting order by decreasing score, and the one that has complete boxes
-- before truncated ones. Both list every index, and `lexsort` sorts by its last key first.
pub record Sorting {ℓ} (F : Type ℓ) : Type ℓ where
  pub argsort : ℕ → (ℕ → F) → List ℕ
  pub lexsort : ℕ → (ℕ → F) → (ℕ → Bool) → List ℕ
  pub argsort-Among : (n : ℕ) (scores : ℕ → F) (i : ℕ) → i < n → Among i (argsort n scores)
  pub lexsort-Among :
      (n : ℕ) (scores : ℕ → F) (late : ℕ → Bool) (i : ℕ) → i < n → Among i (lexsort n scores late)
  pub lexsort_primary :
      (n : ℕ) (scores : ℕ → F) (late : ℕ → Bool) (before after : List ℕ) (j : ℕ)
      → lexsort n scores late ≡ before ++ j ∷ after
      → late j ≡ false
      → All (λ i. late i ≡ false) before

module _ {ℓ} {F : Type ℓ} (f : Floats F) (np : Sorting F) where
  abbrev pub visit_by : Bool → Option (ℕ → Bool) → ℕ → (ℕ → F) → List ℕ
  visit_by true (some truncated) n scores = np.lexsort n scores truncated
  visit_by _ _ n scores = np.argsort n scores

  -- The order in which the candidates are visited.
  unfoldable pub visiting_order : Bool → Detections F → List ℕ
  visiting_order prefer_complete d = visit_by prefer_complete d.truncated d.num d.scores

  abbrev pub eligible_by : Bool → Option (ℕ → Bool) → ℕ → Bool
  eligible_by true (some truncated) j = truncated j
  eligible_by _ _ j = true

  -- `victims[j]` for the candidate `i`.
  unfoldable pub victim : Bool → F → (Box F → Box F → F) → Detections F → ℕ → ℕ → Bool
  victim only_truncated threshold overlap d i j =
      (d.labels i == d.labels j)
      && (f.le threshold (overlap (d.boxes i) (d.boxes j))
          && (eligible_by only_truncated d.truncated j && not (j == i)))

  -- The indices that are kept, in the detections' order.
  unfoldable pub kept : F → (Box F → Box F → F) → Bool → Bool → Detections F → List ℕ
  unfolding suppress_loop visiting_order victim
  kept threshold overlap prefer_complete only_truncated d = sorted (
      suppress_loop (victim only_truncated threshold overlap d) (visiting_order prefer_complete d)
        (λ j. false))

  -- `_greedy_suppress`
  unfoldable pub greedy_suppress :
      F → (Box F → Box F → F) → Bool → Bool → Detections F → Detections F
  unfolding kept index
  greedy_suppress threshold overlap prefer_complete only_truncated d =
      if d.num == 0 then d else index d (kept threshold overlap prefer_complete only_truncated d)

  unfoldable pub per_class_nms : F → Bool → Detections F → Detections F
  unfolding greedy_suppress
  per_class_nms iou_threshold prefer_complete d =
      greedy_suppress iou_threshold (iou f) prefer_complete false d

  unfoldable pub suppress_contained : F → Bool → Bool → Detections F → Detections F
  unfolding greedy_suppress
  suppress_contained ios_threshold prefer_complete only_truncated d =
      greedy_suppress ios_threshold (ios f) prefer_complete only_truncated d
