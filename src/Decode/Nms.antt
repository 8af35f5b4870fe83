-- ===== src/Decode/Nms.antt =====
-- The suppression inside `decode_tile`: tiled_shard.py. The scores are an array that the loops
-- change: a suppressed box gets the score zero.
use symphony_akida.Prelude.{ℕ, Bool, ◌&&◌, ◌||◌, List, [], ◌∷◌, ◌==◌, if◌then◌else◌}

module _ {F : Type 0} (zero_f : F) (is_zero : F → Bool) (classes : ℕ → ℕ → F) (labels : ℕ → ℕ)
    (overlaps : ℕ → ℕ → Bool) where
  -- `scores[j] = 0`
  abbrev pub put_zero : ℕ → (ℕ → F) → ℕ → F
  put_zero j scores k = if k == j then zero_f else scores k

  abbrev pub hits : ℕ → ℕ → ℕ → Bool
  hits c i j = overlaps i j && ((labels i == c) && (labels j == c))

  abbrev pub visit_later : ℕ → ℕ → ℕ → (ℕ → F) → ℕ → F
  visit_later c i j scores =
      if is_zero (scores j) then scores else if hits c i j then put_zero j scores else scores

  -- The loop over `order[rank + 1:]`.
  unfoldable pub nms_later : ℕ → ℕ → List ℕ → (ℕ → F) → ℕ → F
  nms_later c i [] scores = scores
  nms_later c i (j ∷ js) scores = nms_later c i js (visit_later c i j scores)

  -- The loop over `order`.
  unfoldable pub nms_order : ℕ → List ℕ → (ℕ → F) → ℕ → F
  unfolding nms_later
  nms_order c [] scores = scores
  nms_order c (i ∷ rest) scores =
      nms_order c rest
        (if is_zero (scores i) || is_zero (classes i c) then scores else nms_later c i rest scores)

  -- The loop over the classes.
  unfoldable pub nms_classes : (ℕ → List ℕ) → List ℕ → (ℕ → F) → ℕ → F
  unfolding nms_order
  nms_classes order [] scores = scores
  nms_classes order (c ∷ cs) scores = nms_classes order cs (nms_order c (order c) scores)
