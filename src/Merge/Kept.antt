-- ===== src/Merge/Kept.antt =====
-- What greedy suppression keeps: tiled_shard.py, `_greedy_suppress`.
use symphony_akida.Prelude.{
  ℕ, ◌≡◌, ◌≢◌, ◌<◌, refl, sym, ◌∙◌, subst, ◌⊎◌, inl, inr, Bool, true, false, List, ◌∷◌, ◌++◌, some,
  arith, Option-cases,
}
use symphony_akida.Merge.Boxes.{Floats, Box}
use symphony_akida.Merge.Suppress.{
  Detections, suppress_loop, Among, Sorting, visiting_order, victim, kept,
}
use symphony_akida.Merge.Visits.{
  Among-split, All-Among, sorted-Among, sorted-Among_right, suppress_loop-Pairwise,
  suppress_loop_cause, Pairwise-Among,
}

module _ {F : Type 0} (f : Floats F) (np : Sorting F) (threshold : F)
    (overlap : Box F → Box F → F) where
  visiting_order-Among :
      (prefer_complete : Bool) (d : Detections F) (j : ℕ)
      → j < d.num
      → Among j (visiting_order f np prefer_complete d)
  unfolding visiting_order
  visiting_order-Among true d j h = elim (Option-cases d.truncated) [
    | inl absent ↦ rw absent (np.argsort-Among d.num d.scores j h)
    | inr (t, present) ↦ rw present (np.lexsort-Among d.num d.scores t j h)
  ]
  visiting_order-Among false d j h = np.argsort-Among d.num d.scores j h

  -- A candidate that is not kept is a victim of one that is kept and was visited before it.
  visited_cause :
      (prefer_complete only_truncated : Bool) (d : Detections F) (j : ℕ)
      → j < d.num
      → Among j (kept f np threshold overlap prefer_complete only_truncated d)
        ⊎ ((i : ℕ) × (before : List ℕ) × (after : List ℕ) × (visiting_order f np prefer_complete d
              ≡ before ++ j ∷ after)
            × Among i before
            × Among i (kept f np threshold overlap prefer_complete only_truncated d)
            × (victim f np only_truncated threshold overlap d i j ≡ true))
  unfolding kept
  visited_cause prefer_complete only_truncated d j h =
      let order = visiting_order f np prefer_complete d in
      let victims = victim f np only_truncated threshold overlap d in
      let (before, after, e) = Among-split order j (visiting_order-Among prefer_complete d j h) in
      let cause = suppress_loop_cause victims before after j (λ k. false) in
      let kept_all = suppress_loop victims order (λ k. false) in
      elim (subst
        (λ is.
          Among j (suppress_loop victims is (λ k. false))
          ⊎ ((false ≡ true)
              ⊎ ((i : ℕ) × Among i before
                  × Among i (suppress_loop victims is (λ k. false))
                  × (victims i j ≡ true))))
        (sym e) cause) [
          | inl stays ↦ inl (sorted-Among kept_all j stays)
          | inr (inl never) ↦ absurd (grind (arith, never))
          | inr (inr (i, earlier, stays, hit)) ↦
              inr (i, before, after, e, earlier, sorted-Among kept_all i stays, hit)
        ]

  lexsort_order :
      (d : Detections F) (truncated : ℕ → Bool) (before after : List ℕ) (j : ℕ)
      → d.truncated ≡ some truncated
      → visiting_order f np true d ≡ before ++ j ∷ after
      → np.lexsort d.num d.scores truncated ≡ before ++ j ∷ after
  unfolding visiting_order
  lexsort_order d truncated before after j present e = sym (rw present refl) ∙ e

  -- Of two different detections of one class that are kept, neither overlaps the other up to the
  -- threshold, where complete boxes can be victims too and the overlap is symmetric.
  pub kept_apart :
      (prefer_complete : Bool) (d : Detections F) (i j : ℕ)
      → ((a b : Box F) → overlap a b ≡ overlap b a)
      → Among i (kept f np threshold overlap prefer_complete false d)
      → Among j (kept f np threshold overlap prefer_complete false d)
      → i ≢ j
      → d.labels i ≡ d.labels j
      → f.le threshold (overlap (d.boxes i) (d.boxes j)) ≡ false
  unfolding kept victim
  kept_apart prefer_complete d i j symmetric hi hj apart same =
      let victims = victim f np false threshold overlap d in
      let order = visiting_order f np prefer_complete d in
      let all_kept = suppress_loop victims order (λ k. false) in
      elim (Pairwise-Among (λ m n. victims m n ≡ false) all_kept i j
        (suppress_loop-Pairwise victims order (λ k. false)) (sorted-Among_right all_kept i hi)
        (sorted-Among_right all_kept j hj) apart) [
          | inl spared ↦ grind (arith, spared, same, apart)
          | inr spared ↦ grind (arith, spared, same, apart, symmetric (d.boxes i) (d.boxes j))
        ]

  -- A detection that is dropped is a victim of one that is kept: it has the same class, overlaps
  -- it at least up to the threshold, and is another one.
  pub dropped_cause :
      (prefer_complete only_truncated : Bool) (d : Detections F) (j : ℕ)
      → j < d.num
      → let keep = kept f np threshold overlap prefer_complete only_truncated d in
        Among j keep
        ⊎ ((i : ℕ) × Among i keep
            × (i ≢ j)
            × (d.labels i ≡ d.labels j)
            × (f.le threshold (overlap (d.boxes i) (d.boxes j)) ≡ true))
  unfolding victim
  dropped_cause prefer_complete only_truncated d j h =
      elim (visited_cause prefer_complete only_truncated d j h) [
        | inl stays ↦ inl stays
        | inr (i, before, after, e, earlier, stays, hit) ↦
            inr (i, stays, grind (arith, hit), grind (arith, hit), grind (arith, hit))
      ]

  -- A detection that no seam cuts off is never dropped where only truncated ones can be victims.
  pub complete_kept :
      (prefer_complete : Bool) (d : Detections F) (truncated : ℕ → Bool) (j : ℕ)
      → d.truncated ≡ some truncated
      → truncated j ≡ false
      → j < d.num
      → Among j (kept f np threshold overlap prefer_complete true d)
  unfolding victim
  complete_kept prefer_complete d truncated j present whole h =
      elim (visited_cause prefer_complete true d j h) [
        | inl stays ↦ stays
        | inr (i, before, after, e, earlier, stays, hit) ↦
            absurd (ground (arith, hit, present, whole))
      ]

  -- Where complete boxes are preferred, a complete one that is dropped is a victim of a complete
  -- one that is kept: no fragment ever replaces it.
  pub complete_cause :
      (only_truncated : Bool) (d : Detections F) (truncated : ℕ → Bool) (j : ℕ)
      → d.truncated ≡ some truncated
      → truncated j ≡ false
      → j < d.num
      → let keep = kept f np threshold overlap true only_truncated d in
        Among j keep
        ⊎ ((i : ℕ) × Among i keep
            × (truncated i ≡ false)
            × (i ≢ j)
            × (d.labels i ≡ d.labels j)
            × (f.le threshold (overlap (d.boxes i) (d.boxes j)) ≡ true))
  unfolding victim visiting_order
  complete_cause only_truncated d truncated j present whole h =
      elim (visited_cause true only_truncated d j h) [
        | inl stays ↦ inl stays
        | inr (i, before, after, e, earlier, stays, hit) ↦
            let order = lexsort_order d truncated before after j present e in
            let leads = np.lexsort_primary d.num d.scores truncated before after j order whole in
            inr (
              i,
              stays,
              All-Among (λ k. truncated k ≡ false) before i leads earlier,
              grind (arith, hit),
              grind (arith, hit),
              grind (arith, hit),
            )
      ]
