-- ===== src/Decode/Apart.antt =====
-- What the suppression inside `decode_tile` of tiled_shard.py leaves.
use symphony_akida.Prelude.{
  ℕ, ◌≡◌, refl, sym, ap, subst, ◌∙◌, ◌⊎◌, inl, inr, Bool, true, false, ◌||◌, List, [], ◌∷◌, arith,
  Bool-cases,
}
use symphony_akida.Merge.Suppress.{Among}
use symphony_akida.Decode.Nms.{hits, visit_later, nms_later, nms_order, nms_classes}

-- `i` stands before `j` in the list.
abbrev pub Before : ℕ → ℕ → List ℕ → Type 0
Before i j [] = ⊥
Before i j (k ∷ ks) = ((i ≡ k) × Among j ks) ⊎ Before i j ks

module _ {F : Type 0} (zero_f : F) (is_zero : F → Bool) (zero_lem : is_zero zero_f ≡ true)
    (classes : ℕ → ℕ → F) (labels : ℕ → ℕ) (overlaps : ℕ → ℕ → Bool) where
  -- A later array keeps an entry of the earlier one or has zero in its place.
  abbrev Lowers : (ℕ → F) → (ℕ → F) → Type 0
  Lowers before after = (k : ℕ) → (after k ≡ before k) ⊎ (after k ≡ zero_f)

  alive_before :
      (before after : ℕ → F) (k : ℕ)
      → Lowers before after
      → is_zero (after k) ≡ false
      → is_zero (before k) ≡ false
  alive_before before after k low alive = elim (low k) [
    | inl same ↦ subst (λ a. is_zero a ≡ false) same alive
    | inr gone ↦ absurd (grind (arith, alive, zero_lem, ap is_zero gone))
  ]

  Lowers-trans : (a b c : ℕ → F) → Lowers a b → Lowers b c → Lowers a c
  Lowers-trans a b c h h' k = elim (h' k) [
    | inr gone ↦ inr gone
    | inl same ↦ elim (h k) [ inl first ↦ inl (same ∙ first) | inr gone ↦ inr (same ∙ gone) ]
  ]

  visit_later-Lowers :
      (c i j : ℕ) (scores : ℕ → F)
      → Lowers scores (visit_later zero_f is_zero classes labels overlaps c i j scores)
  visit_later-Lowers c i j scores k = ground arith

  nms_later-Lowers :
      (c i : ℕ) (js : List ℕ) (scores : ℕ → F)
      → Lowers scores (nms_later zero_f is_zero classes labels overlaps c i js scores)
  unfolding nms_later
  nms_later-Lowers c i [] scores = λ k. inl refl
  nms_later-Lowers c i (j ∷ js) scores =
      let next = visit_later zero_f is_zero classes labels overlaps c i j scores in
      Lowers-trans scores next _ (visit_later-Lowers c i j scores) (nms_later-Lowers c i js next)

  spared :
      (c i j k : ℕ) (scores : ℕ → F)
      → j ≡ k
      → is_zero (visit_later zero_f is_zero classes labels overlaps c i k scores j) ≡ false
      → hits zero_f is_zero classes labels overlaps c i j ≡ false
  spared c i j k scores e alive = ground (arith, e, alive, zero_lem)

  -- What of an order is still alive after a visit of `i` was not hit by it.
  nms_later_spares :
      (c i j : ℕ) (js : List ℕ) (scores : ℕ → F)
      → Among j js
      → is_zero (nms_later zero_f is_zero classes labels overlaps c i js scores j) ≡ false
      → hits zero_f is_zero classes labels overlaps c i j ≡ false
  unfolding nms_later
  nms_later_spares c i j [] scores h alive = absurd h
  nms_later_spares c i j (k ∷ js) scores (inr h) alive =
      nms_later_spares c i j js (visit_later zero_f is_zero classes labels overlaps c i k scores) h
        alive
  nms_later_spares c i j (k ∷ js) scores (inl e) alive =
      let next = visit_later zero_f is_zero classes labels overlaps c i k scores in
      let lives : is_zero (next j) ≡ false =
        alive_before next _ j (nms_later-Lowers c i js next) alive in
      spared c i j k scores e lives

  nms_order-Lowers :
      (c : ℕ) (order : List ℕ) (scores : ℕ → F)
      → Lowers scores (nms_order zero_f is_zero classes labels overlaps c order scores)
  unfolding nms_order
  nms_order-Lowers c [] scores = λ k. inl refl
  nms_order-Lowers c (i ∷ rest) scores =
      elim (Bool-cases (is_zero (scores i) || is_zero (classes i c))) [
        | inl skipped ↦ rw skipped (nms_order-Lowers c rest scores)
        | inr visited ↦
            let next = nms_later zero_f is_zero classes labels overlaps c i rest scores in
            rw visited (
              Lowers-trans scores next _ (nms_later-Lowers c i rest scores)
                (nms_order-Lowers c rest next))
      ]

  nms_order_spares :
      (c i j : ℕ) (order : List ℕ) (scores : ℕ → F)
      → Before i j order
      → is_zero (classes i c) ≡ false
      → let after = nms_order zero_f is_zero classes labels overlaps c order scores in
        is_zero (after i) ≡ false
        → is_zero (after j) ≡ false
        → hits zero_f is_zero classes labels overlaps c i j ≡ false
  unfolding nms_order
  nms_order_spares c i j [] scores h some_score lives_i lives_j = absurd h
  nms_order_spares c i j (k ∷ rest) scores (inr h) some_score lives_i lives_j =
      nms_order_spares c i j rest _ h some_score lives_i lives_j
  nms_order_spares c i j (k ∷ rest) scores (inl (e, h)) some_score lives_i lives_j =
      let first : is_zero (scores i) ≡ false =
        alive_before scores _ i (nms_order-Lowers c (k ∷ rest) scores) lives_i in
      let visited : (is_zero (scores k) || is_zero (classes k c)) ≡ false =
        subst (λ m. (is_zero (scores m) || is_zero (classes m c)) ≡ false) e
          (rw (first, some_score) refl) in
      let next = nms_later zero_f is_zero classes labels overlaps c k rest scores in
      let lives : is_zero (next j) ≡ false =
        alive_before next _ j (nms_order-Lowers c rest next) (rw visited at lives_j) in
      subst (λ m. hits zero_f is_zero classes labels overlaps c m j ≡ false) (sym e)
        (nms_later_spares c k j rest scores h lives)

  nms_classes-Lowers :
      (order : ℕ → List ℕ) (cs : List ℕ) (scores : ℕ → F)
      → Lowers scores (nms_classes zero_f is_zero classes labels overlaps order cs scores)
  unfolding nms_classes
  nms_classes-Lowers order [] scores = λ k. inl refl
  nms_classes-Lowers order (c ∷ cs) scores =
      let next = nms_order zero_f is_zero classes labels overlaps c (order c) scores in
      Lowers-trans scores next _ (nms_order-Lowers c (order c) scores)
        (nms_classes-Lowers order cs next)

  pub nms_classes_spares :
      (order : ℕ → List ℕ) (cs : List ℕ) (c i j : ℕ) (scores : ℕ → F)
      → Among c cs
      → Before i j (order c)
      → is_zero (classes i c) ≡ false
      → is_zero (nms_classes zero_f is_zero classes labels overlaps order cs scores i) ≡ false
      → is_zero (nms_classes zero_f is_zero classes labels overlaps order cs scores j) ≡ false
      → hits zero_f is_zero classes labels overlaps c i j ≡ false
  unfolding nms_classes
  nms_classes_spares order [] c i j scores h before some_score lives_i lives_j = absurd h
  nms_classes_spares order (m ∷ cs) c i j scores (inr h) before some_score lives_i lives_j =
      nms_classes_spares order cs c i j _ h before some_score lives_i lives_j
  nms_classes_spares order (m ∷ cs) c i j scores (inl e) before some_score lives_i lives_j =
      let next = nms_order zero_f is_zero classes labels overlaps m (order m) scores in
      let low = nms_classes-Lowers order cs next in
      subst (λ n. hits zero_f is_zero classes labels overlaps n i j ≡ false) (sym e)
        (nms_order_spares m i j (order m) scores (subst (λ n. Before i j (order n)) e before)
          (subst (λ n. is_zero (classes i n) ≡ false) e some_score)
          (alive_before next _ i low lives_i) (alive_before next _ j low lives_j))
