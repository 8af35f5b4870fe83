-- ===== src/Kit/Member.antt =====
-- Where a member's bytes start: testkit.py, `_map_member`.
use Prim.Native.String.{String}
use symphony_akida.Prelude.{
  ℕ, zero, suc, ◌+◌, ◌*◌, ◌≡◌, refl, sym, ap, ◌∙◌, true, [], ◌∷◌, ◌++◌, arith, length, take, drop,
  drop-append, drop-drop, past,
}
use symphony_akida.Prelude.Outcome.{return}
use symphony_akida.Wire.Stream.{Bytes}
use symphony_akida.Kit.{Libraries, unpack_two, member_start, map_from, map_member}

take_through : (n k : ℕ) (xs ys : Bytes) → length xs ≡ n → take (n + k) (xs ++ ys) ≡ xs ++ take k ys
take_through zero k [] ys h = ap (λ m. take m ys) (omega arith)
take_through (suc n) k [] ys h = absurd (omega (arith, h))
take_through zero k (x ∷ xs) ys h = absurd (omega (arith, h))
take_through (suc n) k (x ∷ xs) ys h =
    let step : suc n + k ≡ suc (n + k) = omega arith in
    ap (λ m. take m (x ∷ (xs ++ ys))) step ∙ ap (◌∷◌ x) (take_through n k xs ys (omega (arith, h)))

-- A local header: 26 bytes, the two lengths, the name and the extra field, and then the member.
abbrev pub header_of : Bytes → ℕ → ℕ → ℕ → ℕ → Bytes → Bytes → Bytes → Bytes
header_of fixed a b c d name extra content = fixed ++ (a ∷ b ∷ c ∷ d ∷ (name ++ (extra ++ content)))

module _ (fixed : Bytes) (a b c d : ℕ) (name extra content : Bytes)
    (fixed_length : length fixed ≡ 26) (name_length : length name ≡ a + 256 * b)
    (extra_length : length extra ≡ c + 256 * d) where
  abbrev header : Bytes
  header = header_of fixed a b c d name extra content

  lengths_read : unpack_two (take 4 (drop 26 (take 30 header))) ≡ return (length name, length extra)
  unfolding unpack_two
  lengths_read =
      let rest = a ∷ b ∷ c ∷ d ∷ (name ++ (extra ++ content)) in
      ap (λ bs. unpack_two (take 4 (drop 26 bs))) (take_through 26 4 fixed rest fixed_length)
      ∙ ap (λ bs. unpack_two (take 4 bs)) (past 26 fixed (take 4 rest) fixed_length)
      ∙ ap (λ p. return (p, c + 256 * d)) (sym name_length)
      ∙ ap (λ q. return (length name, q)) (sym extra_length)

  header_passed : drop (30 + (length name + length extra)) header ≡ content
  header_passed =
      let rest = a ∷ b ∷ c ∷ d ∷ (name ++ (extra ++ content)) in
      let split : 30 + (length name + length extra) ≡ 26 + (4 + (length name + length extra)) =
        omega arith in
      ap (λ k. drop k header) split
      ∙ drop-drop 26 (4 + (length name + length extra)) header
      ∙ ap (drop (4 + (length name + length extra))) (past 26 fixed rest fixed_length)
      ∙ drop-drop 4 (length name + length extra) rest
      ∙ drop-drop (length name) (length extra) (name ++ (extra ++ content))
      ∙ ap (drop (length extra)) (drop-append name (extra ++ content))
      ∙ drop-append extra content

  -- Where zipfile gives the place of a member's local header and says that the member is stored,
  -- the array is mapped from just where the member's own bytes begin, however long the name and
  -- the extra field are.
  pub mapped_at_data :
      {F H : Type 0} (lib : Libraries F H) (before : Bytes) (member : String)
      → lib.getinfo (before ++ header) member
        ≡ return (record { is_stored = true; header_offset = length before })
      → (start : ℕ) × (drop start (before ++ header) ≡ content)
        × (map_member lib (before ++ header) member ≡ map_from lib (before ++ header) start)
  unfolding map_member member_start
  mapped_at_data lib before member info =
      let file = before ++ header in
      let start = length before + 30 + length name + length extra in
      let split : start ≡ length before + (30 + (length name + length extra)) = omega arith in
      (
        start,
        ap (λ k. drop k file) split
            ∙ drop-drop (length before) (30 + (length name + length extra)) file
            ∙ ap (drop (30 + (length name + length extra))) (drop-append before header)
            ∙ header_passed,
        rw (info, drop-append before header, lengths_read) refl,
      )
