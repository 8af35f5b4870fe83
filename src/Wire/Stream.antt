-- ===== src/Wire/Stream.antt =====
-- Reading lines and exact numbers of bytes from a pipe: worker_io.py, `_read_exact`, and
-- `readline`. A read may be short: it returns at least one byte where one is there.
use symphony_akida.Prelude.{
  ℕ, zero, suc, ◌+◌, ◌-◌, ◌≤◌, ◌<◌, ◌≡◌, refl, Bool, List, [], ◌∷◌, ◌++◌, Option, none, some, arith,
  ◌==◌, if◌then◌else◌, length, take, drop, min, ap, ap₂, ◌∙◌, length-drop, length-take,
}
use mathlib.Core.List.{append_assoc, append-nil}
use native.Mathlib.Nat.{le_refl}
use Prim.Native.Nat.add

abbrev pub Bytes : Type 0
Bytes = List ℕ

-- The bytes that a pipe holds, and whether more can come.
pub record Pipe : Type 0 where
  pub bytes : Bytes
  pub closed : Bool

pub data Read {ℓ} (A : Type ℓ) : Type ℓ where
  got : A → Bytes → Read A
  eof : Read A
  blocked : Read A

abbrev pub newline : ℕ
newline = 10

-- `stdin.readline()`: up to the next line feed, or up to the end of a closed pipe. `none` where the
-- bytes hold no line feed.
unfoldable pub split_line : Bytes → Option (Bytes × Bytes)
split_line [] = none
split_line (b ∷ bs) =
    let rest = split_line bs in
    if b == newline
    then some (b ∷ [], bs)
    else elim rest [ some (line, after) ↦ some (b ∷ line, after) | none ↦ none ]

unfoldable pub read_line : Pipe → Read Bytes
read_line p = elim (split_line p.bytes) [
  | some (line, rest) ↦ got line rest
  | none ↦ if p.closed then got p.bytes [] else blocked
]

-- `stream.read(want)`, where the pipe hands over at most `most` bytes at a time.
unfoldable pub read_some : ℕ → ℕ → Bytes → Bytes × Bytes
read_some most want bytes = (take (min (suc most) want) bytes, drop (min (suc most) want) bytes)

-- `_read_exact`: `most i` limits the i-th read, and `chunks` is what was read. At the end of the
-- pipe the answer is empty, or does not come while the pipe is open. The fuel is the number of
-- bytes still wanted, since each read that returns brings one.
unfoldable pub read_loop : ℕ → (ℕ → ℕ) → ℕ → ℕ → Bytes → Bytes → Bool → Read Bytes
unfolding read_some
read_loop zero most i want chunks bytes closed = got chunks bytes
read_loop (suc fuel) most i zero chunks bytes closed = got chunks bytes
read_loop (suc fuel) most i (suc want) chunks [] closed = if closed then eof else blocked
read_loop (suc fuel) most i (suc want) chunks (b ∷ bs) closed =
    let (block, rest) = read_some (most i) (suc want) (b ∷ bs) in
    read_loop fuel most (suc i) (suc want - length block) (chunks ++ block) rest closed

unfoldable pub read_exact : (ℕ → ℕ) → Pipe → ℕ → Read Bytes
unfolding read_loop
read_exact most p n = read_loop (suc n) most 0 n [] p.bytes p.closed

-- Taking `m` and then `k` more is taking `m + k`.
take-append-take {ℓ} :
    {A : Type ℓ} (m k : ℕ) (xs : List A) → take m xs ++ take k (drop m xs) ≡ take (m + k) xs
take-append-take zero k xs = rw add.zero
take-append-take (suc m) zero [] = rw add.suc
take-append-take (suc m) (suc k) [] = rw add.suc
take-append-take (suc m) k (x ∷ xs) = rw add.suc (ap (◌∷◌ x) (take-append-take m k xs))

drop-drop {ℓ} : {A : Type ℓ} (m k : ℕ) (xs : List A) → drop k (drop m xs) ≡ drop (m + k) xs
drop-drop zero k xs = rw add.zero
drop-drop (suc m) zero [] = rw add.suc
drop-drop (suc m) (suc k) [] = rw add.suc
drop-drop (suc m) k (x ∷ xs) = rw add.suc (drop-drop m k xs)

-- With enough bytes in the pipe, the loop adds exactly the wanted ones to what it has.
read_loop_got :
    (fuel : ℕ) (most : ℕ → ℕ) (i want : ℕ) (chunks bytes : Bytes) (closed : Bool)
    → want < fuel
    → want ≤ length bytes
    → read_loop fuel most i want chunks bytes closed
      ≡ got (chunks ++ take want bytes) (drop want bytes)
unfolding read_loop
read_loop_got zero most i want chunks bytes closed h enough = elim h [ ]
read_loop_got (suc fuel) most i zero chunks bytes closed h enough = rw append-nil
read_loop_got (suc fuel) most i (suc want) chunks [] closed h enough = absurd (omega arith)
read_loop_got (suc fuel) most i (suc want) chunks (b ∷ bs) closed h enough =
    let m = min (suc (most i)) (suc want) in
    let xs = b ∷ bs in
    let size : length (take m xs) ≡ m = length-take m xs ∙ omega arith in
    let left = suc want - length (take m xs) in
    let sum : m + left ≡ suc want = omega (arith, size) in
    let ih =
      read_loop_got fuel most (suc i) left (chunks ++ take m xs) (drop m xs) closed
        (omega (arith, size)) (omega (arith, size, length-drop m xs)) in
    ih
    ∙ ap₂ {A = Bytes} {B = Bytes} got
        (append_assoc chunks (take m xs) (take left (drop m xs))
          ∙ ap (λ t. chunks ++ t) (take-append-take m left xs ∙ ap (λ n. take n xs) sum))
        (drop-drop m left xs ∙ ap (λ n. drop n xs) sum)

-- Whatever the sizes of the single reads, `_read_exact` returns the next `n` bytes and leaves the
-- rest in the pipe, where the pipe holds as many.
pub read_exact_got :
    (most : ℕ → ℕ) (p : Pipe) (n : ℕ)
    → n ≤ length p.bytes
    → read_exact most p n ≡ got (take n p.bytes) (drop n p.bytes)
unfolding read_exact
read_exact_got most p n enough =
    read_loop_got (suc n) most 0 n [] p.bytes p.closed (le_refl (suc n)) enough

read_loop_short :
    (fuel : ℕ) (most : ℕ → ℕ) (i want : ℕ) (chunks bytes : Bytes) (closed : Bool)
    → want < fuel
    → length bytes < want
    → read_loop fuel most i want chunks bytes closed ≡ (if closed then eof else blocked)
unfolding read_loop
read_loop_short zero most i want chunks bytes closed h short = elim h [ ]
read_loop_short (suc fuel) most i zero chunks bytes closed h short = absurd (omega arith)
read_loop_short (suc fuel) most i (suc want) chunks [] closed h short = refl
read_loop_short (suc fuel) most i (suc want) chunks (b ∷ bs) closed h short =
    let m = min (suc (most i)) (suc want) in
    let xs = b ∷ bs in
    let size = length-take m xs in
    read_loop_short fuel most (suc i) (suc want - length (take m xs)) (chunks ++ take m xs)
      (drop m xs) closed (omega (arith, size)) (omega (arith, size, length-drop m xs))

-- Where it does not, the answer is an EOFError on a closed pipe, and none on an open one.
pub read_exact_short :
    (most : ℕ → ℕ) (p : Pipe) (n : ℕ)
    → length p.bytes < n
    → read_exact most p n ≡ (if p.closed then eof else blocked)
unfolding read_exact
read_exact_short most p n short =
    read_loop_short (suc n) most 0 n [] p.bytes p.closed (le_refl (suc n)) short
