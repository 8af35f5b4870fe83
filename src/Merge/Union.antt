-- ===== src/Merge/Union.antt =====
-- The union-find of `fuse_seam_fragments`: tiled_shard.py, `find` and `union`. `parent` is the
-- list by index. A walk to the root is on fuel: the caller gives the number of calls of `union`,
-- which bounds the depth of every tree.
pub mod Forest
pub mod Linked
pub mod Ends
use symphony_akida.Prelude.{ℕ, zero, suc, Bool, List, [], ◌∷◌, ◌==◌, not, if◌then◌else◌}

-- `parent[i] = v`
unfoldable pub assign : ℕ → ℕ → (ℕ → ℕ) → ℕ → ℕ
assign i v parent k = if k == i then v else parent k

-- `find`, with path halving: what becomes of `parent`, and the root.
unfoldable pub find : ℕ → (ℕ → ℕ) → ℕ → (ℕ → ℕ) × ℕ
unfolding assign
find zero parent i = (parent, i)
find (suc fuel) parent i =
    let halved = find fuel (assign i (parent (parent i)) parent) (parent (parent i)) in
    if parent i == i then (parent, i) else halved

-- The end of `union`, from the two roots.
unfoldable pub attach : ℕ → ℕ → (ℕ → ℕ) → ℕ → ℕ
unfolding assign
attach ri rj parent = if ri == rj then parent else assign rj ri parent

unfoldable pub union : ℕ → (ℕ → ℕ) → ℕ × ℕ → ℕ → ℕ
unfolding find attach
union fuel parent (i, j) =
    let (after_i, ri) = find fuel parent i in
    let (after_j, rj) = find fuel after_i j in attach ri rj after_j

-- The calls of `union` one after another.
unfoldable pub union_all : ℕ → (ℕ → ℕ) → List (ℕ × ℕ) → ℕ → ℕ
unfolding union
union_all fuel parent [] = parent
union_all fuel parent (pair ∷ pairs) = union_all fuel (union fuel parent pair) pairs

-- `list(range(num))`
abbrev pub singletons : ℕ → ℕ
singletons i = i
