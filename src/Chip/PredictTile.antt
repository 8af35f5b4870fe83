-- ===== src/Chip/PredictTile.antt =====
-- The raw output of a model on one tile: akida_chip.py, `Chip.predict_tile`.
use Prim.Native.String.{String}
use symphony_akida.Prelude.{List, ℕ, Option, none, some, not, ◌==◌, length, if◌then◌else◌}
use symphony_akida.Prelude.Outcome.{Outcome, return, raise, ◌>>=◌, runtime_error, value_error}
use symphony_akida.Chip.{Chip}

-- The output with the stem in `identity`; the host, the device and the times are constants of the
-- node.
abbrev pub predict_with :
    {M O : Type 0}
    → (M → List ℕ → Outcome O)
    → Chip M
    → List ℕ
    → Option M
    → Outcome (O × Option String)
predict_with predict c arr none = raise runtime_error
predict_with predict c arr (some m) =
    if not (length arr == c.n) then raise value_error else predict m arr >>= λ y. return (y, c.stem)

-- `Chip.predict_tile`, with the model's `predict` as a parameter.
unfoldable pub predict_tile :
    {M O : Type 0} → (M → List ℕ → Outcome O) → Chip M → List ℕ → Outcome (O × Option String)
predict_tile predict c arr = predict_with predict c arr c.model
