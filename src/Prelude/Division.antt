-- ===== src/Prelude/Division.antt =====
-- Quotient and remainder of a row-major index.
use Prim.Native.Nat.{ℕ, ◌+◌, ◌*◌, ◌/◌, ◌%◌, ◌<◌}
use mathlib.Core.Path.{◌≡◌, ap, ◌∙◌}
use native.Mathlib.Omega.{arith}
use native.Mathlib.Nat.{mul-add-div_right, div-eq_of_lt, mul-add-mod_self_right, mod-eq_of_lt}

pub div_row : (row col width : ℕ) → col < width → (row * width + col) / width ≡ row
div_row row col width h =
    mul-add-div_right (omega arith) row col ∙ ap (λ q. row + q) (div-eq_of_lt h) ∙ omega arith

pub mod_row : (row col width : ℕ) → col < width → (row * width + col) % width ≡ col
mod_row row col width h = mul-add-mod_self_right row width col ∙ mod-eq_of_lt h
