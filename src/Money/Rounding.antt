-- ===== src/Money/Rounding.antt =====
-- What `multiply` and `Math.round` lose: at most half a hundredth.
use native.Mathlib.Nat.{div-add-mod, mod-lt}
use cafe_retail_software.Prelude.{ℕ, ◌+◌, ◌*◌, ◌≤◌, ◌<◌, ◌≡◌, arith}
use cafe_retail_software.Result.{ok}
use cafe_retail_software.Money.{max_safe, multiply, round_div}

pub multiply_nearest :
    (price quantity : ℕ) {v : ℕ}
    → multiply price quantity ≡ ok v
    → (v * 100 ≤ price * quantity + 50)
      × (price * quantity < v * 100 + 50)
      × (price * quantity ≤ max_safe)
unfolding multiply
multiply_nearest price quantity h = ground arith

pub round_div_nearest :
    (n d : ℕ)
    → 0 < d
    → (2 * (round_div n d * d) ≤ 2 * n + d) × (2 * n < 2 * (round_div n d * d) + d)
unfolding round_div
round_div_nearest n d h =
    omega (arith, div-add-mod (2 * n + d) (2 * d), mod-lt (2 * n + d) {m = 2 * d} (omega arith))
