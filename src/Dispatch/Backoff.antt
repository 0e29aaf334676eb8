-- ===== src/Dispatch/Backoff.antt =====
-- `computeBackoff` of apps/edge/src/lib/dispatch.ts. `random()` is the fraction `draw / 2 ^ 53`,
-- as `Math.random` draws it, and the product and `Math.round` are computed exactly: no rounding of
-- a double is modelled. In thousandths the base times one plus the jitter is `2 ^ attempt * (800 +
-- 400 * draw / 2 ^ 53)`.
use native.Mathlib.Nat.{mul-le-mul_left}
use globaltracker.Prelude.{ℕ, ◌+◌, ◌*◌, ◌/◌, ◌^◌, ◌≤◌, ◌<◌, arith}

abbrev pub draw_range : ℕ
draw_range = 2 ^ 53

-- `Math.round(n / d)` of a fraction: halves go up.
unfoldable pub round_div : ℕ → ℕ → ℕ
round_div n d = (2 * n + d) / (2 * d)

unfoldable pub compute_backoff : ℕ → ℕ → ℕ
unfolding round_div
compute_backoff attempt draw = round_div (2 ^ attempt * (800 * draw_range + 400 * draw)) draw_range

-- For a draw below 2 ^ 53 the delay in milliseconds is between 0.8 and 1.2 seconds times two to
-- the power of the attempt.
pub compute_backoff_bounds :
    (attempt draw : ℕ)
    → draw < draw_range
    → (800 * 2 ^ attempt ≤ compute_backoff attempt draw)
      × (compute_backoff attempt draw ≤ 1200 * 2 ^ attempt)
unfolding compute_backoff
compute_backoff_bounds attempt draw h =
    let scaled = mul-le-mul_left (2 ^ attempt) h in (omega arith, omega arith)
