-- ===== src/Amount.antt =====
-- The checkout amount policy, haba/src/lib/haba/checkout.ts. Totals are whole yen. A USDC amount is
-- in ten-thousandths, the four decimals that `toFixed(4)` leaves: 1000 is 0.10 USDC.
pub mod Bounds
use x402_token_market.Base.{ℕ, ◌+◌, ◌*◌, ◌/◌, Bool, ltb, if◌then◌else◌}

abbrev pub usdc_rate_jpy : ℕ
usdc_rate_jpy = 150

abbrev pub min_checkout_usdc : ℕ
min_checkout_usdc = 1000

abbrev pub max_checkout_usdc : ℕ
max_checkout_usdc = 90000

-- `+(totalJpy / 150).toFixed(4)`: the nearest ten-thousandth. The quotient times 10^4 is a multiple of
-- 1/3, so no total lies half-way between two, and below 2 * 10^13 yen the rounding of the division
-- in floating point does not change which is nearest; above, the cap applies in any case.
unfoldable pub jpy_to_raw_usdc : ℕ → ℕ
jpy_to_raw_usdc total_jpy = (2 * 10000 * total_jpy + usdc_rate_jpy) / (2 * usdc_rate_jpy)

unfoldable pub clamp_checkout_usdc : ℕ → ℕ
clamp_checkout_usdc raw_usdc =
    if ltb raw_usdc min_checkout_usdc
    then min_checkout_usdc
    else if ltb max_checkout_usdc raw_usdc
    then max_checkout_usdc
    else raw_usdc

unfoldable pub jpy_to_checkout_usdc : ℕ → ℕ
jpy_to_checkout_usdc total_jpy = clamp_checkout_usdc (jpy_to_raw_usdc total_jpy)

pub record ClampState : Type 0 where
  pub raw_usdc : ℕ
  pub checkout_usdc : ℕ
  pub is_floor_applied : Bool
  pub is_cap_applied : Bool

pub get_checkout_clamp_state : ℕ → ClampState
get_checkout_clamp_state total_jpy =
    let raw_usdc = jpy_to_raw_usdc total_jpy in
    record {
      raw_usdc = raw_usdc;
      checkout_usdc = clamp_checkout_usdc raw_usdc;
      is_floor_applied = ltb raw_usdc min_checkout_usdc;
      is_cap_applied = ltb max_checkout_usdc raw_usdc;
    }

-- `Math.round(amountUsdc * 1_000_000)` of checkout/order/route.ts: exact, since the amount has four
-- decimals and is at most 9 USDC.
unfoldable pub to_micro : ℕ → ℕ
to_micro amount_usdc = amount_usdc * 100
