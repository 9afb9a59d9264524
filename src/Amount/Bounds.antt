-- ===== src/Amount/Bounds.antt =====
-- What the checkout amount promises: its range, its accuracy, its order, and the flags beside it.
use x402_token_market.Base.{ℕ, ◌+◌, ◌*◌, ◌≤◌, ◌≡◌, ◌≢◌, ◌↔◌, true, arith}
use x402_token_market.Amount.{
  jpy_to_raw_usdc, clamp_checkout_usdc, jpy_to_checkout_usdc, get_checkout_clamp_state, to_micro,
}

-- Whatever the total, the amount charged in micro-USDC is at least 0.10 USDC, at most 9 USDC, and
-- a whole number of ten-thousandths.
pub to_micro_bounds :
    (total_jpy : ℕ)
    → let micro = to_micro (jpy_to_checkout_usdc total_jpy) in
      (100_000 ≤ micro) × (micro ≤ 9_000_000) × (micro ≡ 100 * jpy_to_checkout_usdc total_jpy)
unfolding to_micro jpy_to_checkout_usdc clamp_checkout_usdc
to_micro_bounds total_jpy = ground arith

-- The unclamped amount is the total at 150 yen a USDC, to within half of a ten-thousandth: 150 times
-- the amount differs from 10000 times the total by at most 75.
pub jpy_to_raw_usdc_nearest :
    (total_jpy : ℕ)
    → (150 * jpy_to_raw_usdc total_jpy ≤ 10000 * total_jpy + 75)
      × (10000 * total_jpy ≤ 150 * jpy_to_raw_usdc total_jpy + 75)
unfolding jpy_to_raw_usdc
jpy_to_raw_usdc_nearest total_jpy = omega arith

-- A larger cart is never charged less.
pub jpy_to_checkout_usdc_mono : (a b : ℕ) → a ≤ b → jpy_to_checkout_usdc a ≤ jpy_to_checkout_usdc b
unfolding jpy_to_checkout_usdc clamp_checkout_usdc jpy_to_raw_usdc
jpy_to_checkout_usdc_mono a b h = ground arith

-- The flags tell exactly when the charge is not the converted total: the floor is applied for a
-- total of at most 14 yen and the cap for one of at least 1351 yen; the two exclude each other, and
-- the charge equals the raw amount exactly when neither is applied.
pub get_checkout_clamp_state_flags :
    (total_jpy : ℕ)
    → let s = get_checkout_clamp_state total_jpy in
      ((s.is_floor_applied ≡ true) ↔ (total_jpy ≤ 14))
      × ((s.is_cap_applied ≡ true) ↔ (1351 ≤ total_jpy))
      × ((s.checkout_usdc ≢ s.raw_usdc) ↔ (s.is_floor_applied ≢ s.is_cap_applied))
unfolding get_checkout_clamp_state clamp_checkout_usdc jpy_to_raw_usdc
get_checkout_clamp_state_flags total_jpy = ground arith

-- The converted total is within half a ten-thousandth of the total at 150 yen a USDC, and a larger cart
-- is never charged less.
pub jpy_conversion :
    (a b : ℕ)
    → a ≤ b
    → (150 * jpy_to_raw_usdc a ≤ 10000 * a + 75)
      × (10000 * a ≤ 150 * jpy_to_raw_usdc a + 75)
      × (jpy_to_checkout_usdc a ≤ jpy_to_checkout_usdc b)
jpy_conversion a b h =
    let (above, below) = jpy_to_raw_usdc_nearest a in
    (above, below, jpy_to_checkout_usdc_mono a b h)

-- For a cart of `a` yen and one of `b`, no smaller: the charge for `a` in micro-USDC is at least 0.10 USDC, at
-- most 9 USDC, and a whole number of ten-thousandths; the converted total is within half a ten-thousandth
-- of the total at 150 yen a USDC; `b` is not charged less; and the floor is said to be applied up to 14
-- yen and the cap from 1351 yen, so that the charge is the converted total exactly where neither is.
pub charge_lem :
    (a b : ℕ)
    → a ≤ b
    → let micro = to_micro (jpy_to_checkout_usdc a) in
      let s = get_checkout_clamp_state a in
      ((100_000 ≤ micro) × (micro ≤ 9_000_000) × (micro ≡ 100 * jpy_to_checkout_usdc a))
      × ((150 * jpy_to_raw_usdc a ≤ 10000 * a + 75) × (10000 * a ≤ 150 * jpy_to_raw_usdc a + 75))
      × (jpy_to_checkout_usdc a ≤ jpy_to_checkout_usdc b)
      × ((s.is_floor_applied ≡ true) ↔ (a ≤ 14))
      × ((s.is_cap_applied ≡ true) ↔ (1351 ≤ a))
      × ((s.checkout_usdc ≢ s.raw_usdc) ↔ (s.is_floor_applied ≢ s.is_cap_applied))
charge_lem a b h =
    let (floor, cap, same) = get_checkout_clamp_state_flags a in
    (
      to_micro_bounds a,
      jpy_to_raw_usdc_nearest a,
      jpy_to_checkout_usdc_mono a b h,
      floor,
      cap,
      same,
    )
