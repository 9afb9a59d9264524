-- ===== src/Mock/Usage/Shape.antt =====
-- What the sample of a month adds up to, whatever is drawn.
use x402_token_market.Base.{
  ℕ, zero, suc, ◌+◌, ◌-◌, ◌*◌, ◌≤◌, ◌<◌, ◌≡◌, refl, ap, List, [], ◌∷◌, All, length, inl, inr,
  Bool-cases, ◌==◌, ◌||◌, arith,
}
use native.Mathlib.Nat.{mul-le-mul_left}
use x402_token_market.Mock.{
  rnd, rnd-lt, between, between_bounds, round_div, Calendar, ModelRow, models, UsageRow, DayRow,
}
use x402_token_market.Mock.Usage.{
  shares, usage_row, per_model, sum_tokens, day_spend, per_day, get_usage_mock,
}

-- A request of a row has between 1200 and 2400 tokens, and its answer is shorter.
abbrev pub IsPlausible : UsageRow → Type 0
IsPlausible r =
    (1_200 * r.requests ≤ r.tokens_in)
    × (r.tokens_in ≤ 2_400 * r.requests)
    × (r.tokens_out ≤ r.tokens_in)

abbrev pub IsDay : DayRow → Type 0
IsDay d = (2_794 ≤ d.spend_jpy) × (d.spend_jpy ≤ 11_334)

usage_row-IsPlausible :
    (m : ModelRow) (share drawn : ℕ)
    → 1_200 ≤ drawn
    → drawn ≤ 2_400
    → IsPlausible (usage_row m share drawn)
usage_row-IsPlausible m share drawn low high =
    let calls = round_div (18_420 * share) 1000 in
    (
      omega (arith, mul-le-mul_left calls low),
      omega (arith, mul-le-mul_left calls high),
      omega arith,
    )

per_model-All :
    (ms : List ModelRow) (ss : List ℕ) (seed : ℕ) → All IsPlausible (per_model ms ss seed).0
unfolding per_model
per_model-All [] ss seed = tt
per_model-All (m ∷ ms) [] seed =
    let (low, high) = between_bounds 1_200 2_400 seed (omega arith) in
    (usage_row-IsPlausible m 10 _ low high, per_model-All ms [] (between 1_200 2_400 seed).1)
per_model-All (m ∷ ms) (s ∷ ss) seed =
    let (low, high) = between_bounds 1_200 2_400 seed (omega arith) in
    (usage_row-IsPlausible m s _ low high, per_model-All ms ss (between 1_200 2_400 seed).1)

abbrev pub spends : List UsageRow → ℕ
spends [] = 0
spends (r ∷ rs) = r.spend_jpy + spends rs

abbrev pub calls : List UsageRow → ℕ
calls [] = 0
calls (r ∷ rs) = r.requests + calls rs

split_sums :
    (seed : ℕ)
    → (spends (per_model models shares seed).0 ≡ 229_811)
      × (calls (per_model models shares seed).0 ≡ 18_052)
      × (length (per_model models shares seed).0 ≡ 8)
unfolding per_model
split_sums seed = (refl, refl, refl)

day_spend_bounds :
    (weekday r : ℕ)
    → r < 4_294_967_296
    → (2_794 ≤ day_spend weekday r) × (day_spend weekday r ≤ 11_334)
day_spend_bounds weekday r h = elim (Bool-cases ((weekday == 0) || (weekday == 6))) [
  | inl e ↦ rw e (omega arith, omega arith)
  | inr e ↦ rw e (omega arith, omega arith)
]

per_day-All :
    (cal : Calendar) (now n seed : ℕ)
    → All IsDay (per_day cal now n seed).0 × (length (per_day cal now n seed).0 ≡ n)
unfolding per_day
per_day-All cal now zero seed = (tt, refl)
per_day-All cal now (suc n) seed =
    let (days, count) = per_day-All cal now n (rnd seed).1 in
    (
      (day_spend_bounds (cal.weekday (now - n * 86_400_000)) (rnd seed).0 (rnd-lt seed), days),
      ap suc count,
    )

-- On every day and for every seed, a month of samples has thirty days of 2,794 to 11,334 yen and eight
-- models, each with 1,200 to 2,400 tokens a request and a shorter answer. The spend of the models adds
-- up to 229,811 yen and their requests to 18,052, whatever is drawn, while the totals that are shown are
-- 234,500 and 18,420.
pub get_usage_mock_lem :
    (cal : Calendar) (now seed : ℕ)
    → let u = (get_usage_mock cal now seed).0 in
      (All IsDay u.per_day × (length u.per_day ≡ 30))
      × (All IsPlausible u.per_model × (length u.per_model ≡ 8))
      × ((spends u.per_model ≡ 229_811) × (u.total_spend_jpy ≡ 234_500))
      × ((calls u.per_model ≡ 18_052) × (u.total_requests ≡ 18_420))
      × (u.total_tokens ≡ sum_tokens u.per_model)
unfolding get_usage_mock
get_usage_mock_lem cal now seed =
    let (spent, called, eight) = split_sums seed in
    (
      per_day-All cal now 30 (per_model models shares seed).1,
      (per_model-All models shares seed, eight),
      (spent, refl),
      (called, refl),
      refl,
    )
