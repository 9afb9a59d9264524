-- ===== src/Mock/Usage.antt =====
-- getUsageMock: the spend of a month, split by model and by day.
pub mod Shape
use x402_token_market.Base.{
  ℕ, zero, suc, ◌+◌, ◌-◌, ◌*◌, ◌==◌, ◌||◌, take_text, List, [], ◌∷◌, if◌then◌else◌,
}
use x402_token_market.Mock.{
  Drawn, rnd, between, round_div, Calendar, ModelRow, models, UsageRow, DayRow, UsageSummary,
}

-- `shares`, in thousandths
abbrev pub shares : List ℕ
shares = 380 ∷ 240 ∷ 160 ∷ 120 ∷ 40 ∷ 25 ∷ 10 ∷ 5 ∷ []

abbrev pub total_spend : ℕ
total_spend = 234_500

abbrev pub total_calls : ℕ
total_calls = 18_420

-- The row of a model, from its share and the tokens that a request is drawn to have.
abbrev pub usage_row : ModelRow → ℕ → ℕ → UsageRow
usage_row m share drawn =
    let calls = round_div (total_calls * share) 1000 in
    record {
      model = m.id;
      provider = m.provider;
      requests = calls;
      tokens_in = calls * drawn;
      tokens_out = round_div (calls * drawn * 28) 100;
      spend_jpy = round_div (total_spend * share) 1000;
    }

-- `perModel`: a model without a share has 0.01.
unfoldable pub per_model : List ModelRow → List ℕ → ℕ → Drawn (List UsageRow)
per_model [] left seed = ([], seed)
per_model (m ∷ ms) [] seed =
    let (drawn, next) = between 1_200 2_400 seed in
    let (rest, last) = per_model ms [] next in (usage_row m 10 drawn ∷ rest, last)
per_model (m ∷ ms) (share ∷ rest_shares) seed =
    let (drawn, next) = between 1_200 2_400 seed in
    let (rest, last) = per_model ms rest_shares next in (usage_row m share drawn ∷ rest, last)

-- `perModel.reduce((a, r) => a + r.tokensIn + r.tokensOut, 0)`
abbrev pub sum_tokens : List UsageRow → ℕ
sum_tokens [] = 0
sum_tokens (r ∷ rs) = r.tokens_in + r.tokens_out + sum_tokens rs

-- `weekend`, in hundredths
abbrev pub weekend : ℕ → ℕ
weekend weekday = if (weekday == 0) || (weekday == 6) then 55 else 100

-- `Math.round(base * weekend * noise)`, with `base` a thirtieth of the month and `noise` the draw's
-- 0.65 + 0.8 r.
abbrev pub day_spend : ℕ → ℕ → ℕ
day_spend weekday r =
    round_div (total_spend * weekend weekday * (65 * 4_294_967_296 + 80 * r))
      (300_000 * 4_294_967_296)

-- `perDay`: this many days, the last of them today.
unfoldable pub per_day : Calendar → ℕ → ℕ → ℕ → Drawn (List DayRow)
per_day cal now zero seed = ([], seed)
per_day cal now (suc i) seed =
    let (r, next) = rnd seed in
    let (rest, last) = per_day cal now i next in
    let d = now - i * 86_400_000 in
    (
      record { date = take_text 10 (cal.iso d); spend_jpy = day_spend (cal.weekday d) r } ∷ rest,
      last,
    )

-- `getUsageMock`
unfoldable pub get_usage_mock : Calendar → ℕ → ℕ → Drawn UsageSummary
get_usage_mock cal now seed =
    let (split, next) = per_model models shares seed in
    let (days, last) = per_day cal now 30 next in
    (
      record {
        total_spend_jpy = total_spend;
        total_tokens = sum_tokens split;
        total_requests = total_calls;
        per_day = days;
        per_model = split;
      },
      last,
    )
