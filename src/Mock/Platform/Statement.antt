-- ===== src/Mock/Platform/Statement.antt =====
-- The sample statement, shares and ranking agree with each other.
use x402_token_market.Base.{
  ℕ, ◌+◌, ◌*◌, ◌≤◌, ◌≡◌, String, Option, List, [], ◌∷◌, All, or_else, arith,
}
use x402_token_market.Mock.{round_div}
use x402_token_market.Mock.Platform.{
  BillingLineItem, ModelBreakdownItem, MerchantRankingRow, get_billing_statement, billing_route,
  get_model_breakdown, get_merchant_ranking, get_platform_metrics, get_revenue_trend,
  RevenueTrendPoint,
}

-- The tokens at the rate per million are the amount.
abbrev pub IsPriced : BillingLineItem → Type 0
IsPriced l = l.tokens * l.unit_rate_per_million ≡ l.amount * 1_000_000

abbrev pub amounts : List BillingLineItem → ℕ
amounts [] = 0
amounts (l ∷ ls) = l.amount + amounts ls

abbrev pub tokens_of : List BillingLineItem → ℕ
tokens_of [] = 0
tokens_of (l ∷ ls) = l.tokens + tokens_of ls

abbrev pub IsShare : ℕ → ModelBreakdownItem → Type 0
IsShare total m = m.token_count * 100 ≡ m.token_share * total

abbrev pub counts : List ModelBreakdownItem → ℕ
counts [] = 0
counts (m ∷ ms) = m.token_count + counts ms

-- The use of the merchant that is ranked first.
abbrev pub first_usage : List MerchantRankingRow → ℕ
first_usage [] = 0
first_usage (m ∷ ms) = m.monthly_token_usage

-- The ranks count up, and the use does not rise.
abbrev pub Ranked : ℕ → ℕ → List MerchantRankingRow → Type 0
Ranked i usage [] = Unit
Ranked i usage (m ∷ ms) =
    (m.rank ≡ i) × (m.monthly_token_usage ≤ usage) × Ranked (i + 1) m.monthly_token_usage ms

abbrev pub Grows : ℕ → List RevenueTrendPoint → Type 0
Grows n [] = Unit
Grows n (p ∷ ps) = (n ≤ p.revenue) × Grows p.revenue ps

-- For every period that is asked for, or none, the statement is that of June 2026 or of the period, each
-- of its lines is its tokens at its rate, the lines add up to the subtotal, which with the tax makes the
-- total, and their tokens are the use of the merchant ranked first. The shares of the models are those of
-- all tokens, which they add up to; the ranking falls; and the revenue grows.
pub billing_route_lem :
    (period : Option String)
    → let b = billing_route period in
      (b.period ≡ or_else period "2026-06")
      × All IsPriced b.line_items
      × (b.subtotal ≡ amounts b.line_items)
      × (b.total ≡ round_div (b.subtotal * (100 + b.tax_rate)) 100)
      × (tokens_of b.line_items ≡ first_usage get_merchant_ranking)
      × All (IsShare get_platform_metrics.total_token_consumption) get_model_breakdown
      × (counts get_model_breakdown ≡ get_platform_metrics.total_token_consumption)
      × Ranked 1 (first_usage get_merchant_ranking) get_merchant_ranking
      × Grows 0 get_revenue_trend
unfolding billing_route get_billing_statement get_merchant_ranking get_platform_metrics
    get_model_breakdown get_revenue_trend
billing_route_lem period = ground arith
