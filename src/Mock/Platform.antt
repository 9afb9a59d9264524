-- ===== src/Mock/Platform.antt =====
-- The sample data of the platform's operator, netstars/token/console/src/lib/platform-mock.ts, and the
-- proxies under netstars/token/console/src/app/api/proxy that answer with it. Dollars are whole cents.
pub mod Statement
use mathlib.Core.Option
use x402_token_market.Base.{
  ℕ, zero, suc, ◌+◌, ◌-◌, ◌*◌, ◌==◌, String, Option, none, some, List, [], ◌∷◌, show, ◌⊕◌, or_else,
  if◌then◌else◌,
}
use x402_token_market.Mock.{round_div}

-- `PlatformMetrics`
pub record PlatformMetrics : Type 0 where
  pub total_token_consumption : ℕ
  pub total_cost_usd : ℕ
  pub total_revenue_usd : ℕ
  pub active_merchants : ℕ
  pub total_auto_topups : ℕ

pub record RevenueTrendPoint : Type 0 where
  pub date : String
  pub revenue : ℕ

-- `ModelBreakdownItem`, with the share in hundredths
pub record ModelBreakdownItem : Type 0 where
  pub model : String
  pub token_share : ℕ
  pub token_count : ℕ
  pub color : String

pub data MerchantStatus : Type 0 where
  active trial suspended : MerchantStatus

pub record MerchantRankingRow : Type 0 where
  pub rank : ℕ
  pub merchant_id : String
  pub merchant_name : String
  pub monthly_token_usage : ℕ
  pub monthly_cost_usd : ℕ
  pub revenue_usd : ℕ
  pub status : MerchantStatus

-- `BillingLineItem`, with the rate and the amount in cents
pub record BillingLineItem : Type 0 where
  pub model : String
  pub tokens : ℕ
  pub unit_rate_per_million : ℕ
  pub amount : ℕ

-- `BillingStatement`, with the tax rate in hundredths
pub record BillingStatement : Type 0 where
  pub period : String
  pub merchant_name : String
  pub line_items : List BillingLineItem
  pub subtotal : ℕ
  pub tax_rate : ℕ
  pub total : ℕ

unfoldable pub get_platform_metrics : PlatformMetrics
get_platform_metrics = record {
  total_token_consumption = 2_140_000_000_000;
  total_cost_usd = 14_280;
  total_revenue_usd = 17_136;
  active_merchants = 47;
  total_auto_topups = 312;
}

-- `Math.round(5712 * (i === 1 ? 1 : 0.85))`
abbrev pub day_revenue : ℕ → ℕ
day_revenue i = if i == 1 then 5_712 else round_div (5_712 * 85) 100

-- The loop of `getRevenueTrend`, with `n` days left from day `i`.
abbrev pub trend : (n i cumulative : ℕ) → List RevenueTrendPoint
trend zero i cumulative = []
trend (suc n) i cumulative =
    record { date = "Jun " ⊕ show i; revenue = cumulative + day_revenue i }
    ∷ trend n (suc i) (cumulative + day_revenue i)

unfoldable pub get_revenue_trend : List RevenueTrendPoint
get_revenue_trend = trend 3 1 0

abbrev share_of : String → ℕ → ℕ → String → ModelBreakdownItem
share_of model share count color = record {
  model = model;
  token_share = share;
  token_count = count;
  color = color;
}

unfoldable pub get_model_breakdown : List ModelBreakdownItem
get_model_breakdown =
    share_of "GPT-4o" 48 1_027_200_000_000 "#2563EB"
    ∷ share_of "GPT-4.1" 31 663_400_000_000 "#7C3AED"
    ∷ share_of "Claude" 13 278_200_000_000 "#D97706"
    ∷ share_of "Gemini" 8 171_200_000_000 "#059669"
    ∷ []

abbrev ranked : ℕ → String → String → ℕ → ℕ → ℕ → MerchantStatus → MerchantRankingRow
ranked rank id name usage cost revenue status = record {
  rank = rank;
  merchant_id = id;
  merchant_name = name;
  monthly_token_usage = usage;
  monthly_cost_usd = cost;
  revenue_usd = revenue;
  status = status;
}

unfoldable pub get_merchant_ranking : List MerchantRankingRow
get_merchant_ranking =
    ranked 1 "mch_haba_001" "HABA Co., Ltd." 312_400_000 2_847 3_416 active
    ∷ ranked 2 "mch_002" "MedTech Corp" 287_100_000 2_614 3_137 active
    ∷ ranked 3 "mch_003" "HealthPlus Inc." 241_800_000 2_201 2_641 active
    ∷ ranked 4 "mch_004" "PharmaCare Japan" 198_500_000 1_806 2_167 active
    ∷ ranked 5 "mch_005" "NutriBot Solutions" 156_200_000 1_422 1_706 active
    ∷ ranked 6 "mch_006" "AgroTech AI" 134_700_000 1_226 1_471 active
    ∷ ranked 7 "mch_007" "FinSight Analytics" 112_300_000 1_022 1_226 active
    ∷ ranked 8 "mch_008" "RetailGenius KK" 89_600_000 816 979 active
    ∷ ranked 9 "mch_009" "LogiAI Express" 67_400_000 614 737 trial
    ∷ ranked 10 "mch_010" "EduBot Systems" 45_200_000 411 494 suspended
    ∷ []

abbrev line : String → ℕ → ℕ → ℕ → BillingLineItem
line model tokens rate amount = record {
  model = model;
  tokens = tokens;
  unit_rate_per_million = rate;
  amount = amount;
}

unfoldable pub get_billing_statement : String → BillingStatement
get_billing_statement period = record {
  period = period;
  merchant_name = "HABA Co., Ltd.";
  line_items =
      line "GPT-4o" 149_900_000 1_000 149_900
      ∷ line "GPT-4.1" 96_800_000 850 82_280
      ∷ line "Claude" 40_600_000 750 30_450
      ∷ line "Gemini" 25_100_000 880 22_088
      ∷ [];
  subtotal = 284_718;
  tax_rate = 10;
  total = 313_190;
}

-- `proxy/billing/route.ts`, on the parameter `period` of the query
unfoldable pub billing_route : Option String → BillingStatement
billing_route period = get_billing_statement (or_else period "2026-06")
