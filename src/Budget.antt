-- ===== src/Budget.antt =====
-- The budget page of the shop, haba/src/app/budget/page.tsx, with its gauge,
-- components/enterprise/BudgetGauge.tsx, the figures of lib/haba/enterprise.ts and the route of their trends,
-- app/api/enterprise/trend/route.ts. A share is compared by its products, exactly.
pub mod Trigger
use x402_token_market.Base.{
  ℕ, zero, suc, ◌+◌, ◌-◌, ◌*◌, ◌%◌, leb, ◌==◌, String, Option, none, some, List, [], ◌∷◌, map,
  str_eq, show, ◌⊕◌, or_else, if◌then◌else◌,
}
use x402_token_market.Mock.Invoices.{pad_start}

pub record EnterpriseKpi : Type 0 where
  pub active_users_online : ℕ
  pub today_token_usage : ℕ
  pub weekly_token_usage : ℕ
  pub monthly_token_usage : ℕ
  pub current_budget_used : ℕ
  pub remaining_budget : ℕ
  pub budget_limit : ℕ
  pub token_limit : ℕ

-- `MOCK_KPI`
abbrev pub mock_kpi : EnterpriseKpi
mock_kpi = record {
  active_users_online = 247;
  today_token_usage = 14_200_000;
  weekly_token_usage = 89_600_000;
  monthly_token_usage = 312_400_000;
  current_budget_used = 2847;
  remaining_budget = 2153;
  budget_limit = 5000;
  token_limit = 5_000_000_000;
}

pub data Tone : Type 0 where
  success warning danger : Tone

-- The colour of a gauge. The cap of the share at 100 is above both thresholds.
unfoldable pub tone : ℕ → ℕ → Tone
tone used limit =
    if leb (80 * limit) (100 * used)
    then danger
    else if leb (60 * limit) (100 * used)
    then warning
    else success

-- `TOKEN_LIMITS` and `BUDGET_LIMITS`
abbrev pub token_limits : List ℕ
token_limits = 1_000_000_000 ∷ 5_000_000_000 ∷ 10_000_000_000 ∷ 50_000_000_000 ∷ []

abbrev pub budget_limits : List ℕ
budget_limits = 100 ∷ 500 ∷ 1000 ∷ 5000 ∷ []

-- The hooks of the page.
pub record BudgetPage : Type 0 where
  pub token_limit : ℕ
  pub budget_limit : ℕ

abbrev pub opened : BudgetPage
opened = record { token_limit = mock_kpi.token_limit; budget_limit = mock_kpi.budget_limit }

-- The choice of a limit.
abbrev pub set_token_limit : ℕ → BudgetPage → BudgetPage
set_token_limit l p = record p { token_limit = l }

abbrev pub set_budget_limit : ℕ → BudgetPage → BudgetPage
set_budget_limit l p = record p { budget_limit = l }

-- `nextTrigger`, in tenths of a dollar.
abbrev pub next_trigger : BudgetPage → ℕ
next_trigger p = p.budget_limit * 8

-- What is shown as remaining until the trigger, in tenths of a dollar: 0 where nothing remains.
unfoldable pub remaining_to_trigger : BudgetPage → ℕ
remaining_to_trigger p = next_trigger p - mock_kpi.current_budget_used * 10

-- The two gauges.
abbrev pub token_gauge : BudgetPage → Tone
token_gauge p = tone mock_kpi.monthly_token_usage p.token_limit

abbrev pub budget_gauge : BudgetPage → Tone
budget_gauge p = tone mock_kpi.current_budget_used p.budget_limit

pub record ConsumptionDataPoint : Type 0 where
  pub label : String
  pub tokens : ℕ

abbrev point : String → ℕ → ConsumptionDataPoint
point label tokens = record { label = label; tokens = tokens }

-- The numbers below `n`, from `i` on.
abbrev pub indices : ℕ → ℕ → List ℕ
indices zero i = []
indices (suc n) i = i ∷ indices n (suc i)

-- `MOCK_TREND_TODAY`, where `wave i` is the floor of `400_000 + Math.sin(i / 3) * 200_000`.
abbrev pub trend_today : (ℕ → ℕ) → List ConsumptionDataPoint
trend_today wave =
    map
      (λ i. record {
        label = pad_start 2 (show i) ⊕ ":00";
        tokens = wave i + (i * 17 % 7) * 30_000;
      })
      (indices 24 0)

abbrev pub trend_week : List ConsumptionDataPoint
trend_week =
    point "Mon" 11_800_000
    ∷ point "Tue" 13_400_000
    ∷ point "Wed" 12_900_000
    ∷ point "Thu" 14_700_000
    ∷ point "Fri" 15_200_000
    ∷ point "Sat" 8_900_000
    ∷ point "Sun" 12_600_000
    ∷ []

abbrev month_tokens : ℕ → ℕ
month_tokens zero = 9_800_000
month_tokens (suc zero) = 13_200_000
month_tokens (suc (suc zero)) = 14_200_000
month_tokens _ = 0

abbrev pub trend_month : List ConsumptionDataPoint
trend_month =
    map (λ i. record { label = "Jun " ⊕ show (i + 1); tokens = month_tokens i }) (indices 30 0)

-- The answer of the trend route: the points and the period that is named.
pub record Trend : Type 0 where
  pub points : List ConsumptionDataPoint
  pub period : String

-- `GET` of app/api/enterprise/trend, on the parameter `period` of the query.
unfoldable pub trend_route : (ℕ → ℕ) → Option String → Trend
trend_route wave asked =
    let period = or_else asked "today" in
    record {
      points =
          if str_eq period "week"
          then trend_week
          else if str_eq period "month"
          then trend_month
          else trend_today wave;
      period = period;
    }
