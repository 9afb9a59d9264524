-- ===== src/Tests/Tokens.antt =====
-- The token console and the agent at concrete inputs.
use x402_token_market.Base.{◌≡◌, ◌-◌, refl, [], ◌∷◌, All, length, arith}
use x402_token_market.Json.{Json, str, object}
use x402_token_market.TokenConsole.{path_only}
use x402_token_market.Mock.Ranges.{ranges_lem}
use x402_token_market.Mock.{Calendar, rnd}
use x402_token_market.Mock.Usage.{get_usage_mock, sum_tokens}
use x402_token_market.Mock.Usage.Shape.{IsDay, IsPlausible, spends, calls}
use x402_token_market.Mock.Keys.{get_key_calls_mock, get_audit_mock}
use x402_token_market.Mock.Keys.Logs.{IsLog, IsTraced, IsAudit}
use x402_token_market.Mock.Invoices.{get_invoices_mock}
use x402_token_market.Mock.Invoices.Months.{Invoices}

-- The second of January 2026, always.
abbrev fixed : Calendar
fixed = record {
  iso = λ _. "2026-01-02T00:00:00.000Z";
  year = λ _. 2026;
  month = λ _. 0;
  day = λ _. 2;
  weekday = λ _. 5;
}

path_example : path_only "/v1/recent-activity?limit=20" ≡ "/v1/recent-activity"
unfolding path_only
path_example = refl

-- The first two draws of the source's generator for the seed 20260102, in 2 ^ 32nds.
first_draw : (rnd 20_260_102).0 ≡ 676328400
unfolding rnd
first_draw = refl

second_draw : (rnd (rnd 20_260_102).1).0 ≡ 3482445305
unfolding rnd
second_draw = refl

abbrev healthy : Json
healthy = object (("status", str "ok") ∷ [])

ranges_lem_example :
    (let u = (get_usage_mock fixed 1_767_312_000_000 20_260_102).0 in
      (All IsDay u.per_day × (length u.per_day ≡ 30))
      × (All IsPlausible u.per_model × (length u.per_model ≡ 8))
      × ((spends u.per_model ≡ 229_811) × (u.total_spend_jpy ≡ 234_500))
      × ((calls u.per_model ≡ 18_052) × (u.total_requests ≡ 18_420))
      × (u.total_tokens ≡ sum_tokens u.per_model))
    × (let rows = (get_key_calls_mock fixed 1_767_312_000_000 20_260_102).0 in
        IsLog (λ r. r.ts) fixed 2_000 18_000 IsTraced 0 (1_767_312_000_000 - 30_000) rows
        × (length rows ≡ 12))
    × (let rows = (get_audit_mock fixed 3 1_767_312_000_000 20_260_102).0 in
        IsLog (λ r. r.ts) fixed 60_000 600_000 IsAudit 0 1_767_312_000_000 rows × (length rows ≡ 3))
    × (let rows = (get_invoices_mock fixed 1_767_312_000_000 20_260_102).0 in
        Invoices 2026 0 0 rows × (length rows ≡ 6))
ranges_lem_example = ranges_lem fixed 3 1_767_312_000_000 20_260_102 (omega arith)
