-- ===== src/Mock/Ranges.antt =====
-- The ranges of all that is drawn for the token console.
use x402_token_market.Base.{ℕ, ◌-◌, ◌≤◌, ◌≡◌, All, length}
use x402_token_market.Mock.{Calendar}
use x402_token_market.Mock.Usage.{get_usage_mock, sum_tokens}
use x402_token_market.Mock.Usage.Shape.{IsDay, IsPlausible, spends, calls, get_usage_mock_lem}
use x402_token_market.Mock.Keys.{get_key_calls_mock, get_audit_mock}
use x402_token_market.Mock.Keys.Logs.{IsLog, IsTraced, IsAudit, sample_logs}
use x402_token_market.Mock.Invoices.{get_invoices_mock}
use x402_token_market.Mock.Invoices.Months.{Invoices, get_invoices_mock_lem}

-- On every day after the year 0 and for every seed: a month of samples has thirty days and eight models
-- within their ranges, and the models add up to 229,811 yen and 18,052 requests, whatever is drawn, beside
-- shown totals of 234,500 and 18,420. The twelve calls of a key and the entries of the audit log that are
-- asked for go back in time by steps within their ranges, with well-formed rows; and the six invoices are
-- for this month, issued, and the five before it, paid, across the turn of a year too.
pub ranges_lem :
    (cal : Calendar) (limit now seed : ℕ)
    → 1 ≤ cal.year now
    → (let u = (get_usage_mock cal now seed).0 in
        (All IsDay u.per_day × (length u.per_day ≡ 30))
        × (All IsPlausible u.per_model × (length u.per_model ≡ 8))
        × ((spends u.per_model ≡ 229_811) × (u.total_spend_jpy ≡ 234_500))
        × ((calls u.per_model ≡ 18_052) × (u.total_requests ≡ 18_420))
        × (u.total_tokens ≡ sum_tokens u.per_model))
      × (let rows = (get_key_calls_mock cal now seed).0 in
          IsLog (λ r. r.ts) cal 2_000 18_000 IsTraced 0 (now - 30_000) rows × (length rows ≡ 12))
      × (let rows = (get_audit_mock cal limit now seed).0 in
          IsLog (λ r. r.ts) cal 60_000 600_000 IsAudit 0 now rows × (length rows ≡ limit))
      × (let rows = (get_invoices_mock cal now seed).0 in
          Invoices (cal.year now) (cal.month now) 0 rows × (length rows ≡ 6))
ranges_lem cal limit now seed h =
    let (key_calls, audit) = sample_logs cal limit now seed in
    (get_usage_mock_lem cal now seed, key_calls, audit, get_invoices_mock_lem cal now seed h)
