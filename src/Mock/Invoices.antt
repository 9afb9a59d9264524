-- ===== src/Mock/Invoices.antt =====
-- getInvoicesMock: the invoices of six months, and the seed of a day.
pub mod Months
use x402_token_market.Base.{
  ℕ, zero, suc, ◌+◌, ◌-◌, ◌*◌, ◌/◌, ◌%◌, ltb, ◌==◌, String, List, [], ◌∷◌, ◌⊕◌, show, text_length,
  if◌then◌else◌,
}
use x402_token_market.Mock.{Drawn, between, Calendar, InvoiceRow, issued, paid}

-- `todaySeed`
abbrev pub today_seed : Calendar → ℕ → ℕ
today_seed cal now = cal.year now * 10_000 + (cal.month now + 1) * 100 + cal.day now

-- `s.padStart(n, "0")`
abbrev pub zeros : ℕ → String
zeros zero = ""
zeros (suc n) = "0" ⊕ zeros n

abbrev pub pad_start : ℕ → String → String
pad_start n s = zeros (n - text_length s) ⊕ s

-- The year and the month (from 0) of `Date.UTC(year, month - i, 1)`, counted in months.
abbrev pub month_before : (year month i : ℕ) → ℕ × ℕ
month_before year month i = ((year * 12 + month - i) / 12, (year * 12 + month - i) % 12)

-- The number of the month in two digits.
abbrev pub month_text : ℕ → String
month_text month = pad_start 2 (show (month + 1))

-- A row, from its place, its month and what is drawn for it.
abbrev pub invoice_row : (i year month total txs calls : ℕ) → InvoiceRow
invoice_row i year month total txs calls = record {
  period = show year ⊕ "/" ⊕ month_text month;
  id = "inv_" ⊕ show year ⊕ month_text month ⊕ "_" ⊕ pad_start 5 (show (12 - i));
  total_jpy = total;
  status = if i == 0 then issued else paid;
  tx_count = txs;
  call_count = calls;
}

-- `totalJpy`: that of this month is not drawn.
unfoldable pub invoice_total : ℕ → ℕ → Drawn ℕ
invoice_total zero seed = (234_500, seed)
invoice_total (suc i) seed = between 140_000 280_000 seed

-- The loop, with `i` of the months done.
unfoldable pub invoice_rows : (year month n i : ℕ) → ℕ → Drawn (List InvoiceRow)
invoice_rows year month zero i seed = ([], seed)
invoice_rows year month (suc n) i seed =
    let (total, after_total) = invoice_total i seed in
    let (txs, after_txs) = between 15 40 after_total in
    let (calls, after_calls) = between 8_000 22_000 after_txs in
    let (rest, last) = invoice_rows year month n (suc i) after_calls in
    let (y, m) = month_before year month i in (invoice_row i y m total txs calls ∷ rest, last)

-- `getInvoicesMock`
unfoldable pub get_invoices_mock : Calendar → ℕ → ℕ → Drawn (List InvoiceRow)
get_invoices_mock cal now seed = invoice_rows (cal.year now) (cal.month now) 6 0 seed
