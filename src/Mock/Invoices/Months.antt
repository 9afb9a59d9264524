-- ===== src/Mock/Invoices/Months.antt =====
-- The months that the sample invoices are for, and their totals.
use x402_token_market.Base.{
  ℕ, zero, suc, ◌+◌, ◌-◌, ◌*◌, ◌≤◌, ◌<◌, ◌≡◌, refl, ap, ◌⊎◌, inl, inr, List, [], ◌∷◌, ◌⊕◌, show,
  length, arith,
}
use x402_token_market.Mock.{between, between_bounds, Calendar, InvoiceRow, issued, paid}
use x402_token_market.Mock.Invoices.{
  month_before, month_text, pad_start, invoice_row, invoice_total, invoice_rows, get_invoices_mock,
}

-- Row `i` is for the month `i` months before this one. This month's is issued with the total of the
-- usage page; the others are paid.
pub record IsInvoice (year month i : ℕ) (r : InvoiceRow) : Type 0 where
  pub of_year : ℕ
  pub of_month : ℕ
  pub is_month : of_month < 12
  pub before : of_year * 12 + of_month + i ≡ year * 12 + month
  pub period : r.period ≡ show of_year ⊕ "/" ⊕ month_text of_month
  pub id : r.id ≡ "inv_" ⊕ show of_year ⊕ month_text of_month ⊕ "_" ⊕ pad_start 5 (show (12 - i))
  pub total :
      ((i ≡ 0) × (r.total_jpy ≡ 234_500) × (r.status ≡ issued))
      ⊎ ((0 < i) × (140_000 ≤ r.total_jpy) × (r.total_jpy ≤ 280_000) × (r.status ≡ paid))
  pub calls_per_payment : 200 * r.tx_count ≤ r.call_count

abbrev pub Invoices : (year month i : ℕ) → List InvoiceRow → Type 0
Invoices year month i [] = Unit
Invoices year month i (r ∷ rs) = IsInvoice year month i r × Invoices year month (suc i) rs

total_cases :
    (i y m seed txs calls : ℕ)
    → let r = invoice_row i y m (invoice_total i seed).0 txs calls in
      ((i ≡ 0) × (r.total_jpy ≡ 234_500) × (r.status ≡ issued))
      ⊎ ((0 < i) × (140_000 ≤ r.total_jpy) × (r.total_jpy ≤ 280_000) × (r.status ≡ paid))
unfolding invoice_total
total_cases zero y m seed txs calls = inl (refl, refl, refl)
total_cases (suc i) y m seed txs calls =
    let (low, high) = between_bounds 140_000 280_000 seed (omega arith) in
    inr (omega arith, low, high, ground arith)

rows-Invoices :
    (year month n i seed : ℕ)
    → i + n ≤ 12
    → 1 ≤ year
    → Invoices year month i (invoice_rows year month n i seed).0
      × (length (invoice_rows year month n i seed).0 ≡ n)
unfolding invoice_rows
rows-Invoices year month zero i seed h g = (tt, refl)
rows-Invoices year month (suc n) i seed h g =
    let after_total = (invoice_total i seed).1 in
    let after_txs = (between 15 40 after_total).1 in
    let after_calls = (between 8_000 22_000 after_txs).1 in
    let (least, most) = between_bounds 15 40 after_total (omega arith) in
    let (low, high) = between_bounds 8_000 22_000 after_txs (omega arith) in
    let (rest, count) = rows-Invoices year month n (suc i) after_calls (omega arith) g in
    (
      (
        record {
          of_year = (month_before year month i).0;
          of_month = (month_before year month i).1;
          is_month = omega arith;
          before = omega arith;
          period = refl;
          id = refl;
          total =
              total_cases i (month_before year month i).0 (month_before year month i).1 seed
                (between 15 40 after_total).0 (between 8_000 22_000 after_txs).0;
          calls_per_payment = omega arith;
        },
        rest,
      ),
      ap suc count,
    )

-- In every month of a year after 0 and for every seed, there are six invoices, for this month and the
-- five before it, across the turn of a year too. This month's is issued, for the 234,500 yen of the usage
-- page; the others are paid, for 140,000 to 280,000 yen each, and each counts at least 200 calls for a
-- payment.
pub get_invoices_mock_lem :
    (cal : Calendar) (now seed : ℕ)
    → 1 ≤ cal.year now
    → let rows = (get_invoices_mock cal now seed).0 in
      Invoices (cal.year now) (cal.month now) 0 rows × (length rows ≡ 6)
unfolding get_invoices_mock
get_invoices_mock_lem cal now seed h =
    rows-Invoices (cal.year now) (cal.month now) 6 0 seed (omega arith) h
