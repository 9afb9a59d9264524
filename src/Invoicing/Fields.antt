-- ===== src/Invoicing/Fields.antt =====
-- How many fields the lines of the CSV files have, as a reader that splits at commas finds them.
use Prim.Native.Char.{code}
use text.Mathlib.TextLemmas.{nil-append, cons-append}
use x402_token_market.Base.{
  ℕ, zero, suc, ◌+◌, ◌/◌, ◌%◌, ◌<◌, ◌≡◌, ◌↔◌, refl, ◌∙◌, ◌==◌, ltb, false, Bool-cases, inl, inr,
  String, ◌-◌, All, text_length, show, show_from, digit, ◌⊕◌, if◌then◌else◌, arith,
}
use x402_token_market.Mock.{InvoiceRow, InvoiceStatus, issued, paid, overdue}
use x402_token_market.Mock.Platform.{BillingLineItem}
use x402_token_market.Mock.Invoices.{pad_start, zeros}
use x402_token_market.Invoicing.{grouped_from, grouped, fmt_usd, item_line, csv_lines, status_text}

abbrev is_comma : ℕ → ℕ
is_comma n = if n == 44 then 1 else 0

abbrev pub commas : String → ℕ
commas String.[] = 0
commas (String.◌∷◌ c s) = is_comma (code c) + commas s

-- The fields that a line is split into.
abbrev pub fields : String → ℕ
fields s = suc (commas s)

commas-append : (s t : String) → commas (s ⊕ t) ≡ commas s + commas t
commas-append String.[] t = rw (nil-append t) (omega arith)
commas-append (String.◌∷◌ c s) t = rw (cons-append c s t) (omega (arith, commas-append s t))

commas-digit : (n : ℕ) → commas (digit n) ≡ 0
commas-digit zero = refl
commas-digit (suc zero) = refl
commas-digit (suc (suc zero)) = refl
commas-digit (suc (suc (suc zero))) = refl
commas-digit (suc (suc (suc (suc zero)))) = refl
commas-digit (suc (suc (suc (suc (suc zero))))) = refl
commas-digit (suc (suc (suc (suc (suc (suc zero)))))) = refl
commas-digit (suc (suc (suc (suc (suc (suc (suc zero))))))) = refl
commas-digit (suc (suc (suc (suc (suc (suc (suc (suc zero)))))))) = refl
commas-digit (suc (suc (suc (suc (suc (suc (suc (suc (suc n))))))))) = refl

commas-show_from : (fuel n : ℕ) → commas (show_from fuel n) ≡ 0
unfolding show_from
commas-show_from zero n = refl
commas-show_from (suc fuel) n = elim (Bool-cases (ltb n 10)) [
  | inl h ↦ rw h (commas-digit n)
  | inr h ↦
      rw
        (
          h,
          commas-append (show_from fuel (n / 10)) (digit (n % 10)),
          commas-show_from fuel (n / 10),
          commas-digit (n % 10),
        )
        (omega arith)
]

commas-show : (n : ℕ) → commas (show n) ≡ 0
unfolding show
commas-show n = commas-show_from (suc n) n

-- A number is written with a comma exactly from a thousand on.
commas-grouped : (n : ℕ) → (commas (grouped n) ≡ 0) ↔ (n < 1000)
unfolding grouped_from
commas-grouped n = elim (Bool-cases (ltb n 1000)) [
  | inl h ↦ (λ e. ground (arith, h), λ l. rw h (commas-show n))
  | inr h ↦ (λ e. absurd (omega (arith, few h ∙ e)), λ l. absurd (ground (arith, h, l)))
]
  where
    few :
        ltb n 1000 ≡ false
        → suc (commas (grouped_from n (n / 1000)) + commas (pad_start 3 (show (n % 1000))))
          ≡ commas (grouped n)
    few h =
        rw
          (
            h,
            commas-append (grouped_from n (n / 1000)) ("," ⊕ pad_start 3 (show (n % 1000))),
            commas-append "," (pad_start 3 (show (n % 1000))),
          )
          (omega arith)

commas-zeros : (n : ℕ) → commas (zeros n) ≡ 0
commas-zeros zero = refl
commas-zeros (suc n) = omega (arith, commas-append "0" (zeros n), commas-zeros n)

commas-pad_start : (w n : ℕ) → commas (pad_start w (show n)) ≡ 0
commas-pad_start w n =
    commas-append (zeros (w - text_length (show n))) (show n)
    ∙ omega (arith, commas-zeros (w - text_length (show n)), commas-show n)

-- What stands before and after a comma-free text adds its commas.
commas-between : (s t u : String) → commas (s ⊕ t ⊕ u) ≡ commas s + commas t + commas u
commas-between s t u = omega (arith, commas-append s (t ⊕ u), commas-append t u)

commas-fmt_usd : (c : ℕ) → commas (fmt_usd c) ≡ commas (grouped (c / 100))
unfolding fmt_usd
commas-fmt_usd c = omega (
  arith,
  commas-between "$" (grouped (c / 100)) ("." ⊕ pad_start 2 (show (c % 100))),
  commas-append "." (pad_start 2 (show (c % 100))),
  commas-pad_start 2 (c % 100),
)

-- A line `name,value` has as many fields as commas stand in its value, and two more.
line_fields : (name value : String) → commas name ≡ 1 → fields (name ⊕ value) ≡ 2 + commas value
line_fields name value h = omega (arith, commas-append name value, h)

item_line-fields :
    (i : BillingLineItem)
    → commas i.model ≡ 0
    → fields (item_line i)
      ≡ 4 + commas (grouped (i.unit_rate_per_million / 100)) + commas (grouped (i.amount / 100))
unfolding item_line
item_line-fields i h =
    let rate = fmt_usd i.unit_rate_per_million in
    let amount = fmt_usd i.amount in
    omega (
      arith,
      h,
      commas-between i.model "," (show i.tokens ⊕ "," ⊕ rate ⊕ "," ⊕ amount),
      commas-between (show i.tokens) "," (rate ⊕ "," ⊕ amount),
      commas-between rate "," amount,
      commas-show i.tokens,
      commas-fmt_usd i.unit_rate_per_million,
      commas-fmt_usd i.amount,
    )

-- A line of the billing statement for a model without commas has the four fields of the header exactly if its
-- rate and its amount are below a thousand dollars.
pub item_line_lem :
    (i : BillingLineItem)
    → commas i.model ≡ 0
    → (fields (item_line i) ≡ 4) ↔ ((i.unit_rate_per_million < 100_000) × (i.amount < 100_000))
item_line_lem i h =
    let e = item_line-fields i h in
    let rate = commas-grouped (i.unit_rate_per_million / 100) in
    let amount = commas-grouped (i.amount / 100) in
    (
      λ f. (
        omega (arith, rate.0 (omega (arith, e, f))),
        omega (arith, amount.0 (omega (arith, e, f))),
      ),
      λ l. omega (arith, e, rate.1 (omega (arith, l.0)), amount.1 (omega (arith, l.1))),
    )

commas-status : (s : InvoiceStatus) → commas (status_text s) ≡ 0
commas-status issued = refl
commas-status paid = refl
commas-status overdue = refl

-- Every line of the CSV file of an invoice has two fields exactly if the texts of the total and of the number
-- of calls hold no comma, where the id and the period hold none.
pub csv_lines_lem :
    (text : ℕ → String) (r : InvoiceRow)
    → commas r.id ≡ 0
    → commas r.period ≡ 0
    → All (λ l. fields l ≡ 2) (csv_lines text r)
      ↔ ((commas (text r.total_jpy) ≡ 0) × (commas (text r.call_count) ≡ 0))
unfolding csv_lines
csv_lines_lem text r h k =
    let total = line_fields "Total (JPY),¥" (text r.total_jpy) refl in
    let calls = line_fields "AI Calls," (text r.call_count) refl in
    let id = line_fields "Invoice ID," r.id refl in
    let period = line_fields "Period," r.period refl in
    let count = line_fields "Settlements," (show r.tx_count) refl in
    let status = line_fields "Status," (status_text r.status) refl in
    (
      λ f. (omega (arith, total, f.1.1.0), omega (arith, calls, f.1.1.1.1.0)),
      λ l. (
        omega (arith, id, h),
        (
          omega (arith, period, k),
          (
            omega (arith, total, l.0),
            (
              omega (arith, count, commas-show r.tx_count),
              (omega (arith, calls, l.1), (omega (arith, status, commas-status r.status), tt)),
            ),
          ),
        ),
      ),
    )

-- Where the id and the period of an invoice and the model of a line hold no comma: every line of the CSV
-- file of the invoice has two fields exactly if the browser's language writes its total and its calls
-- without a comma, whatever the language; in English, that is if both are below a thousand; and a line of
-- the billing statement has the four fields of its header exactly if its rate and its amount are below a
-- thousand dollars.
pub csv_lem :
    (locale_text : ℕ → String) (r : InvoiceRow) (i : BillingLineItem)
    → commas r.id ≡ 0
    → commas r.period ≡ 0
    → commas i.model ≡ 0
    → (All (λ l. fields l ≡ 2) (csv_lines locale_text r)
        ↔ ((commas (locale_text r.total_jpy) ≡ 0) × (commas (locale_text r.call_count) ≡ 0)))
      × (All (λ l. fields l ≡ 2) (csv_lines grouped r)
          ↔ ((r.total_jpy < 1000) × (r.call_count < 1000)))
      × ((fields (item_line i) ≡ 4) ↔ ((i.unit_rate_per_million < 100_000) × (i.amount < 100_000)))
csv_lem locale_text r i h k m =
    let total = commas-grouped r.total_jpy in
    let calls = commas-grouped r.call_count in
    let english = csv_lines_lem grouped r h k in
    (
      csv_lines_lem locale_text r h k,
      (
        λ f. (total.0 (english.0 f).0, calls.0 (english.0 f).1),
        λ l. english.1 (total.1 l.0, calls.1 l.1),
      ),
      item_line_lem i m,
    )
