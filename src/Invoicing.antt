-- ===== src/Invoicing.antt =====
-- The files and notes of the token console's invoices and billing pages,
-- netstars/token/console/src/app/(console)/invoices/page.tsx and billing/page.tsx. The download itself is
-- left to the browser.
pub mod Fields
pub mod Notice
use Prim.Native.Char.{code}
use Prim.Native.String
use x402_token_market.Base.{
  ℕ, zero, suc, ◌*◌, ◌/◌, ◌%◌, ◌==◌, ltb, Bool, true, false, String, Option, none, some, List, [],
  ◌∷◌, ◌++◌, map, show, join, ◌⊕◌, if◌then◌else◌,
}
use x402_token_market.Mock.{round_div, InvoiceRow, InvoiceStatus, issued, paid, overdue}
use x402_token_market.Mock.Invoices.{pad_start}
use x402_token_market.Mock.Platform.{BillingLineItem, BillingStatement}

-- `n.toLocaleString("en-US")` of a whole number: groups of three digits. A number has fewer groups than its value,
-- plus one.
unfoldable pub grouped_from : ℕ → ℕ → String
grouped_from zero n = ""
grouped_from (suc fuel) n =
    let front = grouped_from fuel (n / 1000) in
    if ltb n 1000 then show n else front ⊕ "," ⊕ pad_start 3 (show (n % 1000))

abbrev pub grouped : ℕ → String
grouped n = grouped_from (suc n) n

-- `s.replace("/", "-")`: the first slash alone.
abbrev pub dashed : String → String
dashed String.[] = ""
dashed (String.◌∷◌ c s) =
    let rest = dashed s in if code c == 47 then String.◌∷◌ "-" s else String.◌∷◌ c rest

abbrev pub status_text : InvoiceStatus → String
status_text issued = "issued"
status_text paid = "paid"
status_text overdue = "overdue"

-- The content and the name of a file.
pub record File : Type 0 where
  pub content : String
  pub name : String

-- `handlePdfDownload`, where `locale_text n` is `n.toLocaleString()` in the browser's language.
unfoldable pub pdf_file : (ℕ → String) → InvoiceRow → File
pdf_file locale_text r = record {
  content =
      "%PDF-1.4\n1 0 obj\n<< /Type /Catalog >>\nendobj\n%% Invoice "
      ⊕ r.id
      ⊕ "\n%% Period: "
      ⊕ r.period
      ⊕ "\n%% Total: ¥"
      ⊕ locale_text r.total_jpy
      ⊕ "\n%%EOF";
  name = "invoice-" ⊕ dashed r.period ⊕ ".pdf";
}

unfoldable pub csv_lines : (ℕ → String) → InvoiceRow → List String
csv_lines locale_text r =
    ("Invoice ID," ⊕ r.id)
    ∷ ("Period," ⊕ r.period)
    ∷ ("Total (JPY),¥" ⊕ locale_text r.total_jpy)
    ∷ ("Settlements," ⊕ show r.tx_count)
    ∷ ("AI Calls," ⊕ locale_text r.call_count)
    ∷ ("Status," ⊕ status_text r.status)
    ∷ []

-- `handleCsvDownload`
unfoldable pub csv_file : (ℕ → String) → InvoiceRow → File
unfolding csv_lines
csv_file locale_text r = record {
  content = join "\n" (csv_lines locale_text r);
  name = "invoice-" ⊕ dashed r.period ⊕ ".csv";
}

-- `fmtUsd`, of a number of cents.
unfoldable pub fmt_usd : ℕ → String
unfolding grouped_from
fmt_usd cents = "$" ⊕ grouped (cents / 100) ⊕ "." ⊕ pad_start 2 (show (cents % 100))

-- A line of the statement.
unfoldable pub item_line : BillingLineItem → String
unfolding fmt_usd
item_line i =
    i.model ⊕ "," ⊕ show i.tokens ⊕ "," ⊕ fmt_usd i.unit_rate_per_million ⊕ "," ⊕ fmt_usd i.amount

-- `buildCsv`. The tax is rounded to a cent, for which the source takes what its floating-point product
-- is nearest to.
unfoldable pub build_csv : BillingStatement → String
unfolding item_line
build_csv b = join "\n" (
    (("Billing Period," ⊕ b.period)
      ∷ ("Merchant," ⊕ b.merchant_name)
      ∷ ""
      ∷ "Model,Tokens,Unit Rate (per 1M),Amount"
      ∷ [])
    ++ map item_line b.line_items
    ++ (""
        ∷ ("Subtotal,,, " ⊕ fmt_usd b.subtotal)
        ∷ ("Tax (" ⊕ show b.tax_rate ⊕ "%),,, " ⊕ fmt_usd (round_div (b.subtotal * b.tax_rate) 100))
        ∷ ("Total,,, " ⊕ fmt_usd b.total)
        ∷ []))

-- What becomes of the request to send an invoice again: none is answered, or its body is no JSON or null, or
-- it is read. The status of the reply is not looked at.
pub data Resent : Type 0 where
  unanswered unreadable null_body : Resent
  read : (ok : Bool) (email : String) → Resent

-- `handleResend`: the note that is shown, if one is.
abbrev pub handle_resend : Resent → Option String
handle_resend (read true email) = some ("Invoice resent to " ⊕ email)
handle_resend (read false email) = none
handle_resend _ = some "Invoice resent to ops@haba-rd.jp"
