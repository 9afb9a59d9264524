-- ===== src/Mock/Types.antt =====
-- The rows of the sample data.
use x402_token_market.Base.{ℕ, Bool, true, false, String, Option, List, [], ◌∷◌}

-- What `Date` gives of a time in milliseconds: its ISO text, and its year, month (from 0), day and day
-- of the week in UTC.
pub record Calendar : Type 0 where
  pub iso : ℕ → String
  pub year : ℕ → ℕ
  pub month : ℕ → ℕ
  pub day : ℕ → ℕ
  pub weekday : ℕ → ℕ

pub data Provider : Type 0 where
  anthropic openai xai google : Provider

pub record ModelRow : Type 0 where
  pub id : String
  pub provider : Provider
  pub input_per_1k : ℕ
  pub output_per_1k : ℕ
  pub docs_url : String
  pub ok : Bool

abbrev row : String → Provider → ℕ → ℕ → String → Bool → ModelRow
row id provider input output docs ok = record {
  id = id;
  provider = provider;
  input_per_1k = input;
  output_per_1k = output;
  docs_url = docs;
  ok = ok;
}

-- `MODELS`
abbrev pub models : List ModelRow
models =
    row "claude-opus-4-7" anthropic 15_000 75_000 "https://docs.anthropic.com" true
    ∷ row "claude-sonnet-4-6" anthropic 3_000 15_000 "https://docs.anthropic.com" true
    ∷ row "claude-haiku-4-5" anthropic 800 4_000 "https://docs.anthropic.com" true
    ∷ row "gpt-5.5" openai 5_000 30_000 "https://developers.openai.com/api/docs/models/gpt-5.5/"
        true
    ∷ row "gpt-4.1" openai 10_000 30_000 "https://platform.openai.com/docs" true
    ∷ row "gpt-4.1-mini" openai 2_000 6_000 "https://platform.openai.com/docs" true
    ∷ row "grok-4" xai 8_000 24_000 "https://docs.x.ai" true
    ∷ row "gemini-2.5-pro" google 8_000 24_000 "https://ai.google.dev" false
    ∷ []

pub record UsageRow : Type 0 where
  pub model : String
  pub provider : Provider
  pub requests : ℕ
  pub tokens_in : ℕ
  pub tokens_out : ℕ
  pub spend_jpy : ℕ

pub record DayRow : Type 0 where
  pub date : String
  pub spend_jpy : ℕ

pub record UsageSummary : Type 0 where
  pub total_spend_jpy : ℕ
  pub total_tokens : ℕ
  pub total_requests : ℕ
  pub per_day : List DayRow
  pub per_model : List UsageRow

pub data KeyStatus : Type 0 where
  active revoked : KeyStatus

pub record ApiKeyRow : Type 0 where
  pub id : String
  pub prefix : String
  pub label : String
  pub project : String
  pub status : KeyStatus
  pub last_used : String
  pub rate_per_min : ℕ
  pub tokens_per_min : ℕ
  pub daily_limit_jpy : ℕ
  pub allowed_models : List String

pub data CallStatus : Type 0 where
  succeed timeout error : CallStatus

pub record KeyCallRow : Type 0 where
  pub ts : String
  pub model : String
  pub tokens : Option ℕ
  pub cost_jpy : Option ℕ
  pub status : CallStatus
  pub trace_id : String

pub data InvoiceStatus : Type 0 where
  issued paid overdue : InvoiceStatus

pub record InvoiceRow : Type 0 where
  pub period : String
  pub id : String
  pub total_jpy : ℕ
  pub status : InvoiceStatus
  pub tx_count : ℕ
  pub call_count : ℕ

pub record AuditRow : Type 0 where
  pub ts : String
  pub actor : String
  pub actor_type : String
  pub action : String
  pub resource_type : String
  pub resource_id : String
  pub trace_id : String
