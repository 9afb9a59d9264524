-- ===== src/Mock/Keys.antt =====
-- getApiKeysMock, getKeyCallsMock and getAuditMock: keys, the calls made with one, and the audit log.
pub mod Logs
use x402_token_market.Base.{
  ℕ, zero, suc, ◌+◌, ◌-◌, ◌*◌, ◌%◌, ltb, String, Option, none, some, List, [], ◌∷◌, ◌⊕◌, take_text,
  if◌then◌else◌,
}
use x402_token_market.Mock.{
  Drawn, rnd, between, rand_hex, Calendar, ApiKeyRow, active, revoked, KeyCallRow, CallStatus,
  succeed, timeout, error, AuditRow,
}
use x402_token_market.Mock

-- `getApiKeysMock`
unfoldable pub get_api_keys_mock : Calendar → ℕ → List ApiKeyRow
get_api_keys_mock cal now =
    record {
      id = "agk_01HX7P3Q8K";
      prefix = "ak_a1b2";
      label = "Production AI Advisor";
      project = "prod";
      status = active;
      last_used = cal.iso (now - 2 * 60_000);
      rate_per_min = 600;
      tokens_per_min = 100_000_000;
      daily_limit_jpy = 10_000;
      allowed_models = "gpt-5.5" ∷ "gpt-4.1" ∷ "claude-*" ∷ [];
    }
    ∷ record {
      id = "agk_01HX7P3Q9L";
      prefix = "ak_c3d4";
      label = "Pharmacy B2B Channel";
      project = "prod";
      status = active;
      last_used = cal.iso (now - 17 * 60_000);
      rate_per_min = 300;
      tokens_per_min = 30_000_000;
      daily_limit_jpy = 5_000;
      allowed_models = "gpt-5.5" ∷ [];
    }
    ∷ record {
      id = "agk_01HX7P3QAM";
      prefix = "ak_e5f6";
      label = "Hospital Dietitian Bot";
      project = "staging";
      status = active;
      last_used = cal.iso (now - 3 * 86_400_000);
      rate_per_min = 120;
      tokens_per_min = 10_000_000;
      daily_limit_jpy = 1_000;
      allowed_models = "*" ∷ [];
    }
    ∷ record {
      id = "agk_01HX7P3QBN";
      prefix = "ak_g7h8";
      label = "Legacy EC Partner — DRG Online (revoked)";
      project = "prod";
      status = revoked;
      last_used = "2026-05-20T10:14:00Z";
      rate_per_min = 600;
      tokens_per_min = 100_000_000;
      daily_limit_jpy = 10_000;
      allowed_models = "*" ∷ [];
    }
    ∷ []

-- A call that succeeded draws its tokens and cost, and one that did not draws how it failed.
unfoldable pub call_row : Calendar → ℕ → ℕ → Drawn KeyCallRow
call_row cal t seed =
    let (r, after_test) = rnd seed in
    let (tokens, after_tokens) = between 2_500 4_800 after_test in
    let (cost, after_cost) = between 280 520 after_tokens in
    let (f, after_failure) = rnd after_test in
    let (good_trace, after_good) = Mock.trace_id after_cost in
    let (bad_trace, after_bad) = Mock.trace_id after_failure in
    if ltb (12 * 4_294_967_296) (100 * r)
    then ((
      record {
        ts = cal.iso t;
        model = "claude-opus-4-7";
        tokens = some tokens;
        cost_jpy = some cost;
        status = succeed;
        trace_id = good_trace;
      },
      after_good,
    ))
    else ((
      record {
        ts = cal.iso t;
        model = "claude-opus-4-7";
        tokens = none;
        cost_jpy = none;
        status = if ltb 4_294_967_296 (2 * f) then timeout else error;
        trace_id = bad_trace;
      },
      after_bad,
    ))

-- The loop of `getKeyCallsMock`, from a time back.
unfoldable pub call_rows : Calendar → ℕ → ℕ → ℕ → Drawn (List KeyCallRow)
call_rows cal zero t seed = ([], seed)
call_rows cal (suc n) t seed =
    let (row, next) = call_row cal t seed in
    let (gap, later) = between 2_000 18_000 next in
    let (rest, last) = call_rows cal n (t - gap) later in (row ∷ rest, last)

-- `getKeyCallsMock`
unfoldable pub get_key_calls_mock : Calendar → ℕ → ℕ → Drawn (List KeyCallRow)
get_key_calls_mock cal now seed = call_rows cal 12 (now - 30_000) seed

-- An entry of `AUDIT_ACTIONS`
pub record AuditAction : Type 0 where
  pub actor : String
  pub actor_type : String
  pub action : String
  pub resource_type : String

abbrev entry : String → String → String → String → AuditAction
entry actor actor_type action resource_type = record {
  actor = actor;
  actor_type = actor_type;
  action = action;
  resource_type = resource_type;
}

-- `AUDIT_ACTIONS[i % AUDIT_ACTIONS.length]`, from the remainder
abbrev pub audit_action : ℕ → AuditAction
audit_action zero = entry "ops@haba-rd.jp" "user" "api_key.view" "agent_key"
audit_action (suc zero) = entry "system" "system" "token.credit" "payment_order"
audit_action (suc (suc zero)) = entry "ops@haba-rd.jp" "user" "api_key.create" "agent_key"
audit_action (suc (suc (suc zero))) = entry "system" "system" "ledger.debit" "request"
audit_action (suc (suc (suc (suc zero)))) =
    entry "finance@haba-rd.jp" "user" "invoice.view" "invoice"
audit_action _ = entry "system" "system" "webhook.deliver" "webhook"

-- `audit_row a ts`, with the digits that are drawn for it.
unfoldable pub audit_row : AuditAction → String → ℕ → Drawn AuditRow
audit_row a ts seed =
    let (digits, next) = rand_hex 10 seed in
    let (trace, last) = Mock.trace_id next in
    (
      record {
        ts = ts;
        actor = a.actor;
        actor_type = a.actor_type;
        action = a.action;
        resource_type = a.resource_type;
        resource_id = take_text 3 a.resource_type ⊕ "_" ⊕ digits;
        trace_id = trace;
      },
      last,
    )

-- The loop of `getAuditMock`, with `i` of the entries done.
unfoldable pub audit_rows : Calendar → (n i t : ℕ) → ℕ → Drawn (List AuditRow)
audit_rows cal zero i t seed = ([], seed)
audit_rows cal (suc n) i t seed =
    let (row, next) = audit_row (audit_action (i % 6)) (cal.iso t) seed in
    let (gap, later) = between 60_000 600_000 next in
    let (rest, last) = audit_rows cal n (suc i) (t - gap) later in (row ∷ rest, last)

-- `getAuditMock`
unfoldable pub get_audit_mock : Calendar → (limit now : ℕ) → ℕ → Drawn (List AuditRow)
get_audit_mock cal limit now seed = audit_rows cal limit 0 now seed
