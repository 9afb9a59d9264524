-- ===== src/Dashboard.antt =====
-- The enterprise dashboard's ledger routes: haba/src/app/api/enterprise/balance/route.ts and
-- topup-history/route.ts, and the balance proxy haba/src/app/api/payment/balance/route.ts.
mod History
unfoldable pub use History.*
pub mod Ledger
pub mod Balance
pub mod Routes
use x402_token_market.Base.{
  ℕ, String, Option, none, some, List, [], ◌∷◌, ◌⊕◌, take_text, if◌then◌else◌,
}
use mathlib.Core.Option
use x402_token_market.Env.{Env}
use x402_token_market.Json.{Json, str, whole, bool, arr, items, object}
use x402_token_market.Json.Codec.{Codec}
use x402_token_market.Net.{
  Request, Response, Thrown, error, netstars, Io, ret, ◌>>=◌, try, fetch, is_ok, read_json,
}
use x402_token_market.Route.{HttpResult, defined, message, error_text}
use x402_token_market.Sign.{Crypto, Stamp, sign_request}
use x402_token_market.Netstars.{fetch_balance}
use x402_token_market.Topup.{token_base, agent_keys}

-- The `catch` of the balance proxy.
unfoldable pub balance_failed : Thrown → HttpResult
balance_failed (netstars status text raw) = record {
  status = 502;
  body = object (
      defined (
        ("error", some (str text))
        ∷ ("status", some (whole status))
        ∷ ("detail", Option.map (λ s. str (take_text 200 s)) raw)
        ∷ []));
}
balance_failed (error name text cause) = record {
  status = 500;
  body = object (("error", str text) ∷ []);
}

-- The ledger's credits, or the sample where there are none.
abbrev pub read_history : Codec → String → Response → Io HttpResult
read_history c now r =
    if is_ok r then read_json c r >>= ledger_history c now else ret sample_history

module _ (c : Codec) (k : Crypto) (env : Env) (stamp : Stamp) where
  -- `payment/balance/route.ts`
  unfoldable pub payment_balance : Io HttpResult
  payment_balance =
      try (fetch_balance c k env stamp) (λ v. ret (record { status = 200; body = v }))
        (λ e. ret (balance_failed e))

  abbrev pub agent_get : (path query : String) → Request
  agent_get path query = record {
    method = "GET";
    url = token_base env ⊕ path ⊕ query;
    headers = sign_request k (agent_keys env) stamp "GET" path "";
    body = none;
  }

  -- `enterprise/balance/route.ts`: the reply is passed on with its status.
  unfoldable pub enterprise_balance : Io HttpResult
  enterprise_balance =
      try
        (fetch (agent_get "/v1/balance" "") >>= λ r.
          read_json c r >>= λ v. ret (record { status = r.status; body = v }))
        ret
        (λ e. ret (record {
          status = 503;
          body =
              object (("error", str "token-api unreachable") ∷ ("detail", str (error_text e)) ∷ []);
        }))

  -- `enterprise/topup-history/route.ts`
  unfoldable pub topup_history : String → Io HttpResult
  topup_history now =
      try (fetch (agent_get "/v1/recent-activity" "?limit=30") >>= read_history c now) ret
        (λ _. ret sample_history)
