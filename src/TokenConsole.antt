-- ===== src/TokenConsole.antt =====
-- The token console's server calls: netstars/token/console/src/lib/api.ts and merchant-config.ts, and
-- the proxy netstars/token/console/src/app/api/proxy/recent-activity/route.ts.
pub mod Fetches
pub mod Profile
pub mod Pages
use Prim.Native.Char.{code}
use mathlib.Core.Option
use x402_token_market.Base.{
  ℕ, ◌==◌, String, Option, none, some, List, [], ◌∷◌, show, ◌⊕◌, or_else, take_text, to_upper,
  if◌then◌else◌,
}
use x402_token_market.Env.{Env}
use x402_token_market.Json.{Json, str, get, object}
use x402_token_market.Json.Codec.{Codec}
use x402_token_market.Net.{
  Request, Response, Thrown, error, Io, ret, throw, ◌>>=◌, try, fetch, is_ok, read_json,
  unless_null,
}
use x402_token_market.Route.{HttpResult, message}
use x402_token_market.Sign.{Crypto, Stamp, Credentials, sign_request}

-- `BASE`
abbrev pub console_base : Env → String
console_base env = or_else (env "NETSTARS_API_BASE_INTERNAL") (
    or_else (env "NETSTARS_API_BASE")
      (or_else (env "NEXT_PUBLIC_API_BASE") "http://localhost:8080"))

-- `API_KEY_ID` and `API_KEY_SECRET`
abbrev pub console_keys : Env → Credentials
console_keys env = record {
  key_id = or_else (env "NETSTARS_API_KEY") "ak_localdev_test";
  key_secret = or_else (env "NETSTARS_API_KEY_SECRET") "secret_localdev_test";
}

-- `pathOnly`: what stands before the first question mark.
unfoldable pub path_only : String → String
path_only String.[] = ""
path_only (String.◌∷◌ c s) =
    let rest = path_only s in if code c == 63 then "" else String.◌∷◌ c rest

-- What `get` does with a response.
unfoldable pub read_reply : Codec → String → Response → Io Json
read_reply c path res =
    if is_ok res
    then read_json c res
    else throw (error "Error" ("API " ⊕ path ⊕ " → " ⊕ show res.status) none)

-- `MerchantConfig`; a value that is `none` is undefined.
pub record MerchantConfig : Type 0 where
  pub display_name : Option Json
  pub display_abbr : Option Json
  pub env_label : Option Json
  pub merchant_id : Option Json
  pub legal_name : Option Json
  pub tax_id : Option Json

-- The name and its abbreviation under the variables of the server, and of the browser.
abbrev pub from_env : (name abbr label : Option String) → MerchantConfig
from_env name abbr label = record {
  display_name = some (str (or_else name "Your Organization"));
  display_abbr =
      some (str (or_else abbr (to_upper (take_text 4 (or_else name "Your Organization")))));
  env_label = some (str (or_else label "prod"));
  merchant_id = none;
  legal_name = none;
  tax_id = none;
}

-- `_envFallback` and `getMerchantConfig`
unfoldable pub env_fallback : Env → MerchantConfig
env_fallback env =
    from_env (env "CONSOLE_MERCHANT_NAME") (env "CONSOLE_MERCHANT_ABBR") (env "CONSOLE_ENV_LABEL")

-- `getMerchantConfigClient`
unfoldable pub get_merchant_config_client : Env → MerchantConfig
get_merchant_config_client env =
    from_env (env "NEXT_PUBLIC_MERCHANT_NAME") (env "NEXT_PUBLIC_MERCHANT_ABBR")
      (env "NEXT_PUBLIC_ENV_LABEL")

abbrev pub from_profile : Json → MerchantConfig
from_profile profile = record {
  display_name = get "display_name" profile;
  display_abbr = get "abbr" profile;
  env_label = get "env_label" profile;
  merchant_id = get "merchant_id" profile;
  legal_name = get "legal_name" profile;
  tax_id = get "tax_id" profile;
}

module _ (c : Codec) (k : Crypto) (env : Env) (stamp : Stamp) where
  -- The request of `get`: the signature is over the path without its query.
  abbrev pub get_request : String → Request
  get_request path = record {
    method = "GET";
    url = console_base env ⊕ path;
    headers = sign_request k (console_keys env) stamp "GET" (path_only path) "";
    body = none;
  }

  -- `get`
  unfoldable pub get_json : String → Io Json
  get_json path = fetch (get_request path) >>= read_reply c path

  -- `api.recentActivity`, on the number as a template writes it.
  unfoldable pub recent_activity : String → Io Json
  recent_activity limit = get_json ("/v1/recent-activity" ⊕ "?limit=" ⊕ limit)

  -- `api.balance`
  unfoldable pub balance : Io Json
  balance = get_json "/v1/balance"

  -- `api.healthz`
  unfoldable pub healthz : Io Json
  healthz = get_json "/healthz"

  -- `api.merchantProfile`
  unfoldable pub merchant_profile : Io Json
  merchant_profile = get_json "/v1/merchant/profile"

  -- `getMerchantConfigFromApi`
  unfoldable pub get_merchant_config_from_api : Io MerchantConfig
  get_merchant_config_from_api =
      try
        (merchant_profile >>= λ profile.
          unless_null profile "display_name" (ret (from_profile profile)))
        ret (λ _. ret (env_fallback env))

  -- `GET` of the proxy, on the parameter `limit` of the query; `number_text s` is `String(Number(s))`.
  unfoldable pub recent_activity_route : (String → String) → Option String → Io HttpResult
  recent_activity_route number_text limit =
      try (recent_activity (number_text (or_else limit "20")))
        (λ v. ret (record { status = 200; body = v }))
        (λ e. ret (record { status = 502; body = object (("error", str (message e)) ∷ []) }))
