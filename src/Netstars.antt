-- ===== src/Netstars.antt =====
-- The storefront's client of the Token and x402 services, haba/src/lib/netstars/client.ts.
pub mod Calls
use mathlib.Core.Option
use x402_token_market.Base.{
  ℕ, true, String, Option, none, some, List, [], ◌∷◌, ◌++◌, map, show, ◌⊕◌, or_else, if◌then◌else◌,
}
use x402_token_market.Env.{Env, ◌||or◌}
use x402_token_market.Json.{Json, str, num, Number, arr, whole, items, object}
use x402_token_market.Json.Codec.{Codec}
use x402_token_market.Net.{
  Request, Response, netstars, Io, ret, throw, ◌>>=◌, fetch, is_ok, read_json,
}
use x402_token_market.Route.{defined}
use x402_token_market.Sign.{Crypto, Stamp, Credentials, sign_request}

-- `TOKEN_API`, `X402_API`, `API_KEY_ID` and `API_KEY_SECRET`
pub token_api : Env → String
token_api env =
    env "NETSTARS_TOKEN_API_INTERNAL"
    ||or (env "NEXT_PUBLIC_NETSTARS_TOKEN_API" ||or "http://localhost:8080")

pub x402_base : Env → String
x402_base env =
    env "NETSTARS_X402_API_INTERNAL"
    ||or (env "NEXT_PUBLIC_NETSTARS_X402_API" ||or "http://localhost:8081")

pub credentials : Env → Credentials
credentials env = record {
  key_id = or_else (env "NETSTARS_API_KEY") "ak_localdev_test";
  key_secret = or_else (env "NETSTARS_API_KEY_SECRET") "secret_localdev_test";
}

pub data Role : Type 0 where
  user assistant : Role

pub record ChatMessage : Type 0 where
  pub role : Role
  pub content : String

abbrev pub role_text : Role → String
role_text user = "user"
role_text assistant = "assistant"

abbrev pub chat_json : ChatMessage → Json
chat_json m = object (("role", str (role_text m.role)) ∷ ("content", str m.content) ∷ [])

pub record ChatArgs : Type 0 where
  pub model : Json
  pub system : Option String
  pub messages : List ChatMessage
  pub max_tokens : Option ℕ

pub record CheckoutArgs : Type 0 where
  pub amount_usdc : Number
  pub idempotency_key : String
  pub order_reference : String
  pub metadata : Option Json

-- What every call does with the reply: a status out of range is a NetstarsError with the body.
unfoldable pub checked : Codec → String → Response → Io Json
checked c label res =
    if is_ok res
    then read_json c res
    else throw (netstars res.status (label ⊕ " " ⊕ show res.status) (some res.text))

module _ (c : Codec) (k : Crypto) (env : Env) (s : Stamp) where
  -- A signed GET. The query is sent and not signed.
  abbrev pub signed_get : (path query : String) → Request
  signed_get path query = record {
    method = "GET";
    url = token_api env ⊕ path ⊕ query;
    headers = sign_request k (credentials env) s "GET" path "";
    body = none;
  }

  -- A signed POST of JSON.
  abbrev pub signed_post : (path : String) → Json → Request
  signed_post path body = record {
    method = "POST";
    url = token_api env ⊕ path;
    headers =
        sign_request k (credentials env) s "POST" path (c.stringify body)
        ++ ("Content-Type", "application/json") ∷ [];
    body = some (c.stringify body);
  }

  -- `fetchBalance`
  unfoldable pub fetch_balance : Io Json
  fetch_balance = do res ← fetch (signed_get "/v1/balance" ""); checked c "balance" res

  -- `fetchRecentActivity`
  unfoldable pub fetch_recent_activity : ℕ → Io Json
  fetch_recent_activity limit = do
    res ← fetch (signed_get "/v1/recent-activity" ("?limit=" ⊕ show limit))
    checked c "recent-activity" res

  -- `createTokenPurchase`
  unfoldable pub create_token_purchase : Number → String → Io Json
  create_token_purchase amount idempotency_key = do
    res ← fetch (
        signed_post "/v1/token-purchase"
          (object (("amount_usdc", num amount) ∷ ("idempotency_key", str idempotency_key) ∷ [])))
    checked c "token-purchase" res

  -- `createMerchantCheckout`
  unfoldable pub create_merchant_checkout : CheckoutArgs → Io Json
  create_merchant_checkout a = do
    res ← fetch (
        signed_post "/v1/merchant-checkout" (
          object (
            ("amount_usdc", num a.amount_usdc)
            ∷ ("idempotency_key", str a.idempotency_key)
            ∷ ("order_reference", str a.order_reference)
            ∷ ("metadata", or_else a.metadata (object []))
            ∷ [])))
    checked c "merchant-checkout" res

  -- `getPaymentOrder`, which is not signed.
  unfoldable pub get_payment_order : String → Io Json
  unfolding x402_base
  get_payment_order id = do
    res ← fetch (record {
      method = "GET";
      url = x402_base env ⊕ "/v1/payments/" ⊕ id;
      headers = [];
      body = none;
    })
    checked c "get-payment" res

  -- `chatCompletion`
  unfoldable pub chat_completion : ChatArgs → Io Json
  chat_completion a = do
    res ← fetch (
        signed_post "/v1/messages" (
          object (
            defined (
              ("model", some a.model)
              ∷ ("messages", some (arr (items (map chat_json a.messages))))
              ∷ ("system", Option.map str a.system)
              ∷ ("max_tokens", some (whole (or_else a.max_tokens 512)))
              ∷ []))))
    checked c "messages" res
