-- ===== src/Wea.antt =====
-- The facilitator's console, wea/console/src/app/api: the scenarios trigger-payment and direct-verify,
-- and the proxies of its log and its metrics, with those of netstars/x402/console/src/app/api/console.
pub mod Runs
pub mod Relays
use mathlib.Core.Option
use x402_token_market.Base.{
  ℕ, ◌==◌, ◌&&◌, Bool, true, false, String, Option, none, some, List, [], ◌∷◌, show, ◌⊕◌, or_else,
  if◌then◌else◌,
}
use x402_token_market.Env.{Env}
use x402_token_market.Json.{Json, null, bool, str, arr, whole, object, items, get, first, is_truthy}
use x402_token_market.Json.Codec.{Codec, to_text}
use x402_token_market.Net.{Request, Response, Io, ret, ◌>>=◌, fetch, is_ok, read_json, unless_null}
use x402_token_market.Route.{HttpResult, defined}
use x402_token_market.Console.Gateway.{gateway_api, gateway_auth}
use x402_token_market.Console.Scenarios.{Clock, failure, answered}

-- `WEA`
abbrev pub wea_api : Env → String
wea_api env = or_else (env "WEA_API_BASE_URL") "http://wea-api:8080"

-- `await r.json().catch(() => ({}))`
abbrev pub json_or_empty : Codec → Response → Json
json_or_empty c r = or_else (c.parse r.text) (object [])

-- `accepts?.[0]`
abbrev pub first_requirement : Json → Option Json
first_requirement challenge = elim (get "accepts" challenge) [ some v ↦ first v | none ↦ none ]

abbrev pub good_or_bad : Bool → Json
good_or_bad b = str (if b then "ok" else "fail")

-- `j.isValid === false`
abbrev pub is_refused : Option Json → Bool
is_refused (some (bool false)) = true
is_refused _ = false

-- The report on a payment that was sent.
abbrev pub trigger_report : Codec → Clock → Response → Response → Json → Response → HttpResult
trigger_report c k ch build built retry = answered (
    object (
      ("ok", bool (retry.status == 200))
      ∷ (
        "steps",
        arr (
            items (
              object (
                ("name", str "① 402 challenge (gateway)")
                ∷ ("status", good_or_bad (ch.status == 402))
                ∷ ("took_ms", whole k.took_first)
                ∷ ("http", whole ch.status)
                ∷ [])
              ∷ object (
                  defined (
                    ("name", some (str "② Build X-PAYMENT (payment signer)"))
                    ∷ ("status", some (good_or_bad (is_ok build)))
                    ∷ ("took_ms", some (whole k.took_second))
                    ∷ ("payer", get "payer" built)
                    ∷ ("nonce", get "nonce" built)
                    ∷ []))
              ∷ object (
                  ("name", str "③ Gateway → WEA verify → WEA settle → Solana")
                  ∷ ("status", good_or_bad (retry.status == 200))
                  ∷ ("took_ms", whole k.took_third)
                  ∷ ("http", whole retry.status)
                  ∷ ("body", json_or_empty c retry)
                  ∷ [])
              ∷ [])),
      )
      ∷ ("settlement", json_or_empty c retry)
      ∷ []))

module _ (c : Codec) (env : Env) (k : Clock) where
  abbrev order_request : List (String × String) → Request
  order_request payment = record {
    method = "POST";
    url = gateway_api env ⊕ "/v1/protected/checkout/order";
    headers = ("Content-Type", "application/json") ∷ payment;
    body = some (
        c.stringify (
          object (
            ("amount_usdc_micro", whole 100_000)
            ∷ ("idempotency_key", str ("wea-console-" ⊕ k.stamp))
            ∷ ("description", str "WEA console · trigger")
            ∷ [])));
  }

  abbrev pub trigger_request : Request
  trigger_request = order_request []

  abbrev pub payment_request : Json → Request
  payment_request built =
      order_request (("X-PAYMENT", to_text c (get "x_payment_header" built)) ∷ [])

  abbrev pub signing_request : Json → Request
  signing_request reqs = record {
    method = "POST";
    url = gateway_api env ⊕ "/internal/build-payment-payload";
    headers = ("Content-Type", "application/json") ∷ ("X-Internal-Auth", gateway_auth env) ∷ [];
    body = some (c.stringify reqs);
  }

  -- `trigger-payment/route.ts`, from its last step.
  abbrev pub trigger_retry : Response → Response → Json → Io HttpResult
  trigger_retry ch build built =
      unless_null built "x_payment_header"
        (fetch (payment_request built) >>= λ retry. ret (trigger_report c k ch build built retry))

  abbrev pub trigger_built : Response → Response → Io HttpResult
  trigger_built ch build =
      if is_ok build
      then read_json c build >>= trigger_retry ch build
      else ret (failure ("build " ⊕ show build.status ⊕ ": " ⊕ build.text))

  abbrev pub trigger_build : Response → Json → Io HttpResult
  trigger_build ch challenge = unless_null challenge "accepts" (
      if is_truthy (first_requirement challenge)
      then fetch (signing_request (or_else (first_requirement challenge) null)) >>= trigger_built ch
      else ret (failure "no requirements in 402 body"))

  abbrev pub trigger_challenged : Response → Io HttpResult
  trigger_challenged ch =
      if ch.status == 402
      then read_json c ch >>= trigger_build ch
      else ret (failure ("expected 402 got " ⊕ show ch.status))

  unfoldable pub trigger_payment : Io HttpResult
  trigger_payment = fetch trigger_request >>= trigger_challenged

  -- A payment whose transaction is none.
  abbrev pub bogus_payload : Json
  bogus_payload = object (
      ("x402Version", whole 1)
      ∷ ("scheme", str "exact")
      ∷ ("network", str "solana-devnet")
      ∷ ("resource", str "http://x402-api:8080/v1/protected/checkout/order")
      ∷ (
        "payload",
        object (
            ("signedTxBase64", str (c.encode64 "not-a-real-solana-tx"))
            ∷ ("userVerification", null)
            ∷ []),
      )
      ∷ [])

  abbrev pub bogus_requirements : Json
  bogus_requirements = object (
      ("scheme", str "exact")
      ∷ ("network", str "solana-devnet")
      ∷ ("maxAmountRequired", str "100000")
      ∷ ("resource", str "http://x402-api:8080/v1/protected/checkout/order")
      ∷ ("payTo", str "61e1MSTEN5dTjNGNQcwUivRVubYz6ebYfmz9qvYtkeNr")
      ∷ ("maxTimeoutSeconds", whole 600)
      ∷ ("asset", str "4zMMC9srt5Ri5X14GAgXhaHii3GnPAEERYPJgZJDncDU")
      ∷ (
        "extra",
        object (
            ("nonce", str ("console-direct-" ⊕ k.stamp))
            ∷ ("decimals", whole 6)
            ∷ ("name", str "USDC")
            ∷ []),
      )
      ∷ [])

  abbrev pub verify_request : Request
  verify_request = record {
    method = "POST";
    url = wea_api env ⊕ "/facilitator/verify";
    headers = ("Content-Type", "application/json") ∷ [];
    body = some (
        c.stringify (
          object (
            ("paymentPayload", bogus_payload) ∷ ("paymentRequirements", bogus_requirements) ∷ [])));
  }

  abbrev pub verify_report : Response → Bool → HttpResult
  verify_report r good = answered (
      object (
        ("ok", bool good)
        ∷ ("expected", str "isValid=false with invalidReason set")
        ∷ (
          "steps",
          arr (
              items (
                object (
                  ("name", str "POST wea-api /facilitator/verify with bogus signedTxBase64")
                  ∷ ("status", good_or_bad good)
                  ∷ ("http", whole r.status)
                  ∷ ("body", json_or_empty c r)
                  ∷ ("took_ms", whole k.took_first)
                  ∷ [])
                ∷ [])),
        )
        ∷ []))

  -- The verdict reads the body only of a reply with status 200.
  abbrev pub verify_judged : Response → Io HttpResult
  verify_judged r =
      if r.status == 200
      then unless_null (json_or_empty c r) "isValid"
          (ret (verify_report r (is_refused (get "isValid" (json_or_empty c r)))))
      else ret (verify_report r false)

  -- `direct-verify/route.ts`
  unfoldable pub direct_verify : Io HttpResult
  direct_verify = fetch verify_request >>= verify_judged

module _ (c : Codec) (env : Env) where
  abbrev pub read_request : String → Request
  read_request url = record { method = "GET"; url = url; headers = []; body = none }

  -- What the four proxies do: the JSON of the reply, or an empty object, with its status.
  abbrev pub relay : String → Io HttpResult
  relay url =
      fetch (read_request url) >>= λ r. ret (record { status = r.status; body = json_or_empty c r })

  -- `console/calls/route.ts` and `console/metrics/route.ts` of the facilitator
  unfoldable pub wea_calls : Io HttpResult
  wea_calls = relay (wea_api env ⊕ "/v1/_console/calls")

  unfoldable pub wea_metrics : Io HttpResult
  wea_metrics = relay (wea_api env ⊕ "/v1/_console/metrics")

  -- `console/metrics/route.ts` of the gateway, and `console/events/route.ts`, on the parameter `limit`;
  -- `encode` is `encodeURIComponent`.
  unfoldable pub x402_metrics : Io HttpResult
  x402_metrics = relay (gateway_api env ⊕ "/v1/_console/metrics")

  unfoldable pub x402_events : (String → String) → Option String → Io HttpResult
  x402_events encode limit =
      relay (gateway_api env ⊕ "/v1/_console/events?limit=" ⊕ encode (or_else limit "30"))
