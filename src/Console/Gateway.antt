-- ===== src/Console/Gateway.antt =====
-- The console's client of the gateway, netstars/x402/console/src/lib/x402.ts.
use x402_token_market.Base.{ℕ, String, Option, none, some, List, [], ◌∷◌, ◌⊕◌, or_else}
use mathlib.Core.Option
use x402_token_market.Env.{Env}
use x402_token_market.Json.{Json, Number, null, num, str, obj, whole, assign, object}
use x402_token_market.Json.Codec.{Codec, to_text}
use x402_token_market.Net.{Request, Response, error, Io, ret, throw, ◌>>=◌, fetch}
use x402_token_market.Route.{defined}

-- `X402_API`, `INTERNAL_AUTH` and `PROTECTED_RESOURCE_PATH`
pub gateway_api : Env → String
gateway_api env = or_else (env "X402_API_BASE_URL") "http://x402-api:8080"

pub gateway_auth : Env → String
gateway_auth env = or_else (env "INTERNAL_AUTH_SECRET") "internal_localdev_token"

abbrev pub resource_path : String
resource_path = "/v1/protected/checkout/order"

-- `Resp`
pub record Answer : Type 0 where
  pub status : ℕ
  pub body : Json
  pub headers : List (String × String)

-- What `http` reads of a response: a body that is no JSON is kept as a text.
abbrev pub read_answer : Codec → Response → Answer
read_answer c r = record {
  status = r.status;
  body = or_else (c.parse r.text) (str r.text);
  headers = r.headers;
}

-- The arguments of `fetchChallenge` and `retryWithProof`, less the payment.
pub record Trial : Type 0 where
  pub amount : Number
  pub idempotency_key : Json
  pub description : Option String
  pub demo_expiry : Option ℕ

abbrev pub trial_json : Trial → Json
trial_json o = object (
    defined (
      ("amount_usdc_micro", some (num o.amount))
      ∷ ("idempotency_key", some o.idempotency_key)
      ∷ ("description", some (str (or_else o.description "x402 payment verification")))
      ∷ ("_demo_expiry_seconds", Option.map whole o.demo_expiry)
      ∷ []))

module _ (c : Codec) (env : Env) where
  -- The request of `http`, a POST of JSON to a path of the gateway.
  abbrev pub gateway_request : String → Json → List (String × String) → Request
  gateway_request path body headers = record {
    method = "POST";
    url = gateway_api env ⊕ path;
    headers = ("Content-Type", "application/json") ∷ headers;
    body = some (c.stringify body);
  }

  -- `http`
  abbrev pub http : Request → Io Answer
  http r = fetch r >>= λ res. ret (read_answer c res)

  abbrev pub trial_request : Trial → Request
  trial_request o = gateway_request resource_path (trial_json o) []

  abbrev pub header_request : Json → Request
  header_request reqs =
      gateway_request "/internal/build-payment-payload" reqs
        (("X-Internal-Auth", gateway_auth env) ∷ [])

  abbrev pub proof_of : Trial → Json → Request
  proof_of o payment =
      gateway_request resource_path (trial_json o) (("X-PAYMENT", to_text c (some payment)) ∷ [])

  abbrev pub fetch_challenge : Trial → Io Answer
  fetch_challenge o = http (trial_request o)

  abbrev pub build_payment_header : Json → Io Answer
  build_payment_header reqs = http (header_request reqs)

  abbrev pub retry_with_proof : Trial → Json → Io Answer
  retry_with_proof o payment = http (proof_of o payment)

-- `Object.assign(obj, { [k]: v })`: on null it throws, and on any value but an object the property is
-- not written out again.
abbrev pub override : String → Json → Json → Io Json
override k v null = throw (error "TypeError" "Cannot convert undefined or null to object" none)
override k v (obj r) = ret (obj (assign k v r))
override k v w = ret w

-- `tamperPayload`; a header that is no text is no argument of `Buffer.from`.
abbrev pub tamper_payload : Codec → Json → String → Json → Io String
tamper_payload c (str h) k v = elim (c.parse (c.decode64 h)) [
  | none ↦ throw (error "SyntaxError" (c.syntax_error (c.decode64 h)) none)
  | some w ↦ override k v w >>= λ u. ret (c.encode64 (c.stringify u))
]
tamper_payload c h k v = throw (error "TypeError" "The first argument must be of type string" none)
