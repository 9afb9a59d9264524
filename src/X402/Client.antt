-- ===== src/X402/Client.antt =====
-- The requests of the x402 loop and the loop itself.
use mathlib.Core.Option
use x402_token_market.Base.{
  ℕ, String, Option, none, some, [], ◌∷◌, ◌==◌, leb, str_eq, not, ◌||◌, take_text, show, ◌⊕◌,
  if◌then◌else◌,
}
use x402_token_market.Env.{Env, ◌||or◌}
use x402_token_market.Json.{Json, null, str, get, is_truthy, is_empty, first}
use x402_token_market.Json.Codec.{Codec, to_text}
use x402_token_market.Net.{
  Request, Response, Code, bad_response, build_failed, retry_rejected, gateway_error, protocol,
  error, Io, ret, throw, ◌>>=◌, try, fetch, is_ok, header, read_json, read_again, null_access,
}
use x402_token_market.X402.Splice.{splice}

-- `X402_API` and `INTERNAL_AUTH`
pub x402_api : Env → String
x402_api env =
    env "NETSTARS_X402_API_INTERNAL"
    ||or (env "NEXT_PUBLIC_NETSTARS_X402_API" ||or "http://localhost:8081")

pub internal_auth : Env → String
internal_auth env =
    env "X402_INTERNAL_AUTH_SECRET" ||or (env "INTERNAL_AUTH_SECRET" ||or "internal_localdev_token")

-- `protectedCheckoutOrderUrl`
pub protected_checkout_order_url : Env → String
protected_checkout_order_url env = x402_api env ⊕ "/v1/protected/checkout/order"

-- What `x402Fetch` is called with.
pub record Purchase : Type 0 where
  pub resource_url : String
  pub body : Json
  pub user_verification : Option String

-- What it returns.
pub record Settled : Type 0 where
  pub body : Json
  pub challenge : Json
  pub requirements : Option Json
  pub settlement_receipt : Json
  pub x_payment_header : Option Json

-- `throw Object.assign(new Error(err.message), { cause: err })`
abbrev pub raise : {A : Type 0} → Code → String → Option ℕ → Option Json → Io A
raise code message status body = throw (
    error "Error" message
      (some (protocol (record { code = code; message = message; status = status; body = body }))))

-- The 402 check on the first reply, and the body of the challenge.
abbrev pub read_challenge : Codec → Response → Io Json
read_challenge c res =
    if res.status == 402
    then read_json c res
    else raise bad_response ("expected 402 on first attempt, got " ⊕ show res.status)
        (some res.status) (some (str (take_text 400 res.text)))

abbrev pub no_requirements : Json → Io (Option Json)
no_requirements challenge =
    raise bad_response "402 body did not carry any acceptable PaymentRequirements" none
      (some challenge)

-- `challenge.accepts[0]`, behind the check that there is one.
abbrev pub pick_requirements : Json → Io (Option Json)
pick_requirements null = null_access "accepts"
pick_requirements challenge = elim (get "accepts" challenge) [
  | none ↦ no_requirements challenge
  | some accepts ↦
      if not (is_truthy (some accepts)) || is_empty accepts
      then no_requirements challenge
      else ret (first accepts)
]

abbrev pub payment_header : Json → Io (Option Json)
payment_header null = null_access "x_payment_header"
payment_header built = ret (get "x_payment_header" built)

-- `built.x_payment_header`
abbrev pub read_built : Codec → Response → Io (Option Json)
read_built c res =
    if is_ok res
    then read_json c res >>= (λ built. payment_header built)
    else raise build_failed
        ("build-payment-payload HTTP " ⊕ show res.status ⊕ ": " ⊕ take_text 240 res.text)
        (some res.status) none

-- The assertion is spliced into a header that is a text; decoding any other value throws, and the
-- value is kept.
abbrev pub authorise : Codec → Option String → Option Json → Option Json
authorise c none header = header
authorise c (some uv) (some (str s)) =
    if str_eq uv "" then some (str s) else some (str (splice c s uv))
authorise c (some uv) header = header

-- The settlement receipt of the header X-PAYMENT-RESPONSE, if there is one.
abbrev pub read_receipt : Codec → Option String → Json
read_receipt c none = null
read_receipt c (some h) =
    if str_eq h "" then null else (elim (c.parse (c.decode64 h)) [ some v ↦ v | none ↦ str h ])

-- The error for a retry that was not answered by 200.
abbrev pub refuse : {A : Type 0} → ℕ → Json → Io A
refuse status problem =
    if leb 500 status
    then raise gateway_error ("gateway 5xx: " ⊕ show status) (some status) (some problem)
    else raise retry_rejected ("gateway rejected the proof (HTTP " ⊕ show status ⊕ ")")
        (some status) (some problem)

-- The last reply. The body of a refusal that is no JSON is read a second time, which throws.
unfoldable pub conclude : Codec → Json → Option Json → Option Json → Response → Io Settled
conclude c challenge requirements payment res =
    if res.status == 200
    then read_json c res >>= (λ paid. ret (record {
      body = paid;
      challenge = challenge;
      requirements = requirements;
      settlement_receipt = read_receipt c (header "x-payment-response" res.headers);
      x_payment_header = payment;
    }))
    else try (read_json c res) (refuse res.status) (λ _. read_again)

module _ (c : Codec) (env : Env) where
  abbrev pub challenge_request : Purchase → Request
  challenge_request p = record {
    method = "POST";
    url = p.resource_url;
    headers = ("Content-Type", "application/json") ∷ [];
    body = some (c.stringify p.body);
  }

  -- `JSON.stringify(undefined)` is undefined, and the request has no body.
  abbrev pub build_request : Option Json → Request
  unfolding x402_api internal_auth
  build_request requirements = record {
    method = "POST";
    url = x402_api env ⊕ "/internal/build-payment-payload";
    headers = ("Content-Type", "application/json") ∷ ("X-Internal-Auth", internal_auth env) ∷ [];
    body = Option.map c.stringify requirements;
  }

  abbrev pub retry_request : Purchase → Option Json → Request
  retry_request p payment = record {
    method = "POST";
    url = p.resource_url;
    headers = ("Content-Type", "application/json") ∷ ("X-PAYMENT", to_text c payment) ∷ [];
    body = some (c.stringify p.body);
  }

  -- Step 3: the request again, with the payment.
  unfoldable pub pay : Purchase → Json → Option Json → Option Json → Io Settled
  pay p challenge requirements payment = do
    retried ← fetch (retry_request p payment)
    conclude c challenge requirements payment retried

  -- Step 2: the payment, built and signed by the gateway's wallet, and authorised by the user.
  unfoldable pub sign_and_pay : Purchase → Json → Option Json → Io Settled
  sign_and_pay p challenge requirements = do
    signed ← fetch (build_request requirements)
    built ← read_built c signed
    pay p challenge requirements (authorise c p.user_verification built)

  -- `x402Fetch`, from its step 1, the challenge.
  unfoldable pub x402_fetch : Purchase → Io Settled
  x402_fetch p = do
    challenged ← fetch (challenge_request p)
    challenge ← read_challenge c challenged
    requirements ← pick_requirements challenge
    sign_and_pay p challenge requirements
