-- ===== src/Console/Scenarios/Rounds.antt =====
-- The routes that ask for a challenge and have a payment built: normal, expired and tampered.
use x402_token_market.Base.{
  ℕ, suc, ◌*◌, Bool, false, not, ◌&&◌, ◌==◌, ltb, leb, String, Option, none, some, List, [], ◌∷◌,
  str_eq, ◌⊕◌, or_else, if◌then◌else◌,
}
use x402_token_market.Env.{Env}
use x402_token_market.Json.{
  Json, Number, null, bool, num, str, arr, items, whole, object, get, first, is_truthy,
}
use x402_token_market.Json.Codec.{Codec}
use x402_token_market.Net.{Io, ret, ◌>>=◌, header, unless_null}
use x402_token_market.Route.{HttpResult, defined}
use x402_token_market.Console.Gateway.{
  Answer, Trial, fetch_challenge, build_payment_header, retry_with_proof,
}

-- What a run draws from outside: the part of the key that the clock and the random numbers give, and
-- the measured durations in milliseconds.
pub record Clock : Type 0 where
  pub stamp : String
  pub took_first : ℕ
  pub took_second : ℕ
  pub took_third : ℕ

abbrev pub tenth_usdc : Number
tenth_usdc = record { negative = false; top = 100_000; under = 0 }

abbrev pub half_usdc : Number
half_usdc = record { negative = false; top = 500_000; under = 0 }

abbrev pub answered : Json → HttpResult
answered body = record { status = 200; body = body }

abbrev pub step : String → Bool → List (String × Option Json) → Json
step name good detail = object (
    ("name", str name)
    ∷ ("status", str (if good then "ok" else "fail"))
    ∷ ("detail", object (defined detail))
    ∷ [])

-- `ch.body?.accepts?.[0]`
abbrev pub offered : Answer → Option Json
offered ch = elim (get "accepts" ch.body) [ some v ↦ first v | none ↦ none ]

-- `ch.status === 402 && ch.body?.accepts?.[0]`
abbrev pub is_challenge : Answer → Bool
is_challenge ch = (ch.status == 402) && is_truthy (offered ch)

-- `built.status === 200 && built.body?.x_payment_header`
abbrev pub is_built : Answer → Bool
is_built built = (built.status == 200) && is_truthy (get "x_payment_header" built.body)

-- `{ ok: false, scenario, steps, error }`
abbrev pub stopped : String → List Json → String → HttpResult
stopped scenario steps why = answered (
    object (
      ("ok", bool false)
      ∷ ("scenario", str scenario)
      ∷ ("steps", arr (items steps))
      ∷ ("error", str why)
      ∷ []))

-- `{ ok: false, error }`
abbrev pub failure : String → HttpResult
failure why = answered (object (("ok", bool false) ∷ ("error", str why) ∷ []))

-- The amount of a normal run: the one asked for, at most 0.5 USDC, or else 0.1 USDC.
unfoldable pub capped : Option Json → Number
capped (some (num n)) =
    if not n.negative && ltb 0 n.top
    then (if leb n.top (500_000 * suc n.under) then n else half_usdc)
    else tenth_usdc
capped _ = tenth_usdc

-- The receipt in the header X-PAYMENT-RESPONSE; one that does not decode is passed over.
abbrev pub receipt : Codec → Option String → Json
receipt c none = null
receipt c (some h) = if str_eq h "" then null else or_else (c.parse (c.decode64 h)) null

abbrev pub challenge_detail : Answer → List (String × Option Json)
challenge_detail ch = ("http", some (whole ch.status)) ∷ ("requirements", offered ch) ∷ []

abbrev pub built_detail : Answer → List (String × Option Json)
built_detail built =
    ("http", some (whole built.status))
    ∷ ("payer", get "payer" built.body)
    ∷ ("nonce", get "nonce" built.body)
    ∷ []

-- `scenarios/normal/route.ts`
module _ (c : Codec) (env : Env) (k : Clock) where
  abbrev pub normal_trial : Number → Trial
  normal_trial amount = record {
    amount = amount;
    idempotency_key = str ("console-normal-" ⊕ k.stamp);
    description = some "Console · normal payment";
    demo_expiry = none;
  }

  -- The retry keeps the key and leaves out the description.
  abbrev pub normal_retry : Number → Trial
  normal_retry amount = record {
    amount = amount;
    idempotency_key = str ("console-normal-" ⊕ k.stamp);
    description = none;
    demo_expiry = none;
  }

  abbrev pub normal_steps : Answer → List Json → List Json
  normal_steps ch more =
      step "① POST protected resource (no X-PAYMENT)" (ch.status == 402) (
        ("http", some (whole ch.status))
        ∷ (
          "www_authenticate",
          some (elim (header "www-authenticate" ch.headers) [ some h ↦ str h | none ↦ null ]),
        )
        ∷ ("requirements", offered ch)
        ∷ ("took_ms", some (whole k.took_first))
        ∷ [])
      ∷ more

  abbrev pub normal_signed : Answer → List Json → List Json
  normal_signed built more =
      step "② Client signs → X-PAYMENT obtained" (built.status == 200) (
        ("http", some (whole built.status))
        ∷ ("payer", get "payer" built.body)
        ∷ ("nonce", get "nonce" built.body)
        ∷ ("took_ms", some (whole k.took_second))
        ∷ [])
      ∷ more

  abbrev pub normal_report : Answer → Answer → Json → Answer → HttpResult
  normal_report ch built payment retry =
      let proof = receipt c (header "x-payment-response" retry.headers) in
      let last =
        step "③ Retry with X-PAYMENT → Gateway → WEA verify → Solana settle" (retry.status == 200) (
          ("http", some (whole retry.status))
          ∷ ("body", some retry.body)
          ∷ ("settlement_receipt", some proof)
          ∷ ("took_ms", some (whole k.took_third))
          ∷ []) in
      answered (
        object (
          defined (
            ("ok", some (bool (retry.status == 200)))
            ∷ ("scenario", some (str "normal"))
            ∷ ("steps", some (arr (items (normal_steps ch (normal_signed built (last ∷ []))))))
            ∷ ("x_payment_header", some payment)
            ∷ ("requirements", offered ch)
            ∷ ("response", some retry.body)
            ∷ ("settlement_receipt", some proof)
            ∷ [])))

  abbrev pub normal_pay : Number → Answer → Answer → Io HttpResult
  normal_pay amount ch built =
      if is_built built
      then (let payment = or_else (get "x_payment_header" built.body) null in
          retry_with_proof c env (normal_retry amount) payment >>= λ retry.
          ret (normal_report ch built payment retry))
      else ret (
          stopped "normal" (normal_steps ch (normal_signed built []))
            "build-payment-payload failed")

  abbrev pub normal_build : Number → Answer → Io HttpResult
  normal_build amount ch =
      if is_challenge ch
      then build_payment_header c env (or_else (offered ch) null) >>= normal_pay amount ch
      else ret (stopped "normal" (normal_steps ch []) "expected 402")

  unfoldable pub normal_round : Number → Io HttpResult
  normal_round amount = fetch_challenge c env (normal_trial amount) >>= normal_build amount

  -- `POST`, on the text of the request's body; one that is no JSON counts as `{}`.
  unfoldable pub normal : String → Io HttpResult
  normal text =
      let body = or_else (c.parse text) (object []) in
      unless_null body "amount_usdc_micro" (normal_round (capped (get "amount_usdc_micro" body)))
