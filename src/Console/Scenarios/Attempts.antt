-- ===== src/Console/Scenarios/Attempts.antt =====
-- The routes whose retry the gateway is meant to refuse: expired, tampered, malformed and replayed.
use x402_token_market.Base.{
  ℕ, Bool, false, ◌&&◌, ◌==◌, String, Option, none, some, List, [], ◌∷◌, str_eq, ◌⊕◌, or_else,
  if◌then◌else◌,
}
use x402_token_market.Env.{Env}
use x402_token_market.Json.{Json, null, bool, str, arr, items, whole, object, get, is_truthy}
use x402_token_market.Json.Codec.{Codec}
use x402_token_market.Net.{Io, ret, ◌>>=◌, unless_null}
use x402_token_market.Route.{HttpResult}
use x402_token_market.Console.Gateway.{
  Answer, Trial, fetch_challenge, build_payment_header, retry_with_proof, tamper_payload,
}
use x402_token_market.Console.Scenarios.Rounds.{
  Clock, tenth_usdc, answered, step, offered, is_challenge, is_built, stopped, failure,
  challenge_detail, built_detail,
}

abbrev pub simple_trial : Json → Option String → Trial
simple_trial key description = record {
  amount = tenth_usdc;
  idempotency_key = key;
  description = description;
  demo_expiry = none;
}

-- The report of a route with one step: the retry is as expected or not.
abbrev pub verdict :
    (scenario expected name : String) → ℕ → List (String × Json) → Answer → HttpResult
verdict scenario expected name code extra r = answered (
    object (
      ("ok", bool (r.status == code))
      ∷ ("expected", str expected)
      ∷ ("scenario", str scenario)
      ∷ (
        "steps",
        arr (
            items (
              object (
                ("name", str name)
                ∷ ("status", str (if r.status == code then "ok" else "fail"))
                ∷ ("detail", object (("http", whole r.status) ∷ ("body", r.body) ∷ extra))
                ∷ [])
              ∷ [])),
      )
      ∷ ("response", r.body)
      ∷ []))

-- What the two tampering routes differ in.
pub record Tampering : Type 0 where
  pub scenario : String
  pub key_prefix : String
  pub description : String
  pub field : String
  pub value : String
  pub name : String

-- `scenarios/tamper-network/route.ts` and `scenarios/tamper-resource/route.ts`
abbrev pub tamper_network : Tampering
tamper_network = record {
  scenario = "tamper-network";
  key_prefix = "console-tamper-net-";
  description = "Console · tamper network";
  field = "network";
  value = "solana";
  name = "Tamper payload.network to solana (mainnet) and submit";
}

abbrev pub tamper_resource : Tampering
tamper_resource = record {
  scenario = "tamper-resource";
  key_prefix = "console-tamper-res-";
  description = "Console · tamper resource";
  field = "resource";
  value = "/v1/protected/something-else";
  name = "Tamper payload.resource to a different URL and submit";
}

module _ (c : Codec) (env : Env) (k : Clock) where
  abbrev pub tampered_report : Tampering → Answer → HttpResult
  tampered_report t r =
      verdict t.scenario "HTTP 402 + error REQUIREMENTS_MISMATCH" t.name 402
        (("tampered_to", str t.value) ∷ ("took_ms", whole k.took_first) ∷ []) r

  abbrev pub tampered_pay : Tampering → Answer → Io HttpResult
  tampered_pay t built =
      if is_built built
      then (tamper_payload c (or_else (get "x_payment_header" built.body) null) t.field
            (str t.value)
          >>= λ payment.
              retry_with_proof c env (simple_trial (str (t.key_prefix ⊕ k.stamp)) none)
                (str payment)
              >>= λ r. ret (tampered_report t r))
      else ret (failure "build failed")

  abbrev pub tampered_build : Tampering → Answer → Io HttpResult
  tampered_build t ch =
      if is_challenge ch
      then build_payment_header c env (or_else (offered ch) null) >>= tampered_pay t
      else ret (failure "challenge failed")

  unfoldable pub tampered : Tampering → Io HttpResult
  tampered t =
      fetch_challenge c env (simple_trial (str (t.key_prefix ⊕ k.stamp)) (some t.description))
      >>= tampered_build t

  -- `scenarios/expired/route.ts`, whose wait of three seconds sends nothing.
  abbrev pub expired_trial : Trial
  expired_trial = record {
    amount = tenth_usdc;
    idempotency_key = str ("console-expired-" ⊕ k.stamp);
    description = some "Console · expired order";
    demo_expiry = some 2;
  }

  -- `retry.body.error === "EXPIRED"` of an object
  abbrev pub is_expired : Answer → Bool
  is_expired r =
      (r.status == 410)
      && (elim (get "error" r.body) [ some (str s) ↦ str_eq s "EXPIRED" | _ ↦ false ])

  abbrev pub expired_steps : Answer → List Json → List Json
  expired_steps ch more =
      step "① Create PaymentRequirements with 2-second expiry" (is_challenge ch)
        (challenge_detail ch)
      ∷ more

  abbrev pub expired_signed : Answer → List Json → List Json
  expired_signed built more =
      step "② Build valid X-PAYMENT before expiry" (is_built built) (built_detail built) ∷ more

  abbrev pub expired_report : Answer → Answer → Answer → HttpResult
  expired_report ch built r =
      let last =
        step "③ Wait 3 seconds then retry — Gateway rejects expired order" (is_expired r)
          (("http", some (whole r.status)) ∷ ("body", some r.body) ∷ []) in
      answered (
        object (
          ("ok", bool (is_expired r))
          ∷ ("expected", str "HTTP 410 + error EXPIRED")
          ∷ ("scenario", str "expired")
          ∷ ("steps", arr (items (expired_steps ch (expired_signed built (last ∷ [])))))
          ∷ ("response", r.body)
          ∷ []))

  abbrev pub expired_pay : Answer → Answer → Io HttpResult
  expired_pay ch built =
      if is_built built
      then (retry_with_proof c env expired_trial (or_else (get "x_payment_header" built.body) null)
          >>= λ r. ret (expired_report ch built r))
      else ret (stopped "expired" (expired_steps ch (expired_signed built [])) "build failed")

  abbrev pub expired_build : Answer → Io HttpResult
  expired_build ch =
      if is_challenge ch
      then build_payment_header c env (or_else (offered ch) null) >>= expired_pay ch
      else ret (stopped "expired" (expired_steps ch []) "challenge failed")

  unfoldable pub expired : Io HttpResult
  expired = fetch_challenge c env expired_trial >>= expired_build

  -- `scenarios/malformed/route.ts`
  unfoldable pub malformed : Io HttpResult
  malformed =
      retry_with_proof c env (simple_trial (str ("console-malformed-" ⊕ k.stamp)) none)
        (str "Z2FyYmFnZS1ub3QtanNvbg==")
      >>= λ r. ret (
          verdict "malformed" "HTTP 402 + error X_PAYMENT_INVALID"
            "Submit base64 that cannot be decoded as JSON" 402
            (("took_ms", whole k.took_first) ∷ []) r)

  -- `scenarios/replay/route.ts`, on the body of the request.
  abbrev pub replayed : Json → Io HttpResult
  replayed body =
      if is_truthy (get "x_payment_header" body) && is_truthy (get "idempotency_key" body)
      then (retry_with_proof c env (simple_trial (or_else (get "idempotency_key" body) null) none)
            (or_else (get "x_payment_header" body) null)
          >>= λ r. ret (
              verdict "replay" "HTTP 409 + error REPLAY or ORDER_ALREADY_CONSUMED"
                "Resend the same X-PAYMENT to the same resource" 409
                (("took_ms", whole k.took_first) ∷ []) r))
      else ret (record {
        status = 400;
        body = object (
            ("ok", bool false)
            ∷ ("error", str "Run Normal payment first so the console can capture a valid X-PAYMENT")
            ∷ []);
      })

  unfoldable pub replay : String → Io HttpResult
  replay text =
      let body = or_else (c.parse text) (object []) in
      unless_null body "x_payment_header" (replayed body)
