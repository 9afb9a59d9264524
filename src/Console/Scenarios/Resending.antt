-- ===== src/Console/Scenarios/Resending.antt =====
-- The scenario routes that only send a payment: the malformed one and the replayed one.
use x402_token_market.Base.{
  ℕ, ◌≡◌, refl, false, ◌&&◌, ◌==◌, String, none, some, List, [], ◌∷◌, inl, inr, Bool-cases,
  Option-cases, or_else, ◌⊕◌,
}
use x402_token_market.Env.{Env}
use x402_token_market.Json.{Json, null, bool, str, object, get, truthy, is_truthy}
use x402_token_market.Json.Codec.{Codec}
use x402_token_market.Net.{
  Request, Response, Reply, response, rejected, Thrown, Outcome, done, failed, Event, run,
}
use x402_token_market.Net.Laws.{Always, run-Always, Always-unless_null}
use x402_token_market.Route.{HttpResult}
use x402_token_market.Console.Gateway.{proof_of}
use x402_token_market.Console.Scenarios.{Clock, simple_trial, malformed, replayed, replay}

-- One request, and a report that is true exactly if it is answered by the status.
pub data Resent (q : Request) (code : ℕ) : List Event → Outcome HttpResult → Type 0 where
  lost : (e : Thrown) → Resent q code ((q, rejected e) ∷ []) (failed e)
  reported :
      (r : Response) (v : HttpResult)
      → get "ok" v.body ≡ some (bool (r.status == code))
      → Resent q code ((q, response r) ∷ []) (done v)

module _ (c : Codec) (env : Env) (k : Clock) where
  abbrev pub Malformed : List Event → Outcome HttpResult → Type 0
  Malformed =
      Resent
        (proof_of c env (simple_trial (str ("console-malformed-" ⊕ k.stamp)) none)
          (str "Z2FyYmFnZS1ub3QtanNvbg=="))
        402

  malformed-Malformed : Always (malformed c env k) Malformed
  unfolding malformed
  malformed-Malformed (rejected e) = lost e
  malformed-Malformed (response r) = reported r _ refl

  -- How a replay ends, from the body of the request, `{}` where that is no JSON.
  pub data Replayed (body : Json) : List Event → Outcome HttpResult → Type 0 where
    unreadable : (e : Thrown) → body ≡ null → Replayed body [] (failed e)
    incomplete :
        (v : HttpResult)
        → (is_truthy (get "x_payment_header" body) && is_truthy (get "idempotency_key" body))
          ≡ false
        → v.status ≡ 400
        → get "ok" v.body ≡ some (bool false)
        → Replayed body [] (done v)
    resent :
        (payment key : Json) {t : List Event} {o : Outcome HttpResult}
        → get "x_payment_header" body ≡ some payment
        → get "idempotency_key" body ≡ some key
        → Resent (proof_of c env (simple_trial key none) payment) 409 t o
        → Replayed body t o

  replayed-Replayed : (body : Json) → Always (replayed c env k body) (Replayed body)
  replayed-Replayed body = elim (Option-cases (get "x_payment_header" body)) [
    | inl p ↦ rw (p, replayed) (incomplete _ (rw p refl) refl refl)
    | inr (payment, p) ↦ elim (Option-cases (get "idempotency_key" body)) [
      | inl q ↦ elim (Bool-cases (truthy payment)) [
        | inl e ↦ rw (p, q, e) (incomplete _ (rw (p, q, e) refl) refl refl)
        | inr e ↦ rw (p, q, e) (incomplete _ (rw (p, q, e) refl) refl refl)
      ]
      | inr (key, q) ↦ elim (Bool-cases (truthy payment && truthy key)) [
        | inl e ↦
            rw (p, q, e)
              (elim [
                | rejected x ↦ resent payment key p q (lost x)
                | response r ↦ resent payment key p q (reported r _ refl)
              ])
        | inr e ↦ rw (p, q, e) (incomplete _ (rw (p, q) e) refl refl)
      ]
    ]
  ]

  replay-Replayed :
      (text : String) → Always (replay c env k text) (Replayed (or_else (c.parse text) (object [])))
  unfolding replay
  replay-Replayed text =
      Always-unless_null _ (or_else (c.parse text) (object [])) "x_payment_header"
        (replayed c env k (or_else (c.parse text) (object []))) (λ e. unreadable _ e)
        (replayed-Replayed (or_else (c.parse text) (object [])))

-- However the gateway answers, the malformed scenario sends one payment that is no payload, and reports
-- true exactly if that is answered by 402.
pub run-malformed-Malformed :
    (c : Codec) (env : Env) (k : Clock) {S : Type 0} (gateway : S → Request → Reply × S) (s : S)
    → let r = run gateway (malformed c env k) s in Malformed c env k r.trace r.outcome
run-malformed-Malformed c env k gateway s =
    run-Always gateway (Malformed c env k) (malformed c env k) s (malformed-Malformed c env k)

-- However the gateway answers, the replay scenario sends nothing and answers 400 unless the request
-- names a payment and a key, throws on a null request, and else sends that payment once under that key
-- and reports true exactly if it is answered by 409.
pub run-replay-Replayed :
    (c : Codec) (env : Env) (k : Clock) (text : String) {S : Type 0}
    (gateway : S → Request → Reply × S) (s : S)
    → let r = run gateway (replay c env k text) s in
      Replayed c env k (or_else (c.parse text) (object [])) r.trace r.outcome
run-replay-Replayed c env k text gateway s =
    run-Always gateway (Replayed c env k (or_else (c.parse text) (object []))) (replay c env k text)
      s (replay-Replayed c env k text)

-- However the gateway answers, the malformed scenario sends one payment that is no payload, and reports
-- true exactly if that is answered by 402. The replay scenario sends nothing and answers 400 unless the
-- request names a payment and a key, throws on a null request, and else sends that payment once under
-- that key and reports true exactly if it is answered by 409.
pub run-resending :
    (c : Codec) (env : Env) (k : Clock) (text : String) {S : Type 0}
    (gateway : S → Request → Reply × S) (s : S)
    → (let r = run gateway (malformed c env k) s in Malformed c env k r.trace r.outcome)
      × (let r = run gateway (replay c env k text) s in
          Replayed c env k (or_else (c.parse text) (object [])) r.trace r.outcome)
run-resending c env k text gateway s =
    (run-malformed-Malformed c env k gateway s, run-replay-Replayed c env k text gateway s)
