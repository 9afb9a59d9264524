-- ===== src/Dashboard/Balance.antt =====
-- What the two balance routes answer to each reply of the ledger.
use x402_token_market.Base.{
  ◌≡◌, refl, true, false, none, some, List, [], ◌∷◌, inl, inr, Bool-cases, Option-cases,
}
use x402_token_market.Env.{Env}
use x402_token_market.Json.{Json, whole, get}
use x402_token_market.Json.Codec.{Codec}
use x402_token_market.Net.{
  Request, Response, Thrown, Reply, response, rejected, Outcome, done, Event, run, is_ok,
}
use x402_token_market.Net.Laws.{Always, run-Always}
use x402_token_market.Route.{HttpResult}
use x402_token_market.Sign.{Crypto, Stamp}
use x402_token_market.Netstars.{fetch_balance, checked, signed_get}
use x402_token_market.Dashboard.{payment_balance, balance_failed, enterprise_balance, agent_get}

module _ (c : Codec) (k : Crypto) (env : Env) (stamp : Stamp) where
  -- The shop's proxy: 200 with the balance, 502 with the status of a refusal, and else 500.
  pub data Payment : List Event → Outcome HttpResult → Type 0 where
    balance :
        (r : Response) (v : Json)
        → is_ok r ≡ true
        → c.parse r.text ≡ some v
        → Payment
            ((signed_get c k env stamp "/v1/balance" "", response r) ∷ [])
            (done (record { status = 200; body = v }))
    refused :
        (r : Response) (v : HttpResult)
        → is_ok r ≡ false
        → v.status ≡ 502
        → get "status" v.body ≡ some (whole r.status)
        → Payment ((signed_get c k env stamp "/v1/balance" "", response r) ∷ []) (done v)
    no_json :
        (r : Response) (v : HttpResult)
        → is_ok r ≡ true
        → c.parse r.text ≡ none
        → v.status ≡ 500
        → Payment ((signed_get c k env stamp "/v1/balance" "", response r) ∷ []) (done v)
    lost :
        (e : Thrown)
        → Payment
            ((signed_get c k env stamp "/v1/balance" "", rejected e) ∷ [])
            (done (balance_failed e))

  -- The dashboard's: the reply's own status and JSON, and else 503.
  pub data Enterprise : List Event → Outcome HttpResult → Type 0 where
    passed :
        (r : Response) (v : Json)
        → c.parse r.text ≡ some v
        → Enterprise
            ((agent_get c k env stamp "/v1/balance" "", response r) ∷ [])
            (done (record { status = r.status; body = v }))
    garbled :
        (r : Response) (v : HttpResult)
        → c.parse r.text ≡ none
        → v.status ≡ 503
        → Enterprise ((agent_get c k env stamp "/v1/balance" "", response r) ∷ []) (done v)
    unreachable :
        (e : Thrown) (v : HttpResult)
        → v.status ≡ 503
        → Enterprise ((agent_get c k env stamp "/v1/balance" "", rejected e) ∷ []) (done v)

  payment_balance-Payment : Always (payment_balance c k env stamp) Payment
  unfolding payment_balance fetch_balance checked balance_failed
  payment_balance-Payment (rejected e) = lost e
  payment_balance-Payment (response r) = elim (Bool-cases (is_ok r)) [
    | inl e ↦ elim (Option-cases (c.parse r.text)) [
      | inl p ↦ rw (e, p) (no_json r _ e p refl)
      | inr (v, p) ↦ rw (e, p) (balance r v e p)
    ]
    | inr e ↦ rw e (refused r _ e refl refl)
  ]

  enterprise_balance-Enterprise : Always (enterprise_balance c k env stamp) Enterprise
  unfolding enterprise_balance
  enterprise_balance-Enterprise (rejected e) = unreachable e _ refl
  enterprise_balance-Enterprise (response r) = elim (Option-cases (c.parse r.text)) [
    | inl p ↦ rw p (garbled r _ p refl)
    | inr (v, p) ↦ rw p (passed r v p)
  ]

-- However the token API answers, each balance route sends one signed request and throws nothing. The
-- shop's answers 200 with the JSON of a reply in the range of success, 502 with the status of any other
-- reply, and 500 where a reply in that range is no JSON. The dashboard's passes on the status and JSON
-- of any reply, and answers 503 where that is no JSON or there is no reply.
pub run-balance :
    (c : Codec) (k : Crypto) (env : Env) (stamp : Stamp) {S : Type 0}
    (service : S → Request → Reply × S) (s : S)
    → (let r = run service (payment_balance c k env stamp) s in
        Payment c k env stamp r.trace r.outcome)
      × (let r = run service (enterprise_balance c k env stamp) s in
          Enterprise c k env stamp r.trace r.outcome)
run-balance c k env stamp service s = (
  run-Always service (Payment c k env stamp) (payment_balance c k env stamp) s
      (payment_balance-Payment c k env stamp),
  run-Always service (Enterprise c k env stamp) (enterprise_balance c k env stamp) s
      (enterprise_balance-Enterprise c k env stamp),
)
