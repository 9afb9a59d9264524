-- ===== src/Wea/Runs.antt =====
-- What the routes of the facilitator's console have sent and reported.
use x402_token_market.Base.{◌≡◌, true, false, ◌==◌, ◌&&◌, some, List, [], ◌∷◌, or_else}
use x402_token_market.Env.{Env}
use x402_token_market.Json.{Json, null, bool, get, is_truthy}
use x402_token_market.Json.Codec.{Codec}
use x402_token_market.Net.{
  Request, Response, Reply, response, rejected, Thrown, Outcome, done, failed, Event, is_ok,
}
use x402_token_market.Route.{HttpResult}
use x402_token_market.Console.Scenarios.{Clock}
use x402_token_market.Wea.{
  json_or_empty, first_requirement, is_refused, trigger_request, payment_request, signing_request,
  verify_request,
}

-- The verdict on the reply to a payment.
pub data Settled : Reply → Outcome HttpResult → Type 0 where
  lost : (e : Thrown) → Settled (rejected e) (failed e)
  judged :
      (d : Response) (r : HttpResult)
      → get "ok" r.body ≡ some (bool (d.status == 200))
      → Settled (response d) (done r)

module _ (c : Codec) (env : Env) (k : Clock) where
  abbrev signing_of : Json → Request
  signing_of challenge = signing_request c env k (or_else (first_requirement challenge) null)

  -- A run of trigger-payment: no payment is sent unless there is a challenge with requirements and a
  -- payment that was built, and then exactly one. It reports true exactly if that is answered by 200.
  pub data Triggered : List Event → Outcome HttpResult → Type 0 where
    unreachable : (e : Thrown) → Triggered ((trigger_request c env k, rejected e) ∷ []) (failed e)
    unchallenged :
        (a : Response) (r : HttpResult)
        → (a.status == 402) ≡ false
        → get "ok" r.body ≡ some (bool false)
        → Triggered ((trigger_request c env k, response a) ∷ []) (done r)
    garbled :
        (a : Response) (e : Thrown)
        → Triggered ((trigger_request c env k, response a) ∷ []) (failed e)
    unoffered :
        (a : Response) (challenge : Json) (r : HttpResult)
        → c.parse a.text ≡ some challenge
        → is_truthy (first_requirement challenge) ≡ false
        → get "ok" r.body ≡ some (bool false)
        → Triggered ((trigger_request c env k, response a) ∷ []) (done r)
    unanswered :
        (a : Response) (challenge : Json) (e : Thrown)
        → Triggered
            ((trigger_request c env k, response a) ∷ (signing_of challenge, rejected e) ∷ [])
            (failed e)
    unbuilt :
        (a : Response) (challenge : Json) (b : Response) (r : HttpResult)
        → is_ok b ≡ false
        → get "ok" r.body ≡ some (bool false)
        → Triggered
            ((trigger_request c env k, response a) ∷ (signing_of challenge, response b) ∷ [])
            (done r)
    unread :
        (a : Response) (challenge : Json) (b : Response) (e : Thrown)
        → Triggered
            ((trigger_request c env k, response a) ∷ (signing_of challenge, response b) ∷ [])
            (failed e)
    sent :
        (a : Response) (challenge : Json) (b : Response) (built : Json) (reply : Reply)
        (o : Outcome HttpResult)
        → a.status ≡ 402
        → c.parse a.text ≡ some challenge
        → is_truthy (first_requirement challenge) ≡ true
        → is_ok b ≡ true
        → c.parse b.text ≡ some built
        → Settled reply o
        → Triggered
            ((trigger_request c env k, response a)
              ∷ (signing_of challenge, response b)
              ∷ (payment_request c env k built, reply)
              ∷ [])
            o

  -- A run of direct-verify reports true exactly if the facilitator answers 200 with isValid false.
  pub data Verified : List Event → Outcome HttpResult → Type 0 where
    failed_to_reach : (e : Thrown) → Verified ((verify_request c env k, rejected e) ∷ []) (failed e)
    empty :
        (r : Response) (e : Thrown)
        → r.status ≡ 200
        → json_or_empty c r ≡ null
        → Verified ((verify_request c env k, response r) ∷ []) (failed e)
    reported :
        (r : Response) (v : HttpResult)
        → get "ok" v.body
          ≡ some (bool ((r.status == 200) && is_refused (get "isValid" (json_or_empty c r))))
        → Verified ((verify_request c env k, response r) ∷ []) (done v)
