-- ===== src/Checkout/Settlement.antt =====
-- What a run of the checkout route has sent and answered, whatever the request and the services.
use x402_token_market.Base.{◌≡◌, ◌≢◌, ◌↔◌, false, String, none, some, List, [], All}
use x402_token_market.Env.{Env}
use x402_token_market.Json.{Json, null, bool, str, get}
use x402_token_market.Json.Codec.{Codec}
use x402_token_market.Net.{Thrown, Outcome, done, failed, Event}
use x402_token_market.Route.{HttpResult, message, cause}
use x402_token_market.X402.{Settled}
use x402_token_market.X402.Protocol.{IsSettled, IsStopped}
use x402_token_market.Checkout.Cart.{Line}
use x402_token_market.Checkout.Order.{Draws, refusal, order_failed, purchase, placed_body}
use x402_token_market.Checkout.Pricing.{IsPriced, sum}

-- The answer to an exception: 502 with its cause, if it has one, and else 500.
abbrev pub Reports : Thrown → HttpResult → Type 0
Reports e r =
    (get "ok" r.body ≡ some (bool false))
    × (get "error" r.body ≡ some (str (message e)))
    × (get "detail" r.body ≡ cause e)
    × ((r.status ≡ 500 ↔ cause e ≡ none) × (r.status ≡ 502 ↔ cause e ≢ none))

module _ (c : Codec) (env : Env) (d : Draws) where
  -- How a run of the route can end, with what it has sent.
  pub data Answers (text : String) : List Event → Outcome HttpResult → Type 0 where
    -- an exception outside the `try`, before anything is sent
    unhandled : (e : Thrown) → Answers text [] (failed e)
    -- 400, before anything is sent
    refused : (why : String) → Answers text [] (done (refusal 400 why))
    -- 200, after the loop has settled the price of the lines
    settled :
        (body : Json) (lines : List Line) (s : Settled) (t : List Event)
        → c.parse text ≡ some body
        → All IsPriced lines
        → IsSettled c env (purchase c env d body (sum lines) lines) t s
        → Answers text t
            (done (record { status = 200; body = placed_body c env d (sum lines) lines s }))
    -- 500, after the loop has settled the price and the gateway's answer was null
    unread :
        (body : Json) (lines : List Line) (s : Settled) (t : List Event)
        → c.parse text ≡ some body
        → All IsPriced lines
        → IsSettled c env (purchase c env d body (sum lines) lines) t s
        → s.body ≡ null
        → Answers text t (done (refusal 500 "order_id"))
    -- 500 or 502, after the loop has stopped
    stopped :
        (body : Json) (lines : List Line) (e : Thrown) (t : List Event) (r : HttpResult)
        → c.parse text ≡ some body
        → All IsPriced lines
        → IsStopped c env (purchase c env d body (sum lines) lines) t
        → Reports e r
        → Answers text t (done r)

  module _ (text : String) (body : Json) (lines : List Line) (parsed : c.parse text ≡ some body)
      (priced : All IsPriced lines) where
    -- What the `try` leaves to its `catch`.
    abbrev Attempt : List Event → Outcome HttpResult → Type 0
    Attempt t (done r) = Answers text t (done r)
    Attempt t (failed e) = Answers text t (done (order_failed e))
