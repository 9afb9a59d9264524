-- ===== src/Wea/Relays.antt =====
-- The four proxies of the consoles' logs and metrics.
use x402_token_market.Base.{◌≡◌, refl, String, Option, List, [], ◌∷◌, ◌⊕◌, or_else}
use x402_token_market.Env.{Env}
use x402_token_market.Json.{object}
use x402_token_market.Json.Codec.{Codec}
use x402_token_market.Net.{
  Request, Response, Reply, response, rejected, Thrown, Outcome, done, failed, Event, run,
}
use x402_token_market.Net.Laws.{Always, run-Always}
use x402_token_market.Route.{HttpResult}
use x402_token_market.Console.Gateway.{gateway_api}
use x402_token_market.Wea.{
  wea_api, read_request, relay, wea_calls, wea_metrics, x402_metrics, x402_events,
}

-- One request that is not signed; the reply's status is kept, and its JSON, or an empty object where it is
-- none.
pub data Relayed (c : Codec) (env : Env) (url : String)
    : List Event → Outcome HttpResult → Type 0 where
  passed :
      (r : Response) (v : HttpResult)
      → v.status ≡ r.status
      → v.body ≡ or_else (c.parse r.text) (object [])
      → Relayed c env url ((read_request c env url, response r) ∷ []) (done v)
  lost : (e : Thrown) → Relayed c env url ((read_request c env url, rejected e) ∷ []) (failed e)

relay-Relayed :
    (c : Codec) (env : Env) (url : String) → Always (relay c env url) (Relayed c env url)
relay-Relayed c env url (rejected e) = lost e
relay-Relayed c env url (response r) = passed r _ refl refl

-- However the services behind them answer, each of the four proxies sends one request and passes on the
-- status of the reply with its JSON, or with an empty object where it is no JSON; it throws only what
-- the request was rejected with.
pub run-relays :
    (c : Codec) (env : Env) (encode : String → String) (limit : Option String) {S : Type 0}
    (service : S → Request → Reply × S) (s : S)
    → (let r = run service (wea_calls c env) s in
        Relayed c env (wea_api env ⊕ "/v1/_console/calls") r.trace r.outcome)
      × (let r = run service (wea_metrics c env) s in
          Relayed c env (wea_api env ⊕ "/v1/_console/metrics") r.trace r.outcome)
      × (let r = run service (x402_metrics c env) s in
          Relayed c env (gateway_api env ⊕ "/v1/_console/metrics") r.trace r.outcome)
      × (let r = run service (x402_events c env encode limit) s in
          Relayed c env
            (gateway_api env ⊕ "/v1/_console/events?limit=" ⊕ encode (or_else limit "30"))
            r.trace
            r.outcome)
unfolding wea_calls wea_metrics x402_metrics x402_events
run-relays c env encode limit service s = (
  run-Always service (Relayed c env (wea_api env ⊕ "/v1/_console/calls")) (wea_calls c env) s
      (relay-Relayed c env _),
  run-Always service (Relayed c env (wea_api env ⊕ "/v1/_console/metrics")) (wea_metrics c env) s
      (relay-Relayed c env _),
  run-Always service (Relayed c env (gateway_api env ⊕ "/v1/_console/metrics")) (x402_metrics c env)
      s (relay-Relayed c env _),
  run-Always service
      (Relayed c env (gateway_api env ⊕ "/v1/_console/events?limit=" ⊕ encode (or_else limit "30")))
      (x402_events c env encode limit) s (relay-Relayed c env _),
)
