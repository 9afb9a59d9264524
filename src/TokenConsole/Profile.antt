-- ===== src/TokenConsole/Profile.antt =====
-- What the console shows of its merchant, and what its proxy answers, whatever the token API does.
use mathlib.Core.List.{append-nil}
use x402_token_market.Base.{◌≡◌, ◌≢◌, refl, String, Option, some, List, [], ◌∷◌, or_else}
use x402_token_market.Env.{Env}
use x402_token_market.Json.{Json, null, bool, num, str, arr, obj, get, object}
use x402_token_market.Json.Codec.{Codec}
use x402_token_market.Net.{
  Request, Reply, Thrown, Outcome, done, failed, Event, run, Io, ret, ◌>>=◌, unless_null,
}
use x402_token_market.Net.Laws.{
  Always, run-Always, Always-mono, Always-try, Always-bind, After, Handled,
}
use x402_token_market.Route.{HttpResult, message}
use x402_token_market.Sign.{Crypto, Stamp}
use x402_token_market.TokenConsole.{
  MerchantConfig, env_fallback, from_profile, merchant_profile, get_merchant_config_from_api,
  recent_activity, recent_activity_route,
}
use x402_token_market.TokenConsole.Fetches.{IsFetch, perform, profile, activity, perform-IsFetch}

module _ (c : Codec) (k : Crypto) (env : Env) (stamp : Stamp) where
  -- The merchant is the one of the profile, or the environment's where no profile could be read.
  pub data Configured (t : List Event) : Outcome MerchantConfig → Type 0 where
    known :
        (v : Json)
        → v ≢ null
        → IsFetch c k env stamp profile t (done v)
        → Configured t (done (from_profile v))
    empty : IsFetch c k env stamp profile t (done null) → Configured t (done (env_fallback env))
    unknown :
        (e : Thrown)
        → IsFetch c k env stamp profile t (failed e)
        → Configured t (done (env_fallback env))

  -- The proxy answers 200 with the JSON of the reply, or 502 with the reason.
  pub data Proxied (limit : String) (t : List Event) : Outcome HttpResult → Type 0 where
    passed :
        (v : Json)
        → IsFetch c k env stamp (activity limit) t (done v)
        → Proxied limit t (done (record { status = 200; body = v }))
    broken :
        (e : Thrown) (v : HttpResult)
        → IsFetch c k env stamp (activity limit) t (failed e)
        → v.status ≡ 502
        → get "error" v.body ≡ some (str (message e))
        → Proxied limit t (done v)

  profile-IsFetch : Always (merchant_profile c k env stamp) (IsFetch c k env stamp profile)
  unfolding perform
  profile-IsFetch = perform-IsFetch c k env stamp profile

  activity-IsFetch :
      (limit : String)
      → Always (recent_activity c k env stamp limit) (IsFetch c k env stamp (activity limit))
  unfolding perform
  activity-IsFetch limit = perform-IsFetch c k env stamp (activity limit)

  pub config-Configured : Always (get_merchant_config_from_api c k env stamp) Configured
  unfolding get_merchant_config_from_api
  config-Configured = Always-try Configured (merchant_profile c k env stamp >>= use_profile) ret _ (
      Always-bind Kept (merchant_profile c k env stamp) use_profile
        (Always-mono _ _ (merchant_profile c k env stamp) keep profile-IsFetch))
    where
      use_profile : Json → Io MerchantConfig
      use_profile v = unless_null v "display_name" (ret (from_profile v))

      Kept : List Event → Outcome MerchantConfig → Type 0
      Kept = Handled ret (λ _. ret (env_fallback env)) Configured

      keep :
          (t : List Event) (o : Outcome Json)
          → IsFetch c k env stamp profile t o
          → After use_profile Kept t o
      keep t (failed e) h = rw append-nil (unknown e h)
      keep t (done null) h = rw (append-nil, append-nil) (empty h)
      keep t (done (bool b)) h = rw (append-nil, append-nil) (known (bool b) (λ e. cc) h)
      keep t (done (num n)) h = rw (append-nil, append-nil) (known (num n) (λ e. cc) h)
      keep t (done (str s)) h = rw (append-nil, append-nil) (known (str s) (λ e. cc) h)
      keep t (done (arr vs)) h = rw (append-nil, append-nil) (known (arr vs) (λ e. cc) h)
      keep t (done (obj r)) h = rw (append-nil, append-nil) (known (obj r) (λ e. cc) h)

  route-Proxied :
      (number_text : String → String) (limit : Option String)
      → Always
          (recent_activity_route c k env stamp number_text limit)
          (Proxied (number_text (or_else limit "20")))
  unfolding recent_activity_route
  route-Proxied number_text limit =
      Always-try (Proxied _) (recent_activity c k env stamp (number_text (or_else limit "20"))) _ _
        (Always-mono _ _ (recent_activity c k env stamp (number_text (or_else limit "20"))) keep
          (activity-IsFetch _))
    where
      keep :
          (t : List Event) (o : Outcome Json)
          → IsFetch c k env stamp (activity (number_text (or_else limit "20"))) t o
          → Handled
              (λ v. ret (record { status = 200; body = v }))
              (λ e. ret (record { status = 502; body = object (("error", str (message e)) ∷ []) }))
              (Proxied (number_text (or_else limit "20")))
              t
              o
      keep t (failed e) h = rw append-nil (broken e _ h refl refl)
      keep t (done v) h = rw append-nil (passed v h)

-- However the token API answers, the console's merchant is found with one signed request and without an
-- exception: it is the profile of the reply, or the environment's where the request fails or the profile
-- is null. The proxy for recent activity sends one signed request as well and throws nothing: it answers
-- 200 with the JSON of the reply, or 502 with the message of what went wrong.
pub run-merchant :
    (c : Codec) (k : Crypto) (env : Env) (stamp : Stamp) (number_text : String → String)
    (limit : Option String) {S : Type 0} (service : S → Request → Reply × S) (s : S)
    → (let r = run service (get_merchant_config_from_api c k env stamp) s in
        Configured c k env stamp r.trace r.outcome)
      × (let r = run service (recent_activity_route c k env stamp number_text limit) s in
          Proxied c k env stamp (number_text (or_else limit "20")) r.trace r.outcome)
run-merchant c k env stamp number_text limit service s = (
  run-Always service (Configured c k env stamp) (get_merchant_config_from_api c k env stamp) s
      (config-Configured c k env stamp),
  run-Always service (Proxied c k env stamp (number_text (or_else limit "20")))
      (recent_activity_route c k env stamp number_text limit) s
      (route-Proxied c k env stamp number_text limit),
)
