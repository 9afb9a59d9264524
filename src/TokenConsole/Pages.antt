-- ===== src/TokenConsole/Pages.antt =====
-- What the pages of the token console load before they are shown:
-- netstars/token/console/src/components/AppShell.tsx, and app/(console)/dashboard/page.tsx,
-- tokens/page.tsx and protocol/page.tsx. Of two requests that are sent together the first is taken to end
-- first, which matters only for the message where both fail.
pub mod Together
pub mod Loading
pub mod Calls
use mathlib.Core.List.{append-nil}
use x402_token_market.Base.{
  ◌≡◌, refl, ap, ◌∙◌, Bool, true, false, String, Option, none, some, List, [], ◌∷◌, ◌++◌, str_eq,
  or_else, not, ◌||◌, any, filter, if◌then◌else◌,
}
use x402_token_market.Env.{Env}
use x402_token_market.Json.{Json, null, bool, num, str, arr, obj, nil, get, elems, object}
use x402_token_market.Json.Codec.{Codec}
use x402_token_market.Net.{
  Request, Reply, Thrown, Outcome, done, failed, Event, run, Io, ret, throw, ◌>>=◌, try,
  unless_null, error,
}
use x402_token_market.Net.Laws.{
  Always, run-Always, Always-mono, Always-try, Always-bind, Always-unless_null, After, Handled,
}
use x402_token_market.Route.{message}
use x402_token_market.Sign.{Crypto, Stamp}
use x402_token_market.TokenConsole.{
  MerchantConfig, recent_activity, balance, healthz, get_merchant_config_from_api,
  recent_activity_route,
}
use x402_token_market.TokenConsole.Profile.{Configured, Proxied, run-merchant}
use x402_token_market.TokenConsole.Fetches.{
  Call, IsFetch, perform, activity, funds, health, perform-IsFetch, run-perform-IsFetch,
}

-- `await Promise.all([m, n])`: both are sent, whatever becomes of the first.
abbrev pub both : {A B : Type 0} → Io A → Io B → Io (A × B)
both m n = try m (λ a. n >>= λ b. ret (a, b)) (λ e. try n (λ b. throw e) (λ f. throw e))

-- `h.status === "ok"`
abbrev pub is_healthy : Json → Bool
is_healthy h = status (get "status" h)
  where
    status : Option Json → Bool
    status (some (str s)) = str_eq s "ok"
    status _ = false

-- What a page has to show.
pub record Loaded : Type 0 where
  pub funds : Option Json
  pub events : Option Json
  pub backend_error : Option String

abbrev pub nothing_loaded : String → Loaded
nothing_loaded why = record { funds = none; events = none; backend_error = some why }

abbrev pub all_loaded : Json × Json → Loaded
all_loaded (b, l) = record { funds = some b; events = some l; backend_error = none }

abbrev pub is_null : Json → Bool
is_null null = true
is_null _ = false

abbrev pub is_given : Option Json → Bool
is_given none = false
is_given (some v) = not (is_null v)

abbrev pub is_purchase : Option Json → Bool
is_purchase (some (str s)) = str_eq s "api/v1/token-purchase"
is_purchase _ = false

-- `it.path === "api/v1/token-purchase" || it.amount_usdc != null`
abbrev pub is_x402_payment : Json → Bool
is_x402_payment it = is_purchase (get "path" it) || is_given (get "amount_usdc" it)

abbrev pub payments_in : Option Json → Outcome (List Json)
payments_in (some (arr vs)) =
    if any is_null (elems vs)
    then failed (error "TypeError" "path" none)
    else done (filter is_x402_payment (elems vs))
payments_in _ = failed (error "TypeError" "filter" none)

-- `initialActivity.items.filter(…)`: it throws for a value without a list of items, and at an item that is
-- null.
unfoldable pub payments_of : Json → Outcome (List Json)
payments_of json = payments_in (get "items" json)

abbrev pub settled : {A : Type 0} → Outcome A → Io A
settled (done a) = ret a
settled (failed e) = throw e

module _ (c : Codec) (k : Crypto) (env : Env) (stamp : Stamp) where
  -- `AppShell`: whether the backend is healthy.
  unfoldable pub backend_ok : Io Bool
  backend_ok =
      try (healthz c k env stamp >>= λ h. unless_null h "status" (ret (is_healthy h))) ret
        (λ e. ret false)

  -- `[balance, activity] = await Promise.all(…)` of `DashboardPage`.
  unfoldable pub load_figures : Io Loaded
  load_figures =
      try (both (balance c k env stamp) (recent_activity c k env stamp "20"))
        (λ v. ret (all_loaded v)) (λ e. ret (nothing_loaded (message e)))

  -- `DashboardPage`: the merchant is waited for before the rest is asked for.
  unfoldable pub load_dashboard : Io (MerchantConfig × Loaded)
  load_dashboard = do
    merchant ← get_merchant_config_from_api c k env stamp
    figures ← load_figures
    ret (merchant, figures)

  -- `ProtocolPage`: no activity where the call fails; the filter stands outside the `try`.
  unfoldable pub load_protocol : Io (List Json)
  load_protocol =
      try (recent_activity c k env stamp "10") (λ l. settled (payments_of l))
        (λ e. settled (payments_of (object (("items", arr nil) ∷ []))))

  -- `TokensPage`: the rows are read from the activity after the balance is kept.
  abbrev pub read_rows : Json × Json → Io Loaded
  read_rows (b, l) =
      try (unless_null l "items" (ret (all_loaded (b, l)))) ret
        (λ e. ret (record { funds = some b; events = none; backend_error = some (message e) }))

  unfoldable pub load_tokens : Io Loaded
  load_tokens =
      try (both (balance c k env stamp) (recent_activity c k env stamp "50")) read_rows
        (λ e. ret (nothing_loaded (message e)))
