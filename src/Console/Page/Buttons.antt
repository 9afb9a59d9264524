-- ===== src/Console/Page/Buttons.antt =====
-- The poll and the buttons of netstars/x402/console/src/app/page.tsx.
use x402_token_market.Base.{
  ℕ, suc, ◌+◌, ◌≡◌, refl, Bool, true, false, not, ◌||◌, String, Option, none, some, length,
  if◌then◌else◌, arith,
}
use x402_token_market.Json.{Json}
use x402_token_market.Feed.{Feed, Poll, poll_once}
use x402_token_market.Console.Page.{
  Scenario, normal, replay, expired, tamper_resource, tamper_network, malformed, Page, click_while,
  click, start,
}

-- `pollOnce`: the events in the order of the reply.
abbrev pub gateway_poll {ℓ} : {A M : Type ℓ} → Poll A M → Feed A M → Feed A M
gateway_poll = poll_once (λ l. l)

abbrev pub gateway_label : Bool → String
gateway_label gateway_ok = if gateway_ok then "Gateway live" else "Gateway unreachable"

abbrev is_some {ℓ} : {A : Type ℓ} → Option A → Bool
is_some none = false
is_some (some a) = true

-- `disabled={!!running}`, and for the replay `|| !lastHeader`.
unfoldable pub is_disabled : Page → Scenario → Bool
is_disabled p replay = is_some p.running || not (is_some p.last_header)
is_disabled p s = is_some p.running

-- The title of the button of the replay.
abbrev pub replay_title : Page → String
replay_title p =
    if is_some p.last_header
    then "Replay Detection"
    else "Replay Detection (run Process Payment first)"

sent_by : Bool → ℕ
sent_by disabled = if disabled then 0 else 1

click_replay :
    (o : Option Scenario) (h : Option (Json × Json)) (p : Page)
    → p.last_header ≡ h
    → length (click_while o replay p).asked
      ≡ length p.asked + sent_by (is_some o || not (is_some h))
unfolding click_while start sent_by
click_replay (some r) h p e = omega arith
click_replay none none p e = rw e (omega arith)
click_replay none (some k) p e = rw e (omega arith)

click_other :
    (o : Option Scenario) (s : Scenario) (p : Page)
    → (length (start s p).asked ≡ suc (length p.asked))
    → length (click_while o s p).asked ≡ length p.asked + sent_by (is_some o)
unfolding click_while sent_by
click_other (some r) s p h = omega arith
click_other none s p h = omega (arith, h)

-- A click on a button of the console sends one request exactly if the button is not disabled, and none if it
-- is, whatever the page shows.
pub click-is_disabled :
    (s : Scenario) (p : Page)
    → length (click s p).asked ≡ length p.asked + (if is_disabled p s then 0 else 1)
unfolding is_disabled start sent_by
click-is_disabled normal p = click_other p.running normal p refl
click-is_disabled replay p = click_replay p.running p.last_header p refl
click-is_disabled expired p = click_other p.running expired p refl
click-is_disabled tamper_resource p = click_other p.running tamper_resource p refl
click-is_disabled tamper_network p = click_other p.running tamper_network p refl
click-is_disabled malformed p = click_other p.running malformed p refl
