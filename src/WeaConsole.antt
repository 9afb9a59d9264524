-- ===== src/WeaConsole.antt =====
-- The page of the facilitator's console, wea/console/src/app/page.tsx: its hooks, with the poll of
-- x402_token_market.Feed, and what its parts show of them. The markup is left out.
pub mod Order
pub mod View
pub mod Links
use mathlib.Core.List
use Prim.Native.String
use x402_token_market.Base.{
  ℕ, zero, suc, ◌+◌, ◌-◌, ◌≡◌, Bool, true, false, not, ◌&&◌, String, Option, none, some, List, [],
  ◌∷◌, show, ◌⊕◌, or_else, take_text, text_length, starts_with, str_eq, join, map, length,
  if◌then◌else◌,
}
use x402_token_market.Feed.{Feed, Poll, no_feed, poll_once}

pub data CallKind : Type 0 where
  verify settle : CallKind

pub record CallRecord : Type 0 where
  pub kind : CallKind
  pub started_at : String
  pub took_ms : ℕ
  pub network : String
  pub amount_usdc_micro : ℕ
  pub pay_to : String
  pub payer : Option String
  pub resource : String
  pub nonce : Option String
  pub ok : Bool
  pub error_reason : Option String
  pub tx_hash : Option String
  pub had_user_verification : Bool

pub record Counters : Type 0 where
  pub verify_ok : ℕ
  pub verify_fail : ℕ
  pub settle_ok : ℕ
  pub settle_fail : ℕ

pub record Config : Type 0 where
  pub network_devnet : String
  pub network_mainnet : String
  pub x402_gateway : String
  pub usdc_mint : String
  pub ring_capacity : ℕ

pub record Account : Type 0 where
  pub pubkey : String
  pub usdc : Option String

pub record Metrics : Type 0 where
  pub service : String
  pub role : String
  pub counters : Counters
  pub config : Config
  pub demo_payer : Account
  pub deposit_recipient : Account

pub record ScenarioStep : Type 0 where
  pub name : String
  pub is_ok : Bool
  pub http : Option ℕ
  pub took_ms : Option ℕ
  pub payer : Option String
  pub nonce : Option String

pub record ScenarioResult : Type 0 where
  pub ok : Bool
  pub error : Option String
  pub expected : Option String
  pub steps : List ScenarioStep

pub data Scenario : Type 0 where
  trigger_payment direct_verify : Scenario

-- The hooks of the page. `asked` and `outcomes` are the scenarios that were sent and what was set as their
-- results, and `polls` the replies to polls, each the last first; the page does not keep these.
pub record WeaPage : Type 0 where
  pub feed : Feed CallRecord Metrics
  pub running : Option Scenario
  pub result : Option ScenarioResult
  pub asked : List Scenario
  pub outcomes : List (Option ScenarioResult)
  pub polls : List (Poll CallRecord Metrics)

abbrev pub opened : WeaPage
opened = record {
  feed = no_feed;
  running = none;
  result = none;
  asked = [];
  outcomes = [];
  polls = [];
}

-- `.slice().reverse()`: newest first.
abbrev pub facilitator_poll :
    Poll CallRecord Metrics → Feed CallRecord Metrics → Feed CallRecord Metrics
facilitator_poll = poll_once List.reverse

unfoldable pub polled : Poll CallRecord Metrics → WeaPage → WeaPage
polled q p = record p { feed = facilitator_poll q p.feed; polls = q ∷ p.polls }

-- `if (running) return;`, and what `runScenario` does up to its request.
unfoldable pub run_while : Option Scenario → Scenario → WeaPage → WeaPage
run_while (some r) s p = p
run_while none s p = record p { running = some s; result = none; asked = s ∷ p.asked }

abbrev pub run_scenario : Scenario → WeaPage → WeaPage
run_scenario s p = run_while p.running s p

-- The result of a request: its body, which may be null.
unfoldable pub answer : Option ScenarioResult → WeaPage → WeaPage
answer r p = record p { running = none; result = r; outcomes = r ∷ p.outcomes }

-- The `catch`, with the `finally`.
abbrev pub network_failure : String → ScenarioResult
network_failure why = record { ok = false; error = some why; expected = none; steps = [] }

unfoldable pub fail : String → WeaPage → WeaPage
unfolding answer
fail why p = answer (some (network_failure why)) p

-- What can happen to the page, in any order.
pub data Change : WeaPage → WeaPage → Type 0 where
  clicked : (s : Scenario) (p : WeaPage) → Change p (run_scenario s p)
  ended :
      (s : Scenario) (r : Option ScenarioResult) (p : WeaPage)
      → p.running ≡ some s
      → Change p (answer r p)
  broke : (s : Scenario) (why : String) (p : WeaPage) → p.running ≡ some s → Change p (fail why p)
  refreshed : (q : Poll CallRecord Metrics) (p : WeaPage) → Change p (polled q p)

pub data Reaches (p : WeaPage) : WeaPage → Type 0 where
  here : Reaches p p
  next : {q r : WeaPage} → Reaches p q → Change q r → Reaches p r
