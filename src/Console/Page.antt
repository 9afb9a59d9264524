-- ===== src/Console/Page.antt =====
-- The page of the console, netstars/x402/console/src/app/page.tsx: runScenario with the payment that it
-- keeps for a replay. The page is rendered between two clicks, so that each click sees the state that the
-- one before it left.
pub mod Replays
pub mod Buttons
pub mod Timeline
use x402_token_market.Base.{
  ℕ, suc, ◌+◌, ◌≡◌, Bool, true, false, ◌&&◌, String, Option, none, some, List, [], ◌∷◌,
  if◌then◌else◌,
}
use x402_token_market.Json.{Json, null, bool, str, arr, nil, object, get, get?, coalesce, is_truthy}

pub data Scenario : Type 0 where
  normal replay expired tamper_resource tamper_network malformed : Scenario

abbrev pub scenario_text : Scenario → String
scenario_text normal = "normal"
scenario_text replay = "replay"
scenario_text expired = "expired"
scenario_text tamper_resource = "tamper-resource"
scenario_text tamper_network = "tamper-network"
scenario_text malformed = "malformed"

abbrev pub is_normal : Scenario → Bool
is_normal normal = true
is_normal _ = false

-- The hooks of the page. `asked` holds the requests to the scenario routes, the last first, `paid` the
-- answers that the page has taken a payment from, with their scenarios, and `answered` counts the requests that have ended;
-- the page does not keep these.
pub record Page : Type 0 where
  pub running : Option Scenario
  pub last_result : Option Json
  pub last_header : Option (Json × Json)
  pub asked : List (Scenario × Json)
  pub paid : List (Scenario × Json)
  pub answered : ℕ

-- A result that the page makes itself.
abbrev pub own_result : Scenario → String → Json
own_result s why = object (
    ("ok", bool false)
    ∷ ("scenario", str (scenario_text s))
    ∷ ("error", str why)
    ∷ ("steps", arr nil)
    ∷ [])

-- `j.ok && j.x_payment_header`
abbrev pub is_payment : Json → Bool
is_payment j = is_truthy (get "ok" j) && is_truthy (get "x_payment_header" j)

-- `{ header: j.x_payment_header, idem: responseObj?.order_id ?? "unknown" }`
abbrev pub kept : Json → Json × Json
kept j = (
  coalesce (get "x_payment_header" j) null,
  coalesce (get? "order_id" (get "response" j)) (str "unknown"),
)

abbrev pub replay_body : Json × Json → Json
replay_body (header, idem) = object (("x_payment_header", header) ∷ ("idempotency_key", idem) ∷ [])

abbrev send : Scenario → Json → Page → Page
send s body p = record p { running = some s; last_result = none; asked = (s, body) ∷ p.asked }

-- `s === "replay"`: a replay without a payment ends at once.
abbrev pub replay_with : Option (Json × Json) → Page → Page
replay_with none p = record p {
  last_result = some (
      own_result replay
        "Run 'Normal payment' first so the console captures a real X-PAYMENT, then try replay.");
}
replay_with (some h) p = send replay (replay_body h) p

-- What `runScenario` does up to its request.
unfoldable pub start : Scenario → Page → Page
start replay p = replay_with p.last_header p
start s p = send s (object []) p

-- `if (running) return;`
unfoldable pub click_while : Option Scenario → Scenario → Page → Page
click_while (some r) s p = p
click_while none s p = start s p

abbrev pub click : Scenario → Page → Page
click s p = click_while p.running s p

-- The `catch`, with the `finally`.
unfoldable pub fail : Scenario → String → Page → Page
fail s why p = record p {
  running = none;
  last_result = some (own_result s why);
  answered = suc p.answered;
}

-- What is done with an answer that is no null: a normal run that was paid is kept.
unfoldable pub take_answer : Scenario → Json → Page → Page
take_answer s j p =
    if is_normal s && is_payment j
    then record p {
      running = none;
      last_result = some j;
      last_header = some (kept j);
      paid = (s, j) ∷ p.paid;
      answered = suc p.answered;
    }
    else record p { running = none; last_result = some j; answered = suc p.answered }

-- The rest of `runScenario`: `j.ok` of a null throws, and is read for a normal run only.
unfoldable pub answer : Scenario → Json → String → Page → Page
unfolding fail take_answer
answer normal null why p = fail normal why p
answer s j why p = take_answer s j p

-- What can happen to the page, in any order; `why` is the message of an exception.
pub data Change : Page → Page → Type 0 where
  clicked : (s : Scenario) (p : Page) → Change p (click s p)
  ended :
      (s : Scenario) (j : Json) (why : String) (p : Page)
      → p.running ≡ some s
      → Change p (answer s j why p)
  broke : (s : Scenario) (why : String) (p : Page) → p.running ≡ some s → Change p (fail s why p)

abbrev pub opened : Page
opened = record {
  running = none;
  last_result = none;
  last_header = none;
  asked = [];
  paid = [];
  answered = 0;
}

pub data Reaches (p : Page) : Page → Type 0 where
  here : Reaches p p
  next : {q r : Page} → Reaches p q → Change q r → Reaches p r
