-- ===== src/Panel.antt =====
-- The enterprise dashboard page, haba/src/app/dashboard/page.tsx: the balance poll, the automatic
-- top-up with its gate, and the agent run. State is what the page's hooks hold; an effect runs after
-- each render in which one of its dependencies has changed, in the order of the source.
mod Types
unfoldable pub use Types.*
pub mod Gate
pub mod Contract
pub mod Typing
pub mod Assistant
use x402_token_market.Base.{
  ◌≡◌, ℕ, ◌+◌, Bool, true, false, not, ◌&&◌, ◌||◌, leb, ◌==◌, String, Option, none, some, List, [],
  ◌∷◌, length, map, ◌⊕◌, if◌then◌else◌,
}
use x402_token_market.Topup.{Mode, StepStatus}
use x402_token_market.Topup

-- `usedPct(balance) >= AUTO_TOPUP_THRESHOLD`: 80 % of a limit of 1,000,000,000 tokens is used.
abbrev pub is_low : Balance → Bool
is_low not_a_number = false
is_low (tokens n) = leb n 200_000_000
is_low (overdrawn n) = true

-- `Object.is` on two balances, by which a render is skipped.
abbrev pub same_balance : Option Balance → Option Balance → Bool
same_balance none none = true
same_balance (some not_a_number) (some not_a_number) = true
same_balance (some (tokens m)) (some (tokens n)) = m == n
same_balance (some (overdrawn m)) (some (overdrawn n)) = m == n
same_balance _ _ = false

-- `triggerTopup`, up to its request.
unfoldable pub trigger_topup : Page → Page
trigger_topup p = if p.topup_running then p else record p {
  topup_running = true;
  topup_mode = none;
  topup_steps = active ∷ pending ∷ pending ∷ [];
  sent = p.sent + 1;
  phase = requested;
}

-- The first effect, the check of the balance.
unfoldable pub check_balance : Page → Page
unfolding trigger_topup
check_balance p = elim p.balance [
  | none ↦ p
  | some b ↦
      if p.topup_running || p.auto_topup_fired
      then p
      else if is_low b
      then trigger_topup (record p { auto_topup_fired = true })
      else p
]

-- The second effect opens the gate after a top-up that succeeded.
unfoldable pub reset_gate : Page → Page
reset_gate p = elim p.topup_mode [
  | none ↦ p
  | some m ↦ if p.topup_running then p else record p { auto_topup_fired = false }
]

-- `setBalance`, with the effect that follows where the balance has changed.
unfoldable pub set_balance : Balance → Page → Page
unfolding check_balance
set_balance b p =
    if same_balance p.balance (some b) then p else check_balance (record p { balance = some b })

-- `setTopupRunning(false)`, with both effects.
unfoldable pub stop_running : Page → Page
unfolding check_balance reset_gate
stop_running p = reset_gate (check_balance (record p { topup_running = false; phase = idle }))

abbrev pub shown_status : StepStatus → StepState
shown_status Topup.StepStatus.done = done
shown_status Topup.StepStatus.failed = error

-- `while (newSteps.length < 3) newSteps.push("pending")`
abbrev pub padded : List StepState → List StepState
padded [] = pending ∷ pending ∷ pending ∷ []
padded (a ∷ []) = a ∷ pending ∷ pending ∷ []
padded (a ∷ b ∷ []) = a ∷ b ∷ pending ∷ []
padded (a ∷ b ∷ c ∷ rest) = a ∷ b ∷ c ∷ rest

abbrev pub mode_label : Mode → String
mode_label Topup.Mode.x402 = "x402 · Solana"
mode_label Topup.Mode.direct = "Auto Topup"

-- The reply to a top-up: the steps are shown, and after a success the mode and a note. The mode is a
-- dependency of the second effect, which runs then; the balance and the running flag have not changed.
unfoldable pub topup_succeeded : Mode → List StepStatus → Page → Page
unfolding reset_gate
topup_succeeded m steps p = reset_gate (record p {
  topup_steps = padded (map shown_status steps);
  topup_mode = some m;
  toast = some ("+100,000,000 Tokens topped up (" ⊕ mode_label m ⊕ ")");
  phase = refreshing;
})

-- The reply is no success, and the call ends.
unfoldable pub topup_refused : List StepStatus → Page → Page
unfolding stop_running
topup_refused steps p = stop_running (record p { topup_steps = padded (map shown_status steps) })

-- There is no reply that can be read, and the call ends.
unfoldable pub topup_broken : Page → Page
unfolding stop_running
topup_broken p = stop_running (record p { topup_steps = error ∷ pending ∷ pending ∷ [] })

-- What can happen to the page, in any order: a reply to a poll, the charge of an agent run, a reply to
-- a top-up while one is requested, the end of the refresh after it, and the dismissal of the note.
pub data Change : Page → Page → Type 0 where
  polled : (p : Page) (b : Balance) → Change p (set_balance b (record p { balance_err = false }))
  poll_failed : (p : Page) → Change p (record p { balance_err = true })
  charged : (p : Page) (b : Balance) → Change p (set_balance b p)
  succeeded :
      (p : Page) (m : Mode) (steps : List StepStatus)
      → p.phase ≡ requested
      → Change p (topup_succeeded m steps p)
  refused :
      (p : Page) (steps : List StepStatus) → p.phase ≡ requested → Change p (topup_refused steps p)
  broken : (p : Page) → p.phase ≡ requested → Change p (topup_broken p)
  settled : (p : Page) → p.phase ≡ refreshing → Change p (stop_running p)
  dismissed : (p : Page) → Change p (record p { toast = none })

-- The first render.
abbrev pub opened : Page
opened = record {
  balance = none;
  balance_err = false;
  topup_running = false;
  topup_mode = none;
  topup_steps = pending ∷ pending ∷ pending ∷ [];
  auto_topup_fired = false;
  toast = none;
  sent = 0;
  phase = idle;
}

pub data Reaches (p : Page) : Page → Type 0 where
  here : Reaches p p
  next : {q r : Page} → Reaches p q → Change q r → Reaches p r
