-- ===== src/Panel/Types.antt =====
-- The state of the dashboard page.
use x402_token_market.Base.{ℕ, Bool, String, Option, List}
use x402_token_market.Topup.{Mode}

-- `parseInt(d.balance_token, 10)`
pub data Balance : Type 0 where
  not_a_number : Balance
  tokens : ℕ → Balance
  overdrawn : ℕ → Balance

pub data StepState : Type 0 where
  pending active done error : StepState

-- Where `triggerTopup` stands: not running, before the reply, or in the refresh after a success.
pub data Phase : Type 0 where
  idle requested refreshing : Phase

-- The hooks of the page that the top-up and the balance use. `sent` counts the requests of a top-up so
-- far, and `phase` says where the running call of `triggerTopup` stands; the page does not keep them.
pub record Page : Type 0 where
  pub balance : Option Balance
  pub balance_err : Bool
  pub topup_running : Bool
  pub topup_mode : Option Mode
  pub topup_steps : List StepState
  pub auto_topup_fired : Bool
  pub toast : Option String
  pub sent : ℕ
  pub phase : Phase
