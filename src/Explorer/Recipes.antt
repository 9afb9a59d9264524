-- ===== src/Explorer/Recipes.antt =====
-- The lanes, the steps and the recipes of the protocol explorer,
-- netstars/token/console/src/components/ProtocolExplorer.tsx. A place on the picture is given in
-- hundredths of its width, and a speed in halves.
use x402_token_market.Base.{ℕ, Bool, true, false, String, List, [], ◌∷◌}

pub data LaneId : Type 0 where
  agent x402 wea solana : LaneId

pub record Step : Type 0 where
  pub n : ℕ
  pub source : LaneId
  pub target : LaneId
  pub label : String
  pub detail : String
  pub field : String

pub data RecipeId : Type 0 where
  token_purchase ai_call failed_payment refund : RecipeId

pub record Recipe : Type 0 where
  pub name : String
  pub available : Bool
  pub steps : List Step

-- `LANES.find((l) => l.id === id).x`
abbrev pub lane_x : LaneId → ℕ
lane_x agent = 8
lane_x x402 = 36
lane_x wea = 64
lane_x solana = 92

abbrev step : ℕ → LaneId → LaneId → String → String → String → Step
step n source target label detail field = record {
  n = n;
  source = source;
  target = target;
  label = label;
  detail = detail;
  field = field;
}

abbrev pub purchase_steps : List Step
purchase_steps =
    step 1 agent x402 "POST /v1/payments" "Agent asks the gateway for a payment intent for N USDC."
      "amount_usdc_micro: 10_000_000"
    ∷ step 2 x402 agent "402 Payment Required"
        "Gateway replies with recipient address, nonce, expiry."
        "recipient: \"5dH…2hYz\" · nonce: \"a1b2…\""
    ∷ step 3 agent x402 "POST /proof  (signed)"
        "Agent signs SPL TransferChecked + Memo and submits." "signed_tx_base64: \"Asw9…\""
    ∷ step 4 x402 wea "POST /v1/settlements"
        "Gateway hands off to Wea for broadcast & confirmation." "payment_order_id: \"pmt_01HX…\""
    ∷ step 5 wea solana "submit USDC tx" "Wea broadcasts via priority RPC node (~220ms avg)."
        "rpc: QuickNode-1 · slot: 287_452_991"
    ∷ step 6 solana wea "tx confirmed" "Validator returns confirmed status; Wea polls until landed."
        "tx_hash: \"5KJp…Bd7Q\""
    ∷ step 7 wea x402 "settled callback"
        "Wea calls back X402; X402 calls token-api /internal/credit." "ledger_entry_id: 1042"
    ∷ step 8 x402 agent "webhook + 200 OK"
        "Gateway notifies the agent; balance now reflects credit." "balance_after_token: 10_000_000"
    ∷ []

abbrev pub recipe : RecipeId → Recipe
recipe token_purchase = record { name = "Token purchase"; available = true; steps = purchase_steps }
recipe ai_call = record { name = "AI call"; available = false; steps = [] }
recipe failed_payment = record { name = "Failed payment"; available = false; steps = [] }
recipe refund = record { name = "Refund"; available = false; steps = [] }

-- `SPEEDS`
pub data Speed : Type 0 where
  half normal double quadruple : Speed

-- `STEP_DURATION_MS / speed`
abbrev pub duration_ms : Speed → ℕ
duration_ms half = 1800
duration_ms normal = 900
duration_ms double = 450
duration_ms quadruple = 225
