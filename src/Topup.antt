-- ===== src/Topup.antt =====
-- The enterprise top-up, haba/src/app/api/enterprise/topup/route.ts: a purchase order, a signed
-- payment and its proof, with a direct credit of the ledger wherever the payment does not go through.
mod Parts
pub mod Stages
pub mod Ledger
pub mod Totals
unfoldable pub use Parts.*
use x402_token_market.Base.{
  ℕ, Bool, true, false, not, String, Option, none, some, List, [], ◌∷◌, ◌++◌, ◌==◌, show, ◌⊕◌,
  take_text, or_else, if◌then◌else◌,
}
use x402_token_market.Env.{Env}
use x402_token_market.Json.{Json, null, str, whole, get, coalesce, truthy}
use x402_token_market.Json.Codec.{Codec, to_text}
use x402_token_market.Net.{
  Request, Response, Thrown, Io, ret, throw, ◌>>=◌, try, fetch, is_ok, read_json, unless_null,
}
use x402_token_market.Route.{error_text}
use x402_token_market.Sign.{Crypto, Stamp}

abbrev created : Order → List Step
created o = record { name = "Create Order"; status = done; detail = nullish o.order_id } ∷ []

module _ (c : Codec) (k : Crypto) (env : Env) (stamp : Stamp) (idem : String) where
  -- The reading of the reply to the direct credit.
  abbrev pub read_credit : List Step → Option Json → Response → Io TopupResult
  read_credit steps order r =
      if is_ok r
      then ret
          (succeeded direct order (steps ++ step "Solana Settle" done "Ledger credit applied" ∷ []))
      else read_problem c r >>= λ e. ret (
          gave_up order (steps ++ step "Solana Settle" failed (take_text 120 (c.stringify e)) ∷ [])
            "credit failed")

  -- `_demoCredit`: the ledger is credited directly.
  unfoldable pub demo_credit : List Step → Option Json → Io TopupResult
  demo_credit steps order =
      try (fetch (credit_request c env idem order) >>= read_credit steps order) ret (λ e. ret (
        gave_up order (steps ++ step "Solana Settle" failed (take_text 80 (error_text e)) ∷ [])
          (error_text e)))

  -- What follows the proof: success, or the direct credit.
  abbrev pub after_proof : Order → Later → Io TopupResult
  after_proof o (settled steps) = ret (succeeded x402 o.order_id steps)
  after_proof o (fallback steps) = demo_credit steps o.order_id
  after_proof o (signed tx steps) = demo_credit steps o.order_id

  -- Step 3: the proof is submitted; on any failure the ledger is credited directly.
  unfoldable pub submit : Order → Json → List Step → Io TopupResult
  submit o tx steps =
      let proof =
        try (fetch (proof_request c env o.order_id tx) >>= read_proof c steps) (after_proof o) (λ e.
          demo_credit (steps ++ step "Solana Settle" failed (take_text 80 (error_text e)) ∷ [])
            o.order_id) in
      if truthy tx
      then proof
      else demo_credit (steps ++ step "Solana Settle" failed "no signed tx" ∷ []) o.order_id

  abbrev pub after_signing : Order → Later → Io TopupResult
  after_signing o (signed tx steps) = submit o tx steps
  after_signing o (fallback steps) = demo_credit steps o.order_id
  after_signing o (settled steps) = demo_credit steps o.order_id

  -- Step 2: the payment is built and signed by the gateway; on any failure the ledger is credited.
  unfoldable pub sign_payment : Order → Io TopupResult
  sign_payment o =
      try (fetch (sign_step_request c env o) >>= read_signed c (created o)) (after_signing o) (λ e.
        demo_credit (created o ++ step "x402 Sign" failed (take_text 80 (error_text e)) ∷ [])
          o.order_id)

  abbrev pub after_order : First → Io TopupResult
  after_order (stop r) = ret r
  after_order (go o) = sign_payment o

  -- `POST`, from its step 1, the purchase order.
  unfoldable pub topup : Io TopupResult
  topup = try (fetch (purchase_request c k env stamp idem) >>= read_order c) after_order (λ e. ret (
      gave_up (some null) (step "Create Order" failed (take_text 80 (error_text e)) ∷ [])
        "token-api unreachable"))
