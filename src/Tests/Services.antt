-- ===== src/Tests/Services.antt =====
-- The signed calls and the top-up at concrete inputs.
use x402_token_market.Base.{◌≡◌, refl, String, some, [], ◌∷◌, to_upper, arith}
use x402_token_market.Json.{str}
use x402_token_market.Net.{done as finished, run}
use x402_token_market.Sign.{string_to_sign}
use x402_token_market.Sign.Injective.{IsLine, string_to_sign_injective}
use x402_token_market.Netstars.Calls.{recent_activity, perform, IsCall, run-perform-IsCall}
use x402_token_market.Topup.{
  direct, succeeded, step, done, failed, topup, sign_payment, submit, demo_credit,
}
use x402_token_market.Topup.Ledger.{ToppedUp, run-topup-ToppedUp}
use x402_token_market.Topup.Totals.{IsBalanced, run-topup-IsBalanced}
use x402_token_market.Samples.{codec, crypto, env, stamp, gateway, tokens}

get_IsLine : IsLine (to_upper "get")
unfolding to_upper
get_IsLine = (omega arith, (omega arith, (omega arith, tt)))

capital_get_IsLine : IsLine (to_upper "GET")
unfolding to_upper
capital_get_IsLine = (omega arith, (omega arith, (omega arith, tt)))

path_IsLine : IsLine "/v1"
path_IsLine = (omega arith, (omega arith, (omega arith, tt)))

sample_agrees : string_to_sign "get" "/v1" "7" "n" "ab" ≡ string_to_sign "GET" "/v1" "7" "n" "ab"
unfolding string_to_sign to_upper
sample_agrees = refl

string_to_sign_injective_example :
    (to_upper "get" ≡ to_upper "GET")
    × (◌≡◌ {A = String} "/v1" "/v1")
    × (◌≡◌ {A = String} "7" "7")
    × (◌≡◌ {A = String} "n" "n")
    × (◌≡◌ {A = String} "ab" "ab")
string_to_sign_injective_example =
    string_to_sign_injective "get" "GET" "/v1" "/v1" "7" "7" "n" "n" "ab" "ab" get_IsLine
      capital_get_IsLine path_IsLine path_IsLine (omega arith, tt) (omega arith, tt)
      (omega arith, tt) (omega arith, tt) sample_agrees

run-perform-IsCall_example :
    let r = run gateway (perform codec crypto env stamp (recent_activity 5)) 1 in
    IsCall codec crypto env stamp (recent_activity 5) r.trace r.outcome
run-perform-IsCall_example = run-perform-IsCall codec crypto env stamp (recent_activity 5) gateway 1

run-topup-ToppedUp_example :
    let r = run tokens (topup codec crypto env stamp "i") 0 in
    ToppedUp codec crypto env stamp "i" r.trace r.outcome
run-topup-ToppedUp_example = run-topup-ToppedUp codec crypto env stamp "i" tokens 0

run-topup-IsBalanced_example :
    let r = run tokens (topup codec crypto env stamp "i") 0 in IsBalanced 4 r.trace r.outcome
run-topup-IsBalanced_example = run-topup-IsBalanced codec crypto env stamp "i" tokens 0

-- A proof that is refused is followed by the direct credit, on the order of the first reply.
topup_direct :
    (run tokens (topup codec crypto env stamp "i") 0).outcome
    ≡ finished (
        succeeded direct (some (str "po_7")) (
          record { name = "Create Order"; status = done; detail = some (str "po_7") }
          ∷ step "x402 Sign" done "payer: 9xQeWvG8…"
          ∷ step "Solana Settle" failed "spliced"
          ∷ step "Solana Settle" done "Ledger credit applied"
          ∷ []))
unfolding topup sign_payment submit demo_credit run
topup_direct = refl
