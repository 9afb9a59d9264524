-- ===== src/Tests/Payment.antt =====
-- The x402 loop and the checkout route at concrete inputs.
use x402_token_market.Base.{◌≡◌, refl, none, some, [], ◌∷◌, arith, String, str_eq, if◌then◌else◌}
use x402_token_market.Json.{null, obj, str, Fields, lookup, fields, object}
use x402_token_market.Net.{Thrown, throw, done, run}
use x402_token_market.X402.{Purchase, conclude, x402_fetch}
use x402_token_market.X402.Splice.{splice, splice_json, set_verification, splice_sets}
use x402_token_market.X402.Errors.{
  code_of, status_of, body_of, conclude_refusal, run-x402_fetch_success, missing,
}
use x402_token_market.Checkout.{Draws}
use x402_token_market.Samples.{codec, env, reply, gateway, challenge_json, paid_json, requirement}

abbrev sample : Purchase
sample = record {
  resource_url = "/v1/protected/checkout/order";
  body = object [];
  user_verification = none;
}

abbrev draws : Draws
draws = record {
  idem_hex = "0a1b2c3d4e5f";
  order_hex = "0123456789";
  placed_at = "2026-06-03T14:32:00Z";
}

run-x402_fetch_success_example :
    (run gateway (x402_fetch codec env sample) 0).outcome
    ≡ done (record {
      body = paid_json;
      challenge = challenge_json;
      requirements = some requirement;
      settlement_receipt = null;
      x_payment_header = some (str "header");
    })
run-x402_fetch_success_example =
    run-x402_fetch_success codec env sample gateway 0 1 2 2 (reply 402 "challenge")
      (reply 200 "built") (reply 200 "paid") _ _ requirement paid_json null [] "header" refl refl
      refl refl refl refl refl refl refl refl refl missing

conclude_refusal_example :
    (e : Thrown) × (conclude codec challenge_json none none (reply 503 "oops") ≡ throw e)
    × (body_of e ≡ none)
    × (status_of e ≡ none)
    × (code_of e ≡ none)
conclude_refusal_example =
    conclude_refusal codec challenge_json none none (reply 503 "oops") (omega arith)

splice_sets_example :
    (r' : Fields) × (q' : Fields) × (codec.parse (codec.decode64 (splice codec "header" "uv"))
      ≡ some (obj r'))
    × (lookup "payload" r' ≡ some (obj q'))
    × ((j : String)
        → lookup j q' ≡ (
            if str_eq "userVerification" j
            then some (str "uv")
            else lookup j (fields (("signedTxBase64", str "AA") ∷ []))))
    × ((j : String)
        → lookup j r' ≡ (
            if str_eq "payload" j
            then some (obj q')
            else lookup j (fields (("payload", object (("signedTxBase64", str "AA") ∷ [])) ∷ []))))
unfolding splice_json set_verification
splice_sets_example =
    splice_sets codec "header" "uv"
      (fields (("payload", object (("signedTxBase64", str "AA") ∷ [])) ∷ []))
      (fields (("signedTxBase64", str "AA") ∷ [])) refl refl refl
