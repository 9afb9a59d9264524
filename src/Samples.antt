-- ===== src/Samples.antt =====
-- Concrete data for the tests: a codec that knows a few texts, an environment and services.
use x402_token_market.Base.{
  ℕ, zero, suc, String, Option, none, some, [], ◌∷◌, str_eq, ◌⊕◌, if◌then◌else◌,
}
use x402_token_market.Env.{Env}
use x402_token_market.Json.{Json, null, str, arr, whole, object, items}
use x402_token_market.Json.Codec.{Codec}
use x402_token_market.Sign.{Crypto, Stamp}
use x402_token_market.Net.{Request, Response, Reply, response}

abbrev pub requirement : Json
requirement = object (("scheme", str "exact") ∷ ("network", str "solana-devnet") ∷ [])

abbrev pub challenge_json : Json
challenge_json = object (("accepts", arr (items (requirement ∷ []))) ∷ [])

abbrev pub built_json : Json
built_json = object (("x_payment_header", str "header") ∷ [])

abbrev pub paid_json : Json
paid_json = object (("order_id", str "po_1") ∷ ("tx_hash", str "5gYY") ∷ [])

abbrev pub header_json : Json
header_json = object (("payload", object (("signedTxBase64", str "AA") ∷ [])) ∷ [])

abbrev pub spliced_json : Json
spliced_json =
    object (
      ("payload", object (("signedTxBase64", str "AA") ∷ ("userVerification", str "uv") ∷ [])) ∷ [])

-- Two jars of strawberry jam, an unknown product and a liquid sweetener that is not wanted.
abbrev pub cart_json : Json
cart_json = object (
    (
      "items",
      arr (
          items (
            object (("productId", str "marvie_jam_strawberry") ∷ ("qty", whole 2) ∷ [])
            ∷ object (("productId", str "nothing") ∷ ("qty", whole 1) ∷ [])
            ∷ object (("productId", str "marvie_liquid_200ml") ∷ ("qty", whole 0) ∷ [])
            ∷ [])),
    )
    ∷ ("totalUsdc", whole 0)
    ∷ [])

abbrev pub purchase_json : Json
purchase_json = object (("payment_order_id", str "po_7") ∷ ("nonce", str "n") ∷ [])

abbrev pub signed_json : Json
signed_json = object (("signed_tx_b64", str "AA") ∷ ("payer", str "9xQeWvG816bU") ∷ [])

-- A question to the adviser, and the completion that answers it.
abbrev question_json : Json
question_json = object (("userPrompt", str " Which jam? ") ∷ [])

abbrev completion_json : Json
completion_json =
    object (
      ("content", str "MARVIE-ST-100")
      ∷ ("usage", object (("tokens_consumed", whole 12) ∷ []))
      ∷ [])

abbrev parse_sample : String → Option Json
parse_sample s =
    if str_eq s "challenge"
    then some challenge_json
    else if str_eq s "built"
    then some built_json
    else if str_eq s "paid"
    then some paid_json
    else if str_eq s "header"
    then some header_json
    else if str_eq s "spliced"
    then some spliced_json
    else if str_eq s "cart"
    then some cart_json
    else if str_eq s "purchase"
    then some purchase_json
    else if str_eq s "signed"
    then some signed_json
    else if str_eq s "question"
    then some question_json
    else if str_eq s "completion"
    then some completion_json
    else if str_eq s "null"
    then some null
    else none

abbrev pub codec : Codec
codec = record {
  parse = parse_sample;
  syntax_error = λ _. "Unexpected token";
  stringify = λ _. "spliced";
  decode64 = λ s. s;
  encode64 = λ s. s;
  display = λ _. "[object Object]";
  locale_number = λ _. "1,440";
}

abbrev pub env : Env
env _ = none

abbrev pub reply : ℕ → String → Response
reply status text = record { status = status; text = text; headers = [] }

-- A gateway that asks for payment, builds one, and accepts it.
abbrev pub gateway : ℕ → Request → Reply × ℕ
gateway zero r = (response (reply 402 "challenge"), 1)
gateway (suc zero) r = (response (reply 200 "built"), 2)
gateway n r = (response (reply 200 "paid"), n)

-- A token service and gateway that create an order, sign its payment, refuse its proof, and then
-- credit the ledger.
abbrev pub tokens : ℕ → Request → Reply × ℕ
tokens zero r = (response (reply 201 "purchase"), 1)
tokens (suc zero) r = (response (reply 200 "signed"), 2)
tokens (suc (suc zero)) r = (response (reply 409 "null"), 3)
tokens n r = (response (reply 200 "paid"), n)

-- A digest that copies its text.
abbrev pub crypto : Crypto
crypto = record { sha256_hex = λ s. s; hmac_sha256_hex = λ key text. key ⊕ text }

abbrev pub stamp : Stamp
stamp = record { now_ms = 1_780_000_000_999; nonce = "0a1b" }

-- A token API that completes.
abbrev pub chat : ℕ → Request → Reply × ℕ
chat n r = (response (reply 200 "completion"), suc n)
