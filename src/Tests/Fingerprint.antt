-- ===== src/Tests/Fingerprint.antt =====
-- The confirmation of a payment in a browser with an authenticator.
use x402_token_market.Base.{◌≡◌, refl, true, none, some, String, [], ◌∷◌, arith}
use x402_token_market.Net.{done}
use x402_token_market.Biometric.{
  Browser, Credential, Payment, challenge_text, handle_authorize, request_biometric, read_creation,
  is_biometric_available, after_result, success,
}
use x402_token_market.Biometric.Binding.{payment_challenge_injective}
use x402_token_market.Samples.{codec}

abbrev fingerprint : Credential
fingerprint = record {
  type = "public-key";
  raw_id = 1 ∷ [];
  attestation_object = 2 ∷ [];
  client_data_json = 3 ∷ [];
}

abbrev browser : Browser
browser = record {
  window = true;
  public_key_credential = true;
  authenticator = done true;
  create = λ _. done (some fingerprint);
  subtle = true;
  sha256 = λ _. 0 ∷ [];
  btoa_bytes = λ _. "AQ==";
  btoa = λ s. s;
}

abbrev coffee : Payment
coffee = record { resource = "/c"; pay_to = "N"; amount_micro = "5"; nonce = none }

-- No nonce and an empty one give one text.
abbrev same_coffee : Payment
same_coffee = record coffee { nonce = some "" }

payment_challenge_injective_example :
    (◌≡◌ {A = String} "/c" "/c")
    × (◌≡◌ {A = String} "N" "N")
    × (◌≡◌ {A = String} "5" "5")
    × (◌≡◌ {A = String} "" "")
unfolding challenge_text
payment_challenge_injective_example =
    payment_challenge_injective browser codec coffee same_coffee (λ _. refl)
      ((omega arith, (omega arith, tt)), (omega arith, tt), (omega arith, tt))
      ((omega arith, (omega arith, tt)), (omega arith, tt), (omega arith, tt)) refl

shown_success : (handle_authorize browser codec "k" (7 ∷ []) 0).phase ≡ success
unfolding handle_authorize request_biometric read_creation is_biometric_available after_result
shown_success = refl
