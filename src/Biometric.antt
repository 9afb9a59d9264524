-- ===== src/Biometric.antt =====
-- The confirmation of a payment by a fingerprint, haba/src/lib/biometric.ts, and the dialog that asks for
-- it, haba/src/components/enterprise/PaymentAuthModal.tsx.
pub mod Binding
pub mod Dialog
use x402_token_market.Base.{
  ℕ, Bool, true, false, not, ◌&&◌, ◌||◌, String, Option, none, some, List, [], ◌∷◌, str_eq, show,
  ◌⊕◌, or_else, if◌then◌else◌,
}
use x402_token_market.Json.{Json, num, str, object}
use x402_token_market.Json.Codec.{Codec}
use x402_token_market.Net.{Thrown, error, netstars, Outcome, done, failed}
use x402_token_market.Route.{message}

abbrev pub Bytes : Type 0
Bytes = List ℕ

-- A PublicKeyCredential, with the response of the authenticator.
pub record Credential : Type 0 where
  pub type : String
  pub raw_id : Bytes
  pub attestation_object : Bytes
  pub client_data_json : Bytes

-- The options of `navigator.credentials.create`.
pub record CreationOptions : Type 0 where
  pub challenge : Bytes
  pub rp_name : String
  pub user_id : Bytes
  pub user_name : String
  pub display_name : String
  pub algorithms : List Json
  pub attachment : String
  pub user_verification : String
  pub require_resident_key : Bool
  pub timeout : ℕ
  pub attestation : String

-- What the browser offers: whether there is a window with WebAuthn in it, whether it has an authenticator
-- of its own, whether there is `crypto.subtle`, as in a secure context, the creation of a credential, SHA-256 of a text in UTF-8, and `btoa` of bytes and of a text.
pub record Browser : Type 0 where
  pub window : Bool
  pub public_key_credential : Bool
  pub authenticator : Outcome Bool
  pub subtle : Bool
  pub create : CreationOptions → Outcome (Option Credential)
  pub sha256 : String → Bytes
  pub btoa_bytes : Bytes → String
  pub btoa : String → String

pub record BiometricSuccess : Type 0 where
  pub attestation_object : String
  pub client_data_json : String
  pub envelope : String

pub data Reason : Type 0 where
  unsupported cancelled : Reason
  broken : String → Reason

-- `BiometricResult`
pub data BiometricResult : Type 0 where
  confirmed : BiometricSuccess → BiometricResult
  refused : Reason → BiometricResult

-- `isBiometricAvailable`
unfoldable pub is_biometric_available : Browser → Bool
is_biometric_available b =
    b.window && b.public_key_credential && (elim b.authenticator [ done a ↦ a | failed e ↦ false ])

-- `e.name`; a NetstarsError keeps the name of its base class.
abbrev pub name_of : Thrown → String
name_of (error name text cause) = name
name_of (netstars status text raw) = "Error"

-- The `catch` of `requestBiometric`
unfoldable pub creation_failed : Thrown → BiometricResult
creation_failed e =
    if str_eq (name_of e) "NotAllowedError" || str_eq (name_of e) "AbortError"
    then refused cancelled
    else refused (broken (message e))

-- The arguments of `paymentRequirementsChallenge`
pub record Payment : Type 0 where
  pub resource : String
  pub pay_to : String
  pub amount_micro : String
  pub nonce : Option String

-- The text that the challenge is the digest of.
unfoldable pub challenge_text : Payment → String
challenge_text p =
    "x402-v1" ⊕ "|" ⊕ p.resource ⊕ "|" ⊕ p.pay_to ⊕ "|" ⊕ p.amount_micro ⊕ "|" ⊕ or_else p.nonce ""

-- The two algorithms, ES256 and RS256, by their numbers less the sign.
abbrev algorithm : ℕ → Json
algorithm n = object (
    ("type", str "public-key") ∷ ("alg", num (record { negative = true; top = n; under = 0 })) ∷ [])

module _ (b : Browser) (c : Codec) where
  -- `paymentRequirementsChallenge`
  abbrev pub payment_challenge : Payment → Bytes
  payment_challenge p = b.sha256 (challenge_text p)

  -- The envelope of a credential, with its parts in Base64.
  abbrev pub confirmed_by : Credential → BiometricSuccess
  confirmed_by cred = record {
    attestation_object = b.btoa_bytes cred.attestation_object;
    client_data_json = b.btoa_bytes cred.client_data_json;
    envelope = b.btoa (
        c.stringify (
          object (
            ("kind", str "webauthn-attestation")
            ∷ ("attestationObject", str (b.btoa_bytes cred.attestation_object))
            ∷ ("clientDataJSON", str (b.btoa_bytes cred.client_data_json))
            ∷ ("credentialId", str (b.btoa_bytes cred.raw_id))
            ∷ [])));
  }

  -- What is made of the credential, or of the exception.
  unfoldable pub read_creation : Outcome (Option Credential) → BiometricResult
  read_creation (failed e) = creation_failed e
  read_creation (done none) = refused cancelled
  read_creation (done (some cred)) =
      if str_eq cred.type "public-key" then confirmed (confirmed_by cred) else refused cancelled

  -- The options, for a challenge, a label, random bytes for the user and the time.
  abbrev pub creation_options : Bytes → String → Bytes → ℕ → CreationOptions
  creation_options challenge label user_id now = record {
    challenge = challenge;
    rp_name = "HABA AI Commerce";
    user_id = user_id;
    user_name = "haba-pay-" ⊕ show now;
    display_name = "HABA Payment · " ⊕ label;
    algorithms = algorithm 7 ∷ algorithm 257 ∷ [];
    attachment = "platform";
    user_verification = "required";
    require_resident_key = false;
    timeout = 60_000;
    attestation = "none";
  }

  -- `requestBiometric`
  unfoldable pub request_biometric : Bytes → String → Bytes → ℕ → BiometricResult
  unfolding is_biometric_available
  request_biometric challenge label user_id now =
      if is_biometric_available b
      then read_creation (b.create (creation_options challenge label user_id now))
      else refused unsupported

-- `Phase` of the dialog, which a success leaves in place.
pub data Phase : Type 0 where
  idle pending success failure no_support : Phase

pub record Modal : Type 0 where
  pub phase : Phase
  pub error : Option String

-- The effect that runs when the dialog is closed.
abbrev pub closed : Modal
closed = record { phase = idle; error = none }

-- What the dialog shows for a result.
unfoldable pub after_result : BiometricResult → Modal
after_result (confirmed s) = record { phase = success; error = none }
after_result (refused unsupported) = record { phase = no_support; error = none }
after_result (refused cancelled) = record { phase = idle; error = none }
after_result (refused (broken why)) = record { phase = failure; error = some why }

-- The payment that the dialog asks to confirm, under a key that the clock and chance give.
abbrev pub topup_payment : String → Payment
topup_payment key = record {
  resource = "/v1/protected/token-purchase";
  pay_to = "Netstars";
  amount_micro = "50000000";
  nonce = some key;
}

-- `handleAuthorize`. Without `crypto.subtle` the digest throws, and the phase stays as it was set.
unfoldable pub handle_authorize :
    Browser → Codec → (key : String) → (user_id : Bytes) → (now : ℕ) → Modal
handle_authorize b c key user_id now =
    if b.subtle
    then after_result (
        request_biometric b c (payment_challenge b c (topup_payment key))
          "100M Tokens · $50.00 USDC" user_id now)
    else record { phase = pending; error = none }
