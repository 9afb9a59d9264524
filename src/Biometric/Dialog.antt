-- ===== src/Biometric/Dialog.antt =====
-- What the dialog shows, for everything that the browser can do.
use x402_token_market.Base.{ℕ, ◌≡◌, ◌≢◌, ◌⊎◌, true, false, String, none, some}
use x402_token_market.Json.Codec.{Codec}
use x402_token_market.Net.{Thrown, done, failed}
use x402_token_market.Route.{message}
use x402_token_market.Biometric.{
  Browser, Bytes, Credential, CreationOptions, is_biometric_available, name_of, creation_options,
  payment_challenge, topup_payment, Modal, success, failure, no_support, pending, closed,
}

abbrev pub options_of : Browser → Codec → String → Bytes → ℕ → CreationOptions
options_of b c key user_id now =
    creation_options b c (payment_challenge b c (topup_payment key)) "100M Tokens · $50.00 USDC"
      user_id now

-- Success is shown exactly for a credential that was created for the challenge of this payment.
pub data Answered (b : Browser) (options : CreationOptions) : Modal → Type 0 where
  without :
      is_biometric_available b ≡ false
      → Answered b options (record { phase = no_support; error = none })
  authorised :
      (cred : Credential)
      → is_biometric_available b ≡ true
      → b.create options ≡ done (some cred)
      → cred.type ≡ "public-key"
      → Answered b options (record { phase = success; error = none })
  nothing :
      is_biometric_available b ≡ true → b.create options ≡ done none → Answered b options closed
  other_kind :
      (cred : Credential)
      → is_biometric_available b ≡ true
      → b.create options ≡ done (some cred)
      → cred.type ≢ "public-key"
      → Answered b options closed
  dismissed :
      (e : Thrown)
      → is_biometric_available b ≡ true
      → b.create options ≡ failed e
      → (name_of e ≡ "NotAllowedError") ⊎ (name_of e ≡ "AbortError")
      → Answered b options closed
  went_wrong :
      (e : Thrown)
      → is_biometric_available b ≡ true
      → b.create options ≡ failed e
      → name_of e ≢ "NotAllowedError"
      → name_of e ≢ "AbortError"
      → Answered b options (record { phase = failure; error = some (message e) })

-- The digest comes before everything else.
pub data Shown (b : Browser) (options : CreationOptions) : Modal → Type 0 where
  stuck : b.subtle ≡ false → Shown b options (record { phase = pending; error = none })
  answered : {m : Modal} → b.subtle ≡ true → Answered b options m → Shown b options m
