-- ===== src/Biometric/Binding.antt =====
-- A challenge belongs to one payment.
use x402_token_market.Base.{◌≡◌, or_else, Free, joined_split, arith}
use x402_token_market.Json.Codec.{Codec}
use x402_token_market.Biometric.{Browser, Payment, challenge_text, payment_challenge}

-- No part of the payment but its nonce holds the separator.
abbrev pub IsPlain : Payment → Type 0
IsPlain p = Free "|" p.resource × Free "|" p.pay_to × Free "|" p.amount_micro

-- If the digest tells the texts of two payments apart and neither has a separator in its resource, payee
-- or amount, then one challenge for both means that they agree in resource, payee, amount and nonce.
pub payment_challenge_injective :
    (b : Browser) (c : Codec) (p q : Payment)
    → (b.sha256 (challenge_text p) ≡ b.sha256 (challenge_text q)
        → challenge_text p ≡ challenge_text q)
    → IsPlain p
    → IsPlain q
    → payment_challenge b c p ≡ payment_challenge b c q
    → (p.resource ≡ q.resource)
      × (p.pay_to ≡ q.pay_to)
      × (p.amount_micro ≡ q.amount_micro)
      × (or_else p.nonce "" ≡ or_else q.nonce "")
unfolding challenge_text
payment_challenge_injective b c p q apart plain plain' e =
    let (r, t, a) = plain in
    let (r', t', a') = plain' in
    let (version, e₁) =
      joined_split "|" "x402-v1" "x402-v1" _ _ version_free version_free (apart e) in
    let (resource, e₂) = joined_split "|" _ _ _ _ r r' e₁ in
    let (pay_to, e₃) = joined_split "|" _ _ _ _ t t' e₂ in
    let (amount, nonce) = joined_split "|" _ _ _ _ a a' e₃ in (resource, pay_to, amount, nonce)
  where
    version_free : Free "|" "x402-v1"
    version_free = (
      omega arith,
      (omega arith, (omega arith, (omega arith, (omega arith, (omega arith, (omega arith, tt)))))),
    )
