-- ===== src/Sign/Injective.antt =====
-- Two requests have one string to sign only if they agree in every line of it.
use x402_token_market.Base.{◌≡◌, String, to_upper, Free, joined_split}
use x402_token_market.Sign.{string_to_sign}

-- No line break occurs in the text.
abbrev pub IsLine : String → Type 0
IsLine s = Free "\n" s

-- If no line of either request holds a line break, then equal strings to sign come from the same
-- method up to capitals, the same path, the same timestamp and nonce, and the same digest of the body.
pub string_to_sign_injective :
    (method method' path path' ts ts' nonce nonce' sha sha' : String)
    → IsLine (to_upper method)
    → IsLine (to_upper method')
    → IsLine path
    → IsLine path'
    → IsLine ts
    → IsLine ts'
    → IsLine nonce
    → IsLine nonce'
    → string_to_sign method path ts nonce sha ≡ string_to_sign method' path' ts' nonce' sha'
    → (to_upper method ≡ to_upper method')
      × (path ≡ path')
      × (ts ≡ ts')
      × (nonce ≡ nonce')
      × (sha ≡ sha')
unfolding string_to_sign
string_to_sign_injective method method' path path' ts ts' nonce nonce' sha sha' m m' p p' t t' n n'
      e =
    let (same_method, e₁) = joined_split "\n" _ _ _ _ m m' e in
    let (same_path, e₂) = joined_split "\n" _ _ _ _ p p' e₁ in
    let (same_ts, e₃) = joined_split "\n" _ _ _ _ t t' e₂ in
    let (same_nonce, same_sha) = joined_split "\n" _ _ _ _ n n' e₃ in
    (same_method, same_path, same_ts, same_nonce, same_sha)
