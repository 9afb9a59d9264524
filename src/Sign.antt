-- ===== src/Sign.antt =====
-- Request signing, haba/src/lib/netstars/sign.ts and its copy netstars/token/console/src/lib/sign.ts.
pub mod Injective
use x402_token_market.Base.{ℕ, ◌/◌, String, List, [], ◌∷◌, Option, none, some, show, ◌⊕◌, to_upper}
use x402_token_market.Net.{Request}

-- `node:crypto`: the digest of a text in UTF-8, and its keyed digest, in hexadecimal.
pub record Crypto : Type 0 where
  pub sha256_hex : String → String
  pub hmac_sha256_hex : (key text : String) → String

-- The clock in milliseconds and `randomBytes(16).toString("hex")`.
pub record Stamp : Type 0 where
  pub now_ms : ℕ
  pub nonce : String

pub record Credentials : Type 0 where
  pub key_id : String
  pub key_secret : String

-- The five lines that are signed.
unfoldable pub string_to_sign : (method path ts nonce body_sha : String) → String
string_to_sign method path ts nonce body_sha =
    to_upper method ⊕ "\n" ⊕ path ⊕ "\n" ⊕ ts ⊕ "\n" ⊕ nonce ⊕ "\n" ⊕ body_sha

-- `Math.floor(Date.now() / 1000).toString()`
unfoldable pub timestamp : ℕ → String
timestamp now_ms = show (now_ms / 1000)

-- `signRequest`
unfoldable pub sign_request :
    Crypto → Credentials → Stamp → (method path body : String) → List (String × String)
sign_request k cred s method path body =
    ("Authorization", "Bearer " ⊕ cred.key_id)
    ∷ ("X-Netstars-Timestamp", timestamp s.now_ms)
    ∷ ("X-Netstars-Nonce", s.nonce)
    ∷ (
      "X-Netstars-Signature",
      k.hmac_sha256_hex cred.key_secret
          (string_to_sign method path (timestamp s.now_ms) s.nonce (k.sha256_hex body)),
    )
    ∷ []
