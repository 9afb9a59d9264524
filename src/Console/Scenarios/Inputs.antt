-- ===== src/Console/Scenarios/Inputs.antt =====
-- What the scenarios send: the amount of a normal run, and a tampered payment.
use x402_token_market.Base.{
  suc, ◌*◌, ◌<◌, ◌≤◌, ◌≡◌, refl, false, Bool-cases, inl, inr, ltb, leb, ltb→lt, leb→le, String,
  some, none, Option, arith, str_eq, if◌then◌else◌,
}
use x402_token_market.Json.{Json, null, bool, num, str, arr, obj, Fields, lookup, assign}
use x402_token_market.Json.Codec.{Codec, Restores}
use x402_token_market.Net.{ret}
use x402_token_market.X402.Splice.{lookup-assign}
use x402_token_market.Console.Gateway.{tamper_payload}
use x402_token_market.Console.Scenarios.{capped}

-- The amount of a normal run is above 0 and at most 0.5 USDC, whatever the request names.
pub capped_bounds :
    (v : Option Json)
    → ((capped v).negative ≡ false)
      × (0 < (capped v).top)
      × ((capped v).top ≤ 500_000 * suc (capped v).under)
unfolding capped
capped_bounds none = (refl, omega arith, omega arith)
capped_bounds (some null) = (refl, omega arith, omega arith)
capped_bounds (some (bool b)) = (refl, omega arith, omega arith)
capped_bounds (some (str s)) = (refl, omega arith, omega arith)
capped_bounds (some (arr vs)) = (refl, omega arith, omega arith)
capped_bounds (some (obj r)) = (refl, omega arith, omega arith)
capped_bounds (some (num n)) = elim (Bool-cases n.negative) [
  | inl g ↦ rw g (refl, omega arith, omega arith)
  | inr g ↦ elim (Bool-cases (ltb 0 n.top)) [
    | inr e ↦ rw (g, e) (refl, omega arith, omega arith)
    | inl e ↦ elim (Bool-cases (leb n.top (500_000 * suc n.under))) [
      | inr f ↦ rw (g, e, f) (refl, omega arith, omega arith)
      | inl f ↦ rw (g, e, f) (refl, ltb→lt 0 n.top e, leb→le n.top (500_000 * suc n.under) f)
    ]
  ]
]

-- If the header decodes to an object, and JSON and Base64 give back the changed one, then tampering
-- gives a header that decodes to an object with the new value in the field and every other field as
-- before.
pub tamper_payload_sets :
    (c : Codec) (h k : String) (v : Json) (r : Fields)
    → c.parse (c.decode64 h) ≡ some (obj r)
    → Restores c (obj (assign k v r))
    → (h' : String) × (r' : Fields) × (tamper_payload c (str h) k v ≡ ret h')
      × (c.parse (c.decode64 h') ≡ some (obj r'))
      × ((j : String) → lookup j r' ≡ (if str_eq k j then some v else lookup j r))
tamper_payload_sets c h k v r e restores =
    (_, assign k v r, rw (e, tamper_payload) refl, restores, λ j. lookup-assign j k v r)
