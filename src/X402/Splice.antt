-- ===== src/X402/Splice.antt =====
-- `spliceUserVerification` of haba/src/lib/x402-client.ts: the user's assertion is written into the
-- Base64 payment header.
use x402_token_market.Base.{
  ◌≡◌, refl, ◌∙◌, ap, arith, String, none, some, str_eq, eq_iff, if◌then◌else◌,
}
use x402_token_market.Json.{Fields, end, field, Json, str, obj, lookup, assign}
use x402_token_market.Json.Codec.{Restores, Codec}

-- `obj.payload.userVerification = uv`. On an array the property is set and not written out again.
unfoldable pub set_verification : String → Json → Json
set_verification uv (obj r) = obj (assign "userVerification" (str uv) r)
set_verification uv v = v

-- The change of the decoded value; any value but an object with an object under `payload` is kept.
unfoldable pub splice_json : String → Json → Json
unfolding set_verification
splice_json uv (obj r) = elim (lookup "payload" r) [
  | some payload ↦ obj (assign "payload" (set_verification uv payload) r)
  | none ↦ obj r
]
splice_json uv v = v

-- `spliceUserVerification`; a header that does not decode is sent as it is.
unfoldable pub splice : Codec → String → String → String
unfolding splice_json
splice c header uv = elim (c.parse (c.decode64 header)) [
  | some v ↦ c.encode64 (c.stringify (splice_json uv v))
  | none ↦ header
]

pub lookup-assign :
    (j k : String) (v : Json) (r : Fields)
    → lookup j (assign k v r) ≡ (if str_eq k j then some v else lookup j r)
lookup-assign j k v end = refl
lookup-assign j k v (field i w r) =
    ground (arith, eq_iff i k, eq_iff i j, eq_iff k j, lookup-assign j k v r)

splice_json-payload :
    (uv : String) (r q : Fields)
    → lookup "payload" r ≡ some (obj q)
    → splice_json uv (obj r) ≡ obj (assign "payload" (obj (assign "userVerification" (str uv) q)) r)
unfolding splice_json
splice_json-payload uv r q e = rw (e, splice_json) refl

-- The header that `spliceUserVerification` returns for one that decodes to an object with an object
-- under `payload` decodes, if JSON and Base64 give back that value, to an object in which
-- `payload.userVerification` is the assertion, every other field of `payload` is as before, and so
-- is every other field of the object.
pub splice_sets :
    (c : Codec) (h uv : String) (r q : Fields)
    → c.parse (c.decode64 h) ≡ some (obj r)
    → lookup "payload" r ≡ some (obj q)
    → Restores c (splice_json uv (obj r))
    → (r' : Fields) × (q' : Fields) × (c.parse (c.decode64 (splice c h uv)) ≡ some (obj r'))
      × (lookup "payload" r' ≡ some (obj q'))
      × ((j : String)
          → lookup j q' ≡ (if str_eq "userVerification" j then some (str uv) else lookup j q))
      × ((j : String) → lookup j r' ≡ (if str_eq "payload" j then some (obj q') else lookup j r))
unfolding splice
splice_sets c h uv r q e payload restores = (
  assign "payload" (obj (assign "userVerification" (str uv) q)) r,
  assign "userVerification" (str uv) q,
  rw (e, splice) (restores ∙ ap some (splice_json-payload uv r q payload)),
  lookup-assign "payload" "payload" (obj (assign "userVerification" (str uv) q)) r,
  λ j. lookup-assign j "userVerification" (str uv) q,
  λ j. lookup-assign j "payload" (obj (assign "userVerification" (str uv) q)) r,
)

-- A header that does not decode to JSON is sent unchanged.
pub splice_undecodable :
    (c : Codec) (h uv : String) → c.parse (c.decode64 h) ≡ none → splice c h uv ≡ h
unfolding splice
splice_undecodable c h uv e = rw (e, splice) refl
