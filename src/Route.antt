-- ===== src/Route.antt =====
-- What the route handlers share: `NextResponse.json`, and what a `catch` reads of an exception.
use x402_token_market.Base.{
  ◌≡◌, refl, arith, str_eq, if◌then◌else◌, ℕ, String, Option, none, some, List, [], ◌∷◌, ◌⊕◌,
}
use x402_token_market.Json.{Json, str, whole, object, lookup, fields}
use x402_token_market.Net.{
  Thrown, error, netstars, protocol, system, Code, bad_response, build_failed, retry_rejected,
  gateway_error,
}

-- `NextResponse.json(body, { status })`
pub record HttpResult : Type 0 where
  pub status : ℕ
  pub body : Json

-- An object literal some of whose values may be undefined: those are left out.
abbrev pub defined : List (String × Option Json) → List (String × Json)
defined [] = []
defined ((k, none) ∷ r) = defined r
defined ((k, some v) ∷ r) = (k, v) ∷ defined r

-- `e instanceof Error ? e.message : …`; whatever is thrown here is an Error.
abbrev pub message : Thrown → String
message (error name text cause) = text
message (netstars status text raw) = text

-- `String(e)`. A NetstarsError keeps the name of its base class.
abbrev pub error_text : Thrown → String
error_text (error name text cause) = name ⊕ ": " ⊕ text
error_text (netstars status text raw) = "Error: " ⊕ text

abbrev pub code_text : Code → String
code_text bad_response = "BAD_RESPONSE"
code_text build_failed = "BUILD_FAILED"
code_text retry_rejected = "RETRY_REJECTED"
code_text gateway_error = "GATEWAY_ERROR"

abbrev status_json : Option ℕ → Option Json
status_json none = none
status_json (some n) = some (whole n)

-- `e.cause`, as it is written into a response.
abbrev pub cause : Thrown → Option Json
cause (error name text none) = none
cause (error name text (some (protocol e))) = some (
    object (
      defined (
        ("code", some (str (code_text e.code)))
        ∷ ("message", some (str e.message))
        ∷ ("status", status_json e.status)
        ∷ ("body", e.body)
        ∷ [])))
cause (error name text (some (system v))) = some v
cause (netstars status text raw) = none

-- `o`, or else `d`.
abbrev pub or_option : Option Json → Option Json → Option Json
or_option none d = d
or_option (some v) d = some v

pub or_option-none : (o : Option Json) → or_option o none ≡ o
or_option-none none = refl
or_option-none (some v) = refl

-- The value of the first entry for the key that has one.
abbrev pub value_of : String → List (String × Option Json) → Option Json
value_of k [] = none
value_of k ((j, o) ∷ r) = if str_eq j k then or_option o (value_of k r) else value_of k r

pub lookup-defined :
    (k : String) (l : List (String × Option Json)) → lookup k (fields (defined l)) ≡ value_of k l
lookup-defined k [] = refl
lookup-defined k ((j, none) ∷ r) = ground (arith, lookup-defined k r)
lookup-defined k ((j, some v) ∷ r) = ground (arith, lookup-defined k r)
