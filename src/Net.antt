-- ===== src/Net.antt =====
-- The effects of the routes: `fetch` to another service and exceptions, as a tree that names each
-- request and goes on from the reply; and its run against a service with a state of its own.
pub mod Laws
use x402_token_market.Base.{
  ℕ, ◌≡◌, Bool, true, false, ◌&&◌, String, Option, none, some, List, [], ◌∷◌, ◌++◌, str_eq, leb,
  ltb, if◌then◌else◌,
}
use x402_token_market.Json.{Json}
use x402_token_market.Json.Codec.{Codec}

pub record Request : Type 0 where
  pub method : String
  pub url : String
  pub headers : List (String × String)
  pub body : Option String

-- `text` is the whole body; header names are in lower case.
pub record Response : Type 0 where
  pub status : ℕ
  pub text : String
  pub headers : List (String × String)

-- An X402ProtocolError.
pub data Code : Type 0 where
  bad_response build_failed retry_rejected gateway_error : Code

pub record ProtocolError : Type 0 where
  pub code : Code
  pub message : String
  pub status : Option ℕ
  pub body : Option Json

-- What `e.cause` holds: a protocol error, or the object that the runtime attaches.
pub data Cause : Type 0 where
  protocol : ProtocolError → Cause
  system : Json → Cause

-- What a `throw` carries: an Error with its name, message and cause, or a NetstarsError.
pub data Thrown : Type 0 where
  error : (name message : String) → Option Cause → Thrown
  netstars : (status : ℕ) (message : String) → Option String → Thrown

-- The reply to a `fetch`: a response, or a rejection.
pub data Reply : Type 0 where
  response : Response → Reply
  rejected : Thrown → Reply

pub data Io (A : Type 0) : Type 0 where
  ret : A → Io A
  throw : Thrown → Io A
  call : Request → (Reply → Io A) → Io A

infixl 5 ◌>>=◌
abbrev pub ◌>>=◌ : {A B : Type 0} → Io A → (A → Io B) → Io B
ret a >>= k = k a
throw e >>= k = throw e
call r c >>= k = call r (λ reply. c reply >>= k)

-- `try { m } catch (e) { h(e) }`, followed by `k`.
abbrev pub try : {A B : Type 0} → Io A → (A → Io B) → (Thrown → Io B) → Io B
try (ret a) k h = k a
try (throw e) k h = h e
try (call r c) k h = call r (λ reply. try (c reply) k h)

abbrev pub settle : Reply → Io Response
settle (response r) = ret r
settle (rejected e) = throw e

-- `await fetch(...)`
abbrev pub fetch : Request → Io Response
fetch r = call r settle

-- `res.ok`
abbrev pub is_ok : Response → Bool
is_ok r = leb 200 r.status && ltb r.status 300

-- `res.headers.get(name)`
abbrev pub header : String → List (String × String) → Option String
header name [] = none
header name ((k, v) ∷ r) = if str_eq k name then some v else header name r

-- The value, or the exception where there is none.
abbrev pub expect : {A : Type 0} → Option A → Thrown → Io A
expect none e = throw e
expect (some a) e = ret a

-- `await res.json()`, the first read of the body.
abbrev pub read_json : Codec → Response → Io Json
read_json c r = expect (c.parse r.text) (error "SyntaxError" (c.syntax_error r.text) none)

-- A second read of the same body: the stream is used up, and the read throws a TypeError.
abbrev pub read_again : {A : Type 0} → Io A
read_again = throw (error "TypeError" "Body is unusable: Body has already been read" none)

-- `v.k` throws where `v` is null.
abbrev pub null_access : {A : Type 0} → String → Io A
null_access k = throw (error "TypeError" k none)

-- What reads a field of `v` first: it throws where `v` is null.
abbrev pub unless_null : {A : Type 0} → Json → String → Io A → Io A
unless_null Json.null k m = null_access k
unless_null v k m = m

pub data Outcome (A : Type 0) : Type 0 where
  done : A → Outcome A
  failed : Thrown → Outcome A

abbrev pub Event : Type 0
Event = Request × Reply

pub record Run (S A : Type 0) : Type 0 where
  pub outcome : Outcome A
  pub trace : List Event
  pub final : S

-- The run against a service: what came of it, each request with its reply in order, and the
-- service's last state.
module _ {S : Type 0} (service : S → Request → Reply × S) where
  unfoldable pub run : {A : Type 0} → Io A → S → Run S A
  run (ret a) s = record { outcome = done a; trace = []; final = s }
  run (throw e) s = record { outcome = failed e; trace = []; final = s }
  run (call r c) s =
      let (reply, s') = service s r in
      let rest = run (c reply) s' in
      record { outcome = rest.outcome; trace = (r, reply) ∷ rest.trace; final = rest.final }
