-- ===== src/Net/Laws.antt =====
-- Reasoning about every run at once: a property of the trace and outcome that holds on each path of
-- the tree holds of each run against each service.
use x402_token_market.Base.{
  ◌≡◌, refl, String, none, some, List, [], ◌∷◌, ◌++◌, inl, inr, Option-cases,
}
use x402_token_market.Json.{Json}
use x402_token_market.Json.Codec.{Codec}
use x402_token_market.Net.{
  Io, ret, throw, call, Request, Response, Reply, Thrown, Event, response, fetch, read_json,
  unless_null, error, Outcome, done, failed, run, ◌>>=◌, try,
}

-- `P` holds of every path of the tree.
abbrev pub Always : {A : Type 0} → Io A → (List Event → Outcome A → Type 0) → Type 0
Always (ret a) P = P [] (done a)
Always (throw e) P = P [] (failed e)
Always (call r c) P = (reply : Reply) → Always (c reply) (λ t o. P ((r, reply) ∷ t) o)

module _ {S : Type 0} (service : S → Request → Reply × S) {A : Type 0} where
  pub run-Always :
      (P : List Event → Outcome A → Type 0) (m : Io A) (s : S)
      → Always m P
      → P (run service m s).trace (run service m s).outcome
  unfolding run
  run-Always P (ret a) s h = h
  run-Always P (throw e) s h = h
  run-Always P (call r c) s h =
      let (reply, s') = service s r in
      run-Always (λ t o. P ((r, reply) ∷ t) o) (c reply) s' (h reply)

-- What is left to prove of a continuation, after the first part of a computation.
abbrev pub After :
    {A B : Type 0}
    → (A → Io B)
    → (List Event → Outcome B → Type 0)
    → List Event
    → Outcome A
    → Type 0
After k P t (done a) = Always (k a) (λ u o. P (t ++ u) o)
After k P t (failed e) = P t (failed e)

pub Always-bind :
    {A B : Type 0} (P : List Event → Outcome B → Type 0) (m : Io A) (k : A → Io B)
    → Always m (After k P)
    → Always (m >>= k) P
Always-bind P (ret a) k h = h
Always-bind P (throw e) k h = h
Always-bind P (call r c) k h =
    λ reply. Always-bind (λ t o. P ((r, reply) ∷ t) o) (c reply) k (h reply)

abbrev pub Handled :
    {A B : Type 0}
    → (A → Io B)
    → (Thrown → Io B)
    → (List Event → Outcome B → Type 0)
    → List Event
    → Outcome A
    → Type 0
Handled k h P t (done a) = Always (k a) (λ u o. P (t ++ u) o)
Handled k h P t (failed e) = Always (h e) (λ u o. P (t ++ u) o)

pub Always-try :
    {A B : Type 0} (P : List Event → Outcome B → Type 0) (m : Io A) (k : A → Io B)
    (h : Thrown → Io B)
    → Always m (Handled k h P)
    → Always (try m k h) P
Always-try P (ret a) k h x = x
Always-try P (throw e) k h x = x
Always-try P (call r c) k h x =
    λ reply. Always-try (λ t o. P ((r, reply) ∷ t) o) (c reply) k h (x reply)

pub Always-mono :
    {A : Type 0} (P Q : List Event → Outcome A → Type 0) (m : Io A)
    → ((t : List Event) (o : Outcome A) → P t o → Q t o)
    → Always m P
    → Always m Q
Always-mono P Q (ret a) f h = f [] (done a) h
Always-mono P Q (throw e) f h = f [] (failed e) h
Always-mono P Q (call r c) f h = λ reply.
    Always-mono (λ t o. P ((r, reply) ∷ t) o) (λ t o. Q ((r, reply) ∷ t) o) (c reply)
      (λ t o. f ((r, reply) ∷ t) o) (h reply)

-- A computation that sends nothing: it returns a value of which `P` holds, or throws.
abbrev pub Yields : {A : Type 0} → (A → Type 0) → Io A → Type 0
Yields P (ret a) = P a
Yields P (throw e) = Unit
Yields P (call r k) = ⊥

pub Always-yields :
    {A B : Type 0} (P : A → Type 0) (Q : List Event → Outcome B → Type 0) (m : Io A) (k : A → Io B)
    → Yields P m
    → ((e : Thrown) → Q [] (failed e))
    → ((a : A) → P a → Always (k a) Q)
    → Always (m >>= k) Q
Always-yields P Q (ret a) k y f h = h a y
Always-yields P Q (throw e) k y f h = f e
Always-yields P Q (call r n) k y f h = elim y [ ]

pub Always_of_Yields :
    {A : Type 0} (P : A → Type 0) (Q : List Event → Outcome A → Type 0) (m : Io A)
    → Yields P m
    → ((e : Thrown) → Q [] (failed e))
    → ((a : A) → P a → Q [] (done a))
    → Always m Q
Always_of_Yields P Q (ret a) y f h = h a y
Always_of_Yields P Q (throw e) y f h = f e
Always_of_Yields P Q (call r n) y f h = elim y [ ]

pub Yields-read_json :
    (c : Codec) (res : Response) → Yields (λ v. c.parse res.text ≡ some v) (read_json c res)
Yields-read_json c res = elim (Option-cases (c.parse res.text)) [
  | inl e ↦ rw e tt
  | inr (v, e) ↦ rw e refl
]

abbrev pub IsPure : {A : Type 0} → Io A → Type 0
IsPure (ret a) = Unit
IsPure (throw e) = Unit
IsPure (call r k) = ⊥

pub Yields-self : {A : Type 0} (m : Io A) → IsPure m → Yields (λ a. m ≡ ret a) m
Yields-self (ret a) h = refl
Yields-self (throw e) h = tt
Yields-self (call r k) h = elim h [ ]

-- A run goes on from the reply to its first request.
pub run-fetch :
    {S A : Type 0} (service : S → Request → Reply × S) (r : Request) (k : Response → Io A)
    (s s' : S) (res : Response)
    → service s r ≡ (response res, s')
    → (run service (fetch r >>= k) s).outcome ≡ (run service (k res) s').outcome
unfolding run
run-fetch service r k s s' res e = rw (e, run) refl

pub Always-unless_null :
    {A : Type 0} (P : List Event → Outcome A → Type 0) (v : Json) (k : String) (m : Io A)
    → (v ≡ Json.null → P [] (failed (error "TypeError" k none)))
    → Always m P
    → Always (unless_null v k m) P
Always-unless_null P Json.null k m f h = f refl
Always-unless_null P (Json.obj r) k m f h = h
Always-unless_null P _ k m f h = h

pub Yields-bind :
    {A B : Type 0} (P : A → Type 0) (Q : B → Type 0) (m : Io A) (k : A → Io B)
    → Yields P m
    → ((a : A) → P a → Yields Q (k a))
    → Yields Q (m >>= k)
Yields-bind P Q (ret a) k y h = h a y
Yields-bind P Q (throw e) k y h = tt
Yields-bind P Q (call r n) k y h = elim y [ ]

pub Yields-unless_null :
    {A : Type 0} (P : A → Type 0) (v : Json) (k : String) (m : Io A)
    → Yields P m
    → Yields P (unless_null v k m)
Yields-unless_null P Json.null k m h = tt
Yields-unless_null P (Json.obj r) k m h = h
Yields-unless_null P _ k m h = h

-- A `try` whose body sends nothing goes on from its value, or from its exception.
pub Always-try_yields :
    {A B : Type 0} (P : A → Type 0) (Q : List Event → Outcome B → Type 0) (m : Io A) (k : A → Io B)
    (h : Thrown → Io B)
    → Yields P m
    → ((a : A) → P a → Always (k a) Q)
    → ((e : Thrown) → Always (h e) Q)
    → Always (try m k h) Q
Always-try_yields P Q (ret a) k h y f g = f a y
Always-try_yields P Q (throw e) k h y f g = g e
Always-try_yields P Q (call r n) k h y f g = elim y [ ]
