-- ===== src/Topup/Stages.antt =====
-- The readings of the replies send nothing: what each can give.
use x402_token_market.Base.{
  ℕ, ◌≡◌, refl, true, ◌==◌, Bool-cases, Option-cases, inl, inr, String, Option, none, some, List,
}
use x402_token_market.Json.{Json, null, bool, num, str, arr, obj, get}
use x402_token_market.Json.Codec.{Codec}
use x402_token_market.Net.{Response, is_ok, read_json}
use x402_token_market.Net.Laws.{Yields, Yields-bind, Yields-unless_null}
use x402_token_market.Topup.Parts.{
  First, stop, go, Later, signed, settled, fallback, gave_up, Step, read_problem, sliced,
  read_order, read_signed, read_proof,
}

abbrev pub Anything : {A : Type 0} → A → Type 0
Anything a = Unit

Yields-read_json_any : (c : Codec) (r : Response) → Yields Anything (read_json c r)
Yields-read_json_any c r = elim (Option-cases (c.parse r.text)) [
  | inl e ↦ rw e tt
  | inr (v, e) ↦ rw e tt
]

pub Yields-read_problem :
    (c : Codec) (r : Response) → Yields (λ (v : Json). Unit {0}) (read_problem c r)
Yields-read_problem c r = elim (Option-cases (c.parse r.text)) [
  | inl e ↦ rw e tt
  | inr (v, e) ↦ rw e tt
]

pub Yields-sliced :
    (c : Codec) (n : ℕ) (d : String) (v : Option Json) → Yields Anything (sliced c n d v)
Yields-sliced c n d none = tt
Yields-sliced c n d (some null) = tt
Yields-sliced c n d (some (bool b)) = tt
Yields-sliced c n d (some (num m)) = tt
Yields-sliced c n d (some (str s)) = tt
Yields-sliced c n d (some (arr vs)) = tt
Yields-sliced c n d (some (obj r)) = tt

-- A proof counts as settled only if the reply was in the range of success.
abbrev pub Proven : Response → Later → Type 0
Proven r (settled s) = is_ok r ≡ true
Proven r (fallback s) = Unit
Proven r (signed tx s) = ⊥

pub Yields-read_proof :
    (c : Codec) (steps : List Step) (r : Response) → Yields (Proven r) (read_proof c steps r)
Yields-read_proof c steps r = elim (Bool-cases (is_ok r)) [
  | inl e ↦ rw e (
      Yields-bind Anything (Proven r) (read_json c r) _ (Yields-read_json_any c r) (λ d _.
        Yields-unless_null (Proven r) d "tx_hash" _ (
          Yields-bind Anything (Proven r) (sliced c 12 "broadcasting" (get "tx_hash" d)) _
            (Yields-sliced c 12 "broadcasting" (get "tx_hash" d)) (λ t _. e))))
  | inr e ↦
      rw e
        (Yields-bind Anything (Proven r) (read_problem c r) _ (Yields-read_problem c r) (λ d _. tt))
]

-- A signed payment rests on a reply in the range of success; so does an order.
abbrev pub Signable : Response → Later → Type 0
Signable r (settled s) = ⊥
Signable r (fallback s) = Unit
Signable r (signed tx s) = is_ok r ≡ true

abbrev pub Ordered : Response → First → Type 0
Ordered r (stop v) =
    (order : Option Json) × (steps : List Step) × (why : String) × (v ≡ gave_up order steps why)
Ordered r (go o) = is_ok r ≡ true

pub Yields-read_signed :
    (c : Codec) (steps : List Step) (r : Response) → Yields (Signable r) (read_signed c steps r)
Yields-read_signed c steps r = elim (Bool-cases (r.status == 503)) [
  | inl e ↦ rw e tt
  | inr e ↦ elim (Bool-cases (is_ok r)) [
    | inl g ↦
        rw (e, g)
          (Yields-bind Anything (Signable r) (read_json c r) _ (Yields-read_json_any c r) (λ d _.
            Yields-unless_null (Signable r) d "signed_tx_b64" _ (
              Yields-bind Anything (Signable r) (sliced c 8 "undefined" (get "payer" d)) _
                (Yields-sliced c 8 "undefined" (get "payer" d)) (λ t _. g))))
    | inr g ↦
        rw (e, g)
          (Yields-bind Anything (Signable r) (read_problem c r) _ (Yields-read_problem c r)
            (λ d _. tt))
  ]
]

pub Yields-read_order : (c : Codec) (r : Response) → Yields (Ordered r) (read_order c r)
Yields-read_order c r = elim (Bool-cases (is_ok r)) [
  | inl e ↦ rw e (
      Yields-bind Anything (Ordered r) (read_json c r) _ (Yields-read_json_any c r)
        (λ d _. Yields-unless_null (Ordered r) d "payment_order_id" _ e))
  | inr e ↦ rw e (
      Yields-bind Anything (Ordered r) (read_problem c r) _ (Yields-read_problem c r)
        (λ d _. (_, _, _, refl)))
]
