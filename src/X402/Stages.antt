-- ===== src/X402/Stages.antt =====
-- Each stage of the loop between two requests sends nothing: it returns what its checks have
-- established, or throws.
use x402_token_market.Base.{
  ℕ, leb, Bool, ◌≡◌, refl, true, inl, inr, Option, some, arith, Bool-cases, Option-cases, ◌==◌,
  ==_iff,
}
use x402_token_market.Json.{Json, null, bool, obj}
use x402_token_market.Json.Codec.{Codec}
use x402_token_market.Net.{Response, ret, is_ok}
use x402_token_market.Net.Laws.{Yields, IsPure, Yields-self}
use x402_token_market.X402.Client.{
  read_challenge, pick_requirements, payment_header, read_built, refuse, conclude,
}

pub Yields-read_challenge :
    (c : Codec) (res : Response)
    → Yields (λ v. (res.status ≡ 402) × (c.parse res.text ≡ some v)) (read_challenge c res)
Yields-read_challenge c res = elim (Bool-cases (res.status == 402)) [
  | inl e ↦ elim (Option-cases (c.parse res.text)) [
    | inl p ↦ rw (e, p) tt
    | inr (v, p) ↦ rw (e, p) ((==_iff res.status 402).0 e, refl)
  ]
  | inr e ↦ rw e tt
]

pub Yields-pick_requirements :
    (challenge : Json)
    → Yields (λ r. pick_requirements challenge ≡ ret r) (pick_requirements challenge)
Yields-pick_requirements challenge = Yields-self (pick_requirements challenge) (pure challenge)
  where
    pure : (challenge : Json) → IsPure (pick_requirements challenge)
    pure (obj r) = ground arith
    pure null = tt
    pure _ = tt

pub Yields-payment_header :
    (v : Json)
    → Yields (λ w. (◌≡◌ {A = Bool} true true) × (payment_header v ≡ ret w)) (payment_header v)
Yields-payment_header null = tt
Yields-payment_header (bool b) = (refl, refl)
Yields-payment_header _ = (refl, refl)

pub Yields-read_built :
    (c : Codec) (res : Response)
    → Yields (λ v. (is_ok res ≡ true) × (read_built c res ≡ ret v)) (read_built c res)
Yields-read_built c res = elim (Bool-cases (is_ok res)) [
  | inl e ↦ elim (Option-cases (c.parse res.text)) [
    | inl p ↦ rw (e, p) tt
    | inr (v, p) ↦ rw (e, p) (Yields-payment_header v)
  ]
  | inr e ↦ rw e tt
]

pub Yields-refuse :
    {A : Type 0} (P : A → Type 0) (status : ℕ) (problem : Json) → Yields P (refuse status problem)
Yields-refuse P status problem = elim (Bool-cases (leb 500 status)) [
  | inl e ↦ rw e tt
  | inr e ↦ rw e tt
]

-- What a success says of the last reply.
pub Yields-conclude :
    (c : Codec) (challenge : Json) (requirements payment : Option Json) (res : Response)
    → Yields
        (λ s.
          (res.status ≡ 200)
          × (c.parse res.text ≡ some s.body)
          × (s.challenge ≡ challenge)
          × (s.requirements ≡ requirements)
          × (s.x_payment_header ≡ payment))
        (conclude c challenge requirements payment res)
unfolding conclude
Yields-conclude c challenge requirements payment res = elim (Bool-cases (res.status == 200)) [
  | inl e ↦ elim (Option-cases (c.parse res.text)) [
    | inl p ↦ rw (e, p) tt
    | inr (v, p) ↦ rw (e, p) ((==_iff res.status 200).0 e, refl, refl, refl, refl)
  ]
  | inr e ↦ elim (Option-cases (c.parse res.text)) [
    | inl p ↦ rw (e, p) tt
    | inr (v, p) ↦ rw (e, p) (Yields-refuse _ res.status v)
  ]
]
