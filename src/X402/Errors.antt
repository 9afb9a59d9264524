-- ===== src/X402/Errors.antt =====
-- How the x402 loop ends: a refused payment, and the answers under which it succeeds.
use mathlib.Core.Option
use x402_token_market.Base.{
  ℕ, ◌≡◌, ◌≢◌, refl, ◌∙◌, true, String, str_eq, eq_iff, Option, none, some, List, ◌∷◌, ◌==◌, leb,
  Option-cases, Bool-cases, ==_iff, inl, inr, if◌then◌else◌,
}
use x402_token_market.Env.{Env}
use x402_token_market.Json.{Json, null, str, arr, obj, items, Fields, lookup}
use x402_token_market.Json.Codec.{Codec}
use x402_token_market.Net.{
  Request, Response, Reply, response, retry_rejected, gateway_error, Thrown, error, protocol, Code,
  ret, throw, done, header, is_ok, run,
}
use x402_token_market.Net.Laws.{run-fetch}
use x402_token_market.X402.Splice.{splice}
use x402_token_market.X402.Client.{
  Purchase, pick_requirements, read_built, read_receipt, authorise, conclude, challenge_request,
  build_request, retry_request, pay, sign_and_pay, x402_fetch,
}

-- The parts of a protocol error, of whatever was thrown.
abbrev pub code_of : Thrown → Option Code
code_of (error name message (some (protocol e))) = some e.code
code_of _ = none

abbrev pub status_of : Thrown → Option ℕ
status_of (error name message (some (protocol e))) = e.status
status_of _ = none

abbrev pub body_of : Thrown → Option Json
body_of (error name message (some (protocol e))) = e.body
body_of _ = none

-- A retry that is not answered by 200 throws. What is thrown carries the body of the reply if that
-- is JSON, and else no protocol error: no code, no status and no body. With a body that is JSON its
-- status is the reply's, and its code is GATEWAY_ERROR exactly from status 500 up.
pub conclude_refusal :
    (c : Codec) (challenge : Json) (requirements payment : Option Json) (res : Response)
    → res.status ≢ 200
    → (e : Thrown) × (conclude c challenge requirements payment res ≡ throw e)
      × (body_of e ≡ c.parse res.text)
      × (status_of e ≡ Option.map (λ _. res.status) (c.parse res.text))
      × (code_of e
          ≡ Option.map
              (λ _. if leb 500 res.status then gateway_error else retry_rejected)
              (c.parse res.text))
unfolding conclude
conclude_refusal c challenge requirements payment res h = elim (Option-cases (c.parse res.text)) [
  | inl p ↦ elim (Bool-cases (res.status == 200)) [
    | inl e ↦ absurd (h ((==_iff res.status 200).0 e))
    | inr e ↦ rw (e, p) (_, refl, refl, refl, refl)
  ]
  | inr (v, p) ↦ elim (Bool-cases (res.status == 200)) [
    | inl e ↦ absurd (h ((==_iff res.status 200).0 e))
    | inr e ↦ elim (Bool-cases (leb 500 res.status)) [
      | inl g ↦ rw (e, p, g) (_, refl, refl, refl, refl)
      | inr g ↦ rw (e, p, g) (_, refl, refl, refl, refl)
    ]
  ]
]

-- What a receipt is to be: nothing where the header is missing or empty, the JSON that the header decodes
-- to, or the header itself where that is no JSON.
pub data Receipted (c : Codec) : Option String → Json → Type 0 where
  missing : Receipted c none null
  blank : Receipted c (some "") null
  decoded :
      (h : String) (v : Json) → h ≢ "" → c.parse (c.decode64 h) ≡ some v → Receipted c (some h) v
  undecoded : (h : String) → h ≢ "" → c.parse (c.decode64 h) ≡ none → Receipted c (some h) (str h)

read_receipt-Receipted :
    (c : Codec) {o : Option String} {v : Json} → Receipted c o v → read_receipt c o ≡ v
read_receipt-Receipted c missing = refl
read_receipt-Receipted c blank = refl
read_receipt-Receipted c (decoded h v full e) = elim (Bool-cases (str_eq h "")) [
  | inl g ↦ absurd (full ((eq_iff h "").0 g))
  | inr g ↦ rw (g, e) refl
]
read_receipt-Receipted c (undecoded h full e) = elim (Bool-cases (str_eq h "")) [
  | inl g ↦ absurd (full ((eq_iff h "").0 g))
  | inr g ↦ rw (g, e) refl
]

-- The header that is sent for the wallet's: with the user's assertion, where there is one.
abbrev pub sent_header : Codec → Option String → String → String
sent_header c none h = h
sent_header c (some uv) h = if str_eq uv "" then h else splice c h uv

authorise-sent_header :
    (c : Codec) (uv : Option String) (h : String)
    → authorise c uv (some (str h)) ≡ some (str (sent_header c uv h))
authorise-sent_header c none h = refl
authorise-sent_header c (some uv) h = elim (Bool-cases (str_eq uv "")) [
  | inl e ↦ rw e refl
  | inr e ↦ rw e refl
]

pick_first :
    (r : Fields) (q : Json) (qs : List Json)
    → lookup "accepts" r ≡ some (arr (items (q ∷ qs)))
    → pick_requirements (obj r) ≡ ret (some q)
pick_first r q qs e = rw (pick_requirements, e) refl

read_built_header :
    (c : Codec) (res : Response) (f : Fields) (h : String)
    → is_ok res ≡ true
    → c.parse res.text ≡ some (obj f)
    → lookup "x_payment_header" f ≡ some (str h)
    → read_built c res ≡ ret (some (str h))
read_built_header c res f h ok e g = rw (ok, e, g) refl

-- The loop succeeds whenever the three requests are answered as the protocol asks: a 402 whose JSON offers
-- a list of requirements, a reply in the range of success with a payment header to the request that
-- carries the first of them, and a 200 with JSON to the request that carries that header, with the user's
-- assertion spliced in where there is one. It returns that JSON, the challenge with the first requirements,
-- the header that was sent, and the receipt that the last reply's header stands for.
pub run-x402_fetch_success :
    (c : Codec) (env : Env) (p : Purchase) {S : Type 0} (service : S → Request → Reply × S)
    (s s₁ s₂ s₃ : S) (challenged signed retried : Response) (offer built : Fields)
    (requirement paid receipt : Json) (others : List Json) (h : String)
    → service s (challenge_request c env p) ≡ (response challenged, s₁)
    → challenged.status ≡ 402
    → c.parse challenged.text ≡ some (obj offer)
    → lookup "accepts" offer ≡ some (arr (items (requirement ∷ others)))
    → service s₁ (build_request c env (some requirement)) ≡ (response signed, s₂)
    → is_ok signed ≡ true
    → c.parse signed.text ≡ some (obj built)
    → lookup "x_payment_header" built ≡ some (str h)
    → service s₂ (retry_request c env p (some (str (sent_header c p.user_verification h))))
      ≡ (response retried, s₃)
    → retried.status ≡ 200
    → c.parse retried.text ≡ some paid
    → Receipted c (header "x-payment-response" retried.headers) receipt
    → (run service (x402_fetch c env p) s).outcome
      ≡ done (record {
        body = paid;
        challenge = obj offer;
        requirements = some requirement;
        settlement_receipt = receipt;
        x_payment_header = some (str (sent_header c p.user_verification h));
      })
unfolding x402_fetch sign_and_pay pay conclude run
run-x402_fetch_success c env p service s s₁ s₂ s₃ r₁ r₂ r₃ offer built q paid receipt qs h e₁ q₁ p₁
      ch₁ e₂ ok₂ p₂ b₂ e₃ q₃ p₃ v₃ =
    let sent = authorise-sent_header c p.user_verification h in
    run-fetch service _ _ s s₁ r₁ e₁
    ∙ rw (q₁, p₁, pick_first offer q qs ch₁)
        (run-fetch service _ _ s₁ s₂ r₂ e₂
          ∙ rw (read_built_header c r₂ built h ok₂ p₂ b₂, sent)
              (run-fetch service _ _ s₂ s₃ r₃ e₃
                ∙ rw (q₃, p₃, conclude, read_receipt-Receipted c v₃) refl))
