-- ===== src/X402/Protocol.antt =====
-- The order of the x402 loop: what has been sent when it ends, and what a success rests on.
use x402_token_market.Base.{◌≡◌, refl, true, ◌⊎◌, inl, inr, Option, some, List, [], ◌∷◌}
use x402_token_market.Env.{Env}
use x402_token_market.Json.{Json}
use x402_token_market.Json.Codec.{Codec}
use x402_token_market.Net.{
  Response, Reply, response, rejected, ret, Outcome, done, failed, Event, ◌>>=◌, is_ok,
}
use x402_token_market.Net.Laws.{Always, Always-yields, Always_of_Yields, Always-mono}
use x402_token_market.X402.Client.{
  Purchase, Settled, read_challenge, pick_requirements, read_built, authorise, conclude,
  challenge_request, build_request, retry_request, pay, sign_and_pay, x402_fetch,
}
use x402_token_market.X402.Stages.{
  Yields-read_challenge, Yields-pick_requirements, Yields-read_built, Yields-conclude,
}

module _ (c : Codec) (env : Env) (p : Purchase) where
  -- The loop has sent the payment, and what came of it.
  abbrev Paid : Json → Option Json → Option Json → List Event → Outcome Settled → Type 0
  Paid challenge requirements payment t (done s) =
      (r : Response) × (t ≡ (retry_request c env p payment, response r) ∷ [])
      × (r.status ≡ 200)
      × (c.parse r.text ≡ some s.body)
      × (s.challenge ≡ challenge)
      × (s.requirements ≡ requirements)
      × (s.x_payment_header ≡ payment)
  Paid challenge requirements payment t (failed e) =
      (a : Reply) × (t ≡ (retry_request c env p payment, a) ∷ [])

  pay-Paid :
      (challenge : Json) (requirements payment : Option Json)
      → Always (pay c env p challenge requirements payment) (Paid challenge requirements payment)
  unfolding pay
  pay-Paid challenge requirements payment (rejected e) = (rejected e, refl)
  pay-Paid challenge requirements payment (response r) =
      Always_of_Yields _ (λ t o. Paid challenge requirements payment (sent ∷ t) o)
        (conclude c challenge requirements payment r)
        (Yields-conclude c challenge requirements payment r) (λ e. (response r, refl))
        (λ s h. (r, refl, h.0, h.1, h.2, h.3, h.4))
    where
      sent : Event
      sent = (retry_request c env p payment, response r)

  -- The payment has been built, or its building has failed, and what followed.
  abbrev Signed : Json → Option Json → List Event → Outcome Settled → Type 0
  Signed challenge requirements t (done s) =
      (b : Response) × (r : Response) × (built : Option Json) × (t
        ≡ (build_request c env requirements, response b)
          ∷ (retry_request c env p s.x_payment_header, response r)
          ∷ [])
      × (is_ok b ≡ true)
      × (read_built c b ≡ ret built)
      × (s.x_payment_header ≡ authorise c p.user_verification built)
      × (r.status ≡ 200)
      × (c.parse r.text ≡ some s.body)
      × (s.challenge ≡ challenge)
      × (s.requirements ≡ requirements)
  Signed challenge requirements t (failed e) =
      ((a : Reply) × (t ≡ (build_request c env requirements, a) ∷ []))
      ⊎ ((b : Response) × (a : Reply) × (built : Option Json) × (t
            ≡ (build_request c env requirements, response b)
              ∷ (retry_request c env p (authorise c p.user_verification built), a)
              ∷ [])
          × (is_ok b ≡ true)
          × (read_built c b ≡ ret built))

  module _ (challenge : Json) (requirements : Option Json) (b : Response) (built : Option Json)
      (h : (is_ok b ≡ true) × (read_built c b ≡ ret built)) where
    Signed-of_Paid :
        (t : List Event) (o : Outcome Settled)
        → Paid challenge requirements (authorise c p.user_verification built) t o
        → Signed challenge requirements ((build_request c env requirements, response b) ∷ t) o
    Signed-of_Paid t (done s) (r, sent, status, parsed, same_challenge, same_requirements, same) = (
      b,
      r,
      built,
      rw (sent, same) refl,
      h.0,
      h.1,
      same,
      status,
      parsed,
      same_challenge,
      same_requirements,
    )
    Signed-of_Paid t (failed e) (a, sent) = inr (b, a, built, rw sent refl, h.0, h.1)

  sign_and_pay-Signed :
      (challenge : Json) (requirements : Option Json)
      → Always (sign_and_pay c env p challenge requirements) (Signed challenge requirements)
  unfolding sign_and_pay
  sign_and_pay-Signed challenge requirements (rejected e) = inl (rejected e, refl)
  sign_and_pay-Signed challenge requirements (response b) =
      Always-yields _
        (λ t o.
          Signed challenge requirements ((build_request c env requirements, response b) ∷ t) o)
        (read_built c b)
        (λ built. pay c env p challenge requirements (authorise c p.user_verification built))
        (Yields-read_built c b) (λ e. inl (response b, refl))
        (λ built h.
          Always-mono _ _
            (pay c env p challenge requirements (authorise c p.user_verification built))
            (Signed-of_Paid challenge requirements b built h)
            (pay-Paid challenge requirements (authorise c p.user_verification built)))

  -- What a success of the loop rests on.
  pub record IsSettled (t : List Event) (s : Settled) : Type 0 where
    pub challenged : Response
    pub signed : Response
    pub retried : Response
    pub built : Option Json
    pub sent :
        t
        ≡ (challenge_request c env p, response challenged)
          ∷ (build_request c env s.requirements, response signed)
          ∷ (retry_request c env p s.x_payment_header, response retried)
          ∷ []
    pub required : challenged.status ≡ 402
    pub offered : c.parse challenged.text ≡ some s.challenge
    pub chosen : pick_requirements s.challenge ≡ ret s.requirements
    pub signed_ok : is_ok signed ≡ true
    pub read : read_built c signed ≡ ret built
    pub authorised : s.x_payment_header ≡ authorise c p.user_verification built
    pub paid : retried.status ≡ 200
    pub answered : c.parse retried.text ≡ some s.body

  -- What has been sent when the loop fails, and what was answered before each further request.
  pub data IsStopped : List Event → Type 0 where
    at_challenge : (a : Reply) → IsStopped ((challenge_request c env p, a) ∷ [])
    at_signing :
        (challenged : Response) (a : Reply) (challenge : Json) (requirements : Option Json)
        → challenged.status ≡ 402
        → c.parse challenged.text ≡ some challenge
        → pick_requirements challenge ≡ ret requirements
        → IsStopped (
            (challenge_request c env p, response challenged)
            ∷ (build_request c env requirements, a)
            ∷ [])
    at_payment :
        (challenged signed : Response) (a : Reply) (challenge : Json)
        (requirements built : Option Json)
        → challenged.status ≡ 402
        → c.parse challenged.text ≡ some challenge
        → pick_requirements challenge ≡ ret requirements
        → is_ok signed ≡ true
        → read_built c signed ≡ ret built
        → IsStopped (
            (challenge_request c env p, response challenged)
            ∷ (build_request c env requirements, response signed)
            ∷ (retry_request c env p (authorise c p.user_verification built), a)
            ∷ [])

  abbrev pub Follows : List Event → Outcome Settled → Type 0
  Follows t (done s) = IsSettled t s
  Follows t (failed e) = IsStopped t

  module _ (challenged : Response) (challenge : Json) (requirements : Option Json)
      (h : (challenged.status ≡ 402) × (c.parse challenged.text ≡ some challenge))
      (chosen : pick_requirements challenge ≡ ret requirements) where
    Follows-of_Signed :
        (t : List Event) (o : Outcome Settled)
        → Signed challenge requirements t o
        → Follows ((challenge_request c env p, response challenged) ∷ t) o
    Follows-of_Signed t (done s)
          (b, r, built, sent, ok, read, authorised, status, parsed, same, same') =
        record {
          challenged = challenged;
          signed = b;
          retried = r;
          built = built;
          sent = rw (sent, same') refl;
          required = h.0;
          offered = rw same (h.1);
          chosen = rw (same, same') chosen;
          signed_ok = ok;
          read = read;
          authorised = authorised;
          paid = status;
          answered = parsed;
        }
    Follows-of_Signed t (failed e) (inl (a, sent)) =
        rw sent (at_signing challenged a challenge requirements h.0 h.1 chosen)
    Follows-of_Signed t (failed e) (inr (b, a, built, sent, ok, read)) =
        rw sent (at_payment challenged b a challenge requirements built h.0 h.1 chosen ok read)

  pub x402_fetch-Follows : Always (x402_fetch c env p) Follows
  unfolding x402_fetch
  x402_fetch-Follows (rejected e) = at_challenge (rejected e)
  x402_fetch-Follows (response res) =
      Always-yields _ (λ t o. Follows ((challenge_request c env p, response res) ∷ t) o)
        (read_challenge c res)
        (λ challenge. pick_requirements challenge >>= sign_and_pay c env p challenge)
        (Yields-read_challenge c res) (λ e. at_challenge (response res))
        (λ challenge h.
          Always-yields _ (λ t o. Follows ((challenge_request c env p, response res) ∷ t) o)
            (pick_requirements challenge) (sign_and_pay c env p challenge)
            (Yields-pick_requirements challenge) (λ e. at_challenge (response res))
            (λ requirements chosen.
              Always-mono _ _ (sign_and_pay c env p challenge requirements)
                (Follows-of_Signed res challenge requirements h chosen)
                (sign_and_pay-Signed challenge requirements)))
