-- ===== src/Console/Scenarios/Verdicts.antt =====
-- What each scenario route reports, against the requests that it has sent and their replies.
use x402_token_market.Base.{
  ℕ, ◌≡◌, ◌≢◌, refl, Bool, true, false, ◌==◌, String, none, some, List, [], ◌∷◌, ◌⊎◌, inl, inr,
  Bool-cases, Option-cases, or_else, ◌⊕◌, if◌then◌else◌,
}
use x402_token_market.Env.{Env}
use x402_token_market.Json.{Json, Number, null, bool, num, str, arr, obj, get}
use x402_token_market.Json.Codec.{Codec}
use x402_token_market.Net.{
  Request, Response, Reply, response, rejected, Thrown, Io, ret, throw, Outcome, done, failed,
  Event, run, ◌>>=◌,
}
use x402_token_market.Net.Laws.{Always, run-Always}
use x402_token_market.Route.{HttpResult}
use x402_token_market.Console.Gateway.{
  Answer, Trial, read_answer, http, trial_request, header_request, proof_of, tamper_payload,
  override,
}
use x402_token_market.Console.Scenarios.{
  Clock, offered, is_challenge, is_built, normal_round, normal_trial, normal_retry, Tampering,
  tampered, simple_trial, expired, expired_trial, is_expired,
}

-- A payment that cannot be tampered with: it is no text, or decodes to null or to no JSON.
pub data Untamperable (c : Codec) : Json → Type 0 where
  no_text : (v : Json) → ((h : String) → v ≢ str h) → Untamperable c v
  no_json : (h : String) → c.parse (c.decode64 h) ≡ none → Untamperable c (str h)
  no_value : (h : String) → c.parse (c.decode64 h) ≡ some null → Untamperable c (str h)

-- Tampering gives a payment, or throws where there is none to tamper with.
abbrev Tampered : Codec → Json → Io String → Type 0
Tampered c payment m =
    ((h : String) × (m ≡ ret h)) ⊎ (Untamperable c payment × ((e : Thrown) × (m ≡ throw e)))

override_cases :
    (c : Codec) (h : String) (w : Json) (k : String) (v : Json)
    → c.parse (c.decode64 h) ≡ some w
    → Tampered c (str h) (override k v w >>= λ u. ret (c.encode64 (c.stringify u)))
override_cases c h null k v e = inr (no_value h e, (_, refl))
override_cases c h (bool b) k v e = inl (_, refl)
override_cases c h (num n) k v e = inl (_, refl)
override_cases c h (str s) k v e = inl (_, refl)
override_cases c h (arr vs) k v e = inl (_, refl)
override_cases c h (obj r) k v e = inl (_, refl)

tamper_payload_cases :
    (c : Codec) (payment : Json) (k : String) (v : Json)
    → Tampered c payment (tamper_payload c payment k v)
tamper_payload_cases c (str h) k v = elim (Option-cases (c.parse (c.decode64 h))) [
  | inl e ↦ rw (e, tamper_payload) (inr (no_json h e, (_, refl)))
  | inr (w, e) ↦ rw (e, tamper_payload) (override_cases c h w k v e)
]
tamper_payload_cases c null k v = inr (no_text _ (λ h e. cc), (_, refl))
tamper_payload_cases c (bool b) k v = inr (no_text _ (λ h e. cc), (_, refl))
tamper_payload_cases c (num n) k v = inr (no_text _ (λ h e. cc), (_, refl))
tamper_payload_cases c (arr vs) k v = inr (no_text _ (λ h e. cc), (_, refl))
tamper_payload_cases c (obj r) k v = inr (no_text _ (λ h e. cc), (_, refl))

module _ (c : Codec) (env : Env) where
  abbrev signing_of : Response → Request
  signing_of a = header_request c env (or_else (offered (read_answer c a)) null)

  -- The payment in the answer of the signing wallet.
  abbrev payment_of : Response → Json
  payment_of b = or_else (get "x_payment_header" (read_answer c b).body) null

  -- A run: its first request, the retries that it may send for the wallet's payment, the payments that it
  -- stops at without one, and the verdict on the reply to the retry.
  module _ (first : Request) (retries : Json → Request → Type 0) (stops : Json → Type 0)
      (accepts : Answer → Bool) where
    pub data Judged : List Event → Outcome HttpResult → Type 0 where
      unreachable : (e : Thrown) → Judged ((first, rejected e) ∷ []) (failed e)
      unchallenged :
          (a : Response) (r : HttpResult)
          → is_challenge (read_answer c a) ≡ false
          → get "ok" r.body ≡ some (bool false)
          → Judged ((first, response a) ∷ []) (done r)
      unanswered :
          (a : Response) (e : Thrown)
          → is_challenge (read_answer c a) ≡ true
          → Judged ((first, response a) ∷ (signing_of a, rejected e) ∷ []) (failed e)
      unbuilt :
          (a b : Response) (r : HttpResult)
          → is_challenge (read_answer c a) ≡ true
          → is_built (read_answer c b) ≡ false
          → get "ok" r.body ≡ some (bool false)
          → Judged ((first, response a) ∷ (signing_of a, response b) ∷ []) (done r)
      unsent :
          (a b : Response) (e : Thrown)
          → is_challenge (read_answer c a) ≡ true
          → is_built (read_answer c b) ≡ true
          → stops (payment_of b)
          → Judged ((first, response a) ∷ (signing_of a, response b) ∷ []) (failed e)
      unsettled :
          (a b : Response) (q : Request) (e : Thrown)
          → is_challenge (read_answer c a) ≡ true
          → is_built (read_answer c b) ≡ true
          → retries (payment_of b) q
          → Judged
              ((first, response a) ∷ (signing_of a, response b) ∷ (q, rejected e) ∷ [])
              (failed e)
      judged :
          (a b : Response) (q : Request) (d : Response) (r : HttpResult)
          → is_challenge (read_answer c a) ≡ true
          → is_built (read_answer c b) ≡ true
          → retries (payment_of b) q
          → get "ok" r.body ≡ some (bool (accepts (read_answer c d)))
          → Judged
              ((first, response a) ∷ (signing_of a, response b) ∷ (q, response d) ∷ [])
              (done r)

    -- The shape that the rounds share: a challenge, a payment, and what is done with it.
    module _ (stop₁ : Answer → HttpResult) (stop₂ : Answer → Answer → HttpResult)
        (pay : Answer → Answer → Io HttpResult) where
      abbrev settle_round : Answer → Answer → Io HttpResult
      settle_round ch built = if is_built built then pay ch built else ret (stop₂ ch built)

      abbrev build_round : Answer → Io HttpResult
      build_round ch =
          if is_challenge ch
          then http c env (header_request c env (or_else (offered ch) null)) >>= settle_round ch
          else ret (stop₁ ch)

      round-Judged :
          ((ch : Answer) → get "ok" (stop₁ ch).body ≡ some (bool false))
          → ((ch built : Answer) → get "ok" (stop₂ ch built).body ≡ some (bool false))
          → ((a b : Response)
              → is_challenge (read_answer c a) ≡ true
              → is_built (read_answer c b) ≡ true
              → Always
                  (pay (read_answer c a) (read_answer c b))
                  (λ t o. Judged ((first, response a) ∷ (signing_of a, response b) ∷ t) o))
          → Always (http c env first >>= build_round) Judged
      round-Judged no₁ no₂ go (rejected e) = unreachable e
      round-Judged no₁ no₂ go (response a) = elim (Bool-cases (is_challenge (read_answer c a))) [
        | inr h ↦ rw h (unchallenged a _ h (no₁ (read_answer c a)))
        | inl h ↦ rw h (elim [
          | rejected e ↦ unanswered a e h
          | response b ↦ elim (Bool-cases (is_built (read_answer c b))) [
            | inr g ↦ rw g (unbuilt a b _ h g (no₂ (read_answer c a) (read_answer c b)))
            | inl g ↦ rw g (go a b h g)
          ]
        ])
      ]

  -- The retry carries the wallet's payment as it is, or the one that tampering gives.
  abbrev pub Carries : Trial → Json → Request → Type 0
  Carries o payment q = q ≡ proof_of c env o payment

  abbrev pub CarriesTampered : Trial → Tampering → Json → Request → Type 0
  CarriesTampered o t payment q =
      (h : String) × (tamper_payload c payment t.field (str t.value) ≡ ret h)
      × (q ≡ proof_of c env o (str h))

  abbrev pub has_status : ℕ → Answer → Bool
  has_status n r = r.status == n

  module _ (k : Clock) where
    abbrev pub NormalRound : Number → List Event → Outcome HttpResult → Type 0
    NormalRound amount =
        Judged (trial_request c env (normal_trial c env k amount))
          (Carries (normal_retry c env k amount)) (λ payment. ⊥) (has_status 200)

    abbrev pub ExpiredRound : List Event → Outcome HttpResult → Type 0
    ExpiredRound =
        Judged (trial_request c env (expired_trial c env k)) (Carries (expired_trial c env k))
          (λ payment. ⊥) (is_expired c env k)

    abbrev pub TamperedRound : Tampering → List Event → Outcome HttpResult → Type 0
    TamperedRound t =
        Judged
          (trial_request c env (simple_trial (str (t.key_prefix ⊕ k.stamp)) (some t.description)))
          (CarriesTampered (simple_trial (str (t.key_prefix ⊕ k.stamp)) none) t) (Untamperable c)
          (has_status 402)

    normal_round-Judged :
        (amount : Number) → Always (normal_round c env k amount) (NormalRound amount)
    unfolding normal_round
    normal_round-Judged amount =
        round-Judged _ _ _ _ _ _ _ (λ ch. refl) (λ ch built. refl)
          (λ a b h g. elim [
            | rejected e ↦ unsettled a b _ e h g refl
            | response d ↦ judged a b _ d _ h g refl refl
          ])

    expired-Judged : Always (expired c env k) ExpiredRound
    unfolding expired
    expired-Judged =
        round-Judged _ _ _ _ _ _ _ (λ ch. refl) (λ ch built. refl)
          (λ a b h g. elim [
            | rejected e ↦ unsettled a b _ e h g refl
            | response d ↦ judged a b _ d _ h g refl refl
          ])

    tampered-Judged : (t : Tampering) → Always (tampered c env k t) (TamperedRound t)
    unfolding tampered
    tampered-Judged t =
        round-Judged _ _ _ _ _ _ _ (λ ch. refl) (λ ch built. refl)
          (λ a b h g. elim (tamper_payload_cases c (payment_of b) t.field (str t.value)) [
            | inl (payment, same) ↦ rw same (elim [
              | rejected e ↦ unsettled a b _ e h g (payment, same, refl)
              | response d ↦ judged a b _ d _ h g (payment, same, refl) refl
            ])
            | inr (why, (e, same)) ↦ rw same (unsent a b e h g why)
          ])

-- However the gateway answers, a round of the normal scenario is one of these: it stops after the reply
-- that was no challenge or no payment, and reports false; a request is rejected, and it throws; or it
-- retries once with the wallet's own payment and reports true exactly on status 200.
pub run-normal_round-Judged :
    (c : Codec) (env : Env) (k : Clock) (amount : Number) {S : Type 0}
    (gateway : S → Request → Reply × S) (s : S)
    → let r = run gateway (normal_round c env k amount) s in
      NormalRound c env k amount r.trace r.outcome
run-normal_round-Judged c env k amount gateway s =
    run-Always gateway (NormalRound c env k amount) (normal_round c env k amount) s
      (normal_round-Judged c env k amount)

-- However the gateway answers, a round of a tampering scenario stops after the reply that was no
-- challenge or no payment, and reports false; or a request is rejected or the payment cannot be tampered
-- with, and it throws; or it retries once, with the payment that
-- tampering makes of the wallet's, and reports true exactly if that is answered by 402.
pub run-tampered-Judged :
    (c : Codec) (env : Env) (k : Clock) (t : Tampering) {S : Type 0}
    (gateway : S → Request → Reply × S) (s : S)
    → let r = run gateway (tampered c env k t) s in TamperedRound c env k t r.trace r.outcome
run-tampered-Judged c env k t gateway s =
    run-Always gateway (TamperedRound c env k t) (tampered c env k t) s (tampered-Judged c env k t)

-- However the gateway answers, a round of the expiry scenario stops after the reply that was no
-- challenge or no payment, and reports false; or a request is rejected, and it throws; or it retries once
-- with the wallet's own
-- payment and reports true exactly if that is answered by 410 with the error EXPIRED.
pub run-expired-Judged :
    (c : Codec) (env : Env) (k : Clock) {S : Type 0} (gateway : S → Request → Reply × S) (s : S)
    → let r = run gateway (expired c env k) s in ExpiredRound c env k r.trace r.outcome
run-expired-Judged c env k gateway s =
    run-Always gateway (ExpiredRound c env k) (expired c env k) s (expired-Judged c env k)
