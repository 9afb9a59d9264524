-- ===== src/Topup/Ledger.antt =====
-- What the top-up credits, and on what ground: the ways a run of the route can end.
use x402_token_market.Base.{
  ◌≡◌, refl, true, false, String, Option, List, [], ◌∷◌, inl, inr, Bool-cases,
}
use x402_token_market.Env.{Env}
use x402_token_market.Json.{Json, truthy}
use x402_token_market.Json.Codec.{Codec}
use x402_token_market.Net.{
  Request, Response, Reply, response, rejected, Outcome, done, Event, run, is_ok, ret, Thrown,
  ◌>>=◌,
}
use x402_token_market.Net.Laws.{Always, run-Always, Always-mono, Always-try_yields, Yields-bind}
use x402_token_market.Sign.{Crypto, Stamp}
use x402_token_market.Topup.{
  Order, Step, x402, direct, TopupResult, succeeded, gave_up, read_problem, credit_request,
  proof_request, sign_step_request, purchase_request, read_proof, read_signed, read_order, First,
  go, stop, Later, signed, settled, fallback, after_proof, after_signing, after_order, demo_credit,
  submit, sign_payment, topup, created,
}
use x402_token_market.Topup.Stages.{
  Anything, Yields-read_problem, Yields-read_proof, Yields-read_signed, Yields-read_order, Proven,
  Signable, Ordered,
}

abbrev GaveUp : Option Json → TopupResult → Type 0
GaveUp order v = (steps : List Step) × (why : String) × (v ≡ gave_up order steps why)

module _ (c : Codec) (k : Crypto) (env : Env) (stamp : Stamp) (idem : String) where
  -- The direct credit: one request, and the result that its reply calls for.
  pub data Credited (order : Option Json) : List Event → Outcome TopupResult → Type 0 where
    applied :
        (r : Response) (steps : List Step)
        → is_ok r ≡ true
        → Credited order
            ((credit_request c env idem order, response r) ∷ [])
            (done (succeeded direct order steps))
    refused :
        (r : Response) (steps : List Step) (why : String)
        → is_ok r ≡ false
        → Credited order
            ((credit_request c env idem order, response r) ∷ [])
            (done (gave_up order steps why))
    unreachable :
        (e : Thrown) (steps : List Step) (why : String)
        → Credited order
            ((credit_request c env idem order, rejected e) ∷ [])
            (done (gave_up order steps why))

  -- The proof: it settles the order, or the direct credit follows.
  pub data Proved (o : Order) (tx : Json) : List Event → Outcome TopupResult → Type 0 where
    proved :
        (r : Response) (steps : List Step)
        → is_ok r ≡ true
        → truthy tx ≡ true
        → Proved o tx
            ((proof_request c env o.order_id tx, response r) ∷ [])
            (done (succeeded x402 o.order_id steps))
    unproved :
        (a : Reply) {t : List Event} {r : Outcome TopupResult}
        → truthy tx ≡ true
        → Credited o.order_id t r
        → Proved o tx ((proof_request c env o.order_id tx, a) ∷ t) r
    unsigned :
        {t : List Event} {r : Outcome TopupResult}
        → truthy tx ≡ false
        → Credited o.order_id t r
        → Proved o tx t r

  -- The whole route.
  pub data ToppedUp : List Event → Outcome TopupResult → Type 0 where
    no_order :
        (a : Reply) (order : Option Json) (steps : List Step) (why : String)
        → ToppedUp ((purchase_request c k env stamp idem, a) ∷ []) (done (gave_up order steps why))
    paid :
        (a b : Response) (o : Order) (tx : Json) {t : List Event} {r : Outcome TopupResult}
        → is_ok a ≡ true
        → is_ok b ≡ true
        → Proved o tx t r
        → ToppedUp
            ((purchase_request c k env stamp idem, response a)
              ∷ (sign_step_request c env o, response b)
              ∷ t)
            r
    not_signed :
        (a : Response) (b : Reply) (o : Order) {t : List Event} {r : Outcome TopupResult}
        → is_ok a ≡ true
        → Credited o.order_id t r
        → ToppedUp
            ((purchase_request c k env stamp idem, response a) ∷ (sign_step_request c env o, b) ∷ t)
            r

  demo_credit-Credited :
      (steps : List Step) (order : Option Json)
      → Always (demo_credit c k env stamp idem steps order) (Credited order)
  unfolding demo_credit
  demo_credit-Credited steps order (rejected e) = unreachable e _ _
  demo_credit-Credited steps order (response r) = elim (Bool-cases (is_ok r)) [
    | inl e ↦ rw e (applied r _ e)
    | inr e ↦ rw e (
        Always-try_yields (GaveUp order)
          (λ t o. Credited order ((credit_request c env idem order, response r) ∷ t) o)
          (read_problem c r >>= _) ret _
          (Yields-bind Anything (GaveUp order) (read_problem c r) _ (Yields-read_problem c r)
            (λ d _. (_, _, refl)))
          (λ v h. rw (h.2) (refused r _ _ e)) (λ x. refused r _ _ e))
  ]

  submit-Proved :
      (o : Order) (tx : Json) (steps : List Step)
      → Always (submit c k env stamp idem o tx steps) (Proved o tx)
  unfolding submit
  submit-Proved o tx steps = elim (Bool-cases (truthy tx)) [
    | inl e ↦ rw e (elim [
      | rejected x ↦
          Always-mono _ _ (demo_credit c k env stamp idem _ o.order_id)
            (λ t r. unproved (rejected x) e) (demo_credit-Credited _ o.order_id)
      | response r ↦
          Always-try_yields (Proven r)
            (λ t v. Proved o tx ((proof_request c env o.order_id tx, response r) ∷ t) v)
            (read_proof c steps r) (after_proof c k env stamp idem o) _
            (Yields-read_proof c steps r) (after r e)
            (λ x.
              Always-mono _ _ (demo_credit c k env stamp idem _ o.order_id)
                (λ t v. unproved (response r) e) (demo_credit-Credited _ o.order_id))
    ])
    | inr e ↦ rw e (
        Always-mono _ _ (demo_credit c k env stamp idem _ o.order_id) (λ t r. unsigned e)
          (demo_credit-Credited _ o.order_id))
  ]
    where
      after :
          (r : Response)
          → truthy tx ≡ true
          → (l : Later) → Proven r l
          → Always
              (after_proof c k env stamp idem o l)
              (λ t v. Proved o tx ((proof_request c env o.order_id tx, response r) ∷ t) v)
      after r e (settled s) h = proved r s h e
      after r e (fallback s) h =
          Always-mono _ _ (demo_credit c k env stamp idem s o.order_id)
            (λ t v. unproved (response r) e) (demo_credit-Credited s o.order_id)
      after r e (signed x s) h = elim h [ ]

  -- The signing and what follows, after the first reply.
  abbrev pub Attempted : Order → List Event → Outcome TopupResult → Type 0
  Attempted o t r =
      (a : Response)
      → is_ok a ≡ true
      → ToppedUp ((purchase_request c k env stamp idem, response a) ∷ t) r

  sign_payment-Attempted : (o : Order) → Always (sign_payment c k env stamp idem o) (Attempted o)
  unfolding sign_payment
  sign_payment-Attempted o = elim [
    | rejected x ↦
        Always-mono _ _ (demo_credit c k env stamp idem _ o.order_id)
          (λ t r h a ok. not_signed a (rejected x) o ok h) (demo_credit-Credited _ o.order_id)
    | response b ↦
        Always-try_yields (Signable b)
          (λ t v. Attempted o ((sign_step_request c env o, response b) ∷ t) v)
          (read_signed c (created o) b) (after_signing c k env stamp idem o) _
          (Yields-read_signed c (created o) b) (after b)
          (λ x.
            Always-mono _ _ (demo_credit c k env stamp idem _ o.order_id)
              (λ t r h a ok. not_signed a (response b) o ok h) (demo_credit-Credited _ o.order_id))
  ]
    where
      after :
          (b : Response) (l : Later)
          → Signable b l
          → Always
              (after_signing c k env stamp idem o l)
              (λ t v. Attempted o ((sign_step_request c env o, response b) ∷ t) v)
      after b (signed tx s) e =
          Always-mono _ _ (submit c k env stamp idem o tx s) (λ t r h a ok. paid a b o tx ok e h)
            (submit-Proved o tx s)
      after b (fallback s) h =
          Always-mono _ _ (demo_credit c k env stamp idem s o.order_id)
            (λ t r h a ok. not_signed a (response b) o ok h) (demo_credit-Credited s o.order_id)
      after b (settled s) h = elim h [ ]

  topup-ToppedUp : Always (topup c k env stamp idem) ToppedUp
  unfolding topup
  topup-ToppedUp (rejected x) = no_order (rejected x) _ _ _
  topup-ToppedUp (response a) =
      Always-try_yields (Ordered a)
        (λ t v. ToppedUp ((purchase_request c k env stamp idem, response a) ∷ t) v) (read_order c a)
        (after_order c k env stamp idem) _ (Yields-read_order c a) after
        (λ x. no_order (response a) _ _ _)
    where
      after :
          (f : First)
          → Ordered a f
          → Always
              (after_order c k env stamp idem f)
              (λ t v. ToppedUp ((purchase_request c k env stamp idem, response a) ∷ t) v)
      after (stop v) (order, steps, why, e) = rw e (no_order (response a) order steps why)
      after (go o) e =
          Always-mono _ _ (sign_payment c k env stamp idem o) (λ t r h. h a e)
            (sign_payment-Attempted o)

-- However the services answer, a run of the top-up route is one of these: no order was created and
-- nothing more was sent; the payment was not signed and one direct credit was asked for; or the payment
-- was signed and its proof was sent, which settled the order or was followed by one direct credit, asked
-- for at once where the signed transaction is empty. A settlement rests on a reply in the range of
-- success to the proof, a credit succeeds exactly on such a reply to it, and the route never throws.
pub run-topup-ToppedUp :
    (c : Codec) (k : Crypto) (env : Env) (stamp : Stamp) (idem : String) {S : Type 0}
    (service : S → Request → Reply × S) (s : S)
    → let r = run service (topup c k env stamp idem) s in
      ToppedUp c k env stamp idem r.trace r.outcome
run-topup-ToppedUp c k env stamp idem service s =
    run-Always service (ToppedUp c k env stamp idem) (topup c k env stamp idem) s
      (topup-ToppedUp c k env stamp idem)
