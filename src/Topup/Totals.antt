-- ===== src/Topup/Totals.antt =====
-- The figures of the top-up's answer, whatever way the run went.
use x402_token_market.Base.{
  ℕ, suc, ◌≡◌, ◌↔◌, refl, true, ◌≤◌, String, Option, none, List, [], ◌∷◌, length, if◌then◌else◌,
  arith,
}
use x402_token_market.Env.{Env}
use x402_token_market.Json.{Json}
use x402_token_market.Json.Codec.{Codec}
use x402_token_market.Net.{Request, Reply, Outcome, done, failed, Event, run}
use x402_token_market.Sign.{Crypto, Stamp}
use x402_token_market.Topup.{
  Order, Step, Mode, TopupResult, succeeded, gave_up, topup_tokens, topup,
}
use x402_token_market.Topup.Ledger.{
  Credited, applied, refused, unreachable, Proved, proved, unproved, unsigned, ToppedUp, no_order,
  paid, not_signed, run-topup-ToppedUp,
}

-- The answer of a run that sent `t` and at most `n` requests.
unfoldable pub IsBalanced : ℕ → List Event → Outcome TopupResult → Type 0
IsBalanced n t (done r) =
    (r.tokens_credited ≡ (if r.ok then topup_tokens else 0))
    × (r.error ≡ none ↔ r.ok ≡ true)
    × (length t ≤ n)
IsBalanced n t (failed e) = ⊥

longer :
    (n : ℕ) (t : List Event) (x : Event) (r : Outcome TopupResult)
    → IsBalanced n t r
    → IsBalanced (suc n) (x ∷ t) r
unfolding IsBalanced
longer n t x (done r) (tokens, error, bound) = (tokens, error, ground arith)
longer n t x (failed e) h = elim h [ ]

wider :
    (t : List Event) (r : Outcome TopupResult) (m n : ℕ)
    → m ≤ n
    → IsBalanced m t r
    → IsBalanced n t r
unfolding IsBalanced
wider t (done r) m n le (tokens, error, bound) = (tokens, error, omega arith)
wider t (failed e) m n le h = elim h [ ]

spent :
    (x : Event) (order : Option Json) (steps : List Step) (why : String)
    → IsBalanced 1 (x ∷ []) (done (gave_up order steps why))
unfolding IsBalanced
spent x order steps why = (refl, (cc, cc), ground arith)

gained :
    (x : Event) (m : Mode) (order : Option Json) (steps : List Step)
    → IsBalanced 1 (x ∷ []) (done (succeeded m order steps))
unfolding IsBalanced
gained x m order steps = (refl, ((λ _. refl), (λ _. refl)), ground arith)

module _ {c : Codec} {k : Crypto} {env : Env} {stamp : Stamp} {idem : String} where
  IsBalanced-of_Credited :
      {order : Option Json} {t : List Event} {r : Outcome TopupResult}
      → Credited c k env stamp idem order t r
      → IsBalanced 1 t r
  IsBalanced-of_Credited (applied r steps e) = gained _ _ _ _
  IsBalanced-of_Credited (refused r steps why e) = spent _ _ _ _
  IsBalanced-of_Credited (unreachable e steps why) = spent _ _ _ _

  IsBalanced-of_Proved :
      {o : Order} {tx : Json} {t : List Event} (r : Outcome TopupResult)
      → Proved c k env stamp idem o tx t r
      → IsBalanced 2 t r
  IsBalanced-of_Proved r (proved a steps e f) = wider _ _ 1 2 (omega arith) (gained _ _ _ _)
  IsBalanced-of_Proved r (unproved a e h) = longer _ _ _ r (IsBalanced-of_Credited h)
  IsBalanced-of_Proved r (unsigned e h) = wider _ r 1 2 (omega arith) (IsBalanced-of_Credited h)

  IsBalanced-of_ToppedUp :
      {t : List Event} (r : Outcome TopupResult)
      → ToppedUp c k env stamp idem t r
      → IsBalanced 4 t r
  IsBalanced-of_ToppedUp r (no_order a order steps why) =
      wider _ _ 1 4 (omega arith) (spent _ _ _ _)
  IsBalanced-of_ToppedUp r (paid a b o tx e f h) =
      longer _ _ _ r (longer _ _ _ r (IsBalanced-of_Proved r h))
  IsBalanced-of_ToppedUp r (not_signed a b o e h) =
      longer _ _ _ r (wider _ r 2 3 (omega arith) (longer _ _ _ r (IsBalanced-of_Credited h)))

-- However the services answer, the top-up route returns an answer, after at most four requests; the
-- answer reports 100,000,000 tokens credited if it is a success and 0 if it is not, and it names an
-- error exactly if it is not a success.
pub run-topup-IsBalanced :
    (c : Codec) (k : Crypto) (env : Env) (stamp : Stamp) (idem : String) {S : Type 0}
    (service : S → Request → Reply × S) (s : S)
    → let r = run service (topup c k env stamp idem) s in IsBalanced 4 r.trace r.outcome
run-topup-IsBalanced c k env stamp idem service s =
    IsBalanced-of_ToppedUp _ (run-topup-ToppedUp c k env stamp idem service s)
