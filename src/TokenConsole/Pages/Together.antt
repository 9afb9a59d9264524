-- ===== src/TokenConsole/Pages/Together.antt =====
-- Two computations that are waited for together.
use mathlib.Core.List.{append-nil}
use x402_token_market.Base.{◌≡◌, refl, List, [], ◌++◌}
use x402_token_market.Net.{Outcome, done, failed, Event, Io, ret, throw, ◌>>=◌, try}
use x402_token_market.Net.Laws.{Always, Always-mono, Always-try, Always-bind, After, Handled}
use x402_token_market.TokenConsole.Pages.{both}

-- What `Promise.all` makes of two outcomes.
abbrev pub paired : {A B : Type 0} → Outcome A → Outcome B → Outcome (A × B)
paired (done a) (done b) = done (a, b)
paired (done a) (failed f) = failed f
paired (failed e) o = failed e

-- Both computations have run, one after the other.
pub record IsBoth {A B : Type 0} (P : List Event → Outcome A → Type 0)
    (Q : List Event → Outcome B → Type 0) (t : List Event) (o : Outcome (A × B)) : Type 0 where
  pub first_trace : List Event
  pub second_trace : List Event
  pub first_outcome : Outcome A
  pub second_outcome : Outcome B
  pub first : P first_trace first_outcome
  pub second : Q second_trace second_outcome
  pub sent : t ≡ first_trace ++ second_trace
  pub came : o ≡ paired first_outcome second_outcome

module _ {A B : Type 0} (P : List Event → Outcome A → Type 0)
    (Q : List Event → Outcome B → Type 0) where
  ran :
      (t u : List Event) (o : Outcome A) (o' : Outcome B)
      → P t o
      → Q u o'
      → IsBoth P Q (t ++ u ++ []) (paired o o')
  ran t u o o' p q = record {
    first_trace = t;
    second_trace = u;
    first_outcome = o;
    second_outcome = o';
    first = p;
    second = q;
    sent = rw append-nil refl;
    came = refl;
  }

  pub both-IsBoth : (m : Io A) (n : Io B) → Always m P → Always n Q → Always (both m n) (IsBoth P Q)
  both-IsBoth m n hm hn = Always-try (IsBoth P Q) m _ _ (Always-mono P _ m keep hm)
    where
      keep :
          (t : List Event) (o : Outcome A)
          → P t o
          → Handled
              (λ a. n >>= λ b. ret (a, b))
              (λ e. try n (λ b. throw e) (λ f. throw e))
              (IsBoth P Q)
              t
              o
      keep t (done a) p =
          Always-bind (λ u o. IsBoth P Q (t ++ u) o) n (λ b. ret (a, b)) (Always-mono Q _ n more hn)
        where
          more :
              (u : List Event) (o : Outcome B)
              → Q u o
              → After (λ b. ret (a, b)) (λ v o'. IsBoth P Q (t ++ v) o') u o
          more u (done b) q = rw append-nil (rw append-nil at (ran t u (done a) (done b) p q))
          more u (failed f) q = rw append-nil at (ran t u (done a) (failed f) p q)
      keep t (failed e) p =
          Always-try (λ u o. IsBoth P Q (t ++ u) o) n (λ b. throw e) (λ f. throw e)
            (Always-mono Q _ n more hn)
        where
          more :
              (u : List Event) (o : Outcome B)
              → Q u o
              → Handled (λ b. throw e) (λ f. throw e) (λ v o'. IsBoth P Q (t ++ v) o') u o
          more u (done b) q = rw append-nil (rw append-nil at (ran t u (failed e) (done b) p q))
          more u (failed f) q = rw append-nil (rw append-nil at (ran t u (failed e) (failed f) p q))
