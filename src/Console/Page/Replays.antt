-- ===== src/Console/Page/Replays.antt =====
-- What the page replays, along every order of clicks and answers.
use x402_token_market.Base.{ℕ, ◌+◌, ◌≡◌, ◌⊎◌, true, Option, none, some, List, [], ◌∷◌, All, length}
use x402_token_market.Json.{Json, object, get, is_truthy}
use x402_token_market.Console.Page.{Scenario, normal, replay, Page, kept, replay_body}

-- The payment of the last answer that had one.
abbrev pub latest : List (Scenario × Json) → Option (Json × Json)
latest [] = none
latest ((s, j) ∷ js) = some (kept j)

abbrev pub Any : (Json → Type 0) → List (Scenario × Json) → Type 0
Any P [] = ⊥
Any P ((s, j) ∷ js) = P j ⊎ Any P js

-- An answer of a normal run, which says that it was paid and holds the payment.
abbrev pub IsPaidRun : Scenario × Json → Type 0
IsPaidRun (s, j) =
    (s ≡ normal) × (is_truthy (get "ok" j) ≡ true) × (is_truthy (get "x_payment_header" j) ≡ true)

-- A replay sends the payment of an answer that was paid, under the order of that answer; any other
-- scenario sends an empty request.
abbrev pub IsBacked : List (Scenario × Json) → Scenario × Json → Type 0
IsBacked paid (replay, body) = Any (λ j. body ≡ replay_body (kept j)) paid
IsBacked paid (s, body) = body ≡ object []

abbrev pub in_flight : Option Scenario → ℕ
in_flight none = 0
in_flight (some s) = 1

pub record IsSound (p : Page) : Type 0 where
  pub header : p.last_header ≡ latest p.paid
  pub payments : All IsPaidRun p.paid
  pub requests : All (IsBacked p.paid) p.asked
  pub single : length p.asked ≡ p.answered + in_flight p.running
