-- ===== src/Tests/Panel.antt =====
-- The dashboard page on a short history: a balance that is low, a top-up, and its end.
use x402_token_market.Base.{◌≡◌, refl, false, inl, String, some, List, [], ◌∷◌}
use x402_token_market.Topup.{Mode, StepStatus}
use x402_token_market.Topup
use x402_token_market.Panel.{
  tokens, Page, requested, set_balance, topup_succeeded, topup_broken, topup_refused, polled,
  succeeded, refused, Reaches, here, next, opened,
}
use x402_token_market.Panel.Gate.{IsOrderly, Reaches-IsOrderly, sent_after_failure}
use x402_token_market.Panel.Contract.{declined, shut, react, reacts, kinds, view, view-reacts}
use x402_token_market.Panel.Typing.{Types, typed, typed_lem}

-- The first poll shows a tenth of the limit.
abbrev asked : Page
asked = set_balance (tokens 100_000_000) (record opened { balance_err = false })

abbrev asked_Reaches : Reaches opened asked
asked_Reaches = next here (polled opened (tokens 100_000_000))

asked_requested : asked.phase ≡ requested
unfolding set_balance
asked_requested = refl

abbrev credited : Page
credited = topup_succeeded Topup.Mode.x402 (Topup.StepStatus.done ∷ []) asked

Reaches-IsOrderly_example : IsOrderly credited
Reaches-IsOrderly_example = Reaches-IsOrderly (
    next asked_Reaches
      (succeeded asked Topup.Mode.x402 (Topup.StepStatus.done ∷ []) asked_requested))

-- A top-up that was asked for and refused, and a balance that is low after it.
abbrev after_refusal :
    Reaches opened
      (set_balance (tokens 0) (record (topup_refused [] asked) { balance_err = false }))
after_refusal =
    next (next asked_Reaches (refused asked [] asked_requested))
      (polled (topup_refused [] asked) (tokens 0))

view-reacts_example :
    (view (set_balance (tokens 0) (record (topup_refused [] asked) { balance_err = false }))
      ≡ reacts (kinds after_refusal) (view opened))
    × (reacts (declined ∷ []) (record { gate = shut; asked = 1 })
        ≡ record { gate = shut; asked = 1 })
view-reacts_example = view-reacts after_refusal (declined ∷ []) 1

-- One top-up was asked for, and none since.
shut_once : reacts (kinds after_refusal) (view opened) ≡ record { gate = shut; asked = 1 }
unfolding react set_balance topup_refused
shut_once = refl

-- A poll after a top-up without an answer shows that nothing is left.
abbrev emptied : Page
emptied = set_balance (tokens 0) (record (topup_broken asked) { balance_err = false })

sent_after_failure_example : emptied.sent ≡ (topup_broken asked).sent
sent_after_failure_example =
    sent_after_failure asked_Reaches asked_requested (inl refl)
      (next here (polled (topup_broken asked) (tokens 0)))

sent_once : emptied.sent ≡ 1
unfolding set_balance topup_broken
sent_once = refl

typed_hello : typed 2 0 "hello" ≡ some ("hell" ∷ "hello" ∷ [])
unfolding typed
typed_hello = refl

typed_lem_example : (shown : List String) × (typed 2 0 "hello" ≡ some shown) × Types "hello" 5 shown
typed_lem_example = typed_lem "hello"
