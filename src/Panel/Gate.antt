-- ===== src/Panel/Gate.antt =====
-- The gate of the automatic top-up, along every order of events.
use x402_token_market.Base.{
  ◌+◌, ◌≡◌, ◌≢◌, ◌⊎◌, inl, inr, refl, ◌∙◌, List, Bool, true, false, some, none, arith, ◌||◌,
  Bool-cases,
}
use x402_token_market.Topup.{StepStatus}
use x402_token_market.Panel.{
  Balance, same_balance, Page, Phase, idle, requested, refreshing, is_low, set_balance,
  stop_running, topup_succeeded, topup_refused, topup_broken, Change, polled, poll_failed, charged,
  succeeded, refused, broken, settled, dismissed, Reaches, here, next, opened,
}

abbrev pub is_busy : Phase → Bool
is_busy idle = false
is_busy requested = true
is_busy refreshing = true

-- A top-up runs exactly while a call of `triggerTopup` has not ended, and behind a closed gate; its
-- mode is unknown until the reply, and a gate that stays closed has no mode.
pub record IsOrderly (p : Page) : Type 0 where
  pub runs : p.topup_running ≡ is_busy p.phase
  pub gated : is_busy p.phase ≡ true → p.auto_topup_fired ≡ true
  pub unknown : p.phase ≡ requested → p.topup_mode ≡ none
  pub known : p.phase ≡ refreshing → p.topup_mode ≢ none
  pub closed : p.phase ≡ idle → p.auto_topup_fired ≡ true → p.topup_mode ≡ none

set_balance-IsOrderly : (b : Balance) (p : Page) → IsOrderly p → IsOrderly (set_balance b p)
unfolding set_balance
set_balance-IsOrderly b p v = ground arith

pub Change-IsOrderly : {p q : Page} → Change p q → IsOrderly p → IsOrderly q
Change-IsOrderly (polled p b) v =
    set_balance-IsOrderly b (record p { balance_err = false }) (ground arith)
Change-IsOrderly (poll_failed p) v = ground arith
Change-IsOrderly (charged p b) v = set_balance-IsOrderly b p v
Change-IsOrderly (succeeded p m steps e) v = unfold topup_succeeded in ground arith
Change-IsOrderly (refused p steps e) v = unfold topup_refused in ground arith
Change-IsOrderly (broken p e) v = unfold topup_broken in ground arith
Change-IsOrderly (settled p e) v = unfold stop_running in ground arith
Change-IsOrderly (dismissed p) v = ground arith

opened-IsOrderly : IsOrderly opened
opened-IsOrderly = ground arith

-- On every page that the events can lead to, a top-up runs exactly while a call of it has not ended,
-- the gate is closed as long as one runs, and its mode is known only after its success.
pub Reaches-IsOrderly : {p : Page} → Reaches opened p → IsOrderly p
Reaches-IsOrderly here = opened-IsOrderly
Reaches-IsOrderly (next r s) = Change-IsOrderly s (Reaches-IsOrderly r)

-- What an event does to the requests: none is sent, or one is, from an idle page with an open gate and
-- for a balance that is low.
abbrev pub SendsOnce : Page → Page → Type 0
SendsOnce p q =
    (q.sent ≡ p.sent)
    ⊎ ((q.sent ≡ p.sent + 1)
        × (p.phase ≡ idle)
        × (p.auto_topup_fired ≡ false)
        × (q.phase ≡ requested)
        × ((b : Balance) × (q.balance ≡ some b) × (is_low b ≡ true)))

set_balance-SendsOnce : (b : Balance) (p : Page) → IsOrderly p → SendsOnce p (set_balance b p)
unfolding set_balance
set_balance-SendsOnce b p v = elim (Bool-cases (same_balance p.balance (some b))) [
  | inl e ↦ rw e (inl refl)
  | inr e ↦ elim (Bool-cases (p.topup_running || p.auto_topup_fired)) [
    | inl g ↦ rw (e, g) (inl refl)
    | inr g ↦ elim (Bool-cases (is_low b)) [
      | inl l ↦ inr (ground arith, ground arith, ground arith, ground arith, (b, ground arith, l))
      | inr l ↦ rw (e, g, l) (inl refl)
    ]
  ]
]

Change-SendsOnce : {p q : Page} → Change p q → IsOrderly p → SendsOnce p q
Change-SendsOnce (polled p b) v =
    set_balance-SendsOnce b (record p { balance_err = false }) (ground arith)
Change-SendsOnce (poll_failed p) v = inl refl
Change-SendsOnce (charged p b) v = set_balance-SendsOnce b p v
Change-SendsOnce (succeeded p m steps e) v = unfold topup_succeeded in inl (ground arith)
Change-SendsOnce (refused p steps e) v = unfold topup_refused in inl (ground arith)
Change-SendsOnce (broken p e) v = unfold topup_broken in inl (ground arith)
Change-SendsOnce (settled p e) v = unfold stop_running in inl (ground arith)
Change-SendsOnce (dismissed p) v = inl refl

-- From every page that the events can lead to, the next event sends no top-up, or it sends one: then
-- none was running, the gate was open and the balance that is shown is low.
pub Reaches-SendsOnce : {p q : Page} → Reaches opened p → Change p q → SendsOnce p q
Reaches-SendsOnce r s = Change-SendsOnce s (Reaches-IsOrderly r)

-- No top-up runs, behind a gate that is closed and has no success to open it.
pub record IsStuck (p : Page) : Type 0 where
  pub at_rest : p.phase ≡ idle
  pub stopped : p.topup_running ≡ false
  pub shut : p.auto_topup_fired ≡ true
  pub failed : p.topup_mode ≡ none

Change-IsStuck : {p q : Page} → Change p q → IsStuck p → IsStuck q × (q.sent ≡ p.sent)
Change-IsStuck (polled p b) v = unfold set_balance in ground arith
Change-IsStuck (poll_failed p) v = ground arith
Change-IsStuck (charged p b) v = unfold set_balance in ground arith
Change-IsStuck (succeeded p m steps e) v = ground arith
Change-IsStuck (refused p steps e) v = ground arith
Change-IsStuck (broken p e) v = ground arith
Change-IsStuck (settled p e) v = ground arith
Change-IsStuck (dismissed p) v = ground arith

Reaches-IsStuck : {p q : Page} → Reaches p q → IsStuck p → IsStuck q × (q.sent ≡ p.sent)
Reaches-IsStuck here v = (v, refl)
Reaches-IsStuck (next r s) v =
    let (stuck, same) = Reaches-IsStuck r v in
    let (stuck', same') = Change-IsStuck s stuck in (stuck', same' ∙ same)

failed-IsStuck :
    {p q : Page}
    → IsOrderly p
    → p.phase ≡ requested
    → (q ≡ topup_broken p) ⊎ ((steps : List StepStatus) × (q ≡ topup_refused steps p))
    → IsStuck q
failed-IsStuck v e (inl same) = rw same (unfold topup_broken in ground arith)
failed-IsStuck v e (inr (steps, same)) = rw same (unfold topup_refused in ground arith)

-- Once a top-up has failed, by a refusal or without a reply that can be read, the page never asks for
-- another, whatever balance it is shown afterwards.
pub sent_after_failure :
    {p q r : Page}
    → Reaches opened p
    → p.phase ≡ requested
    → (q ≡ topup_broken p) ⊎ ((steps : List StepStatus) × (q ≡ topup_refused steps p))
    → Reaches q r
    → r.sent ≡ q.sent
sent_after_failure start e failure after =
    (Reaches-IsStuck after (failed-IsStuck (Reaches-IsOrderly start) e failure)).1
