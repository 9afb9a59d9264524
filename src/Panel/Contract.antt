-- ===== src/Panel/Contract.antt =====
-- What the automatic top-up promises, without the page: a gate, and the number of requests so far.
use x402_token_market.Base.{
  ℕ, ◌+◌, ◌≡◌, refl, ap, ◌∙◌, inl, inr, List, [], ◌∷◌, Bool, Bool-cases, not, ◌&&◌, true, false,
  if◌then◌else◌, some, arith,
}
use x402_token_market.Panel.{
  Balance, Page, is_low, same_balance, Change, polled, poll_failed, charged, succeeded, refused,
  broken, settled, dismissed, Reaches, here, next, opened, set_balance, topup_succeeded,
  topup_refused, topup_broken, stop_running,
}
use x402_token_market.Panel.Gate.{IsOrderly, Reaches-IsOrderly, is_busy}

-- The gate is ready, held by a top-up, or shut for good.
pub data Gate : Type 0 where
  ready held shut : Gate

pub record Contract : Type 0 where
  pub gate : Gate
  pub asked : ℕ

-- What the contract sees of an event: a balance, which calls for a top-up or not, the end of a top-up
-- that succeeded, one that failed, or something else.
pub data Kind : Type 0 where
  shown : Bool → Kind
  credited declined other : Kind

abbrev asked_for : Gate → ℕ → Contract
asked_for ready n = record { gate = held; asked = n + 1 }
asked_for g n = record { gate = g; asked = n }

abbrev ended_as : Gate → Gate → ℕ → Contract
ended_as g held n = record { gate = g; asked = n }
ended_as g h n = record { gate = h; asked = n }

-- A balance that calls for a top-up has it asked for once, where the gate is ready. The success of one that
-- was asked for makes the gate ready again, and its failure shuts it.
unfoldable pub react : Kind → Contract → Contract
react (shown true) s = asked_for s.gate s.asked
react (shown false) s = s
react credited s = ended_as ready s.gate s.asked
react declined s = ended_as shut s.gate s.asked
react other s = s

-- The events, the last first.
abbrev pub reacts : List Kind → Contract → Contract
reacts [] s = s
reacts (k ∷ ks) s = react k (reacts ks s)

-- A balance calls for a top-up if it is not the one that is shown, and low.
abbrev pub calls_for : Page → Balance → Bool
calls_for p b = not (same_balance p.balance (some b)) && is_low b

abbrev pub kind_of : {p q : Page} → Change p q → Kind
kind_of (polled p b) = shown (calls_for p b)
kind_of (poll_failed p) = other
kind_of (charged p b) = shown (calls_for p b)
kind_of (succeeded p m steps e) = other
kind_of (refused p steps e) = declined
kind_of (broken p e) = declined
kind_of (settled p e) = credited
kind_of (dismissed p) = other

abbrev pub kinds : {p q : Page} → Reaches p q → List Kind
kinds here = []
kinds (next r s) = kind_of s ∷ kinds r

-- The view of a page: its gate and its requests.
abbrev pub gate_of : Page → Gate
gate_of p = if is_busy p.phase then held else if p.auto_topup_fired then shut else ready

abbrev pub view : Page → Contract
view p = record { gate = gate_of p; asked = p.sent }

view_ready :
    (p : Page)
    → is_busy p.phase ≡ false
    → p.auto_topup_fired ≡ false
    → view p ≡ record { gate = ready; asked = p.sent }
view_ready p h g = ground arith

view_held : (p : Page) → is_busy p.phase ≡ true → view p ≡ record { gate = held; asked = p.sent }
view_held p h = rw h refl

view_shut :
    (p : Page)
    → is_busy p.phase ≡ false
    → p.auto_topup_fired ≡ true
    → view p ≡ record { gate = shut; asked = p.sent }
view_shut p h g = rw (h, g) refl

set_balance-view :
    (b : Balance) (p : Page)
    → IsOrderly p
    → view (set_balance b p) ≡ react (shown (calls_for p b)) (view p)
unfolding set_balance react
set_balance-view b p v = elim (Bool-cases (same_balance p.balance (some b))) [
  | inl e ↦ rw e refl
  | inr e ↦ elim (Bool-cases (is_low b)) [
    | inr l ↦ ground arith
    | inl l ↦ elim (Bool-cases (is_busy p.phase)) [
      | inl g ↦ ground arith
      | inr g ↦ elim (Bool-cases p.auto_topup_fired) [ inl f ↦ ground arith | inr f ↦ ground arith ]
    ]
  ]
]

Change-view : {p q : Page} (s : Change p q) → IsOrderly p → view q ≡ react (kind_of s) (view p)
unfolding react
Change-view (polled p b) v = set_balance-view b (record p { balance_err = false }) (ground arith)
Change-view (poll_failed p) v = refl
Change-view (charged p b) v = set_balance-view b p v
Change-view (succeeded p m steps e) v = unfold topup_succeeded in ground arith
Change-view (refused p steps e) v = unfold topup_refused in ground arith
Change-view (broken p e) v = unfold topup_broken in ground arith
Change-view (settled p e) v = unfold stop_running in ground arith
Change-view (dismissed p) v = refl

reacts-shut :
    (ks : List Kind) (n : ℕ)
    → reacts ks (record { gate = shut; asked = n }) ≡ record { gate = shut; asked = n }
unfolding react
reacts-shut [] n = refl
reacts-shut (shown true ∷ ks) n = rw (reacts-shut ks n) refl
reacts-shut (shown false ∷ ks) n = reacts-shut ks n
reacts-shut (credited ∷ ks) n = rw (reacts-shut ks n) refl
reacts-shut (declined ∷ ks) n = rw (reacts-shut ks n) refl
reacts-shut (other ∷ ks) n = reacts-shut ks n

Reaches-view : {p : Page} (r : Reaches opened p) → view p ≡ reacts (kinds r) (view opened)
Reaches-view here = refl
Reaches-view (next r s) =
    Change-view s (Reaches-IsOrderly r) ∙ ap (react (kind_of s)) (Reaches-view r)

-- Along every order of events, the gate of the page and the number of its requests are exactly those that
-- the contract gives for these events in their order: a balance that is new and low has one top-up
-- asked for where the gate is ready, and nothing else has; the end of a top-up that succeeded makes
-- the gate ready again, and a refused or broken one shuts it. A gate that is shut stays so, and no
-- top-up is asked for behind it, whatever events come.
pub view-reacts :
    {p : Page} (r : Reaches opened p) (ks : List Kind) (n : ℕ)
    → (view p ≡ reacts (kinds r) (view opened))
      × (reacts ks (record { gate = shut; asked = n }) ≡ record { gate = shut; asked = n })
view-reacts r ks n = (Reaches-view r, reacts-shut ks n)
