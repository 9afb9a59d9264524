-- ===== src/Invoicing/Notice.antt =====
-- The note of the invoices page, netstars/token/console/src/app/(console)/invoices/page.tsx: showToast, the
-- timers that it sets, and the button that dismisses the note. Nothing stops a timer that was set, since
-- the function that showToast returns is not called.
use x402_token_market.Base.{
  ℕ, zero, suc, ◌+◌, ◌-◌, ◌≤◌, ◌<◌, ◌≡◌, refl, ap, ◌∙◌, leb, ltb, Bool, true, false, not, ◌||◌,
  Bool-cases, inl, inr, String, Option, none, some, List, [], ◌∷◌, All, any, if◌then◌else◌, arith,
}
use x402_token_market.Invoicing.{Resent, handle_resend}

-- The note, and the milliseconds that are left to each timer.
pub record Notes : Type 0 where
  pub toast_msg : Option String
  pub timers : List ℕ

abbrev pub opened : Notes
opened = record { toast_msg = none; timers = [] }

-- `showToast`
unfoldable pub show_toast : String → Notes → Notes
show_toast m n = record { toast_msg = some m; timers = 4000 ∷ n.timers }

-- The reply to a request to send an invoice again.
unfoldable pub note_resent : Option String → Notes → Notes
unfolding show_toast
note_resent none n = n
note_resent (some m) n = show_toast m n

unfoldable pub dismiss : Notes → Notes
dismiss n = record n { toast_msg = none }

-- The timers that still run after a millisecond.
unfoldable pub running_on : List ℕ → List ℕ
running_on [] = []
running_on (t ∷ ts) = let rest = running_on ts in if ltb 1 t then (t - 1) ∷ rest else rest

-- One goes off in a millisecond.
abbrev pub one_ends : List ℕ → Bool
one_ends = any (λ t. leb t 1)

-- A millisecond passes: a timer that goes off takes the note away, whichever note it was set for.
unfoldable pub pass : Notes → Notes
unfolding running_on
pass n = record {
  toast_msg = if one_ends n.timers then none else n.toast_msg;
  timers = running_on n.timers;
}

abbrev pub passes : ℕ → Notes → Notes
passes zero n = n
passes (suc k) n = passes k (pass n)

-- What can happen to the note, in any order.
pub data Change : Notes → Notes → Type 0 where
  resent : (r : Resent) (n : Notes) → Change n (note_resent (handle_resend r) n)
  dismissed : (n : Notes) → Change n (dismiss n)
  passed : (n : Notes) → Change n (pass n)

pub data Reaches (n : Notes) : Notes → Type 0 where
  here : Reaches n n
  next : {p q : Notes} → Reaches n p → Change p q → Reaches n q

-- A timer is set where a note is shown.
abbrev pub is_pending : List ℕ → Bool
is_pending [] = false
is_pending (t ∷ ts) = true

abbrev pub is_shown : Option String → Bool
is_shown none = false
is_shown (some m) = true

-- Each timer has at most `k` milliseconds left, and at least one.
abbrev pub Within : ℕ → List ℕ → Type 0
Within k = All (λ t. (1 ≤ t) × (t ≤ k))

record IsTimed (k : ℕ) (n : Notes) : Type 0 where
  timers : Within k n.timers
  ends : (not (is_shown n.toast_msg) || is_pending n.timers) ≡ true

running_on-Within : (k : ℕ) (ts : List ℕ) → Within (suc k) ts → Within k (running_on ts)
unfolding running_on
running_on-Within k [] w = tt
running_on-Within k (t ∷ ts) (h, w) = elim (Bool-cases (ltb 1 t)) [
  | inl e ↦ rw e ((ground (arith, e), omega (arith, h)), running_on-Within k ts w)
  | inr e ↦ rw e (running_on-Within k ts w)
]

-- Where no timer goes off, those that were pending still are.
still_pending :
    (ts : List ℕ) → one_ends ts ≡ false → is_pending ts ≡ true → is_pending (running_on ts) ≡ true
unfolding running_on
still_pending [] e h = h
still_pending (t ∷ ts) e h = let later : ltb 1 t ≡ true = ground (arith, e) in rw later refl

pass-IsTimed : (k : ℕ) (n : Notes) → IsTimed (suc k) n → IsTimed k (pass n)
unfolding pass
pass-IsTimed k n v = record {
  timers = running_on-Within k n.timers v.timers;
  ends = elim (Bool-cases (one_ends n.timers)) [
    | inl e ↦ simp e refl
    | inr e ↦ simp e (go n.toast_msg (v.ends) (still_pending n.timers e))
  ];
}
  where
    go :
        (m : Option String)
        → (not (is_shown m) || is_pending n.timers) ≡ true
        → (is_pending n.timers ≡ true → is_pending (running_on n.timers) ≡ true)
        → (not (is_shown m) || is_pending (running_on n.timers)) ≡ true
    go none h g = refl
    go (some m) h g = g h

Within-weaken : (k : ℕ) (ts : List ℕ) → Within k ts → Within (suc k) ts
Within-weaken k [] w = tt
Within-weaken k (t ∷ ts) (h, w) = (omega (arith, h), Within-weaken k ts w)

Change-IsTimed : {p q : Notes} → Change p q → IsTimed 4000 p → IsTimed 4000 q
unfolding note_resent show_toast dismiss
Change-IsTimed (resent r n) v = go (handle_resend r)
  where
    go : (o : Option String) → IsTimed 4000 (note_resent o n)
    go none = v
    go (some m) = record { timers = (omega arith, v.timers); ends = refl }
Change-IsTimed (dismissed n) v = record { timers = v.timers; ends = refl }
Change-IsTimed (passed n) v =
    let w = pass-IsTimed 3999 n (record { timers = v.timers; ends = v.ends }) in
    record { timers = Within-weaken 3999 _ w.timers; ends = w.ends }

Reaches-IsTimed : {n : Notes} → Reaches opened n → IsTimed 4000 n
Reaches-IsTimed here = record { timers = tt; ends = refl }
Reaches-IsTimed (next r c) = Change-IsTimed c (Reaches-IsTimed r)

-- Where every timer goes off within `k` milliseconds, so does the note.
passes-IsTimed : (k : ℕ) (n : Notes) → IsTimed k n → (passes k n).toast_msg ≡ none
passes-IsTimed (suc k) n v = passes-IsTimed k (pass n) (pass-IsTimed k n v)
passes-IsTimed zero n v = go n.toast_msg n.timers v.timers v.ends
  where
    go :
        (m : Option String) (ts : List ℕ)
        → Within 0 ts
        → (not (is_shown m) || is_pending ts) ≡ true
        → m ≡ none
    go none ts w e = refl
    go (some m) [] w e = absurd (cc)
    go (some m) (t ∷ ts) (h, w) e = absurd (omega (arith, h))

-- The first timer, while it runs.
passes_first :
    (k d : ℕ) (n : Notes) (ts : List ℕ)
    → n.timers ≡ (k + suc d) ∷ ts
    → (us : List ℕ) × ((passes k n).timers ≡ suc d ∷ us)
unfolding pass running_on
passes_first zero d n ts e =
    let same : 0 + suc d ≡ suc d = omega arith in (ts, e ∙ ap (λ t. t ∷ ts) same)
passes_first (suc k) d n ts e =
    let later : ltb 1 (suc k + suc d) ≡ true = ground arith in
    let less : suc k + suc d - 1 ≡ k + suc d = omega arith in
    passes_first k d (pass n) (running_on ts) (rw (e, later, less) refl)

-- The second timer ends before the first, and takes the note away.
passes_second :
    (j d : ℕ) (n : Notes) (ts : List ℕ)
    → n.timers ≡ (suc j + suc d) ∷ suc j ∷ ts
    → (passes (suc j) n).toast_msg ≡ none
unfolding pass running_on
passes_second zero d n ts e =
    let first : leb (1 + suc d) 1 ≡ false = ground arith in rw (e, first) refl
passes_second (suc j) d n ts e =
    let later : ltb 1 (suc (suc j) + suc d) ≡ true = ground arith in
    let less : suc (suc j) + suc d - 1 ≡ suc j + suc d = omega arith in
    let next_later : ltb 1 (suc (suc j)) ≡ true = ground arith in
    let next_less : suc (suc j) - 1 ≡ suc j = omega arith in
    passes_second j d (pass n) (running_on ts) (rw (e, later, less, next_later, next_less) refl)

-- Along every order of events, the note of the invoices page is gone four seconds later if nothing more is
-- sent; and a note that is shown while the one before it is `k` milliseconds old is taken away `k`
-- milliseconds early, by the timer of that one.
pub passes_lem :
    {n : Notes} (a b : String) (k : ℕ)
    → Reaches opened n
    → 0 < k
    → k < 4000
    → ((passes 4000 n).toast_msg ≡ none)
      × ((passes (4000 - k) (show_toast b (passes k (show_toast a n)))).toast_msg ≡ none)
unfolding show_toast
passes_lem {n} a b k r low high =
    let left : 4000 - k ≡ suc (3999 - k) = omega arith in
    let sum : 4000 ≡ k + suc (3999 - k) = omega arith in
    let longer : 4000 ≡ suc (3999 - k) + suc (k - 1) = omega arith in
    let (us, e) =
      passes_first k (3999 - k) (show_toast a n) n.timers (ap (λ t. t ∷ n.timers) sum) in
    (
      passes-IsTimed 4000 n (Reaches-IsTimed r),
      rw left (
          passes_second (3999 - k) (k - 1) (show_toast b (passes k (show_toast a n))) us (
            ap (λ t. t ∷ (passes k (show_toast a n)).timers) longer
            ∙ ap (λ ts. (suc (3999 - k) + suc (k - 1)) ∷ ts) e)),
    )
