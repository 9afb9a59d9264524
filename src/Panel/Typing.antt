-- ===== src/Panel/Typing.antt =====
-- The typewriter effect of an agent run, haba/src/app/dashboard/page.tsx: the timer shows four more
-- characters at each tick and stops at the end of the text.
use mathlib.Core.Option
use x402_token_market.Base.{
  ℕ, zero, suc, ◌+◌, ◌-◌, ◌*◌, ◌/◌, ◌≤◌, ◌<◌, ◌≡◌, refl, ap, ◌∙◌, leb, true, false, String, Option,
  none, some, List, [], ◌∷◌, All, last?, length, text_length, take_text, inl, inr, Bool-cases,
  arith, if◌then◌else◌,
}

-- `Math.min(i + 4, text.length)`
abbrev pub advance : ℕ → String → ℕ
advance i s = if leb (i + 4) (text_length s) then i + 4 else text_length s

-- The texts that are shown, from a position; `none` where the ticks allowed are too few.
unfoldable pub typed : ℕ → ℕ → String → Option (List String)
typed zero i s = none
typed (suc ticks) i s =
    let rest = typed ticks (advance i s) s in
    if leb (text_length s) (advance i s)
    then some (take_text (advance i s) s ∷ [])
    else Option.map (λ shown. take_text (advance i s) s ∷ shown) rest

pub take_text_all : (s : String) → take_text (text_length s) s ≡ s
take_text_all String.[] = refl
take_text_all (String.◌∷◌ c s) = ap (λ r. String.◌∷◌ c r) (take_text_all s)

-- The texts are beginnings of the whole one, which is the last, and they are few.
abbrev pub Types : String → ℕ → List String → Type 0
Types s n shown =
    (last? shown ≡ some s)
    × (length shown ≤ n / 4 + 1)
    × All (λ t. (j : ℕ) × (t ≡ take_text j s)) shown

pub advance_end :
    (i : ℕ) (s : String) → leb (text_length s) (advance i s) ≡ true → advance i s ≡ text_length s
advance_end i s e = ground arith

advance_on :
    (i : ℕ) (s : String)
    → leb (text_length s) (advance i s) ≡ false
    → (advance i s ≡ i + 4) × (i + 4 < text_length s)
advance_on i s e = ground arith

last?-cons :
    (t s : String) (shown : List String) → last? shown ≡ some s → last? (t ∷ shown) ≡ some s
last?-cons t s [] e = cc
last?-cons t s (u ∷ shown) e = e

typed_from :
    (s : String) (ticks i : ℕ)
    → i ≤ text_length s
    → text_length s - i < 4 * ticks
    → (shown : List String) × (typed ticks i s ≡ some shown) × Types s (text_length s - i) shown
unfolding typed
typed_from s zero i h f = absurd (omega arith)
typed_from s (suc ticks) i h f = elim (Bool-cases (leb (text_length s) (advance i s))) [
  | inl e ↦ (
    take_text (advance i s) s ∷ [],
    rw e refl,
    (
      ap some (ap (λ j. take_text j s) (advance_end i s e) ∙ take_text_all s),
      omega arith,
      ((advance i s, refl), tt),
    ),
  )
  | inr e ↦
      let (step, more) = advance_on i s e in
      let (shown, same, (last, few, parts)) =
        typed_from s ticks (advance i s) (omega arith) (omega arith) in
      (
        take_text (advance i s) s ∷ shown,
        rw (e, same) refl,
        (last?-cons _ s shown last, omega arith, ((advance i s, refl), parts)),
      )
]

-- The effect ends: after at most a quarter of the text's length and one more ticks it has shown the
-- whole text, and before that only beginnings of it.
pub typed_lem :
    (s : String)
    → (shown : List String) × (typed (suc (text_length s / 4)) 0 s ≡ some shown)
      × Types s (text_length s) shown
typed_lem s =
    let none_shown : text_length s - 0 ≡ text_length s = omega arith in
    rw none_shown at (typed_from s (suc (text_length s / 4)) 0 (omega arith) (omega arith))
