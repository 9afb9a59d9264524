-- ===== src/Locale/Choice.antt =====
-- Which locale a request gets, and what the choice of one does to the requests after it.
use x402_token_market.Base.{
  ◌≡◌, refl, sym, ◌⊎◌, inl, inr, true, false, Bool-cases, String, Option, none, some, eq_iff,
  str_eq, starts_with, to_lower, arith,
}
use x402_token_market.Net.{error, Outcome, done, failed}
use x402_token_market.Locale.{
  Cookies, Keeps, supported, console_default, includes, from_language, negotiate, console_negotiate,
  request_locale, set_locale_cookie,
}

abbrev pub HasTexts : String → Type 0
HasTexts s = (s ≡ "zh-CN") ⊎ (s ≡ "ja") ⊎ (s ≡ "en")

includes_cases : (s : String) → includes s supported ≡ true → HasTexts s
includes_cases s e = elim (Bool-cases (str_eq "zh-CN" s)) [
  | inl h ↦ inl (sym ((eq_iff "zh-CN" s).0 h))
  | inr h ↦ elim (Bool-cases (str_eq "ja" s)) [
    | inl g ↦ inr (inl (sym ((eq_iff "ja" s).0 g)))
    | inr g ↦ elim (Bool-cases (str_eq "en" s)) [
      | inl k ↦ inr (inr (sym ((eq_iff "en" s).0 k)))
      | inr k ↦ absurd (ground (arith, h, g, k))
    ]
  ]
]

from_language_cases : (language : String) → HasTexts (from_language language)
unfolding from_language
from_language_cases language = elim (Bool-cases (starts_with (to_lower language) "zh")) [
  | inl e ↦ rw e (inl refl)
  | inr e ↦ elim (Bool-cases (starts_with (to_lower language) "ja")) [
    | inl f ↦ rw (e, f) (inr (inl refl))
    | inr f ↦ elim (Bool-cases (starts_with (to_lower language) "en")) [
      | inl g ↦ rw (e, f, g) (inr (inr refl))
      | inr g ↦ rw (e, f, g) (inl refl)
    ]
  ]
]

-- The locale is the cookie's, or the browser's where the cookie names none that is supported.
abbrev pub Chosen : Option String → String → String → Type 0
Chosen cookie language locale =
    HasTexts locale
    × ((cookie ≡ some locale)
        ⊎ ((locale ≡ from_language language)
            × ((s : String) → cookie ≡ some s → includes s supported ≡ false)))

-- Whatever the cookie and the header hold, the shop's locale is one of the three it has texts for: the
-- cookie's if that is one of them, and else the one that the language of the browser calls for.
negotiate_lem :
    (cookie : Option String) (language : String)
    → Chosen cookie language (negotiate cookie language)
unfolding negotiate
negotiate_lem none language = (from_language_cases language, inr (refl, λ s e. cc))
negotiate_lem (some s) language = elim (Bool-cases (includes s supported)) [
  | inl e ↦ rw e (includes_cases s e, inl refl)
  | inr e ↦ rw e (from_language_cases language, inr (refl, λ t f. grind arith))
]

-- What a choice leads to: the next request has that locale, or the choice is refused.
pub data Kept {S : Type 0} (jar : Cookies S) (language : Option String) (locale : String)
    : Outcome S → Type 0 where
  kept :
      (s : S)
      → HasTexts locale
      → request_locale jar s language ≡ locale
      → Kept jar language locale (done s)
  refused :
      (why : String)
      → includes locale supported ≡ false
      → Kept jar language locale (failed (error "Error" why none))

-- A locale that is chosen is the one of the next request, whatever language its header asks for, or the
-- choice throws: that is where the locale is not supported. What a cookie is set to is read back.
locale_after_choice :
    {S : Type 0} (jar : Cookies S) (locale : String) (s : S) (language : Option String)
    → Keeps jar
    → Kept jar language locale (set_locale_cookie jar locale s)
unfolding set_locale_cookie negotiate
locale_after_choice jar locale s language keeps = elim (Bool-cases (includes locale supported)) [
  | inl e ↦ rw e (
      kept (jar.set s "locale" locale) (includes_cases locale e)
        (rw (keeps s "locale" locale, negotiate) (rw e refl)))
  | inr e ↦ rw e (refused _ e)
]

-- The console's locale does not depend on the language of the browser: it is the cookie's where that is
-- supported, and English where there is none.
pub console_locale_same :
    (cookie : Option String) (language other : String)
    → (console_negotiate cookie language ≡ console_negotiate cookie other)
      × (console_negotiate none language ≡ console_default)
unfolding console_negotiate
console_locale_same none language other = (ground arith, ground arith)
console_locale_same (some s) language other = (ground arith, ground arith)

-- Whatever the cookie and the header hold, the shop's locale is one of the three it has texts for: the
-- cookie's if that is one of them, and else the one that the language of the browser calls for. A locale
-- that is chosen is the one of the next request, whatever language its header asks for, or the choice
-- throws, where the locale is not supported. What a cookie is set to is taken to be read back.
pub locale_round_trip :
    {S : Type 0} (jar : Cookies S) (locale : String) (s : S) (language : Option String)
    (cookie : Option String) (header : String)
    → Keeps jar
    → Chosen cookie header (negotiate cookie header)
      × Kept jar language locale (set_locale_cookie jar locale s)
locale_round_trip jar locale s language cookie header keeps =
    (negotiate_lem cookie header, locale_after_choice jar locale s language keeps)
