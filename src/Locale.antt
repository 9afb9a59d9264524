-- ===== src/Locale.antt =====
-- The choice of a language: haba/src/lib/i18n/request.ts and locale-action.ts of the shop, and
-- netstars/token/console/src/lib/i18n/request.ts of the token console.
pub mod Choice
pub mod Switcher
use x402_token_market.Base.{
  ◌≡◌, Bool, true, false, ◌||◌, String, Option, none, some, List, [], ◌∷◌, str_eq, ◌⊕◌, or_else,
  to_lower, starts_with, if◌then◌else◌,
}
use x402_token_market.Net.{Thrown, error, Outcome, done, failed}

-- The cookies of a request, by next/headers.
pub record Cookies (S : Type 0) : Type 0 where
  pub get : S → String → Option String
  pub set : S → (name value : String) → S

-- A cookie that was set is read back.
abbrev pub Keeps : {S : Type 0} → Cookies S → Type 0
Keeps {S} jar = (s : S) (name value : String) → jar.get (jar.set s name value) name ≡ some value

-- `SUPPORTED` and `DEFAULT_LOCALE` of the shop
abbrev pub supported : List String
supported = "zh-CN" ∷ "ja" ∷ "en" ∷ []

abbrev pub default_locale : String
default_locale = "zh-CN"

-- `SUPPORTED` and `DEFAULT_LOCALE` of the console
abbrev pub console_supported : List String
console_supported = "ja" ∷ "en" ∷ []

abbrev pub console_default : String
console_default = "en"

-- `list.includes(s)`
abbrev pub includes : String → List String → Bool
includes s [] = false
includes s (t ∷ ts) = str_eq t s || includes s ts

-- The language of the browser, by its first entry.
unfoldable pub from_language : String → String
from_language language =
    if starts_with (to_lower language) "zh"
    then "zh-CN"
    else if starts_with (to_lower language) "ja"
    then "ja"
    else if starts_with (to_lower language) "en"
    then "en"
    else default_locale

-- `negotiate`; an empty cookie is no locale either.
unfoldable pub negotiate : Option String → String → String
negotiate none language = from_language language
negotiate (some s) language = if includes s supported then s else from_language language

-- The console's `getRequestConfig`, up to the locale.
unfoldable pub console_negotiate : Option String → String → String
console_negotiate none language =
    if starts_with (to_lower language) "en" then "en" else console_default
console_negotiate (some s) language =
    if includes s console_supported
    then s
    else if starts_with (to_lower language) "en"
    then "en"
    else console_default

module _ {S : Type 0} (jar : Cookies S) where
  -- The locale that `getRequestConfig` of the shop answers with.
  abbrev pub request_locale : S → Option String → String
  request_locale s language = negotiate (jar.get s "locale") (or_else language "")

  abbrev pub console_locale : S → Option String → String
  console_locale s language = console_negotiate (jar.get s "locale") (or_else language "")

  -- `setLocaleCookie`, with the cookies afterwards.
  unfoldable pub set_locale_cookie : String → S → Outcome S
  set_locale_cookie locale s =
      if includes locale supported
      then done (jar.set s "locale" locale)
      else failed (error "Error" ("unsupported locale: " ⊕ locale) none)
