-- ===== src/Locale/Switcher.antt =====
-- The language menu of the shop, haba/src/components/layout/LocaleSwitcher.tsx, with the cookie that its
-- choice sets and the page that is rendered again afterwards.
use mathlib.Core.Option
use x402_token_market.Base.{
  ◌≡◌, refl, Bool, true, false, not, ◌&&◌, String, Option, none, some, str_eq, or_else,
  if◌then◌else◌,
}
use x402_token_market.Net.{Outcome, done, failed}
use x402_token_market.Locale.Choice.{Chosen, Kept, locale_round_trip}
use x402_token_market.Locale.{Cookies, Keeps, negotiate, request_locale, set_locale_cookie}

-- `LOCALES`
pub data Code : Type 0 where
  zh_cn ja en : Code

abbrev pub code_text : Code → String
code_text zh_cn = "zh-CN"
code_text ja = "ja"
code_text en = "en"

-- The hooks of the menu, the locale that the page was rendered with, and the cookies of the browser.
-- `pending` holds the choice whose cookie is being set, and `chosen` the last one that was; the menu keeps
-- only whether there is one.
pub record Switcher (S : Type 0) : Type 0 where
  pub cookies : S
  pub locale : String
  pub is_open : Bool
  pub pending : Option Code
  pub chosen : Option Code

abbrev pub is_some : Option Code → Bool
is_some none = false
is_some (some c) = true

never : (b : Bool) → (b && false) ≡ false
never true = refl
never false = refl

module _ {S : Type 0} (jar : Cookies S) (language : Option String) where
  -- The first page.
  abbrev pub rendered : S → Switcher S
  rendered s = record {
    cookies = s;
    locale = request_locale jar s language;
    is_open = false;
    pending = none;
    chosen = none;
  }

  -- The button, which is disabled while a choice is pending.
  unfoldable pub press_while : Option Code → Switcher S → Switcher S
  press_while none w = record w { is_open = not w.is_open }
  press_while (some c) w = w

  abbrev pub press : Switcher S → Switcher S
  press w = press_while w.pending w

  -- A click outside, or the Escape key.
  unfoldable pub leave : Switcher S → Switcher S
  leave w = record w { is_open = false }

  -- `pick`, up to its transition.
  unfoldable pub pick : Code → Switcher S → Switcher S
  pick c w =
      if str_eq (code_text c) w.locale
      then record w { is_open = false }
      else record w { is_open = false; pending = some c }

  -- The outcome of the cookie, after which the page is rendered again.
  unfoldable pub refresh_with : Code → Outcome S → Switcher S → Switcher S
  refresh_with c (done s) w = record w {
    cookies = s;
    locale = request_locale jar s language;
    pending = none;
    chosen = some c;
  }
  refresh_with c (failed e) w = record w { pending = none }

  unfoldable pub finish : Code → Switcher S → Switcher S
  unfolding refresh_with set_locale_cookie
  finish c w = refresh_with c (set_locale_cookie jar (code_text c) w.cookies) w

  -- What can happen, in any order: an entry is there to be picked while the menu is open.
  pub data Change : Switcher S → Switcher S → Type 0 where
    pressed : (w : Switcher S) → Change w (press w)
    left : (w : Switcher S) → Change w (leave w)
    picked : (c : Code) (w : Switcher S) → w.is_open ≡ true → Change w (pick c w)
    finished : (c : Code) (w : Switcher S) → w.pending ≡ some c → Change w (finish c w)

  pub data Reaches (w : Switcher S) : Switcher S → Type 0 where
    here : Reaches w w
    next : {u v : Switcher S} → Reaches w u → Change u v → Reaches w v

  pub record IsSettled (w : Switcher S) : Type 0 where
    pub shown : w.locale ≡ request_locale jar w.cookies language
    pub closed : (w.is_open && is_some w.pending) ≡ false
    pub kept : w.locale ≡ or_else (Option.map code_text w.chosen) w.locale

  press-IsSettled : (w : Switcher S) → IsSettled w → IsSettled (press w)
  unfolding press_while
  press-IsSettled w v = go w.pending refl
    where
      go : (o : Option Code) → w.pending ≡ o → IsSettled (press_while o w)
      go (some c) e = v
      go none e = record { shown = v.shown; closed = rw e (never (not w.is_open)); kept = v.kept }

  pick-IsSettled : (c : Code) (w : Switcher S) → IsSettled w → IsSettled (pick c w)
  unfolding pick
  pick-IsSettled c w v = go (str_eq (code_text c) w.locale)
    where
      go :
          (b : Bool)
          → IsSettled (
              if b
              then record w { is_open = false }
              else record w { is_open = false; pending = some c })
      go true = record { shown = v.shown; closed = refl; kept = v.kept }
      go false = record { shown = v.shown; closed = refl; kept = v.kept }

  finish-IsSettled :
      (c : Code) (w : Switcher S)
      → Keeps jar
      → w.pending ≡ some c
      → IsSettled w
      → IsSettled (finish c w)
  unfolding finish negotiate
  finish-IsSettled zh_cn w keeps e v = record {
    shown = refl;
    closed = never w.is_open;
    kept = rw (keeps w.cookies "locale" "zh-CN") refl;
  }
  finish-IsSettled ja w keeps e v = record {
    shown = refl;
    closed = never w.is_open;
    kept = rw (keeps w.cookies "locale" "ja") refl;
  }
  finish-IsSettled en w keeps e v = record {
    shown = refl;
    closed = never w.is_open;
    kept = rw (keeps w.cookies "locale" "en") refl;
  }

  Change-IsSettled : {u v : Switcher S} → Keeps jar → Change u v → IsSettled u → IsSettled v
  unfolding leave
  Change-IsSettled keeps (pressed w) v = press-IsSettled w v
  Change-IsSettled keeps (left w) v = record { shown = v.shown; closed = refl; kept = v.kept }
  Change-IsSettled keeps (picked c w e) v = pick-IsSettled c w v
  Change-IsSettled keeps (finished c w e) v = finish-IsSettled c w keeps e v

  -- Along every order of clicks, keys and answers, the page is shown in the language that its cookies call
  -- for, which is that of the last choice whose cookie was set, if there is one; and the menu is closed while
  -- a choice is pending. What a cookie is set to is taken to be read back.
  pub Reaches-IsSettled :
      (s : S) {w : Switcher S} → Keeps jar → Reaches (rendered s) w → IsSettled w
  Reaches-IsSettled s keeps here = record { shown = refl; closed = refl; kept = refl }
  Reaches-IsSettled s keeps (next r c) = Change-IsSettled keeps c (Reaches-IsSettled s keeps r)

-- Along every order of clicks, keys and answers, the shop is shown in the language that its cookies call
-- for, which is that of the last choice whose cookie was set, if there is one, and the menu is closed while
-- a choice is pending. Whatever a cookie and a header hold, the locale is one of the three with texts: the
-- cookie's if it is one of them, and else the one that the browser's language calls for. A locale that is
-- chosen is the one of the next request, or the choice throws, where it is not supported. What a cookie is
-- set to is taken to be read back.
pub switcher_lem :
    {S : Type 0} (jar : Cookies S) (language : Option String) (s : S) {w : Switcher S}
    (locale : String) (cookie : Option String) (header : String)
    → Keeps jar
    → Reaches jar language (rendered jar language s) w
    → IsSettled jar language w
      × Chosen cookie header (negotiate cookie header)
      × Kept jar language locale (set_locale_cookie jar locale w.cookies)
switcher_lem jar language s {w} locale cookie header keeps r =
    let (chose, held) = locale_round_trip jar locale w.cookies language cookie header keeps in
    (Reaches-IsSettled jar language s keeps r, chose, held)
