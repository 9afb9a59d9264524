-- ===== src/Tests/Browser.antt =====
-- The choice of a language and the storage of the browser, with concrete cookies and items.
use x402_token_market.Base.{
  ◌≡◌, ◌≢◌, refl, true, inl, inr, Bool-cases, String, Option, none, some, str_eq, eq_iff, eq_refl,
  to_lower, if◌then◌else◌,
}
use x402_token_market.Json.{obj, get}
use x402_token_market.Json.Codec.{Codec}
use x402_token_market.Net.{Outcome, done}
use x402_token_market.Address.{ShippingAddress}
use x402_token_market.Locale.{Cookies, Keeps, negotiate, from_language, set_locale_cookie}
use x402_token_market.Locale.Choice.{Chosen, Kept}
use x402_token_market.Locale.Switcher.{
  Switcher, ja, rendered, press, press_while, pick, finish, pressed, picked, finished, Reaches,
  here, next, IsSettled, switcher_lem,
}
use x402_token_market.Storage.{
  WebStorage, Remembers, address_fields, save_address, save_reminder_pref, ReminderPref, eight,
  email, pref_json,
}
use x402_token_market.Storage.RoundTrip.{AddressSaved, ReminderSaved, storage_round_trip}
use x402_token_market.Samples.{codec}

-- A function for the items, by their keys.
abbrev Entries : Type 0
Entries = String → Option String

abbrev put : Entries → String → String → Entries
put s key value other = if str_eq key other then some value else s other

put_same : (s : Entries) (key value : String) → put s key value key ≡ some value
put_same s key value = rw (eq_refl key) refl

put_other : (s : Entries) (key value other : String) → key ≢ other → put s key value other ≡ s other
put_other s key value other h = elim (Bool-cases (str_eq key other)) [
  | inl e ↦ absurd (h ((eq_iff key other).0 e))
  | inr e ↦ rw e refl
]

abbrev jar : Cookies Entries
jar = record { get = λ s name. s name; set = put }

jar-Keeps : Keeps jar
jar-Keeps s name value = put_same s name value

abbrev storage : WebStorage Entries
storage = record {
  get_item = λ s key. done (s key);
  set_item = λ s key value. done (put s key value);
}

done_same : {s t : Entries} → Outcome.done s ≡ Outcome.done t → s ≡ t
done_same e = cc

storage-Remembers : Remembers storage
storage-Remembers s t key value e =
    rw⁻¹ (done_same e)
      (rw (put_same s key value) refl, λ other h. rw (put_other s key value other h) refl)

abbrev nothing : Entries
nothing = λ _. none

chinese : negotiate (some "fr") "zh-TW,zh;q=0.9" ≡ "zh-CN"
unfolding negotiate from_language to_lower
chinese = refl

german : negotiate none "de-DE,en;q=0.5" ≡ "zh-CN"
unfolding negotiate from_language to_lower
german = refl

abbrev home : ShippingAddress
home = record {
  recipient = "H. Mori";
  postal = "107-0052";
  prefecture = "東京都";
  city = "港区";
  street = "1-2-3";
  phone = "03-1234-5678";
  email = none;
}

abbrev weekly : ReminderPref
weekly = record { enabled = true; interval_weeks = eight; channel = email }

-- JSON with a text for each of the two.
abbrev two_texts : Codec
two_texts = record codec {
  parse = λ s.
      if str_eq s "address"
      then some (obj (address_fields home))
      else if str_eq s "weekly"
      then some (pref_json weekly)
      else none;
  stringify = λ v. elim (get "enabled" v) [ none ↦ "address" | some w ↦ "weekly" ];
}

storage_round_trip_example :
    AddressSaved two_texts storage home nothing (save_address two_texts storage true home nothing)
    × ReminderSaved two_texts storage weekly nothing
        (save_reminder_pref two_texts storage true weekly nothing)
storage_round_trip_example =
    storage_round_trip two_texts storage home weekly nothing storage-Remembers (refl, refl)
      (refl, refl)

-- The menu is opened, Japanese is picked, and its cookie is set.
abbrev before : Switcher Entries
before = press jar none (rendered jar none nothing)

switched :
    Reaches jar none (rendered jar none nothing) (finish jar none ja (pick jar none ja before))
unfolding press_while pick negotiate from_language to_lower
switched =
    next (next (next here (pressed (rendered jar none nothing))) (picked ja before refl))
      (finished ja (pick jar none ja before) refl)

switcher_lem_example :
    IsSettled jar none (finish jar none ja (pick jar none ja before))
    × Chosen (some "ja") "en-US" (negotiate (some "ja") "en-US")
    × Kept jar none "en"
        (set_locale_cookie jar "en" (finish jar none ja (pick jar none ja before)).cookies)
switcher_lem_example = switcher_lem jar none nothing "en" (some "ja") "en-US" jar-Keeps switched
