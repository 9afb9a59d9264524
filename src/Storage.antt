-- ===== src/Storage.antt =====
-- What the shop keeps in the browser, haba/src/lib/haba/checkout.ts: the shipping address and the
-- preference for reminders.
pub mod RoundTrip
use x402_token_market.Base.{
  ℕ, suc, show, ◌≡◌, ◌≢◌, Bool, true, false, String, Option, none, some, List, [], ◌∷◌, str_eq,
  if◌then◌else◌,
}
use mathlib.Core.Option
use x402_token_market.Json.{
  Json, Fields, Items, end, field, nil, cons, fields, assign, null, bool, num, str, arr, obj, whole,
  object,
}
use x402_token_market.Json.Codec.{Codec}
use x402_token_market.Net.{Outcome, done, failed}
use x402_token_market.Route.{defined}
use x402_token_market.Address.{ShippingAddress}

-- `localStorage`; either method may throw.
pub record WebStorage (S : Type 0) : Type 0 where
  pub get_item : S → String → Outcome (Option String)
  pub set_item : S → (key value : String) → Outcome S

-- An item that was written is read back, and the others stay.
abbrev pub Remembers : {S : Type 0} → WebStorage S → Type 0
Remembers {S} ls =
    (s t : S) (key value : String)
    → ls.set_item s key value ≡ done t
    → (ls.get_item t key ≡ done (some value))
      × ((other : String) → key ≢ other → ls.get_item t other ≡ ls.get_item s other)

-- The own properties of a value, as a spread copies them.
abbrev indexed : ℕ → Items → Fields
indexed i nil = end
indexed i (cons v vs) = field (show i) v (indexed (suc i) vs)

abbrev characters : ℕ → String → Fields
characters i String.[] = end
characters i (String.◌∷◌ c s) = field (show i) (str (String.◌∷◌ c "")) (characters (suc i) s)

abbrev pub own : Json → Fields
own (obj r) = r
own (arr vs) = indexed 0 vs
own (str s) = characters 0 s
own _ = end

-- `{ ...base, ...v }`
abbrev pub spread : Fields → Fields → Fields
spread base end = base
spread base (field k v r) = spread (assign k v base) r

-- `EMPTY_ADDRESS`
abbrev pub empty_address : ShippingAddress
empty_address = record {
  recipient = "";
  postal = "";
  prefecture = "";
  city = "";
  street = "";
  phone = "";
  email = some "";
}

abbrev pub address_fields : ShippingAddress → Fields
address_fields a = fields (
    defined (
      ("recipient", some (str a.recipient))
      ∷ ("postal", some (str a.postal))
      ∷ ("prefecture", some (str a.prefecture))
      ∷ ("city", some (str a.city))
      ∷ ("street", some (str a.street))
      ∷ ("phone", some (str a.phone))
      ∷ ("email", Option.map str a.email)
      ∷ []))

-- `ReminderInterval`, the channel and `ReminderPref`
pub data ReminderInterval : Type 0 where
  four eight twelve : ReminderInterval

abbrev pub weeks : ReminderInterval → ℕ
weeks four = 4
weeks eight = 8
weeks twelve = 12

pub data Channel : Type 0 where
  email sms : Channel

abbrev pub channel_text : Channel → String
channel_text email = "email"
channel_text sms = "sms"

pub record ReminderPref : Type 0 where
  pub enabled : Bool
  pub interval_weeks : ReminderInterval
  pub channel : Channel

abbrev pub pref_json : ReminderPref → Json
pref_json p = object (
    ("enabled", bool p.enabled)
    ∷ ("intervalWeeks", whole (weeks p.interval_weeks))
    ∷ ("channel", str (channel_text p.channel))
    ∷ [])

abbrev pub address_storage_key : String
address_storage_key = "haba_shipping_address"

abbrev pub reminder_storage_key : String
reminder_storage_key = "haba_reminder_pref"

-- The JSON of an item that is there and not empty.
unfoldable pub read_item : Codec → Outcome (Option String) → Option Json
read_item c (done (some raw)) = if str_eq raw "" then none else c.parse raw
read_item c (done none) = none
read_item c (failed e) = none

-- Outside a browser there is no `window`, and nothing is read or written.
module _ {S : Type 0} (c : Codec) (ls : WebStorage S) (window : Bool) where
  -- `loadSavedAddress`
  unfoldable pub load_saved_address : S → Option Json
  load_saved_address s =
      if window
      then Option.map (λ v. obj (spread (address_fields empty_address) (own v)))
          (read_item c (ls.get_item s address_storage_key))
      else none

  -- `loadReminderPref`
  unfoldable pub load_reminder_pref : S → Option Json
  load_reminder_pref s = if window then read_item c (ls.get_item s reminder_storage_key) else none

  -- `try { localStorage.setItem(key, value) } catch {}`
  unfoldable pub write_item : String → Json → S → S
  write_item key v s = elim (ls.set_item s key (c.stringify v)) [ done t ↦ t | failed e ↦ s ]

  -- `saveAddress`
  unfoldable pub save_address : ShippingAddress → S → S
  unfolding write_item
  save_address a s = if window then write_item address_storage_key (obj (address_fields a)) s else s

  -- `saveReminderPref`
  unfoldable pub save_reminder_pref : ReminderPref → S → S
  unfolding write_item
  save_reminder_pref p s = if window then write_item reminder_storage_key (pref_json p) s else s
