-- ===== src/Storage/RoundTrip.antt =====
-- What is loaded after a save.
use x402_token_market.Base.{
  ◌≡◌, ◌≢◌, refl, sym, ap, ◌⊎◌, inl, inr, true, Bool-cases, String, Option, none, some, str_eq,
  eq_iff, or_else, arith,
}
use x402_token_market.Json.{Json, obj}
use x402_token_market.Json.Codec.{Codec}
use x402_token_market.Net.{Thrown, Outcome, done, failed}
use x402_token_market.Address.{ShippingAddress}
use x402_token_market.Storage.{
  WebStorage, Remembers, address_fields, address_storage_key, reminder_storage_key, read_item,
  load_saved_address, load_reminder_pref, write_item, save_address, save_reminder_pref,
  ReminderPref, pref_json, spread, empty_address,
}

-- `JSON.parse` reads what `JSON.stringify` writes, and an empty text is no JSON.
abbrev pub Reads : Codec → Json → Type 0
Reads c v = (c.parse (c.stringify v) ≡ some v) × (c.parse "" ≡ none)

read_item-stringify :
    (c : Codec) (v : Json) → Reads c v → read_item c (done (some (c.stringify v))) ≡ some v
unfolding read_item
read_item-stringify c v (reads, none_read) = elim (Bool-cases (str_eq (c.stringify v) "")) [
  | inl e ↦ absurd (ground (arith, (eq_iff (c.stringify v) "").0 e))
  | inr e ↦ rw e reads
]

module _ {S : Type 0} (c : Codec) (ls : WebStorage S) where
  -- A write is refused, and nothing has changed, or the item is read back and every other one stays.
  abbrev Written : String → Json → S → S → Type 0
  Written key v s t =
      ((t ≡ s) × ((e : Thrown) × (ls.set_item s key (c.stringify v) ≡ failed e)))
      ⊎ ((read_item c (ls.get_item t key) ≡ some v)
          × ((other : String) → key ≢ other → ls.get_item t other ≡ ls.get_item s other))

  write_item-Written :
      (key : String) (v : Json) (s : S)
      → Remembers ls
      → Reads c v
      → Written key v s (write_item c ls true key v s)
  unfolding write_item
  write_item-Written key v s law reads = go (ls.set_item s key (c.stringify v)) refl
    where
      go :
          (o : Outcome S)
          → ls.set_item s key (c.stringify v) ≡ o
          → Written key v s (elim o [ done t ↦ t | failed e ↦ s ])
      go (failed e) same = inl (refl, (e, same))
      go (done t) same = inr (
        rw ((law s t key (c.stringify v) same).0) (read_item-stringify c v reads),
        (law s t key (c.stringify v) same).1,
      )

-- An address whose email is there.
abbrev pub filled : ShippingAddress → ShippingAddress
filled a = record a { email = some (or_else a.email "") }

spread-address_fields :
    (a : ShippingAddress)
    → spread (address_fields empty_address) (address_fields a) ≡ address_fields (filled a)
spread-address_fields a = go a.email
  where
    go :
        (e : Option String)
        → spread (address_fields empty_address) (address_fields (record a { email = e }))
          ≡ address_fields (filled (record a { email = e }))
    go none = refl
    go (some e) = refl

module _ {S : Type 0} (c : Codec) (ls : WebStorage S) where
  -- The save was refused and has changed nothing, or the address is loaded and the reminder is not touched.
  abbrev pub AddressSaved : ShippingAddress → S → S → Type 0
  AddressSaved a s t =
      ((t ≡ s)
        × ((e : Thrown) × (ls.set_item s address_storage_key (c.stringify (obj (address_fields a)))
              ≡ failed e)))
      ⊎ ((load_saved_address c ls true t ≡ some (obj (address_fields (filled a))))
          × (load_reminder_pref c ls true t ≡ load_reminder_pref c ls true s))

  abbrev pub ReminderSaved : ReminderPref → S → S → Type 0
  ReminderSaved p s t =
      ((t ≡ s)
        × ((e : Thrown) × (ls.set_item s reminder_storage_key (c.stringify (pref_json p))
              ≡ failed e)))
      ⊎ ((load_reminder_pref c ls true t ≡ some (pref_json p))
          × (load_saved_address c ls true t ≡ load_saved_address c ls true s))

address_key-ne-reminder_key : address_storage_key ≢ reminder_storage_key
address_key-ne-reminder_key =
    λ e. absurd (ground (arith, (eq_iff address_storage_key reminder_storage_key).1 e))

-- An address that is saved in a browser is loaded again, with an empty email where it had none, and the
-- reminder is loaded as before; or the browser refuses to store it and nothing has changed. Storage is
-- taken to read back what is written, key by key, and JSON.parse to read what JSON.stringify writes.
load-save_address :
    {S : Type 0} (c : Codec) (ls : WebStorage S) (a : ShippingAddress) (s : S)
    → Remembers ls
    → Reads c (obj (address_fields a))
    → AddressSaved c ls a s (save_address c ls true a s)
unfolding save_address load_saved_address load_reminder_pref
load-save_address c ls a s law reads =
    elim (write_item-Written c ls address_storage_key (obj (address_fields a)) s law reads) [
      | inl refused ↦ inl refused
      | inr (same, others) ↦ inr (
        rw same (rw (spread-address_fields a) refl),
        ap (read_item c) (others reminder_storage_key address_key-ne-reminder_key),
      )
    ]

-- A reminder that is saved in a browser is loaded again as it was, and the address is loaded as before;
-- or the browser refuses to store it and nothing has changed. Storage is taken to
-- read back what is written, key by key, and JSON.parse to read what JSON.stringify writes.
load-save_reminder_pref :
    {S : Type 0} (c : Codec) (ls : WebStorage S) (p : ReminderPref) (s : S)
    → Remembers ls
    → Reads c (pref_json p)
    → ReminderSaved c ls p s (save_reminder_pref c ls true p s)
unfolding save_reminder_pref load_saved_address load_reminder_pref
load-save_reminder_pref c ls p s law reads =
    elim (write_item-Written c ls reminder_storage_key (pref_json p) s law reads) [
      | inl refused ↦ inl refused
      | inr (same, others) ↦
          inr
            (same, rw (others address_storage_key (λ e. address_key-ne-reminder_key (sym e))) refl)
    ]

-- Where storage reads back what is written, key by key, and JSON.parse reads what JSON.stringify writes:
-- an address that is saved in a browser is loaded again, with an empty email where it had none, and the
-- reminder is loaded as before; a reminder that is saved is loaded again as it was, and the address as
-- before. Or the browser refuses to store it, and nothing has changed.
pub storage_round_trip :
    {S : Type 0} (c : Codec) (ls : WebStorage S) (a : ShippingAddress) (p : ReminderPref) (s : S)
    → Remembers ls
    → Reads c (obj (address_fields a))
    → Reads c (pref_json p)
    → AddressSaved c ls a s (save_address c ls true a s)
      × ReminderSaved c ls p s (save_reminder_pref c ls true p s)
storage_round_trip c ls a p s law address pref =
    (load-save_address c ls a s law address, load-save_reminder_pref c ls p s law pref)
