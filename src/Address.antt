-- ===== src/Address.antt =====
-- The shipping address of the shop's checkout, haba/src/lib/haba/checkout.ts: what validateAddress
-- accepts and what it says of each field.
pub mod Validity
use Prim.Native.Char.{code}
use Prim.Native.String.{[], ◌∷◌}
use x402_token_market.Base.{
  ℕ, zero, is_space, suc, Bool, true, false, not, ◌&&◌, ◌||◌, ◌==◌, ltb, leb, String, Option, none,
  some, if◌then◌else◌,
}

pub record ShippingAddress : Type 0 where
  pub recipient : String
  pub postal : String
  pub prefecture : String
  pub city : String
  pub street : String
  pub phone : String
  pub email : Option String

-- The errors of an address, by field; `validateAddress` writes none for `email`.
pub record AddressErrors : Type 0 where
  pub recipient : Option String
  pub postal : Option String
  pub prefecture : Option String
  pub city : Option String
  pub street : Option String
  pub phone : Option String

-- `!s.trim()`
unfoldable pub is_blank : String → Bool
is_blank [] = true
is_blank (c ∷ s) = is_space (code c) && is_blank s

abbrev pub is_digit : ℕ → Bool
is_digit n = leb 48 n && leb n 57

-- `s.replace(/[^0-9]/g, "").length`
unfoldable pub digits : String → ℕ
digits [] = 0
digits (c ∷ s) = let rest = digits s in if is_digit (code c) then suc rest else rest

abbrev pub required : String → String → Option String
required s why = if is_blank s then some why else none

-- `errors` of `validateAddress`
unfoldable pub address_errors : ShippingAddress → AddressErrors
address_errors a = record {
  recipient = required a.recipient "请填写收件人姓名";
  postal = if not (digits a.postal == 7) then some "邮编需 7 位数字" else none;
  prefecture = required a.prefecture "请选择都道府县";
  city = required a.city "请填写市区町村";
  street = required a.street "请填写番地 / 建物名";
  phone = if ltb (digits a.phone) 10 || ltb 11 (digits a.phone) then some "电话需 10–11 位数字" else none;
}

abbrev is_missing : Option String → Bool
is_missing none = true
is_missing (some s) = false

-- `Object.keys(errors).length === 0`
abbrev pub has_no_error : AddressErrors → Bool
has_no_error e =
    is_missing e.recipient
    && is_missing e.postal
    && is_missing e.prefecture
    && is_missing e.city
    && is_missing e.street
    && is_missing e.phone

-- `validateAddress`
unfoldable pub validate_address : ShippingAddress → Bool × AddressErrors
validate_address a = (has_no_error (address_errors a), address_errors a)
