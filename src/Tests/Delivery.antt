-- ===== src/Tests/Delivery.antt =====
-- Addresses at concrete inputs.
use x402_token_market.Base.{◌≡◌, ◌≤◌, ◌↔◌, refl, true, false, none, is_space}
use x402_token_market.Address.{ShippingAddress, is_blank, digits, address_errors, validate_address}
use x402_token_market.Address.Validity.{validate_address_iff}

abbrev tokyo : ShippingAddress
tokyo = record {
  recipient = "山田 花子";
  postal = "100-0001";
  prefecture = "東京都";
  city = "千代田区";
  street = "1-1";
  phone = "03-1234-5678";
  email = none;
}

validate_address_iff_example : ((validate_address tokyo).0 ≡ true) ↔ (
    (is_blank tokyo.recipient ≡ false)
    × (digits tokyo.postal ≡ 7)
    × (is_blank tokyo.prefecture ≡ false)
    × (is_blank tokyo.city ≡ false)
    × (is_blank tokyo.street ≡ false)
    × (10 ≤ digits tokyo.phone)
    × (digits tokyo.phone ≤ 11))
validate_address_iff_example = validate_address_iff tokyo

tokyo_accepted : (validate_address tokyo).0 ≡ true
unfolding validate_address address_errors is_blank is_space digits
tokyo_accepted = refl
