-- ===== src/Address/Validity.antt =====
-- Which addresses are accepted.
use x402_token_market.Base.{◌≡◌, ◌≤◌, ◌↔◌, true, false, arith}
use x402_token_market.Address.{ShippingAddress, is_blank, digits, address_errors, validate_address}

-- An address is accepted exactly if the recipient, prefecture, city and street each hold a character
-- other than a space, the postal code has seven digits and the phone number ten or eleven; digits are
-- counted and other characters passed over.
pub validate_address_iff :
    (a : ShippingAddress)
    → ((validate_address a).0 ≡ true) ↔ (
        (is_blank a.recipient ≡ false)
        × (digits a.postal ≡ 7)
        × (is_blank a.prefecture ≡ false)
        × (is_blank a.city ≡ false)
        × (is_blank a.street ≡ false)
        × (10 ≤ digits a.phone)
        × (digits a.phone ≤ 11))
unfolding validate_address address_errors
validate_address_iff a = ground arith
