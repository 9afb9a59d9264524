-- ===== src/Tests/Shop.antt =====
-- The catalogue, the amounts and the cart at concrete inputs.
use mathlib.Core.List.{Memᴰ}
use x402_token_market.Base.{
  ◌+◌, ◌*◌, ◌≤◌, ◌≡◌, ◌≢◌, ◌↔◌, refl, true, some, List, [], ◌∷◌, map, filter_map, All, arith,
}
use x402_token_market.Json.{Json, null, get}
use x402_token_market.Samples.{cart_json}
use x402_token_market.Amount.{
  jpy_to_raw_usdc, clamp_checkout_usdc, jpy_to_checkout_usdc, get_checkout_clamp_state, to_micro,
}
use x402_token_market.Amount.Bounds.{charge_lem}
use x402_token_market.Catalog.{
  MarvieProduct, jam_strawberry, cooking, calories_asc, price_asc, marvie_products, carries,
  sort_key, select_by_tags, same_tag, sort_by, insert_by, get_product_by_id, get_product_by_sku,
  low_calorie,
}
use x402_token_market.Catalog.Queries.{Selects, HasTags, queries_lem}
use x402_token_market.Checkout.{Line, read_line, read_lines, cart_items}
use x402_token_market.Checkout.Pricing.{sum, read_lines_lem}

raw_of_1440 : jpy_to_raw_usdc 1440 ≡ 96000
unfolding jpy_to_raw_usdc
raw_of_1440 = refl

checkout_of_1440 : jpy_to_checkout_usdc 1440 ≡ 90000
unfolding jpy_to_checkout_usdc clamp_checkout_usdc jpy_to_raw_usdc
checkout_of_1440 = refl

cheapest_for_cooking :
    map (λ (p : MarvieProduct). p.price_jpy) (select_by_tags (cooking ∷ []) price_asc)
    ≡ 980 ∷ 1580 ∷ 1780 ∷ []
unfolding same_tag select_by_tags sort_by insert_by sort_key carries
cheapest_for_cooking = refl

abbrev sample_items : List Json
sample_items = cart_items (get "items" cart_json)

abbrev jam_line : Line
jam_line = record {
  product_id = "marvie_jam_strawberry";
  qty = 2;
  sku = "MARVIE-JM-STR";
  name_short = "低卡草莓果酱";
  price_jpy = 720;
}

read_lines_lem_example : (read_lines sample_items (0, []) ≡ some (1440, jam_line ∷ [])) ↔ (
    All (λ it. it ≢ null) sample_items
    × (jam_line ∷ [] ≡ filter_map read_line sample_items)
    × (1440 ≡ sum (jam_line ∷ [])))
read_lines_lem_example = read_lines_lem sample_items 1440 (jam_line ∷ [])

charge_lem_example :
    let s = get_checkout_clamp_state 580 in
    let micro = to_micro (jpy_to_checkout_usdc 580) in
    ((100_000 ≤ micro) × (micro ≤ 9_000_000) × (micro ≡ 100 * jpy_to_checkout_usdc 580))
    × ((150 * jpy_to_raw_usdc 580 ≤ 10000 * 580 + 75)
        × (10000 * 580 ≤ 150 * jpy_to_raw_usdc 580 + 75))
    × (jpy_to_checkout_usdc 580 ≤ jpy_to_checkout_usdc 1440)
    × ((s.is_floor_applied ≡ true) ↔ (580 ≤ 14))
    × ((s.is_cap_applied ≡ true) ↔ (1351 ≤ 580))
    × ((s.checkout_usdc ≢ s.raw_usdc) ↔ (s.is_floor_applied ≢ s.is_cap_applied))
charge_lem_example = charge_lem 580 1440 (omega arith)

queries_lem_example :
    Selects (low_calorie ∷ []) calories_asc
    × ((carries (low_calorie ∷ []) jam_strawberry ≡ true)
        ↔ HasTags (low_calorie ∷ []) jam_strawberry)
    × ((get_product_by_id "marvie_jam_strawberry" ≡ some jam_strawberry)
        ↔ (Memᴰ jam_strawberry marvie_products × (jam_strawberry.id ≡ "marvie_jam_strawberry")))
    × ((get_product_by_sku "MARVIE-JM-STR" ≡ some jam_strawberry)
        ↔ (Memᴰ jam_strawberry marvie_products × (jam_strawberry.sku ≡ "MARVIE-JM-STR")))
queries_lem_example =
    queries_lem (low_calorie ∷ []) calories_asc "marvie_jam_strawberry" "MARVIE-JM-STR"
      jam_strawberry
