-- ===== src/Checkout/Cart.antt =====
-- The cart of the checkout route: the items of the request, priced from the catalogue.
use mathlib.Core.Option
use x402_token_market.Base.{
  ℕ, ◌+◌, ◌*◌, ◌/◌, suc, ◌&&◌, ◌||◌, not, String, Option, none, some, List, [], ◌∷◌, ◌++◌, ltb, leb,
  str_eq, if◌then◌else◌, or_else,
}
use x402_token_market.Json.{Json, null, num, arr, elems, get, as_string}
use x402_token_market.Catalog.{MarvieProduct, get_product_by_id}

pub record Line : Type 0 where
  pub product_id : String
  pub qty : ℕ
  pub sku : String
  pub name_short : String
  pub price_jpy : ℕ

-- `typeof it.qty === "number" && it.qty > 0 ? Math.floor(it.qty) : 0`
unfoldable pub whole_qty : Option Json → ℕ
whole_qty (some (num n)) = if not n.negative && ltb 0 n.top then n.top / suc n.under else 0
whole_qty _ = 0

-- `typeof it.productId === "string" ? it.productId : ""`
unfoldable pub item_id : Option Json → String
item_id v = or_else (as_string v) ""

abbrev pub line_of : String → ℕ → MarvieProduct → Line
line_of id qty product = record {
  product_id = id;
  qty = qty;
  sku = product.sku;
  name_short = product.short_name;
  price_jpy = product.price_jpy;
}

-- One round of the loop: the line of an item, if it has one.
unfoldable pub read_line : Json → Option Line
read_line it =
    let id = item_id (get "productId" it) in
    let qty = whole_qty (get "qty" it) in
    if str_eq id "" || leb qty 0 then none else Option.map (line_of id qty) (get_product_by_id id)

-- An item that is null: reading its fields throws.
unfoldable pub read_item : Json → Option (Option Line)
read_item null = none
read_item it = some (read_line it)

-- `totalJpy += …; lineSummary.push(…)`, or `continue`.
abbrev pub add_line : Option Line → ℕ × List Line → ℕ × List Line
add_line none acc = acc
add_line (some l) (total, lines) = (total + l.price_jpy * l.qty, lines ++ l ∷ [])

-- The loop over the items, on the total and the lines so far; `none` where it throws.
unfoldable pub read_lines : List Json → ℕ × List Line → Option (ℕ × List Line)
read_lines [] acc = some acc
read_lines (it ∷ rest) acc = elim (read_item it) [
  | none ↦ none
  | some l ↦ read_lines rest (add_line l acc)
]

-- `Array.isArray(body.items) ? body.items : []`
abbrev pub cart_items : Option Json → List Json
cart_items (some (arr vs)) = elems vs
cart_items _ = []
