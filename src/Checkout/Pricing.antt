-- ===== src/Checkout/Pricing.antt =====
-- The cart is priced from the catalogue: the loop over the items against its plain description.
use mathlib.Core.List.{Memᴰ, append_assoc, append-nil}
use mathlib.Core.Path.{ap₂}
use x402_token_market.Base.{
  ℕ, ◌+◌, ◌*◌, ◌<◌, ◌≡◌, ◌≢◌, ◌↔◌, refl, ◌∙◌, sym, ap, String, Option, some, List, [], ◌∷◌, ◌++◌,
  arith, filter_map, All, Option-cases, inl, inr,
}
use x402_token_market.Json.{Json, null, obj, get}
use x402_token_market.Catalog.{MarvieProduct, marvie_products, get_product_by_id}
use x402_token_market.Catalog.Identity.{get_product_by_id_iff}
use x402_token_market.Checkout.Cart.{
  Line, line_of, whole_qty, item_id, read_line, read_item, add_line, read_lines,
}

-- The price of a list of lines.
pub sum : List Line → ℕ
sum [] = 0
sum (l ∷ ls) = l.price_jpy * l.qty + sum ls

-- A line names a product of the catalogue at the catalogue's price, in a positive quantity.
pub record IsPriced (l : Line) : Type 0 where
  pub product : MarvieProduct
  pub listed : Memᴰ product marvie_products
  pub id : product.id ≡ l.product_id
  pub sku : product.sku ≡ l.sku
  pub price : product.price_jpy ≡ l.price_jpy
  pub some_qty : 0 < l.qty

line_of-IsPriced :
    (id : String) (qty : ℕ) (p : MarvieProduct)
    → get_product_by_id id ≡ some p
    → 0 < qty
    → IsPriced (line_of id qty p)
line_of-IsPriced id qty p found positive =
    let (listed, same) = (get_product_by_id_iff id p).0 found in
    record {
      product = p;
      listed = listed;
      id = same;
      sku = refl;
      price = refl;
      some_qty = positive;
    }

read_line-IsPriced : (it : Json) (l : Line) → read_line it ≡ some l → IsPriced l
unfolding read_line
read_line-IsPriced it l e = elim (Option-cases (get_product_by_id (item_id (get "productId" it)))) [
  | inl missing ↦ ground arith
  | inr (p, found) ↦
      let same : line_of (item_id (get "productId" it)) (whole_qty (get "qty" it)) p ≡ l =
        ground arith in
      rw (← same) (
        line_of-IsPriced (item_id (get "productId" it)) (whole_qty (get "qty" it)) p found
          (ground arith))
]

filter_map-IsPriced : (its : List Json) → All IsPriced (filter_map read_line its)
filter_map-IsPriced [] = tt
filter_map-IsPriced (it ∷ its) = elim (Option-cases (read_line it)) [
  | inl e ↦ rw (e, filter_map) (filter_map-IsPriced its)
  | inr (l, e) ↦ rw (e, filter_map) (read_line-IsPriced it l e, filter_map-IsPriced its)
]

sum-append : (xs ys : List Line) → sum (xs ++ ys) ≡ sum xs + sum ys
unfolding sum
sum-append [] ys = omega arith
sum-append (x ∷ xs) ys = omega (arith, sum-append xs ys)

read_item-eq : (it : Json) → it ≢ null → read_item it ≡ some (read_line it)
unfolding read_item
read_item-eq null h = absurd (h refl)
read_item-eq (obj r) h = refl
read_item-eq _ h = refl

read_lines-cons :
    (it : Json) (its : List Json) (acc : ℕ × List Line)
    → it ≢ null
    → read_lines (it ∷ its) acc ≡ read_lines its (add_line (read_line it) acc)
unfolding read_lines
read_lines-cons it its acc h = rw (read_item-eq it h, read_lines) refl

some_pair :
    {a b : ℕ} {xs ys : List Line}
    → a ≡ b
    → xs ≡ ys
    → ◌≡◌ {A = Option (ℕ × List Line)} (some (a, xs)) (some (b, ys))
some_pair p q = ap some (ap₂ (λ (a : ℕ) (b : List Line). (a, b)) p q)

some_pair_inv :
    {a b : ℕ} {xs ys : List Line}
    → ◌≡◌ {A = Option (ℕ × List Line)} (some (a, xs)) (some (b, ys))
    → (a ≡ b) × (xs ≡ ys)
some_pair_inv e = (cc, cc)

-- The loop keeps a running total and appends to its list; it gives what the plain description adds.
read_lines-eq :
    (its : List Json) (total : ℕ) (lines : List Line)
    → All (λ it. it ≢ null) its
    → read_lines its (total, lines)
      ≡ some (total + sum (filter_map read_line its), lines ++ filter_map read_line its)
unfolding read_lines sum
read_lines-eq [] total lines h = some_pair (omega arith) (sym (append-nil lines))
read_lines-eq (it ∷ its) total lines (h, hs) = elim (Option-cases (read_line it)) [
  | inl e ↦
      read_lines-cons it its (total, lines) h
      ∙ rw (e, filter_map) (read_lines-eq its total lines hs)
  | inr (l, e) ↦
      read_lines-cons it its (total, lines) h
      ∙ rw (e, filter_map)
          (read_lines-eq its (total + l.price_jpy * l.qty) (lines ++ l ∷ []) hs
            ∙ some_pair (omega arith) (append_assoc lines (l ∷ []) (filter_map read_line its)))
]

-- A loop that ends has met no null.
read_lines-ne-null :
    (its : List Json) (acc : ℕ × List Line) {r : ℕ × List Line}
    → read_lines its acc ≡ some r
    → All (λ it. it ≢ null) its
unfolding read_lines read_item
read_lines-ne-null [] acc e = tt
read_lines-ne-null (null ∷ its) acc e = cc
read_lines-ne-null (obj r ∷ its) acc e =
    (λ q. cc, read_lines-ne-null its (add_line (read_line (obj r)) acc) e)
read_lines-ne-null (it ∷ its) acc e =
    (λ q. cc, read_lines-ne-null its (add_line (read_line it) acc) e)

-- If the loop over the items of a cart ends, then its lines are those of the items that have one,
-- each a product of the catalogue at its price, and its total is the price of these lines; it
-- ends if and only if no item is null.
pub read_lines_lem :
    (its : List Json) (total : ℕ) (lines : List Line)
    → (read_lines its (0, []) ≡ some (total, lines))
      ↔ (All (λ it. it ≢ null) its × (lines ≡ filter_map read_line its) × (total ≡ sum lines))
read_lines_lem its total lines = (
  λ e.
      let h = read_lines-ne-null its (0, []) e in
      let (priced, same) = some_pair_inv (sym e ∙ read_lines-eq its 0 [] h) in
      (h, same, omega (arith, ap sum same)),
  λ (h, same, priced). read_lines-eq its 0 [] h ∙ some_pair (omega (arith, ap sum same)) (sym same),
)

-- The lines of a cart that was read are products of the catalogue at their prices.
pub read_lines-IsPriced :
    (its : List Json) (total : ℕ) (lines : List Line)
    → read_lines its (0, []) ≡ some (total, lines)
    → All IsPriced lines × (total ≡ sum lines)
read_lines-IsPriced its total lines e =
    let (_, same, priced) = (read_lines_lem its total lines).0 e in
    (rw same (filter_map-IsPriced its), priced)
