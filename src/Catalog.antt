-- ===== src/Catalog.antt =====
-- The MARVIE catalogue and its recommender, haba/src/lib/haba/products.ts, with the product types of
-- haba/src/lib/haba/types.ts. Calories are in tenths of a kcal.
mod Types
mod Products
pub mod Selection
pub mod Identity
pub mod Queries
unfoldable pub use Types.*
pub use Products.*
use x402_token_market.Base.{
  ℕ, leb, Bool, String, Option, List, [], ◌∷◌, str_eq, all, any, filter, find, or_else,
  if◌then◌else◌,
}

-- `required.every((t) => p.tags.includes(t))`
unfoldable pub carries : List ProductTag → MarvieProduct → Bool
carries required p = all (λ t. any (same_tag t) p.tags) required

-- The number that the comparator of `sort_by` subtracts; no comparator but 0 for `popular_first`.
unfoldable pub sort_key : RecallSortBy → MarvieProduct → ℕ
sort_key calories_asc p = p.calories
sort_key sweetness_asc p = or_else p.sweetness_ratio_to_sugar 0
sort_key price_asc p = p.price_jpy
sort_key popular_first p = 0

-- `Array.prototype.sort` with the comparator `key a - key b`: a stable sort.
module _ {ℓ} {A : Type ℓ} (key : A → ℕ) where
  unfoldable pub insert_by : A → List A → List A
  insert_by x [] = x ∷ []
  insert_by x (y ∷ ys) =
      let later = insert_by x ys in if leb (key x) (key y) then x ∷ y ∷ ys else y ∷ later

  unfoldable pub sort_by : List A → List A
  sort_by [] = []
  sort_by (x ∷ xs) = insert_by x (sort_by xs)

-- `selectByTags`
unfoldable pub select_by_tags : List ProductTag → RecallSortBy → List MarvieProduct
select_by_tags required sort = sort_by (sort_key sort) (filter (carries required) marvie_products)

-- `getProductById`
unfoldable pub get_product_by_id : String → Option MarvieProduct
get_product_by_id id = find (λ p. str_eq p.id id) marvie_products

-- `getProductBySku`
unfoldable pub get_product_by_sku : String → Option MarvieProduct
get_product_by_sku sku = find (λ p. str_eq p.sku sku) marvie_products
