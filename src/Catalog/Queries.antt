-- ===== src/Catalog/Queries.antt =====
-- The queries of the catalogue together.
use mathlib.Core.List.{Memᴰ}
use x402_token_market.Base.{
  ℕ, ◌≡◌, refl, ◌↔◌, ◌==◌, true, inl, inr, Bool-cases, String, some, List, [], ◌∷◌, map, any, All,
  filter, or_else, eq_iff, arith,
}
use x402_token_market.Catalog.{
  ProductTag, RecallSortBy, calories_asc, sweetness_asc, price_asc, popular_first, MarvieProduct,
  marvie_products, tag_text, same_tag, carries, sort_key, select_by_tags, get_product_by_id,
  get_product_by_sku,
}
use x402_token_market.Catalog.Selection.{IsSorted, select_by_tags_lem}
use x402_token_market.Catalog.Identity.{get_product_iff}

same_tag_iff : (a b : ProductTag) → (same_tag a b ≡ true) ↔ (tag_text a ≡ tag_text b)
unfolding same_tag
same_tag_iff a b = eq_iff (tag_text a) (tag_text b)

abbrev AnyIff : ProductTag → List ProductTag → Type 0
AnyIff t ts = (any (same_tag t) ts ≡ true) ↔ Memᴰ (tag_text t) (map tag_text ts)

any_step : (t u : ProductTag) (us : List ProductTag) → AnyIff t us → AnyIff t (u ∷ us)
any_step t u us rest = (
  λ e. elim (Bool-cases (same_tag t u)) [
    | inl h ↦ Memᴰ.head ((same_tag_iff t u).0 h)
    | inr h ↦ Memᴰ.tail (rest.0 (ground arith))
  ],
  back,
)
  where
    back : Memᴰ (tag_text t) (map tag_text (u ∷ us)) → any (same_tag t) (u ∷ us) ≡ true
    back (Memᴰ.head e) = ground (arith, (same_tag_iff t u).1 e)
    back (Memᴰ.tail m) = ground (arith, rest.1 m)

any_iff : (t : ProductTag) (ts : List ProductTag) → AnyIff t ts
any_iff t [] = (λ e. absurd (ground arith), λ m. elim m [ ])
any_iff t (u ∷ us) = any_step t u us (any_iff t us)

-- Each of the tags stands among those of the product.
abbrev pub HasTags : List ProductTag → MarvieProduct → Type 0
HasTags required p = All (λ t. Memᴰ (tag_text t) (map tag_text p.tags)) required

carries_iff :
    (required : List ProductTag) (p : MarvieProduct)
    → (carries required p ≡ true) ↔ HasTags required p
unfolding carries
carries_iff [] p = (λ e. tt, λ h. refl)
carries_iff (t ∷ ts) p = (
  λ e. ((any_iff t p.tags).0 (ground arith), (carries_iff ts p).0 (ground arith)),
  λ h. ground (arith, (any_iff t p.tags).1 h.0, (carries_iff ts p).1 h.1),
)

-- What each order goes by: calories, sweetness (0 where there is none), price, or nothing.
abbrev pub key_of : RecallSortBy → MarvieProduct → ℕ
key_of calories_asc p = p.calories
key_of sweetness_asc p = or_else p.sweetness_ratio_to_sugar 0
key_of price_asc p = p.price_jpy
key_of popular_first p = 0

-- A selection, sorted and complete.
abbrev pub Selects : List ProductTag → RecallSortBy → Type 0
Selects required sort =
    IsSorted (key_of sort) (select_by_tags required sort)
    × ((k : ℕ)
        → filter (λ q. key_of sort q == k) (select_by_tags required sort)
          ≡ filter (λ q. key_of sort q == k) (filter (carries required) marvie_products))

select_by_tags-Selects : (required : List ProductTag) (sort : RecallSortBy) → Selects required sort
unfolding sort_key
select_by_tags-Selects required calories_asc = select_by_tags_lem required calories_asc
select_by_tags-Selects required sweetness_asc = select_by_tags_lem required sweetness_asc
select_by_tags-Selects required price_asc = select_by_tags_lem required price_asc
select_by_tags-Selects required popular_first = select_by_tags_lem required popular_first

-- A selection is sorted by what the order asked for goes by, and of each key it holds exactly the products of
-- the catalogue that are taken for carrying the tags, as often and in the same order; a product is
-- taken for that exactly if each of the tags stands among its own. A look-up by id finds exactly the
-- product of the catalogue that has the id, and a look-up by SKU the one that has the SKU.
pub queries_lem :
    (required : List ProductTag) (sort : RecallSortBy) (id sku : String) (p : MarvieProduct)
    → Selects required sort
      × ((carries required p ≡ true) ↔ HasTags required p)
      × ((get_product_by_id id ≡ some p) ↔ (Memᴰ p marvie_products × (p.id ≡ id)))
      × ((get_product_by_sku sku ≡ some p) ↔ (Memᴰ p marvie_products × (p.sku ≡ sku)))
queries_lem required sort id sku p =
    let (by_id, by_sku) = get_product_iff id sku p in
    (select_by_tags-Selects required sort, carries_iff required p, by_id, by_sku)
