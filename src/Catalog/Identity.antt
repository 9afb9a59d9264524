-- ===== src/Catalog/Identity.antt =====
-- A look-up by id or by SKU finds exactly the catalogue's product of that id or SKU.
use mathlib.Core.List.{Memᴰ}
use x402_token_market.Base.{
  ◌≡◌, sym, ◌≢◌, ◌↔◌, refl, Bool, true, not, ◌&&◌, all, String, some, List, [], ◌∷◌, arith, str_eq,
  eq_iff, find, All, inl, inr, Bool-cases,
}
use x402_token_market.Catalog.{
  MarvieProduct, marvie_products, get_product_by_id, get_product_by_sku,
}

module _ {A : Type 0} (key : A → String) where
  abbrev HasDistinctKeys : List A → Type 0
  HasDistinctKeys [] = Unit
  HasDistinctKeys (x ∷ xs) = All (λ y. key x ≢ key y) xs × HasDistinctKeys xs

  distinct_keys : List A → Bool
  distinct_keys [] = true
  distinct_keys (x ∷ xs) = all (λ y. not (str_eq (key x) (key y))) xs && distinct_keys xs

  all-ne_sound :
      (x : A) (ys : List A)
      → all (λ y. not (str_eq (key x) (key y))) ys ≡ true
      → All (λ y. key x ≢ key y) ys
  all-ne_sound x [] h = tt
  all-ne_sound x (y ∷ ys) h = ground (arith, eq_iff (key x) (key y), all-ne_sound x ys)

  distinct_keys_sound : (xs : List A) → distinct_keys xs ≡ true → HasDistinctKeys xs
  unfolding distinct_keys
  distinct_keys_sound [] h = tt
  distinct_keys_sound (x ∷ xs) h = ground (arith, all-ne_sound x xs, distinct_keys_sound xs)

  key-ne_of_mem :
      (k : String) (xs : List A) {a : A} → All (λ y. k ≢ key y) xs → Memᴰ a xs → k ≢ key a
  key-ne_of_mem k [] h m = elim m [ ]
  key-ne_of_mem k (x ∷ xs) h (Memᴰ.head e) = rw e (h.0)
  key-ne_of_mem k (x ∷ xs) h (Memᴰ.tail m) = key-ne_of_mem k xs h.1 m

  find_sound :
      (k : String) (xs : List A) {a : A}
      → find (λ x. str_eq (key x) k) xs ≡ some a
      → Memᴰ a xs × (key a ≡ k)
  find_sound k [] e = cc
  find_sound k (x ∷ xs) {a} e = elim (Bool-cases (str_eq (key x) k)) [
    | inl same ↦
        let found : x ≡ a = ground arith in
        (Memᴰ.head (sym found), rw (← found) ((eq_iff (key x) k).0 same))
    | inr other ↦ let (m, q) = find_sound k xs {a = a} (ground arith) in (Memᴰ.tail m, q)
  ]

  find_complete :
      (k : String) (xs : List A) {a : A}
      → HasDistinctKeys xs
      → Memᴰ a xs
      → key a ≡ k
      → find (λ x. str_eq (key x) k) xs ≡ some a
  find_complete k [] d m q = elim m [ ]
  find_complete k (x ∷ xs) d (Memᴰ.head e) q = ground (arith, eq_iff (key x) k)
  find_complete k (x ∷ xs) {a} d (Memᴰ.tail m) q =
      ground (arith, eq_iff (key x) k, find_complete k xs d.1 m q, key-ne_of_mem (key x) xs d.0 m)

ids_distinct : HasDistinctKeys (λ p. p.id) marvie_products
unfolding distinct_keys
ids_distinct = distinct_keys_sound (λ p. p.id) marvie_products refl

skus_distinct : HasDistinctKeys (λ p. p.sku) marvie_products
unfolding distinct_keys
skus_distinct = distinct_keys_sound (λ p. p.sku) marvie_products refl

-- A look-up by id finds a product exactly when the catalogue lists it under that id.
pub get_product_by_id_iff :
    (id : String) (p : MarvieProduct)
    → (get_product_by_id id ≡ some p) ↔ (Memᴰ p marvie_products × (p.id ≡ id))
unfolding get_product_by_id
get_product_by_id_iff id p = (
  find_sound (λ p. p.id) id marvie_products,
  λ h. find_complete (λ p. p.id) id marvie_products ids_distinct h.0 h.1,
)

-- So does a look-up by SKU.
pub get_product_by_sku_iff :
    (sku : String) (p : MarvieProduct)
    → (get_product_by_sku sku ≡ some p) ↔ (Memᴰ p marvie_products × (p.sku ≡ sku))
unfolding get_product_by_sku
get_product_by_sku_iff sku p = (
  find_sound (λ p. p.sku) sku marvie_products,
  λ h. find_complete (λ p. p.sku) sku marvie_products skus_distinct h.0 h.1,
)

-- A look-up by id finds exactly the product of the catalogue that has the id, and a look-up by SKU the one
-- that has the SKU.
pub get_product_iff :
    (id sku : String) (p : MarvieProduct)
    → ((get_product_by_id id ≡ some p) ↔ (Memᴰ p marvie_products × (p.id ≡ id)))
      × ((get_product_by_sku sku ≡ some p) ↔ (Memᴰ p marvie_products × (p.sku ≡ sku)))
get_product_iff id sku p = (get_product_by_id_iff id p, get_product_by_sku_iff sku p)
