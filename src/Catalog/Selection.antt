-- ===== src/Catalog/Selection.antt =====
-- What the recommender returns: the matching products, in the order asked for, ties in catalogue order.
use x402_token_market.Base.{ℕ, ◌≤◌, ◌≡◌, refl, ◌==◌, List, [], ◌∷◌, arith, filter}
use x402_token_market.Catalog.{
  ProductTag, RecallSortBy, marvie_products, carries, sort_key, insert_by, sort_by, select_by_tags,
}

module _ {ℓ} {A : Type ℓ} (key : A → ℕ) where
  -- The keys rise along the list.
  abbrev pub IsSorted : List A → Type 0
  IsSorted [] = Unit
  IsSorted (x ∷ []) = Unit
  IsSorted (x ∷ y ∷ ys) = (key x ≤ key y) × IsSorted (y ∷ ys)

  insert_by-IsSorted : (x : A) (xs : List A) → IsSorted xs → IsSorted (insert_by key x xs)
  unfolding insert_by
  insert_by-IsSorted x [] h = tt
  insert_by-IsSorted x (y ∷ []) h = ground arith
  insert_by-IsSorted x (y ∷ z ∷ zs) (p, h) = ground (arith, insert_by-IsSorted x (z ∷ zs) h)

  sort_by-IsSorted : (xs : List A) → IsSorted (sort_by key xs)
  unfolding sort_by
  sort_by-IsSorted [] = tt
  sort_by-IsSorted (x ∷ xs) = insert_by-IsSorted x (sort_by key xs) (sort_by-IsSorted xs)

  -- Inserting keeps the elements of one key in their order.
  filter-insert_by :
      (k : ℕ) (x : A) (xs : List A)
      → filter (λ a. key a == k) (insert_by key x xs) ≡ filter (λ a. key a == k) (x ∷ xs)
  unfolding insert_by
  filter-insert_by k x [] = ground arith
  filter-insert_by k x (y ∷ ys) = ground (arith, filter-insert_by k x ys)

  filter-sort_by :
      (k : ℕ) (xs : List A)
      → filter (λ a. key a == k) (sort_by key xs) ≡ filter (λ a. key a == k) xs
  unfolding sort_by
  filter-sort_by k [] = refl
  filter-sort_by k (x ∷ xs) = rw (filter-insert_by k x (sort_by key xs), filter-sort_by k xs)

-- The selection is sorted by the key of the order asked for, and of each key value it holds exactly
-- the catalogue's products that carry every required tag, as often and in the same order.
pub select_by_tags_lem :
    (required : List ProductTag) (sort : RecallSortBy)
    → IsSorted (sort_key sort) (select_by_tags required sort)
      × ((k : ℕ)
          → filter (λ p. sort_key sort p == k) (select_by_tags required sort)
            ≡ filter (λ p. sort_key sort p == k) (filter (carries required) marvie_products))
unfolding select_by_tags
select_by_tags_lem required sort = (
  sort_by-IsSorted (sort_key sort) (filter (carries required) marvie_products),
  λ k. filter-sort_by (sort_key sort) k (filter (carries required) marvie_products),
)
