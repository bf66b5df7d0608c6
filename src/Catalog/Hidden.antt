-- ===== src/Catalog/Hidden.antt =====
-- What a look-up of alternatives does to later searches, if the index has expired.
use merchant_ai_agent.Base.{
  All-select, ℕ, suc, zero, ◌+◌, ◌<◌, ◌≡◌, refl, String, false, Option, none, some, List, [], ◌∷◌,
  map, take, select, str_eq, All, arith, Bool-cases, inl, inr, lt→ltb,
}
use merchant_ai_agent.Inventory.{Item, CatalogPayload, item_to_catalog_payload}
use merchant_ai_agent.Catalog.{CatalogCache, warm_catalog_cache, load_index}
use merchant_ai_agent.Catalog.Search.{
  Store, filter_non_expired, search_found, search_payloads, is_other_in_stock,
  alternatives_same_name,
}

-- An order keeps what holds of all rows.
abbrev pub Reorders : (List Item → List Item) → Type 1
Reorders order = (P : Item → Type 0) (items : List Item) → All P items → All P (order items)

module _ {A : Type 0} (P : A → Type 0) where
  All-take : (n : ℕ) (xs : List A) → All P xs → All P (take n xs)
  All-take zero xs h = tt
  All-take (suc n) [] h = tt
  All-take (suc n) (x ∷ xs) h = (h.0, All-take n xs h.1)

-- A payload of another brand, in stock.
pub record IsOther (exclude_brand : String) (p : CatalogPayload) : Type 0 where
  pub other : str_eq p.brand exclude_brand ≡ false
  pub in_stock : 0 < p.available_qty

module _ (store : Store) (reorders : Reorders store.by_stock) (now : ℕ)
    (item_name exclude_brand : String) where
  abbrev others : List Item → List Item
  others = select (is_other_in_stock store now item_name exclude_brand)

  others-IsOther :
      (items : List Item)
      → All (λ item. IsOther exclude_brand (item_to_catalog_payload item)) (others items)
  unfolding select is_other_in_stock item_to_catalog_payload
  others-IsOther [] = tt
  others-IsOther (item ∷ items) =
      elim (Bool-cases (is_other_in_stock store now item_name exclude_brand item)) [
        | inl e ↦
            rw e (record { other = ground arith; in_stock = ground arith }, others-IsOther items)
        | inr e ↦ rw e (others-IsOther items)
      ]

  payloads-IsOther :
      (items : List Item)
      → All (λ item. IsOther exclude_brand (item_to_catalog_payload item)) items
      → All (IsOther exclude_brand) (map item_to_catalog_payload items)
  payloads-IsOther [] h = tt
  payloads-IsOther (item ∷ items) h = (h.0, payloads-IsOther items h.1)

  abbrev rows : List Item → List Item
  rows items = store.by_stock (others items)

  -- The index that the look-up writes.
  written :
      (limit : ℕ) (items : List Item) (c : CatalogCache) (later : ℕ) (first : Item)
      (rest : List Item)
      → load_index now c ≡ none
      → rows items ≡ first ∷ rest
      → later < now + store.ttl
      → load_index later (alternatives_same_name store now item_name exclude_brand limit items c).0
        ≡ some (map item_to_catalog_payload (rows items))
  unfolding alternatives_same_name warm_catalog_cache load_index
  written limit items c later first rest cold found early =
      rw (cold, found, lt→ltb later (now + store.ttl) early) refl

  indexed :
      (later limit : ℕ) (query : String) (brand : Option String) (items : List Item)
      (index : List CatalogPayload) (o : Option (List CatalogPayload)) (c : CatalogCache)
      → o ≡ some index
      → All (IsOther exclude_brand) index
      → All (IsOther exclude_brand) (search_found store later query brand limit items o c).1
  unfolding search_found filter_non_expired
  indexed later limit query brand items index o c e h =
      rw e (All-take _ limit _ (All-select _ _ _ (All-select _ _ index h)))

  -- Where the index has expired, a look-up of alternatives for a brand, which finds another item in
  -- stock, hides every item of that brand, and every item that is sold out: until the new index expires
  -- no search returns one, whatever is asked and whatever the table holds by then.
  pub alternatives_hide_brand :
      (limit : ℕ) (items : List Item) (c : CatalogCache) (first : Item) (rest : List Item)
      (later limit' : ℕ) (query : String) (brand : Option String) (items' : List Item)
      → load_index now c ≡ none
      → rows items ≡ first ∷ rest
      → later < now + store.ttl
      → All
          (IsOther exclude_brand)
          (search_payloads store later query brand limit' items'
            (alternatives_same_name store now item_name exclude_brand limit items c).0).1
  unfolding search_payloads
  alternatives_hide_brand limit items c first rest later limit' query brand items' cold found
        early =
      indexed later limit' query brand items' (map item_to_catalog_payload (rows items)) _
        (alternatives_same_name store now item_name exclude_brand limit items c).0
        (written limit items c later first rest cold found early)
        (payloads-IsOther (rows items) (
          reorders (λ item. IsOther exclude_brand (item_to_catalog_payload item)) (others items)
            (others-IsOther items)))
