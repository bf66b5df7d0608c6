-- ===== src/Catalog/Search.antt =====
-- `_search_payloads`, `get_by_id` and `alternatives_same_name` of CatalogService in
-- services/merchant_agent/catalog_service.py.
use merchant_ai_agent.Base.{
  ℕ, String, Bool, not, ◌&&◌, Option, none, some, List, [], ◌∷◌, map, take, select, find_first,
  str_eq, ◌==◌, ltb, if◌then◌else◌,
}
use merchant_ai_agent.Uuid.{Uuid}
use merchant_ai_agent.Strings.{same_lower, strip_text}
use merchant_ai_agent.Inventory.{Item, CatalogPayload, item_to_catalog_payload, cache_get}
use merchant_ai_agent.Catalog.{CatalogCache, refresh_items, warm_catalog_cache, load_index}
use merchant_ai_agent.Catalog.Match.{payload_matches}

-- How the database orders rows by name and brand, and by the quantity from the largest on; the life of
-- a key; and the date.
pub record Store : Type 0 where
  pub by_name : List Item → List Item
  pub by_stock : List Item → List Item
  pub ttl : ℕ
  pub today : ℕ

-- `_filter_non_expired`
unfoldable pub filter_non_expired : ℕ → List CatalogPayload → List CatalogPayload
unfolding select
filter_non_expired today = select (λ (p : CatalogPayload). not (ltb p.expiry_date today))

unfoldable pub is_match : String → Option String → CatalogPayload → Bool
is_match item_name brand p = payload_matches item_name brand p.name p.brand

unfoldable pub active_items : List Item → List Item
unfolding select
active_items = select (λ (item : Item). item.is_active)

module _ (store : Store) where
  unfoldable pub search_found :
      ℕ
      → String
      → Option String
      → ℕ
      → List Item
      → Option (List CatalogPayload)
      → CatalogCache
      → CatalogCache × List CatalogPayload
  unfolding filter_non_expired is_match select active_items warm_catalog_cache
      item_to_catalog_payload
  search_found now item_name brand limit items (some index) c = (
    c,
    take limit (
        filter_non_expired store.today
          (select (λ (p : CatalogPayload). p.is_active && is_match item_name brand p) index)),
  )
  search_found now item_name brand limit items none c =
      let rows = store.by_name (active_items items) in
      (
        warm_catalog_cache store.ttl now rows c,
        take limit (
            filter_non_expired store.today
              (select (is_match item_name brand) (map item_to_catalog_payload rows))),
      )

  -- `_search_payloads`, with what the table `items` holds.
  unfoldable pub search_payloads :
      ℕ → String → Option String → ℕ → List Item → CatalogCache → CatalogCache × List CatalogPayload
  unfolding search_found load_index
  search_payloads now item_name brand limit items c =
      search_found now item_name brand limit items (load_index now c) c

  unfoldable pub if_in_date : CatalogPayload → Option CatalogPayload
  if_in_date p = if ltb p.expiry_date store.today then none else some p

  unfoldable pub from_items : ℕ → Option Item → CatalogCache → CatalogCache × Option CatalogPayload
  unfolding refresh_items item_to_catalog_payload
  from_items now none c = (c, none)
  from_items now (some item) c =
      if ltb item.expiry_date store.today
      then (c, none)
      else (refresh_items store.ttl now (item ∷ []) c, some (item_to_catalog_payload item))

  unfoldable pub cached_or_item :
      ℕ
      → Uuid
      → List Item
      → Option CatalogPayload
      → CatalogCache
      → CatalogCache × Option CatalogPayload
  unfolding if_in_date from_items find_first
  cached_or_item now id items (some p) c = (c, if_in_date p)
  cached_or_item now id items none c =
      from_items now (find_first (λ (item : Item). item.id == id && item.is_active) items) c

  -- `get_by_id`
  unfoldable pub get_by_id :
      ℕ → Uuid → List Item → CatalogCache → CatalogCache × Option CatalogPayload
  unfolding cached_or_item cache_get
  get_by_id now id items c = cached_or_item now id items (cache_get id now c.entries) c

-- The stable sort from the largest quantity on.
unfoldable pub put_sorted : CatalogPayload → List CatalogPayload → List CatalogPayload
put_sorted p [] = p ∷ []
put_sorted p (q ∷ qs) =
    let rest = put_sorted p qs in
    if ltb p.available_qty q.available_qty then q ∷ rest else p ∷ q ∷ qs

unfoldable pub sort_by_stock : List CatalogPayload → List CatalogPayload
unfolding put_sorted
sort_by_stock [] = []
sort_by_stock (p ∷ ps) = put_sorted p (sort_by_stock ps)

module _ (store : Store) (now : ℕ) (item_name exclude_brand : String) where
  unfoldable pub is_alternative : CatalogPayload → Bool
  unfolding is_match same_lower strip_text
  is_alternative p =
      is_match item_name none p && not (same_lower p.brand (strip_text exclude_brand))

  -- The `WHERE` of the look-up in the database, which compares the brand as it is.
  unfoldable pub is_other_in_stock : Item → Bool
  is_other_in_stock item =
      item.is_active && (not (str_eq item.brand exclude_brand) && ltb 0 item.quantity_available)

  unfoldable pub alternatives_found :
      ℕ
      → List Item
      → Option (List CatalogPayload)
      → CatalogCache
      → CatalogCache × List CatalogPayload
  unfolding is_alternative filter_non_expired select sort_by_stock is_other_in_stock
      warm_catalog_cache item_to_catalog_payload
  alternatives_found limit items (some index) c = (
    c,
    take limit (
        sort_by_stock (
          filter_non_expired store.today (
            select
              (λ (p : CatalogPayload). p.is_active && (is_alternative p && ltb 0 p.available_qty))
              index))),
  )
  alternatives_found limit items none c =
      let rows = store.by_stock (select is_other_in_stock items) in
      (
        warm_catalog_cache store.ttl now rows c,
        take limit (
            filter_non_expired store.today
              (select is_alternative (map item_to_catalog_payload rows))),
      )

  -- `alternatives_same_name`
  unfoldable pub alternatives_same_name :
      ℕ → List Item → CatalogCache → CatalogCache × List CatalogPayload
  unfolding alternatives_found load_index
  alternatives_same_name limit items c = alternatives_found limit items (load_index now c) c
