-- ===== src/Catalog.antt =====
-- The catalog cache of services/merchant_agent/catalog_service.py: an entry for each item, and the
-- index. The orders of the database are parameters. Times are in seconds.
pub mod Match
pub mod Search
pub mod Hidden
mod Tests
use merchant_ai_agent.Base.{
  ℕ, ◌+◌, Bool, true, false, Option, none, some, List, [], ◌∷◌, map, ◌==◌, ltb, select,
  if◌then◌else◌,
}
use merchant_ai_agent.Uuid.{Uuid}
use merchant_ai_agent.Inventory.{
  Item, CatalogPayload, item_to_catalog_payload, Entry, Cache, refresh_catalog_items,
}

pub record CatalogCache : Type 0 where
  pub entries : Cache CatalogPayload
  pub index : Option (Entry (List CatalogPayload))

unfoldable pub cache_delete : Uuid → Cache CatalogPayload → Cache CatalogPayload
cache_delete id [] = []
cache_delete id ((j, e) ∷ c) =
    let rest = cache_delete id c in if j == id then rest else (j, e) ∷ rest

unfoldable pub delete_entries : List Uuid → Cache CatalogPayload → Cache CatalogPayload
unfolding cache_delete
delete_entries [] c = c
delete_entries (id ∷ ids) c = delete_entries ids (cache_delete id c)

-- `invalidate_catalog_items`
unfoldable pub invalidate_catalog_items : List Uuid → CatalogCache → CatalogCache
unfolding delete_entries
invalidate_catalog_items ids c = record c { entries = delete_entries ids c.entries }

unfoldable pub refresh_items : ℕ → ℕ → List Item → CatalogCache → CatalogCache
unfolding refresh_catalog_items
refresh_items ttl now items c = record c { entries = refresh_catalog_items ttl now items c.entries }

-- `warm_catalog_cache`
unfoldable pub warm_catalog_cache : ℕ → ℕ → List Item → CatalogCache → CatalogCache
unfolding refresh_items item_to_catalog_payload
warm_catalog_cache ttl now items c = record (refresh_items ttl now items c) {
  index = some (record { value = map item_to_catalog_payload items; expires = now + ttl });
}

-- `rebuild_catalog_index_from_db`, in the order of name and brand.
unfoldable pub rebuild_catalog_index :
    (List Item → List Item) → ℕ → ℕ → List Item → CatalogCache → CatalogCache
unfolding warm_catalog_cache select
rebuild_catalog_index by_name ttl now items =
    warm_catalog_cache ttl now (by_name (select (λ (item : Item). item.is_active) items))

unfoldable pub nonempty : List CatalogPayload → Option (List CatalogPayload)
nonempty [] = none
nonempty (p ∷ ps) = some (p ∷ ps)

unfoldable pub alive_index : ℕ → Option (Entry (List CatalogPayload)) → Option (List CatalogPayload)
unfolding nonempty
alive_index now none = none
alive_index now (some e) = if ltb now e.expires then nonempty e.value else none

-- `_load_index`: an index that is missing, or empty, is none.
unfoldable pub load_index : ℕ → CatalogCache → Option (List CatalogPayload)
unfolding alive_index
load_index now c = alive_index now c.index
