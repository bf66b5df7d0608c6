-- ===== src/Upload/Ingest.antt =====
-- `ingest_catalog_dataframe` of services/merchant_admin/routers/upload.py: the rows, the table, and
-- the catalog cache. An upload that raises changes nothing.
use merchant_ai_agent.Base.{
  ℕ, ◌+◌, ◌≡◌, String, Option, none, some, List, [], ◌∷◌, ◌⊎◌, ◌==◌, length, find_first,
}
use merchant_ai_agent.Base.Results.{Result, ok, err, ◌>>=◌}
use merchant_ai_agent.Uuid.{Uuid}
use merchant_ai_agent.Inventory.{Item}
use merchant_ai_agent.Catalog.{
  CatalogCache, invalidate_catalog_items, refresh_items, rebuild_catalog_index,
}
use merchant_ai_agent.Upload.{
  DataFrame, ValidatedUploadRow, RejectedRow, validate_rows, missing_columns,
}
use merchant_ai_agent.Upload.Upsert.{
  Key, Shelf, Progress, UploadError, columns_missing, value_out_of_range, upsert_catalog_rows,
}
use merchant_ai_agent.Upload.Listing.{listing, put_rows}
use merchant_ai_agent.Upload.Refines.{IsIdentified}

pub record Shop : Type 0 where
  pub shelf : Shelf
  pub cache : CatalogCache

pub record Report : Type 0 where
  pub inserted : ℕ
  pub updated : ℕ
  pub rejected : List RejectedRow

-- The rows of the touched items, in the order in which they were touched.
unfoldable pub touched_items : List Uuid → List Item → List Item
unfolding find_first
touched_items [] items = []
touched_items (id ∷ ids) items = elim (find_first (λ (item : Item). item.id == id) items) [
  | none ↦ touched_items ids items
  | some item ↦ item ∷ touched_items ids items
]

module _ (fromisoformat : List ℕ → Option ℕ) (by_name : List Item → List Item) (ttl now : ℕ) where
  unfoldable pub write_cache : Progress → CatalogCache → CatalogCache
  unfolding invalidate_catalog_items refresh_items rebuild_catalog_index touched_items
  write_cache p cache = rebuild_catalog_index by_name ttl now p.shelf.items (
      refresh_items ttl now (touched_items p.touched p.shelf.items)
        (invalidate_catalog_items p.touched cache))

  unfoldable pub finish :
      List RejectedRow → CatalogCache → Progress → Result UploadError (Shop × Report)
  unfolding write_cache
  finish rejected cache p = ok (
    record { shelf = p.shelf; cache = write_cache p cache },
    record { inserted = p.inserted; updated = p.updated; rejected = rejected },
  )

  unfoldable pub ingest_rows :
      List ValidatedUploadRow × List RejectedRow → Shop → Result UploadError (Shop × Report)
  unfolding upsert_catalog_rows finish
  ingest_rows (accepted, rejected) shop = do
    p ← upsert_catalog_rows accepted shop.shelf
    finish rejected shop.cache p

  unfoldable pub if_complete : List String → DataFrame → Shop → Result UploadError (Shop × Report)
  unfolding ingest_rows validate_rows
  if_complete [] frame shop = ingest_rows (validate_rows fromisoformat 2 frame.records) shop
  if_complete (column ∷ columns) frame shop = err (columns_missing (column ∷ columns))

  unfoldable pub ingest_catalog_dataframe : DataFrame → Shop → Result UploadError (Shop × Report)
  unfolding if_complete missing_columns
  ingest_catalog_dataframe frame shop = if_complete (missing_columns frame) frame shop

  abbrev pub accepted_rows : DataFrame → List ValidatedUploadRow
  accepted_rows frame = (validate_rows fromisoformat 2 frame.records).0

  -- What an upload that returns has done.
  pub record Ingests (frame : DataFrame) (shop shop' : Shop) (report : Report) : Type 0 where
    pub lists :
        (k : Key)
        → listing shop'.shelf.items k ≡ put_rows (accepted_rows frame) (listing shop.shelf.items) k
    pub counts : report.inserted + report.updated + length report.rejected ≡ length frame.records
    pub identifies : IsIdentified shop'.shelf.items

  -- What an upload comes to.
  abbrev pub Outcome : DataFrame → Shop → Result UploadError (Shop × Report) → Type 0
  Outcome frame shop (ok (shop', report)) = Ingests frame shop shop' report
  Outcome frame shop (err e) =
      (e ≡ columns_missing (missing_columns frame)) ⊎ (e ≡ value_out_of_range)
