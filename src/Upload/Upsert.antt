-- ===== src/Upload/Upsert.antt =====
-- `upsert_catalog_rows` of services/merchant_admin/routers/upload.py: rows are matched by name, brand,
-- expiry date and weight. A statement that writes a value which does not fit its column fails.
use merchant_ai_agent.Base.{
  ℕ, suc, ◌+◌, ◌^◌, String, Bool, true, ◌&&◌, List, [], ◌∷◌, ◌++◌, map, ◌==◌, leb, ltb, length, all,
  select, update_where, if◌then◌else◌,
}
use merchant_ai_agent.Base.Results.{Result, ok, err, ◌>>=◌}
use merchant_ai_agent.Uuid.{Uuid, codes}
use merchant_ai_agent.Strings.{lowered, same_codes}
use merchant_ai_agent.Inventory.{Item}
use merchant_ai_agent.Upload.{ValidatedUploadRow}

-- What makes two rows the same item: the texts in lower case, and the date.
pub record Key : Type 0 where
  pub name : List ℕ
  pub brand : List ℕ
  pub weight_per_unit : List ℕ
  pub expiry_date : ℕ

unfoldable pub same_key : Key → Key → Bool
unfolding same_codes
same_key a b =
    same_codes a.name b.name
    && (same_codes a.brand b.brand
        && (a.expiry_date == b.expiry_date && same_codes a.weight_per_unit b.weight_per_unit))

unfoldable pub lower_codes : String → List ℕ
unfolding lowered
lower_codes text = map lowered (codes text)

unfoldable pub key_of : Item → Key
unfolding lower_codes
key_of item = record {
  name = lower_codes item.name;
  brand = lower_codes item.brand;
  weight_per_unit = lower_codes item.weight_per_unit;
  expiry_date = item.expiry_date;
}

unfoldable pub row_key : ValidatedUploadRow → Key
unfolding lower_codes
row_key row = record {
  name = lower_codes row.name;
  brand = lower_codes row.brand;
  weight_per_unit = lower_codes row.weight_per_unit;
  expiry_date = row.expiry_date;
}

-- The table `items`, and the id that `uuid4` draws next.
pub record Shelf : Type 0 where
  pub items : List Item
  pub next_id : Uuid

-- The table under way, and what the loop counts.
pub record Progress : Type 0 where
  pub shelf : Shelf
  pub inserted : ℕ
  pub updated : ℕ
  pub touched : List Uuid

pub data UploadError : Type 0 where
  columns_missing : List String → UploadError
  multiple_results value_out_of_range : UploadError

-- `String(255)`, `String(10)` and the 32-bit `Integer`.
unfoldable pub fits_columns : Item → Bool
fits_columns item =
    leb (length (codes item.name)) 255
    && (leb (length (codes item.brand)) 255
        && (leb (length (codes item.weight_per_unit)) 10
            && (ltb item.price_paise (2 ^ 31) && ltb item.quantity_available (2 ^ 31))))

-- `db_session.flush()`
unfoldable pub flush : Progress → Result UploadError Progress
unfolding all
flush p = if all fits_columns p.shelf.items then ok p else err value_out_of_range

unfoldable pub new_item : Uuid → ValidatedUploadRow → Item
new_item id row = record {
  id = id;
  name = row.name;
  brand = row.brand;
  weight_per_unit = row.weight_per_unit;
  price_paise = row.price_paise;
  quantity_available = row.quantity_available;
  expiry_date = row.expiry_date;
  is_active = true;
}

-- What happens to the item that is there.
unfoldable pub top_up : ValidatedUploadRow → Item → Item
top_up row item = record item {
  quantity_available = item.quantity_available + row.quantity_available;
  price_paise = row.price_paise;
  is_active = true;
}

-- The `WHERE` of the look-up.
unfoldable pub is_listed_as : Key → Item → Bool
unfolding same_key key_of
is_listed_as key item = same_key key (key_of item)

unfoldable pub insert_row : ValidatedUploadRow → Progress → Progress
unfolding new_item
insert_row row p = record p {
  shelf = record {
    items = p.shelf.items ++ new_item p.shelf.next_id row ∷ [];
    next_id = suc p.shelf.next_id;
  };
  inserted = p.inserted + 1;
  touched = p.touched ++ p.shelf.next_id ∷ [];
}

unfoldable pub update_row : ValidatedUploadRow → Item → Progress → Progress
unfolding top_up is_listed_as row_key update_where
update_row row item p = record p {
  shelf = record p.shelf {
    items = update_where (is_listed_as (row_key row)) (top_up row) p.shelf.items;
  };
  updated = p.updated + 1;
  touched = p.touched ++ item.id ∷ [];
}

-- By what `scalar_one_or_none` finds.
unfoldable pub upsert_found :
    ValidatedUploadRow → List Item → Progress → Result UploadError Progress
unfolding insert_row update_row flush
upsert_found row [] p = flush (insert_row row p)
upsert_found row (item ∷ []) p = ok (update_row row item p)
upsert_found row (item ∷ other ∷ items) p = err multiple_results

unfoldable pub upsert_row : ValidatedUploadRow → Progress → Result UploadError Progress
unfolding upsert_found is_listed_as row_key select
upsert_row row p = upsert_found row (select (is_listed_as (row_key row)) p.shelf.items) p

unfoldable pub upsert_rows : List ValidatedUploadRow → Progress → Result UploadError Progress
unfolding upsert_row
upsert_rows [] p = ok p
upsert_rows (row ∷ rows) p = do q ← upsert_row row p; upsert_rows rows q

-- `upsert_catalog_rows`: the last flush is made only if there were rows.
unfoldable pub upsert_catalog_rows : List ValidatedUploadRow → Shelf → Result UploadError Progress
unfolding upsert_rows flush
upsert_catalog_rows [] shelf =
    ok (record { shelf = shelf; inserted = 0; updated = 0; touched = [] })
upsert_catalog_rows (row ∷ rows) shelf = do
  p ← upsert_rows (row ∷ rows) (record { shelf = shelf; inserted = 0; updated = 0; touched = [] })
  flush p
