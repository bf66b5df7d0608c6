-- ===== src/Upload/Tests.antt =====
-- The upload of a file of three rows: one tops up the item that is there, one is new, and one has no
-- price that can be read.
use merchant_ai_agent.Base.{ℕ, ◌≡◌, refl, String, true, Option, none, some, List, [], ◌∷◌}
use merchant_ai_agent.Base.Results.{ok}
use merchant_ai_agent.Inventory.{Item}
use merchant_ai_agent.Merchant.Dict.{TextMap}
use merchant_ai_agent.Upload.{Cell, text, DataFrame, required_columns, must_be_integer}
use merchant_ai_agent.Upload.Upsert.{fits_columns}
use merchant_ai_agent.Upload.Ingest.{Shop, Report, ingest_catalog_dataframe}

abbrev word : String → Cell
word printed = record { printed = printed; value = text }

abbrev file_row : String → String → String → TextMap Cell
file_row brand price quantity =
    ("name", word " Milk")
    ∷ ("brand", word brand)
    ∷ ("weight_per_unit", word "l")
    ∷ ("price_paise", word price)
    ∷ ("quantity_available", word quantity)
    ∷ ("expiry_date", word "2026-09-30")
    ∷ []

abbrev frame : DataFrame
frame = record {
  columns = required_columns;
  records =
      file_row "AMUL" "6200" "4" ∷ file_row "Nandini" "5000" "7" ∷ file_row "Amul" "free" "1" ∷ [];
}

-- Every text is read as one day.
abbrev one_day : List ℕ → Option ℕ
one_day codes = some 90

abbrev amul : ℕ → ℕ → Item
amul price quantity = record {
  id = 1;
  name = "Milk";
  brand = "Amul";
  weight_per_unit = "L";
  price_paise = price;
  quantity_available = quantity;
  expiry_date = 90;
  is_active = true;
}

abbrev shop : Shop
shop = record {
  shelf = record { items = amul 6000 5 ∷ []; next_id = 2 };
  cache = record { entries = []; index = none };
}

abbrev items_after : List Item → List Item
items_after items = items

three_rows :
    (shop' : Shop) × (report : Report) × (ingest_catalog_dataframe one_day items_after 600 0 frame
        shop
      ≡ ok (shop', report))
    × (shop'.shelf.items
        ≡ amul 6200 9 ∷ record (amul 5000 7) { id = 2; name = "Milk"; brand = "Nandini" } ∷ [])
    × (report.rejected ≡ record { row = 4; reason = must_be_integer "price_paise" } ∷ [])
unfolding ingest_catalog_dataframe fits_columns
three_rows = (_, _, refl, refl, refl)
