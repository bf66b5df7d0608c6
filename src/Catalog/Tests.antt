-- ===== src/Catalog/Tests.antt =====
-- The catalog at a table of two brands of milk.
use merchant_ai_agent.Base.{
  ℕ, ◌≡◌, refl, String, true, none, some, List, [], ◌∷◌, All, arith, select,
}
use merchant_ai_agent.Inventory.{Item, item_to_catalog_payload}
use merchant_ai_agent.Catalog.{CatalogCache, load_index}
use merchant_ai_agent.Catalog.Match.{payload_matches}
use merchant_ai_agent.Catalog.Search.{
  Store, is_other_in_stock, search_payloads, alternatives_same_name,
}
use merchant_ai_agent.Catalog.Hidden.{IsOther, alternatives_hide_brand}

abbrev milk : ℕ → String → Item
milk id brand = record {
  id = id;
  name = "Milk";
  brand = brand;
  weight_per_unit = "L";
  price_paise = 6000;
  quantity_available = 5;
  expiry_date = 100;
  is_active = true;
}

abbrev shelf : List Item
shelf = milk 1 "Amul" ∷ milk 2 "Nandini" ∷ []

abbrev store : Store
store = record { by_name = λ items. items; by_stock = λ items. items; ttl = 600; today = 50 }

abbrev cold : CatalogCache
cold = record { entries = []; index = none }

-- Before, the item is found.
amul_found :
    (search_payloads store 0 "milk" (some "Amul") 10 shelf cold).1
    ≡ item_to_catalog_payload (milk 1 "Amul") ∷ []
unfolding search_payloads payload_matches
amul_found = refl

-- Afterwards it is not.
amul_hidden :
    (search_payloads store 599 "milk"
      (some "Amul")
      10
      shelf
      (alternatives_same_name store 0 "milk" "Amul" 3 shelf cold).0).1
    ≡ []
unfolding search_payloads alternatives_same_name payload_matches
amul_hidden = refl

alternatives_hide_brand_example :
    All
      (IsOther "Amul")
      (search_payloads store 599 "milk" none 10 shelf
        (alternatives_same_name store 0 "milk" "Amul" 3 shelf cold).0).1
unfolding load_index select is_other_in_stock
alternatives_hide_brand_example =
    alternatives_hide_brand store (λ P items h. h) 0 "milk" "Amul" 3 shelf cold (milk 2 "Nandini")
      [] 599 10 "milk" none shelf refl refl (omega arith)
