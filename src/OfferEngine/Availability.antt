-- ===== src/OfferEngine/Availability.antt =====
-- services/offer_engine/availability_client.py. What the admin service answers for an item is a
-- parameter: the quantity, or `none` if the call or the reading of its answer raises.
use merchant_ai_agent.Base.{
  ℕ, String, not, Option, none, some, List, [], ◌∷◌, select, str_eq, is_some,
}
use merchant_ai_agent.Base.Int.{ℤ, pos_part}
use merchant_ai_agent.Base.Results.{Result, ok, err}
use merchant_ai_agent.Merchant.Dict.{TextMap, get}

-- `list(dict.fromkeys(ids))`
unfoldable pub unique : List String → List String
unfolding select
unique [] = []
unique (id ∷ ids) = id ∷ select (λ other. not (str_eq other id)) (unique ids)

unfoldable pub raise_if_failed : List String → TextMap ℕ → Result (List String) (TextMap ℕ)
raise_if_failed [] quantities = ok quantities
raise_if_failed (id ∷ failed) quantities = err (id ∷ failed)

module _ (answers : String → Option ℤ) where
  -- `get_true_available`: `max(0, ...)` of the quantity.
  unfoldable pub get_true_available : String → Option ℕ
  get_true_available item_id = elim (answers item_id) [
    | none ↦ none
    | some qty ↦ some (pos_part qty)
  ]

  unfoldable pub add_qty : String → Option ℕ → TextMap ℕ → TextMap ℕ
  add_qty item_id none quantities = quantities
  add_qty item_id (some qty) quantities = (item_id, qty) ∷ quantities

  unfoldable pub quantities_of : List String → TextMap ℕ
  unfolding get_true_available add_qty
  quantities_of [] = []
  quantities_of (item_id ∷ item_ids) =
      add_qty item_id (get_true_available item_id) (quantities_of item_ids)

  unfoldable pub failed_of : List String → List String
  unfolding select get_true_available
  failed_of = select (λ item_id. not (is_some (get_true_available item_id)))

  abbrev asked_ids : List String → List String
  asked_ids item_ids = unique (select (λ id. not (str_eq id "")) item_ids)

  -- `get_true_available_qty_map` with `raise_on_error`; what it raises names the ids that failed.
  unfoldable pub get_true_available_qty_map : List String → Result (List String) (TextMap ℕ)
  unfolding raise_if_failed failed_of quantities_of unique select
  get_true_available_qty_map item_ids =
      raise_if_failed (failed_of (asked_ids item_ids)) (quantities_of (asked_ids item_ids))

-- `qty_map.get(item_id, 0)`
unfoldable pub qty_of : TextMap ℕ → String → ℕ
unfolding get
qty_of quantities item_id = elim (get item_id quantities) [ none ↦ 0 | some qty ↦ qty ]
