-- ===== src/OfferEngine/CrossSell.antt =====
-- services/offer_engine/routers/cross_sell.py, with shared/models/cross_sell.py.
use merchant_ai_agent.Base.{
  ℕ, String, Bool, true, false, ◌&&◌, ◌||◌, Option, none, some, List, [], ◌∷◌, map, select, ltb,
  ◌==◌, if◌then◌else◌,
}
use merchant_ai_agent.Base.Results.{Result, ok, err, ◌>>=◌}
use merchant_ai_agent.Uuid.{Uuid, show_uuid}
use merchant_ai_agent.OfferEngine.Create.{
  Failure, unprocessable, not_found, internal_error, Moment, refuse_unavailable,
}

pub record CrossSellPreference : Type 0 where
  pub id : Uuid
  pub source_item_id : Uuid
  pub target_item_ids : List String
  pub priority : ℕ
  pub is_active : Bool

pub record CrossSellCreateRequest : Type 0 where
  pub source_item_id : Uuid
  pub target_item_ids : List Uuid
  pub priority : ℕ
  pub is_active : Bool

unfoldable pub new_preference : Moment → CrossSellCreateRequest → CrossSellPreference
unfolding show_uuid
new_preference m payload = record {
  id = m.new_id;
  source_item_id = payload.source_item_id;
  target_item_ids = map show_uuid payload.target_item_ids;
  priority = payload.priority;
  is_active = payload.is_active;
}

-- The commit of a new row; the column `priority` has 32 bits.
unfoldable pub save_preference :
    Moment
    → CrossSellPreference
    → List CrossSellPreference
    → Result Failure (List CrossSellPreference × CrossSellPreference)
save_preference m preference rows =
    if m.commits && ltb preference.priority 2147483648
    then ok (preference ∷ rows, preference)
    else err internal_error

abbrev pub item_ids_to_validate : CrossSellCreateRequest → List String
item_ids_to_validate payload =
    show_uuid payload.source_item_id ∷ map show_uuid payload.target_item_ids

abbrev pub has_targets : List Uuid → Bool
has_targets [] = false
has_targets (id ∷ ids) = true

unfoldable pub create_cross_sell :
    Moment
    → CrossSellCreateRequest
    → List CrossSellPreference
    → Result Failure (List CrossSellPreference × CrossSellPreference)
unfolding refuse_unavailable save_preference new_preference
create_cross_sell m payload rows =
    if has_targets payload.target_item_ids
    then (refuse_unavailable m.availability (item_ids_to_validate payload) >>= λ quantities.
        save_preference m (new_preference m payload) rows)
    else err unprocessable

unfoldable pub preference_by_id : Uuid → List CrossSellPreference → Option CrossSellPreference
preference_by_id id [] = none
preference_by_id id (preference ∷ rows) =
    if preference.id == id then some preference else preference_by_id id rows

unfoldable pub ended_preference : Uuid → List CrossSellPreference → List CrossSellPreference
ended_preference id [] = []
ended_preference id (preference ∷ rows) =
    let rest = ended_preference id rows in
    if preference.id == id
    then record preference { is_active = false } ∷ rows
    else preference ∷ rest

unfoldable pub end_found :
    Moment
    → Uuid
    → CrossSellPreference
    → List CrossSellPreference
    → Result Failure (List CrossSellPreference × CrossSellPreference)
unfolding ended_preference
end_found m id preference rows =
    if preference.is_active
    then if m.commits
      then ok (ended_preference id rows, record preference { is_active = false })
      else err internal_error
    else ok (rows, preference)

unfoldable pub terminate_cross_sell :
    Moment
    → Uuid
    → List CrossSellPreference
    → Result Failure (List CrossSellPreference × CrossSellPreference)
unfolding preference_by_id end_found
terminate_cross_sell m id rows = elim (preference_by_id id rows) [
  | none ↦ err not_found
  | some preference ↦ end_found m id preference rows
]

-- A higher priority comes first, and among equals the larger id.
unfoldable pub comes_before : CrossSellPreference → CrossSellPreference → Bool
comes_before a b = ltb b.priority a.priority || (a.priority == b.priority && ltb b.id a.id)

unfoldable pub put_preference :
    CrossSellPreference → List CrossSellPreference → List CrossSellPreference
unfolding comes_before
put_preference a [] = a ∷ []
put_preference a (b ∷ rows) =
    let rest = put_preference a rows in if comes_before b a then b ∷ rest else a ∷ b ∷ rows

unfoldable pub sort_preferences : List CrossSellPreference → List CrossSellPreference
unfolding put_preference
sort_preferences [] = []
sort_preferences (a ∷ rows) = put_preference a (sort_preferences rows)

unfoldable pub list_cross_sell : Bool → List CrossSellPreference → List CrossSellPreference
unfolding select sort_preferences
list_cross_sell include_inactive rows =
    sort_preferences (select (λ preference. include_inactive || preference.is_active) rows)
