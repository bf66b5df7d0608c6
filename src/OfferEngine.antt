-- ===== src/OfferEngine.antt =====
-- services/offer_engine: the table `offers` (shared/models/offer.py) and what Redis keeps of it by item
-- (redis_sync.py). The rows stand newest first, as every query of the table orders them.
pub mod Availability
pub mod Create
pub mod Serve
pub mod Synced
pub mod Kept
pub mod Current
pub mod Stale
pub mod CrossSell
pub mod Available
pub mod Free
mod Tests
use merchant_ai_agent.Base.{
  ℕ, ◌+◌, String, Bool, true, false, not, ◌&&◌, Option, none, some, List, [], ◌∷◌, map, any, select,
  str_eq, ◌==◌, ltb, ◌++◌, if◌then◌else◌,
}
use merchant_ai_agent.Uuid.{Uuid, show_uuid, codes}
use merchant_ai_agent.Merchant.Dict.{TextMap, put}

pub data DiscountKind : Type 0 where
  percent flat cashback : DiscountKind

-- `condition` is a JSON text.
pub record OfferRow : Type 0 where
  pub id : Uuid
  pub offer_type : String
  pub name : String
  pub description : String
  pub item_ids : Option (List String)
  pub condition : String
  pub discount_type : DiscountKind
  pub value : ℕ
  pub combo_with_item_ids : Option (List String)
  pub coupon_code : Option String
  pub festival_name : Option String
  pub valid_from : Option ℕ
  pub valid_to : Option ℕ
  pub is_active : Bool
  pub created_at : ℕ

-- The dictionary of an offer; its times are texts in the source.
pub record SerializedOffer : Type 0 where
  pub id : String
  pub offer_type : String
  pub name : String
  pub description : String
  pub item_ids : Option (List String)
  pub condition : String
  pub discount_type : DiscountKind
  pub value : ℕ
  pub combo_with_item_ids : Option (List String)
  pub coupon_code : Option String
  pub festival_name : Option String
  pub valid_from : Option ℕ
  pub valid_to : Option ℕ
  pub is_active : Bool
  pub created_at : ℕ

unfoldable pub serialize_offer : OfferRow → SerializedOffer
unfolding show_uuid
serialize_offer offer = record {
  id = show_uuid offer.id;
  offer_type = offer.offer_type;
  name = offer.name;
  description = offer.description;
  item_ids = offer.item_ids;
  condition = offer.condition;
  discount_type = offer.discount_type;
  value = offer.value;
  combo_with_item_ids = offer.combo_with_item_ids;
  coupon_code = offer.coupon_code;
  festival_name = offer.festival_name;
  valid_from = offer.valid_from;
  valid_to = offer.valid_to;
  is_active = offer.is_active;
  created_at = offer.created_at;
}

-- `ids.contains([item_id])`
unfoldable pub contains : String → List String → Bool
unfolding any
contains item_id = any (str_eq item_id)

-- The column is not null, and has the id.
unfoldable pub lists_item : String → Option (List String) → Bool
unfolding contains
lists_item item_id none = false
lists_item item_id (some ids) = contains item_id ids

unfoldable pub is_active_for : String → OfferRow → Bool
unfolding lists_item
is_active_for item_id offer = offer.is_active && lists_item item_id offer.item_ids

-- `_active_offers_for_item`
unfoldable pub active_offers_for_item : String → List OfferRow → List SerializedOffer
unfolding select is_active_for serialize_offer
active_offers_for_item item_id rows = map serialize_offer (select (is_active_for item_id) rows)

-- What stands under the key of an item; without an expiry it stays.
pub record CachedOffers : Type 0 where
  pub offers : List SerializedOffer
  pub expires : Option ℕ

-- Which keys Redis can read and write, at one time.
pub record Redis : Type 0 where
  pub reads : String → Bool
  pub writes : String → Bool

pub record SyncResult : Type 0 where
  pub synced_item_ids : List String
  pub errors : List String

-- Python's order of texts.
unfoldable pub is_before : List ℕ → List ℕ → Bool
is_before xs [] = false
is_before [] (y ∷ ys) = true
is_before (x ∷ xs) (y ∷ ys) = let rest = is_before xs ys in if x == y then rest else ltb x y

unfoldable pub put_sorted : String → List String → List String
unfolding is_before
put_sorted id [] = id ∷ []
put_sorted id (other ∷ ids) =
    let rest = put_sorted id ids in
    if str_eq id other
    then other ∷ ids
    else if is_before (codes id) (codes other)
    then id ∷ other ∷ ids
    else other ∷ rest

-- `sorted(set(item_ids))`
unfoldable pub sorted_set : List String → List String
unfolding put_sorted
sorted_set [] = []
sorted_set (id ∷ ids) = put_sorted id (sorted_set ids)

module _ (ttl now : ℕ) (redis : Redis) (rows : List OfferRow) where
  unfoldable pub fresh_entry : String → CachedOffers
  unfolding active_offers_for_item
  fresh_entry item_id = record {
    offers = active_offers_for_item item_id rows;
    expires = some (now + ttl);
  }

  -- The loop of `sync_offer_item_cache`.
  unfoldable pub sync_items :
      List String → TextMap CachedOffers × SyncResult → TextMap CachedOffers × SyncResult
  unfolding put fresh_entry
  sync_items [] (cache, result) = (cache, result)
  sync_items (item_id ∷ item_ids) (cache, result) =
      if redis.writes item_id
      then sync_items item_ids (
        put item_id (fresh_entry item_id) cache,
        record result { synced_item_ids = result.synced_item_ids ++ item_id ∷ [] },
      )
      else sync_items item_ids (cache, record result { errors = result.errors ++ item_id ∷ [] })

  abbrev nothing_synced : SyncResult
  nothing_synced = record { synced_item_ids = []; errors = [] }

  -- `sync_offer_item_cache`
  unfoldable pub sync_offer_item_cache :
      Option (List String) → TextMap CachedOffers → TextMap CachedOffers × SyncResult
  unfolding sync_items sorted_set
  sync_offer_item_cache none cache = (cache, nothing_synced)
  sync_offer_item_cache (some item_ids) cache =
      sync_items (sorted_set item_ids) (cache, nothing_synced)
