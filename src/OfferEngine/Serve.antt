-- ===== src/OfferEngine/Serve.antt =====
-- services/offer_engine/routers/offers.py, and any sequence of requests to the offer engine.
use Prim.Native.String as Text
use Prim.Native.Char.{Char, code}
use merchant_ai_agent.Base.{
  ℕ, ◌-◌, leb, String, Bool, true, false, ◌&&◌, ◌||◌, Option, none, some, List, [], ◌∷◌, ◌++◌, map,
  select, str_eq, ltb, ◌==◌, if◌then◌else◌,
}
use merchant_ai_agent.Base.Results.{Result, ok, err}
use merchant_ai_agent.Uuid.{Uuid}
use merchant_ai_agent.Auth.{nth_char}
use merchant_ai_agent.Merchant.Dict.{TextMap, get, put}
use merchant_ai_agent.OfferEngine.{
  OfferRow, SerializedOffer, CachedOffers, SyncResult, serialize_offer, lists_item,
  sync_offer_item_cache,
}
use merchant_ai_agent.OfferEngine.Create.{
  DiscountCreateRequest, ComboCreateRequest, CouponCreateRequest, FestivalCampaignCreateRequest,
  Failure, not_found, internal_error, Moment, Engine, Created, create_discount, create_combo,
  create_coupon, create_festival_campaign,
}

unfoldable pub offer_by_id : Uuid → List OfferRow → Option OfferRow
offer_by_id id [] = none
offer_by_id id (offer ∷ rows) = if offer.id == id then some offer else offer_by_id id rows

-- The row with this primary key is no longer active.
unfoldable pub terminated : Uuid → List OfferRow → List OfferRow
terminated id [] = []
terminated id (offer ∷ rows) =
    let rest = terminated id rows in
    if offer.id == id then record offer { is_active = false } ∷ rows else offer ∷ rest

-- `ids or []`
unfoldable pub or_empty : Option (List String) → List String
or_empty none = []
or_empty (some ids) = ids

unfoldable pub affected_item_ids : OfferRow → List String
unfolding or_empty
affected_item_ids offer = or_empty offer.item_ids ++ or_empty offer.combo_with_item_ids

-- The column is null, or has the id.
unfoldable pub is_offered_for : String → OfferRow → Bool
unfolding lists_item
is_offered_for item_id offer = elim offer.item_ids [
  | none ↦ offer.is_active
  | some ids ↦ offer.is_active && lists_item item_id (some ids)
]

pub data Answer : Type 0 where
  created : Created → Answer
  ended : SerializedOffer → Option SyncResult → Answer
  from_redis from_database : List SerializedOffer → Answer

module _ (ttl : ℕ) (m : Moment) where
  unfoldable pub ended_with :
      OfferRow → List OfferRow → TextMap CachedOffers × SyncResult → Engine × Answer
  unfolding serialize_offer
  ended_with offer rows (cache, result) = (
    record { offers = rows; cache = cache },
    ended (serialize_offer (record offer { is_active = false })) (some result),
  )

  unfoldable pub terminate_found : Uuid → OfferRow → Engine → Result Failure (Engine × Answer)
  unfolding serialize_offer ended_with terminated sync_offer_item_cache affected_item_ids
  terminate_found id offer engine =
      if offer.is_active
      then if m.commits
        then ok (
            ended_with offer (terminated id engine.offers) (
              sync_offer_item_cache ttl m.now m.redis (terminated id engine.offers)
                (some (affected_item_ids offer)) engine.cache))
        else err internal_error
      else ok (engine, ended (serialize_offer offer) none)

  -- `terminate_offer`
  unfoldable pub terminate_offer : Uuid → Engine → Result Failure (Engine × Answer)
  unfolding terminate_found offer_by_id
  terminate_offer id engine = elim (offer_by_id id engine.offers) [
    | none ↦ err not_found
    | some offer ↦ terminate_found id offer engine
  ]

unfoldable pub offers_for : String → Engine → List SerializedOffer
unfolding select is_offered_for serialize_offer
offers_for item_id engine = map serialize_offer (select (is_offered_for item_id) engine.offers)

module _ (m : Moment) where
  unfoldable pub until : Option ℕ → List SerializedOffer → Option (List SerializedOffer)
  until none offers = some offers
  until (some expires) offers = if ltb m.now expires then some offers else none

  -- What `get` answers for a key: nothing once it has expired.
  unfoldable pub unexpired : Option CachedOffers → Option (List SerializedOffer)
  unfolding until
  unexpired none = none
  unexpired (some entry) = until entry.expires entry.offers

  -- A list that was read from the database is kept without an expiry.
  unfoldable pub keep_offers : String → Engine → Engine
  unfolding put offers_for
  keep_offers item_id engine =
      if m.redis.writes item_id
      then record engine {
        cache =
            put item_id (record { offers = offers_for item_id engine; expires = none })
              engine.cache;
      }
      else engine

  unfoldable pub read_entry : String → Engine → Option (List SerializedOffer)
  unfolding unexpired get
  read_entry item_id engine =
      if m.redis.reads item_id then unexpired (get item_id engine.cache) else none

  unfoldable pub served : String → Engine → Option (List SerializedOffer) → Engine × Answer
  unfolding keep_offers offers_for
  served item_id engine none =
      (keep_offers item_id engine, from_database (offers_for item_id engine))
  served item_id engine (some offers) = (engine, from_redis offers)

  -- `get_offers_by_item`
  unfoldable pub get_offers_by_item : String → Engine → Engine × Answer
  unfolding served read_entry
  get_offers_by_item item_id engine = served item_id engine (read_entry item_id engine)

upper_char : Char → Char
unfolding nth_char
upper_char c =
    if leb b'a' (code c) && leb (code c) b'z'
    then nth_char (code c - b'a') "ABCDEFGHIJKLMNOPQRSTUVWXYZ" c
    else c

-- `text.upper()`, on an ASCII text.
unfoldable pub upper_text : String → String
unfolding upper_char
upper_text Text.[] = ""
upper_text (Text.◌∷◌ c rest) = Text.◌∷◌ (upper_char c) (upper_text rest)

-- No type is asked for, or this one.
unfoldable pub is_of_type : Option String → OfferRow → Bool
unfolding upper_text
is_of_type none offer = true
is_of_type (some text) offer = str_eq text "" || str_eq offer.offer_type (upper_text text)

-- `list_saved_offers`
unfoldable pub list_saved_offers : Option String → Bool → Engine → List SerializedOffer
unfolding select serialize_offer is_of_type
list_saved_offers offer_type include_inactive engine = map serialize_offer (
    select (λ offer. is_of_type offer_type offer && (include_inactive || offer.is_active))
      engine.offers)

pub data Request : Type 0 where
  discount : DiscountCreateRequest → Request
  combo : ComboCreateRequest → Request
  coupon : CouponCreateRequest → Request
  festival_campaign : FestivalCampaignCreateRequest → Request
  terminate : Uuid → Request
  by_item : String → Request

unfoldable pub created_of : Result Failure (Engine × Created) → Result Failure (Engine × Answer)
created_of (err e) = err e
created_of (ok (engine, c)) = ok (engine, created c)

unfoldable pub handle : ℕ → Moment → Request → Engine → Result Failure (Engine × Answer)
unfolding created_of create_discount create_combo create_coupon create_festival_campaign
    terminate_offer get_offers_by_item
handle ttl m (discount payload) engine = created_of (create_discount ttl m payload engine)
handle ttl m (combo payload) engine = created_of (create_combo ttl m payload engine)
handle ttl m (coupon payload) engine = created_of (create_coupon ttl m payload engine)
handle ttl m (festival_campaign payload) engine =
    created_of (create_festival_campaign ttl m payload engine)
handle ttl m (terminate id) engine = terminate_offer ttl m id engine
handle ttl m (by_item item_id) engine = ok (get_offers_by_item m item_id engine)

-- A request that fails leaves everything as it was.
unfoldable pub engine_after : Engine → Result Failure (Engine × Answer) → Engine
engine_after engine (err e) = engine
engine_after engine (ok (after, answer)) = after

unfoldable pub serve_all : ℕ → List (Moment × Request) → Engine → Engine
unfolding engine_after handle
serve_all ttl [] engine = engine
serve_all ttl ((m, request) ∷ requests) engine =
    serve_all ttl requests (engine_after engine (handle ttl m request engine))
