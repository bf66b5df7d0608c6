-- ===== src/OfferEngine/Synced.antt =====
-- What `sync_offer_item_cache` of services/offer_engine/redis_sync.py leaves under the key of an item.
use merchant_ai_agent.Base.{
  ℕ, ◌≡◌, refl, sym, ap, ◌∙◌, String, Bool, true, ◌||◌, ◌++◌, Option, none, some, List, [], ◌∷◌,
  map, any, select, str_eq, eq_iff, is_some, if◌then◌else◌, Bool-cases, arith, inl, inr,
}
use merchant_ai_agent.Merchant.Dict.{TextMap, get, put, get-put}
use merchant_ai_agent.OfferEngine.{
  OfferRow, SerializedOffer, CachedOffers, Redis, SyncResult, serialize_offer, contains, lists_item,
  is_active_for, active_offers_for_item, put_sorted, sorted_set, fresh_entry, sync_items,
}
use merchant_ai_agent.OfferEngine.Create.{Engine}
use merchant_ai_agent.OfferEngine.Serve.{is_offered_for}

-- The offer is for listed items, not for the whole store.
unfoldable pub is_specific : SerializedOffer → Bool
is_specific offer = is_some offer.item_ids

-- What a key holds agrees with the table, on the offers that list the item.
unfoldable pub IsCurrentEntry : String → List OfferRow → Option CachedOffers → Type 0
IsCurrentEntry item_id rows none = Unit
IsCurrentEntry item_id rows (some entry) =
    select is_specific entry.offers ≡ active_offers_for_item item_id rows

unfoldable pub IsCurrent : String → Engine → Type 0
IsCurrent item_id engine = IsCurrentEntry item_id engine.offers (get item_id engine.cache)

listed :
    (item_id : String) (ids : Option (List String))
    → lists_item item_id ids ≡ true
    → is_some ids ≡ true
unfolding lists_item
listed item_id none h = h
listed item_id (some ids) h = refl

module _ (item_id : String) where
  pub specific-active :
      (rows : List OfferRow)
      → select is_specific (active_offers_for_item item_id rows)
        ≡ active_offers_for_item item_id rows
  unfolding select is_specific active_offers_for_item is_active_for lists_item serialize_offer
  specific-active [] = refl
  specific-active (offer ∷ rows) = elim (Bool-cases (is_active_for item_id offer)) [
    | inl e ↦ ground (arith, e, specific-active rows, listed item_id offer.item_ids)
    | inr e ↦ ground (arith, e, specific-active rows)
  ]

  pub specific-offered :
      (rows : List OfferRow)
      → select is_specific (map serialize_offer (select (is_offered_for item_id) rows))
        ≡ active_offers_for_item item_id rows
  unfolding select is_specific active_offers_for_item is_active_for is_offered_for lists_item
      serialize_offer
  specific-offered [] = refl
  specific-offered (offer ∷ rows) = ground (arith, specific-offered rows)

  contains-put_sorted :
      (id : String) (ids : List String)
      → contains item_id (put_sorted id ids) ≡ (str_eq item_id id || contains item_id ids)
  unfolding contains any put_sorted
  contains-put_sorted id [] = ground arith
  contains-put_sorted id (other ∷ ids) = ground (arith, eq_iff id other, contains-put_sorted id ids)

  pub contains-sorted_set :
      (ids : List String) → contains item_id (sorted_set ids) ≡ contains item_id ids
  unfolding contains any sorted_set
  contains-sorted_set [] = refl
  contains-sorted_set (id ∷ ids) =
      contains-put_sorted id (sorted_set ids)
      ∙ ap (λ b. str_eq item_id id || b) (contains-sorted_set ids)

  pub get-sync_items :
      (ttl now : ℕ) (redis : Redis) (rows : List OfferRow) (ids : List String)
      (cache : TextMap CachedOffers) (result : SyncResult)
      → redis.writes item_id ≡ true
      → get item_id (sync_items ttl now redis rows ids (cache, result)).0 ≡ (
          if contains item_id ids
          then some (fresh_entry ttl now redis rows item_id)
          else get item_id cache)
  unfolding sync_items contains any
  get-sync_items ttl now redis rows [] cache result w = refl
  get-sync_items ttl now redis rows (id ∷ ids) cache result w =
      elim (Bool-cases (redis.writes id)) [
        | inl e ↦ rw e (
            get-sync_items ttl now redis rows ids (put id (fresh_entry ttl now redis rows id) cache)
              (record result { synced_item_ids = result.synced_item_ids ++ id ∷ [] }) w
            ∙ ground (
              arith,
              eq_iff id item_id,
              eq_iff item_id id,
              get-put item_id id (fresh_entry ttl now redis rows id) cache,
            ))
        | inr e ↦ rw e (
            get-sync_items ttl now redis rows ids cache
              (record result { errors = result.errors ++ id ∷ [] }) w
            ∙ ground (arith, eq_iff item_id id))
      ]

  same_entry :
      (rows old : List OfferRow) (entry : Option CachedOffers)
      → active_offers_for_item item_id rows ≡ active_offers_for_item item_id old
      → IsCurrentEntry item_id old entry
      → IsCurrentEntry item_id rows entry
  unfolding IsCurrentEntry
  same_entry rows old none same h = tt
  same_entry rows old (some entry) same h = h ∙ sym same

  pub same_rows :
      (rows : List OfferRow) (engine : Engine)
      → active_offers_for_item item_id rows ≡ active_offers_for_item item_id engine.offers
      → IsCurrent item_id engine
      → IsCurrentEntry item_id rows (get item_id engine.cache)
  unfolding IsCurrent
  same_rows rows engine same h = same_entry rows engine.offers (get item_id engine.cache) same h
