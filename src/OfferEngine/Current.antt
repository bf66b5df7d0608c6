-- ===== src/OfferEngine/Current.antt =====
-- What the offer engine answers for an item, after any sequence of requests.
use merchant_ai_agent.Base.{
  ℕ, ◌≡◌, String, true, Option, none, some, List, [], ◌∷◌, select, All, ltb, Bool-cases, inl, inr,
}
use merchant_ai_agent.Merchant.Dict.{get}
use merchant_ai_agent.OfferEngine.{OfferRow, SerializedOffer, CachedOffers, active_offers_for_item}
use merchant_ai_agent.OfferEngine.Create.{Moment, Engine}
use merchant_ai_agent.OfferEngine.Serve.{
  Answer, from_redis, from_database, get_offers_by_item, offers_for, Request, handle, serve_all,
  engine_after, served, read_entry, until, unexpired,
}
use merchant_ai_agent.OfferEngine.Synced.{is_specific, IsCurrentEntry, IsCurrent, specific-offered}
use merchant_ai_agent.OfferEngine.Kept.{handle-IsCurrent}

abbrev pub no_offers : Engine
no_offers = record { offers = []; cache = [] }

all-IsCurrent :
    (ttl : ℕ) (item_id : String) (requests : List (Moment × Request)) (engine : Engine)
    → All (λ request. request.0.redis.writes item_id ≡ true) requests
    → IsCurrent item_id engine
    → IsCurrent item_id (serve_all ttl requests engine)
unfolding serve_all
all-IsCurrent ttl item_id [] engine w h = h
all-IsCurrent ttl item_id ((m, request) ∷ requests) engine w h =
    all-IsCurrent ttl item_id requests (engine_after engine (handle ttl m request engine)) w.1
      (handle-IsCurrent item_id ttl m w.0 request engine h)

-- The offers of an answer to a look-up.
unfoldable pub offers_of : Answer → List SerializedOffer
offers_of (from_redis offers) = offers
offers_of (from_database offers) = offers
offers_of other = []

-- What is read from Redis, if anything is, agrees with the table.
IsCurrentAnswer : String → List OfferRow → Option (List SerializedOffer) → Type 0
IsCurrentAnswer item_id rows none = Unit
IsCurrentAnswer item_id rows (some offers) =
    select is_specific offers ≡ active_offers_for_item item_id rows

module _ (m : Moment) (item_id : String) where
  until-IsCurrentAnswer :
      (rows : List OfferRow) (expires : Option ℕ) (offers : List SerializedOffer)
      → IsCurrentAnswer item_id rows (some offers)
      → IsCurrentAnswer item_id rows (until m expires offers)
  unfolding IsCurrentAnswer until
  until-IsCurrentAnswer rows none offers h = h
  until-IsCurrentAnswer rows (some t) offers h = elim (Bool-cases (ltb m.now t)) [
    | inl e ↦ rw e h
    | inr e ↦ rw e tt
  ]

  entry-IsCurrentAnswer :
      (rows : List OfferRow) (entry : Option CachedOffers)
      → IsCurrentEntry item_id rows entry
      → IsCurrentAnswer item_id rows (unexpired m entry)
  unfolding IsCurrentEntry IsCurrentAnswer unexpired
  entry-IsCurrentAnswer rows none h = tt
  entry-IsCurrentAnswer rows (some entry) h =
      until-IsCurrentAnswer rows entry.expires entry.offers h

  read-IsCurrentAnswer :
      (engine : Engine)
      → IsCurrent item_id engine
      → IsCurrentAnswer item_id engine.offers (read_entry m item_id engine)
  unfolding read_entry IsCurrent IsCurrentAnswer
  read-IsCurrentAnswer engine h = elim (Bool-cases (m.redis.reads item_id)) [
    | inl e ↦ rw e (entry-IsCurrentAnswer engine.offers (get item_id engine.cache) h)
    | inr e ↦ rw e tt
  ]

  served-specific :
      (engine : Engine) (o : Option (List SerializedOffer))
      → IsCurrentAnswer item_id engine.offers o
      → select is_specific (offers_of (served m item_id engine o).1)
        ≡ active_offers_for_item item_id engine.offers
  unfolding served offers_of IsCurrentAnswer offers_for
  served-specific engine none h = specific-offered item_id engine.offers
  served-specific engine (some offers) h = h

-- After any sequence of requests, of which none failed to write the key of an item, a look-up of the
-- item answers, whether from Redis or from the database, with the active offers of the table that
-- list the item, in their order, and otherwise with offers for the whole store only.
pub looked_up_offers_are_current :
    (ttl : ℕ) (item_id : String) (requests : List (Moment × Request)) (m : Moment)
    → All (λ request. request.0.redis.writes item_id ≡ true) requests
    → select is_specific
        (offers_of (get_offers_by_item m item_id (serve_all ttl requests no_offers)).1)
      ≡ active_offers_for_item item_id (serve_all ttl requests no_offers).offers
unfolding get_offers_by_item IsCurrent IsCurrentEntry get
looked_up_offers_are_current ttl item_id requests m w =
    let engine = serve_all ttl requests no_offers in
    served-specific m item_id engine (read_entry m item_id engine)
      (read-IsCurrentAnswer m item_id engine (all-IsCurrent ttl item_id requests no_offers w tt))
