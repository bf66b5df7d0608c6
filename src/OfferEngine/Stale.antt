-- ===== src/OfferEngine/Stale.antt =====
-- What becomes of an offer for the whole store that is terminated after a look-up has cached it.
use merchant_ai_agent.Base.{ℕ, ◌≡◌, String, Bool, true, none, some, List, map, any, str_eq}
use merchant_ai_agent.Uuid.{Uuid, show_uuid}
use merchant_ai_agent.Merchant.Dict.{get, put}
use merchant_ai_agent.OfferEngine.{OfferRow, SerializedOffer, serialize_offer}
use merchant_ai_agent.OfferEngine.Create.{Moment, Engine}
use merchant_ai_agent.OfferEngine.Serve.{
  terminate_offer, offers_for, get_offers_by_item, engine_after, Request, by_item,
}

-- The offer is active, and names no items.
pub record IsStoreWide (offer : OfferRow) : Type 0 where
  pub active : offer.is_active ≡ true
  pub no_items : offer.item_ids ≡ none
  pub no_combo : offer.combo_with_item_ids ≡ none

module _ (item_id : String) where
  -- The offer engine once a look-up has cached the offers of the item.
  cached : Engine → Engine
  cached engine = record engine {
    cache =
        put item_id (record { offers = offers_for item_id engine; expires = none }) engine.cache;
  }

  abbrev has_offer : Uuid → List OfferRow → Bool
  has_offer id rows =
      any (λ (o : SerializedOffer). str_eq o.id (show_uuid id)) (map serialize_offer rows)

-- A look-up, of which Redis can be read if it is of this item.
abbrev pub IsLookUp : String → Moment × Request → Type 0
IsLookUp item_id (m, by_item i) = str_eq i item_id ≡ true → m.redis.reads item_id ≡ true
IsLookUp item_id (m, request) = ⊥

-- The key of the item holds these offers, for good.
module _ (item_id : String) (offers : List SerializedOffer) where
  abbrev Holds : Engine → Type 0
  Holds engine = get item_id engine.cache ≡ some (record { offers = offers; expires = none })

module _ (ttl : ℕ) (item_id : String) (id : Uuid) where
  -- The offers after the first look-up and the termination.
  abbrev pub after_both : Moment → Moment → Engine → Engine
  after_both m₁ m₂ engine =
      let engine' = (get_offers_by_item m₁ item_id engine).0 in
      engine_after engine' (terminate_offer ttl m₂ id engine')
