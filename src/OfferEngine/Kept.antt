-- ===== src/OfferEngine/Kept.antt =====
-- One request to the offer engine, and the key of an item.
use merchant_ai_agent.Base.{
  ℕ, ◌≡◌, refl, String, Bool, true, false, ◌&&◌, ◌++◌, Option, none, some, List, [], ◌∷◌, any,
  select, str_eq, eq_iff, if◌then◌else◌, Bool-cases, arith, inl, inr,
}
use merchant_ai_agent.Base.Results.{Result, ok, err, ◌>>=◌}
use merchant_ai_agent.Uuid.{Uuid}
use merchant_ai_agent.Merchant.Dict.{TextMap, get, get-put}
use merchant_ai_agent.OfferEngine.{
  OfferRow, SerializedOffer, CachedOffers, contains, lists_item, is_active_for,
  active_offers_for_item, sorted_set, sync_offer_item_cache,
}
use merchant_ai_agent.OfferEngine.Create.{
  Failure, Moment, Engine, Created, save_offer, synced, fits_column, not_found, unprocessable,
  discount_offer, combo_offer, coupon_offer, campaign_offer, valid_draft, valid_combo, valid_coupon,
  valid_campaign, ids_or_none, new_offer, create_discount, create_combo, create_coupon,
  create_festival_campaign,
}
use merchant_ai_agent.OfferEngine.Serve.{
  offer_by_id, terminated, offers_for, Request, discount, combo, coupon, festival_campaign,
  terminate, by_item, handle, engine_after, created_of, terminate_offer, served, terminate_found,
  affected_item_ids, ended_with, or_empty, keep_offers, read_entry,
}
use merchant_ai_agent.OfferEngine.Synced.{
  IsCurrentEntry, IsCurrent, specific-active, specific-offered, get-sync_items, contains-sorted_set,
  same_rows,
}

module _ (item_id : String) where
  unlisted :
      (offer : OfferRow) (rows : List OfferRow)
      → lists_item item_id offer.item_ids ≡ false
      → active_offers_for_item item_id (offer ∷ rows) ≡ active_offers_for_item item_id rows
  unfolding active_offers_for_item select is_active_for
  unlisted offer rows h = ground arith

  other-terminated :
      (id : Uuid) (rows : List OfferRow) (offer : OfferRow)
      → offer_by_id id rows ≡ some offer
      → lists_item item_id offer.item_ids ≡ false
      → active_offers_for_item item_id (terminated id rows) ≡ active_offers_for_item item_id rows
  unfolding offer_by_id terminated active_offers_for_item select is_active_for
  other-terminated id [] offer found other = refl
  other-terminated id (row ∷ rows) offer found other =
      ground (arith, other-terminated id rows offer)

  not_in_left :
      (xs ys : List String) → contains item_id (xs ++ ys) ≡ false → contains item_id xs ≡ false
  unfolding contains any
  not_in_left [] ys h = refl
  not_in_left (x ∷ xs) ys h = ground (arith, not_in_left xs ys)

  affected_first :
      (ids : Option (List String)) (others : List String)
      → contains item_id (or_empty ids ++ others) ≡ false
      → lists_item item_id ids ≡ false
  unfolding or_empty lists_item
  affected_first none others h = refl
  affected_first (some ids) others h = not_in_left ids others h

  affected :
      (offer : OfferRow)
      → lists_item item_id (some (affected_item_ids offer)) ≡ false
      → lists_item item_id offer.item_ids ≡ false
  unfolding affected_item_ids lists_item
  affected offer h = affected_first offer.item_ids (or_empty offer.combo_with_item_ids) h

  kept-IsCurrentEntry :
      (other : String) (engine : Engine) (b : Bool)
      → str_eq other item_id ≡ b
      → IsCurrent item_id engine
      → IsCurrentEntry item_id engine.offers (
          if b
          then some (record { offers = offers_for other engine; expires = none })
          else get item_id engine.cache)
  unfolding IsCurrent IsCurrentEntry offers_for
  kept-IsCurrentEntry other engine false e h = h
  kept-IsCurrentEntry other engine true e h =
      rw ((eq_iff other item_id).0 e) (specific-offered item_id engine.offers)

  served-IsCurrent :
      (m : Moment) (other : String) (engine : Engine) (o : Option (List SerializedOffer))
      → IsCurrent item_id engine
      → IsCurrent item_id (served m other engine o).0
  unfolding served keep_offers IsCurrent
  served-IsCurrent m other engine (some offers) h = h
  served-IsCurrent m other engine none h = elim (Bool-cases (m.redis.writes other)) [
    | inl e ↦
        rw
          (
            e,
            get-put item_id other (record { offers = offers_for other engine; expires = none })
                engine.cache,
          )
          (kept-IsCurrentEntry other engine (str_eq other item_id) refl h)
    | inr e ↦ rw e h
  ]

  module _ (ttl : ℕ) (m : Moment) (w : m.redis.writes item_id ≡ true) where
    abbrev cache_after : List OfferRow → Option (List String) → Engine → TextMap CachedOffers
    cache_after rows ids engine = (sync_offer_item_cache ttl m.now m.redis rows ids engine.cache).0

    -- The keys of all listed items agree with the new rows; the others do if the rows say the same of
    -- their items as before.
    sync-IsCurrent :
        (rows : List OfferRow) (ids : Option (List String)) (engine : Engine)
        → (lists_item item_id ids ≡ false
            → active_offers_for_item item_id rows ≡ active_offers_for_item item_id engine.offers)
        → IsCurrent item_id engine
        → IsCurrentEntry item_id rows (get item_id (cache_after rows ids engine))
    unfolding sync_offer_item_cache lists_item IsCurrentEntry
    sync-IsCurrent rows none engine same h = same_rows item_id rows engine (same refl) h
    sync-IsCurrent rows (some ids) engine same h = elim (Bool-cases (contains item_id ids)) [
      | inl e ↦
          rw
            (
              get-sync_items item_id ttl m.now m.redis rows (sorted_set ids) engine.cache _ w,
              contains-sorted_set item_id ids,
              e,
            )
            (specific-active item_id rows)
      | inr e ↦
          rw
            (
              get-sync_items item_id ttl m.now m.redis rows (sorted_set ids) engine.cache _ w,
              contains-sorted_set item_id ids,
              e,
            )
            (same_rows item_id rows engine (same e) h)
    ]

    save-IsCurrent :
        (offer : OfferRow) (ids : Option (List String)) (engine : Engine)
        → (lists_item item_id ids ≡ false → lists_item item_id offer.item_ids ≡ false)
        → IsCurrent item_id engine
        → IsCurrent item_id (engine_after engine (created_of (save_offer ttl m offer ids engine)))
    unfolding save_offer created_of engine_after synced IsCurrent
    save-IsCurrent offer ids engine covers h = elim (Bool-cases (m.commits && fits_column offer)) [
      | inl e ↦ rw e (
          sync-IsCurrent (offer ∷ engine.offers) ids engine
            (λ no. unlisted offer engine.offers (covers no)) h)
      | inr e ↦ rw e h
    ]

    found-IsCurrent :
        (id : Uuid) (offer : OfferRow) (engine : Engine)
        → offer_by_id id engine.offers ≡ some offer
        → IsCurrent item_id engine
        → IsCurrent item_id (engine_after engine (terminate_found ttl m id offer engine))
    unfolding terminate_found engine_after ended_with IsCurrent
    found-IsCurrent id offer engine found h = elim (Bool-cases offer.is_active) [
      | inl e ↦ elim (Bool-cases m.commits) [
        | inl c ↦
            rw (e, c)
              (sync-IsCurrent (terminated id engine.offers) (some (affected_item_ids offer)) engine
                (λ no. other-terminated id engine.offers offer found (affected offer no)) h)
        | inr c ↦ rw (e, c) h
      ]
      | inr e ↦ rw e h
    ]

    answered-IsCurrent :
        (id : Uuid) (engine : Engine) (o : Option OfferRow)
        → offer_by_id id engine.offers ≡ o
        → IsCurrent item_id engine
        → IsCurrent item_id (
            engine_after engine (elim o [
              | none ↦ err not_found
              | some offer ↦ terminate_found ttl m id offer engine
            ]))
    unfolding engine_after
    answered-IsCurrent id engine none found h = h
    answered-IsCurrent id engine (some offer) found h = found-IsCurrent id offer engine found h

    terminate-IsCurrent :
        (id : Uuid) (engine : Engine)
        → IsCurrent item_id engine
        → IsCurrent item_id (engine_after engine (terminate_offer ttl m id engine))
    unfolding terminate_offer
    terminate-IsCurrent id engine h =
        answered-IsCurrent id engine (offer_by_id id engine.offers) refl h

    abbrev Leaves : Engine → Result Failure (Engine × Created) → Type 0
    Leaves engine r = IsCurrent item_id (engine_after engine (created_of r))

    guarded :
        (b : Bool) (engine : Engine) (r : Result Failure (Engine × Created))
        → IsCurrent item_id engine
        → Leaves engine r
        → Leaves engine (if b then r else err unprocessable)
    unfolding engine_after created_of
    guarded true engine r h left = left
    guarded false engine r h left = h

    checked :
        (q : Result Failure (TextMap ℕ)) (engine : Engine) (r : Result Failure (Engine × Created))
        → IsCurrent item_id engine
        → Leaves engine r
        → Leaves engine (q >>= λ quantities. r)
    unfolding engine_after created_of
    checked (err e) engine r h left = h
    checked (ok quantities) engine r h left = left

    pub handle-IsCurrent :
        (request : Request) (engine : Engine)
        → IsCurrent item_id engine
        → IsCurrent item_id (engine_after engine (handle ttl m request engine))
    unfolding handle engine_after create_discount create_combo create_coupon
        create_festival_campaign new_offer lists_item
    handle-IsCurrent (discount payload) engine h = guarded (valid_draft payload.draft) engine _ h (
        save-IsCurrent (discount_offer m payload) (ids_or_none payload.item_ids) engine (λ no. no)
          h)
    handle-IsCurrent (combo payload) engine h = guarded (valid_combo payload) engine _ h (
        checked _ engine
          (save_offer ttl m (combo_offer m payload)
            (some (payload.item_ids ++ payload.combo_with_item_ids)) engine)
          h
          (save-IsCurrent (combo_offer m payload)
            (some (payload.item_ids ++ payload.combo_with_item_ids)) engine
            (not_in_left payload.item_ids payload.combo_with_item_ids) h))
    handle-IsCurrent (coupon payload) engine h =
        guarded (valid_coupon payload) engine _ h
          (save-IsCurrent (coupon_offer m payload) payload.item_ids engine (λ no. no) h)
    handle-IsCurrent (festival_campaign payload) engine h =
        guarded (valid_campaign payload) engine _ h
          (save-IsCurrent (campaign_offer m payload) payload.item_ids engine (λ no. no) h)
    handle-IsCurrent (terminate id) engine h = terminate-IsCurrent id engine h
    handle-IsCurrent (by_item other) engine h =
        served-IsCurrent m other engine (read_entry m other engine) h
