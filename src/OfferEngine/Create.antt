-- ===== src/OfferEngine/Create.antt =====
-- The endpoints of services/offer_engine/routers that make an offer: discounts.py, combos.py,
-- coupons.py and festival_campaigns.py.
use merchant_ai_agent.Base.{
  ℕ, String, Bool, true, false, ◌&&◌, Option, none, some, List, [], ◌∷◌, ◌++◌, select, ltb, leb,
  ◌==◌, if◌then◌else◌, length,
}
use merchant_ai_agent.Base.Int.{ℤ}
use merchant_ai_agent.Base.Results.{Result, ok, err, ◌>>=◌}
use merchant_ai_agent.Uuid.{Uuid, codes}
use merchant_ai_agent.Strings.{strip_text}
use merchant_ai_agent.Merchant.Dict.{TextMap}
use merchant_ai_agent.OfferEngine.{
  DiscountKind, OfferRow, CachedOffers, Redis, SyncResult, sync_offer_item_cache,
}
use merchant_ai_agent.OfferEngine.Availability.{unique, get_true_available_qty_map, qty_of}

-- The fields that the four requests share.
pub record Draft : Type 0 where
  pub name : String
  pub description : String
  pub condition : String
  pub discount_type : DiscountKind
  pub value : ℕ
  pub valid_from : Option ℕ
  pub valid_to : Option ℕ
  pub is_active : Bool

pub record DiscountCreateRequest : Type 0 where
  pub draft : Draft
  pub item_ids : List String

pub record ComboCreateRequest : Type 0 where
  pub draft : Draft
  pub item_ids : List String
  pub combo_with_item_ids : List String

pub record CouponCreateRequest : Type 0 where
  pub draft : Draft
  pub coupon_code : String
  pub item_ids : Option (List String)

pub record FestivalCampaignCreateRequest : Type 0 where
  pub draft : Draft
  pub festival_name : String
  pub item_ids : Option (List String)

-- The HTTP status of a failure: 422, 503 and 409 with the ids, 404, 500.
pub data Failure : Type 0 where
  unprocessable not_found internal_error : Failure
  availability_unknown true_availability_zero : List String → Failure

-- What a request finds: the clock, the fresh id of a row, Redis, whether the database commits, and
-- what the admin service says of the stock.
pub record Moment : Type 0 where
  pub now : ℕ
  pub new_id : Uuid
  pub redis : Redis
  pub commits : Bool
  pub availability : String → Option ℤ

pub record Engine : Type 0 where
  pub offers : List OfferRow
  pub cache : TextMap CachedOffers

-- `Field(min_length=1, max_length=...)`
unfoldable pub has_length : ℕ → String → Bool
has_length max_length text = leb 1 (length (codes text)) && leb (length (codes text)) max_length

unfoldable pub valid_draft : Draft → Bool
unfolding has_length
valid_draft draft = has_length 255 draft.name && has_length 500 draft.description

abbrev pub is_nonempty : List String → Bool
is_nonempty [] = false
is_nonempty (id ∷ ids) = true

-- The row of an offer; the column `value` has 32 bits.
unfoldable pub new_offer : Moment → String → Draft → Option (List String) → OfferRow
new_offer m offer_type draft item_ids = record {
  id = m.new_id;
  offer_type = offer_type;
  name = draft.name;
  description = draft.description;
  item_ids = item_ids;
  condition = draft.condition;
  discount_type = draft.discount_type;
  value = draft.value;
  combo_with_item_ids = none;
  coupon_code = none;
  festival_name = none;
  valid_from = draft.valid_from;
  valid_to = draft.valid_to;
  is_active = draft.is_active;
  created_at = m.now;
}

unfoldable pub fits_column : OfferRow → Bool
fits_column offer = ltb offer.value 2147483648

-- An answer with status 200, or 207 if `errors` is not empty.
pub record Created : Type 0 where
  pub offer : OfferRow
  pub redis_sync : SyncResult

-- `payload.item_ids or None`
unfoldable pub ids_or_none : List String → Option (List String)
ids_or_none [] = none
ids_or_none (id ∷ ids) = some (id ∷ ids)

unfoldable pub unavailable_of : List String → TextMap ℕ → List String
unfolding select qty_of
unavailable_of item_ids quantities = select (λ id. qty_of quantities id == 0) item_ids

abbrev pub discount_offer : Moment → DiscountCreateRequest → OfferRow
discount_offer m payload = new_offer m "DISCOUNT" payload.draft (ids_or_none payload.item_ids)

abbrev pub combo_offer : Moment → ComboCreateRequest → OfferRow
combo_offer m payload = record (new_offer m "COMBO" payload.draft (some payload.item_ids)) {
  combo_with_item_ids = some payload.combo_with_item_ids;
}

abbrev pub coupon_offer : Moment → CouponCreateRequest → OfferRow
coupon_offer m payload = record (new_offer m "COUPON" payload.draft payload.item_ids) {
  coupon_code = some (strip_text payload.coupon_code);
}

abbrev pub campaign_offer : Moment → FestivalCampaignCreateRequest → OfferRow
campaign_offer m payload = record (new_offer m "FESTIVAL_CAMPAIGN" payload.draft payload.item_ids) {
  festival_name = some (strip_text payload.festival_name);
}

unfoldable pub valid_combo : ComboCreateRequest → Bool
unfolding valid_draft
valid_combo payload =
    valid_draft payload.draft
    && (is_nonempty payload.item_ids && is_nonempty payload.combo_with_item_ids)

unfoldable pub valid_coupon : CouponCreateRequest → Bool
unfolding valid_draft has_length
valid_coupon payload = valid_draft payload.draft && has_length 64 payload.coupon_code

unfoldable pub valid_campaign : FestivalCampaignCreateRequest → Bool
unfolding valid_draft has_length
valid_campaign payload = valid_draft payload.draft && has_length 255 payload.festival_name

-- An item of which the stock is not known, or none is left, is refused.
unfoldable pub refuse_unavailable : (String → Option ℤ) → List String → Result Failure (TextMap ℕ)
unfolding get_true_available_qty_map unavailable_of
refuse_unavailable availability item_ids = elim (get_true_available_qty_map availability item_ids) [
  | err failed ↦ err (availability_unknown failed)
  | ok quantities ↦ elim (unavailable_of item_ids quantities) [
    | [] ↦ ok quantities
    | id ∷ ids ↦ err (true_availability_zero (id ∷ ids))
  ]
]

module _ (ttl : ℕ) (m : Moment) where
  unfoldable pub synced :
      OfferRow → List OfferRow → TextMap CachedOffers × SyncResult → Engine × Created
  synced offer rows (cache, result) =
      (record { offers = rows; cache = cache }, record { offer = offer; redis_sync = result })

  -- The end of each endpoint: the commit, and the keys of some items.
  unfoldable pub save_offer :
      OfferRow → Option (List String) → Engine → Result Failure (Engine × Created)
  unfolding fits_column synced sync_offer_item_cache
  save_offer offer item_ids engine =
      if m.commits && fits_column offer
      then ok (
          synced offer (offer ∷ engine.offers)
            (sync_offer_item_cache ttl m.now m.redis (offer ∷ engine.offers) item_ids engine.cache))
      else err internal_error

  unfoldable pub create_discount :
      DiscountCreateRequest → Engine → Result Failure (Engine × Created)
  unfolding valid_draft ids_or_none save_offer
  create_discount payload engine =
      if valid_draft payload.draft
      then save_offer (discount_offer m payload) (ids_or_none payload.item_ids) engine
      else err unprocessable

  unfoldable pub create_combo : ComboCreateRequest → Engine → Result Failure (Engine × Created)
  unfolding valid_combo refuse_unavailable unique save_offer
  create_combo payload engine =
      let ids = payload.item_ids ++ payload.combo_with_item_ids in
      if valid_combo payload
      then (refuse_unavailable m.availability (unique ids) >>= λ quantities.
          save_offer (combo_offer m payload) (some ids) engine)
      else err unprocessable

  unfoldable pub create_coupon : CouponCreateRequest → Engine → Result Failure (Engine × Created)
  unfolding valid_coupon save_offer
  create_coupon payload engine =
      if valid_coupon payload
      then save_offer (coupon_offer m payload) payload.item_ids engine
      else err unprocessable

  unfoldable pub create_festival_campaign :
      FestivalCampaignCreateRequest → Engine → Result Failure (Engine × Created)
  unfolding valid_campaign save_offer
  create_festival_campaign payload engine =
      if valid_campaign payload
      then save_offer (campaign_offer m payload) payload.item_ids engine
      else err unprocessable
