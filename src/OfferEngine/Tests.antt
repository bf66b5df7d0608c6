-- ===== src/OfferEngine/Tests.antt =====
-- The offer engine's theorems at concrete requests.
use merchant_ai_agent.Base.{
  ℕ, ◌<◌, ◌≡◌, refl, String, true, false, Option, none, some, List, [], ◌∷◌, select, All,
}
use merchant_ai_agent.Base.Int.{ℤ, pos}
use merchant_ai_agent.Base.Results.{ok}
use merchant_ai_agent.Uuid.{show_uuid, parse_uuid}
use merchant_ai_agent.Base.{sum_where, find_first}
use merchant_ai_agent.Inventory.{Item}
use merchant_ai_agent.Inventory.Stock.{reserved_as}
use merchant_ai_agent.ReservationWorker.{WorkerState, reserve_holds}
use merchant_ai_agent.ReservationWorker.Balance as Worker
use merchant_ai_agent.ReservationWorker.Balance.{IsBalanced, Call}
use merchant_ai_agent.OfferEngine.Free.{IsFree, true_available_of, combo_items-IsFree}
use merchant_ai_agent.OfferEngine.{OfferRow, Redis, percent, active_offers_for_item}
use merchant_ai_agent.OfferEngine.Create.{
  Draft, DiscountCreateRequest, ComboCreateRequest, CouponCreateRequest, Moment, Engine, Created,
  create_combo, combo_offer, new_offer,
}
use merchant_ai_agent.OfferEngine.Serve.{
  Request, discount, coupon, terminate, by_item, serve_all, get_offers_by_item,
}
use merchant_ai_agent.OfferEngine.Synced.{is_specific}
use merchant_ai_agent.OfferEngine.Current.{no_offers, offers_of, looked_up_offers_are_current}
use merchant_ai_agent.OfferEngine.Available.{stock_of, created_combo_is_available}

abbrev working : Redis
working = record { reads = λ id. true; writes = λ id. true }

abbrev in_stock : String → Option ℤ
in_stock item_id = some (pos 5)

abbrev moment : ℕ → ℕ → Moment
moment now new_id = record {
  now = now;
  new_id = new_id;
  redis = working;
  commits = true;
  availability = in_stock;
}

abbrev ten_percent : Draft
ten_percent = record {
  name = "Ten";
  description = "Ten percent off";
  condition = "{}";
  discount_type = percent;
  value = 10;
  valid_from = none;
  valid_to = none;
  is_active = true;
}

abbrev milk_discount : DiscountCreateRequest
milk_discount = record { draft = ten_percent; item_ids = "milk" ∷ "curd" ∷ "milk" ∷ [] }

abbrev store_coupon : CouponCreateRequest
store_coupon = record { draft = ten_percent; coupon_code = " TEN "; item_ids = none }

abbrev requests : List (Moment × Request)
requests =
    (moment 10 1, discount milk_discount)
    ∷ (moment 20 2, coupon store_coupon)
    ∷ (moment 30 0, by_item "milk")
    ∷ (moment 40 3, discount milk_discount)
    ∷ (moment 50 0, terminate 1)
    ∷ []

looked_up_offers_are_current_example :
    select is_specific
      (offers_of (get_offers_by_item (moment 60 0) "milk" (serve_all 600 requests no_offers)).1)
    ≡ active_offers_for_item "milk" (serve_all 600 requests no_offers).offers
looked_up_offers_are_current_example =
    looked_up_offers_are_current 600 "milk" requests (moment 60 0)
      (refl, (refl, (refl, (refl, (refl, tt)))))

abbrev coupon_row : OfferRow
coupon_row = record {
  id = 7;
  offer_type = "COUPON";
  name = "Ten";
  description = "Ten percent off";
  item_ids = none;
  condition = "{}";
  discount_type = percent;
  value = 10;
  combo_with_item_ids = none;
  coupon_code = some "TEN";
  festival_name = none;
  valid_from = none;
  valid_to = none;
  is_active = true;
  created_at = 10;
}

abbrev with_coupon : Engine
with_coupon = record { offers = coupon_row ∷ []; cache = [] }

abbrev look_ups : List (Moment × Request)
look_ups = (moment 40 0, by_item "curd") ∷ (moment 50 0, by_item "milk") ∷ []

abbrev milk_and_curd : ComboCreateRequest
milk_and_curd = record {
  draft = ten_percent;
  item_ids = "milk" ∷ [];
  combo_with_item_ids = "curd" ∷ "milk" ∷ [];
}

-- A Redis that refuses all writes leaves the cache as it was.
abbrev unwritable : Moment
unwritable = record (moment 10 1) { redis = record { reads = λ id. true; writes = λ id. false } }

abbrev combo_result : Engine × Created
combo_result = (
  record { offers = combo_offer unwritable milk_and_curd ∷ []; cache = [] },
  record {
    offer = combo_offer unwritable milk_and_curd;
    redis_sync = record { synced_item_ids = []; errors = "curd" ∷ "milk" ∷ [] };
  },
)

combo_is_made : create_combo 600 unwritable milk_and_curd no_offers ≡ ok combo_result
unfolding create_combo new_offer
combo_is_made = refl

combo_was_available : All (λ id. 0 < stock_of in_stock id) ("milk" ∷ "curd" ∷ "milk" ∷ [])
combo_was_available =
    created_combo_is_available 600 unwritable milk_and_curd no_offers combo_result combo_is_made

abbrev tea : Item
tea = record {
  id = 1;
  name = "Tea";
  brand = "Tata";
  weight_per_unit = "1kg";
  price_paise = 100;
  quantity_available = 9;
  expiry_date = 400;
  is_active = true;
}

abbrev tea_shop : WorkerState
tea_shop = record {
  db = record { items = tea ∷ []; reserved_items = []; audit_log = []; next_id = 0 };
  counters = λ j. 0;
}

tea_shop-IsBalanced : IsBalanced tea_shop
unfolding reserved_as sum_where
tea_shop-IsBalanced j = refl

abbrev one_hold : List Call
one_hold =
    Call.reserve (record { refused_increment = none; commit_refused = false }) 10 300 60
      (record { item_id = 1; qty = 8 } ∷ [])
    ∷ []

abbrev two_teas : ComboCreateRequest
two_teas = record {
  draft = ten_percent;
  item_ids = show_uuid 1 ∷ [];
  combo_with_item_ids = show_uuid 1 ∷ [];
}

abbrev asking : Moment
asking = record unwritable { availability = true_available_of (Worker.serve_all one_hold tea_shop) }

abbrev tea_result : Engine × Created
tea_result = (
  record { offers = combo_offer asking two_teas ∷ []; cache = [] },
  record {
    offer = combo_offer asking two_teas;
    redis_sync = record { synced_item_ids = []; errors = show_uuid 1 ∷ [] };
  },
)

tea_combo_is_made : create_combo 600 asking two_teas no_offers ≡ ok tea_result
unfolding create_combo new_offer true_available_of Worker.serve_all parse_uuid find_first
    Worker.serve reserve_holds
tea_combo_is_made = refl

combo_items-IsFree_example :
    All (IsFree (Worker.serve_all one_hold tea_shop)) (show_uuid 1 ∷ show_uuid 1 ∷ [])
combo_items-IsFree_example =
    combo_items-IsFree 600 unwritable two_teas no_offers tea_result one_hold tea_shop
      tea_shop-IsBalanced tea_combo_is_made
