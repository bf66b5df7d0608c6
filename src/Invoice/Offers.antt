-- ===== src/Invoice/Offers.antt =====
-- `_offer_target_subtotal_paise` and `_build_accepted_offers` of
-- services/merchant_agent/graph/nodes.py.
use merchant_ai_agent.Base.{
  ℕ, ◌/◌, String, Bool, true, Option, none, some, List, [], ◌∷◌, str_eq, if◌then◌else◌, any,
}
use merchant_ai_agent.Base.Int.{ℤ, pos, pos_part, ◌+ℤ◌, ◌*ℤ◌, leb_ℤ}
use merchant_ai_agent.Base.Results.{Result, ok, err, ◌>>=◌}

-- `str(discount_type).upper()`, by its cases.
pub data DiscountType : Type 0 where
  percent cashback flat unknown : DiscountType

pub record Offer : Type 0 where
  pub id : Option String
  pub discount_type : DiscountType
  pub value : ℤ
  pub description : String
  pub item_ids : List String

-- A line with its quantity and price, which `int` refuses if they are `None`. A key that is missing
-- reads as 0.
pub record PricedLine : Type 0 where
  pub item_id : Option String
  pub qty : Option ℤ
  pub unit_price_paise : Option ℤ

-- `TypeError` of `int(None)`.
pub data PriceError : Type 0 where
  type_error : PriceError

unfoldable pub int_of : Option ℤ → Result PriceError ℤ
int_of none = err type_error
int_of (some z) = ok z

unfoldable pub line_value : PricedLine → Result PriceError ℤ
unfolding int_of ◌*ℤ◌
line_value line = do q ← int_of line.qty; p ← int_of line.unit_price_paise; ok (q *ℤ p)

-- `str(item.get("item_id"))`: the text "None" of a missing id.
unfoldable pub shown_id : Option String → String
shown_id none = "None"
shown_id (some text) = text

-- With no ids the offer is for the whole order.
unfoldable pub is_target : List String → PricedLine → Bool
unfolding shown_id any
is_target [] line = true
is_target (i ∷ is) line = any (λ j. str_eq j (shown_id line.item_id)) (i ∷ is)

unfoldable pub offer_target_subtotal : List String → List PricedLine → Result PriceError ℤ
unfolding is_target line_value ◌+ℤ◌
offer_target_subtotal ids [] = ok (pos 0)
offer_target_subtotal ids (line ∷ lines) =
    let rest = offer_target_subtotal ids lines in
    if is_target ids line then (do v ← line_value line; s ← rest; ok (v +ℤ s)) else rest

pub record AcceptedSaving : Type 0 where
  pub id : String
  pub description : String
  pub amount_saved_paise : ℕ

-- `max(subtotal * value // 100, 0)` or `max(value, 0)`: `//` of a negative number is negative.
unfoldable pub saving : DiscountType → ℤ → ℤ → ℕ
unfolding ◌*ℤ◌
saving percent subtotal value = pos_part (subtotal *ℤ value) / 100
saving cashback subtotal value = pos_part (subtotal *ℤ value) / 100
saving flat subtotal value = pos_part value
saving unknown subtotal value = pos_part value

-- `if not offer_id: continue`
unfoldable pub has_id : Option String → Option String
has_id none = none
has_id (some text) = if str_eq text "" then none else some text

-- The saving of an offer, if what it is for is worth anything.
unfoldable pub accept_offer : Offer → String → ℤ → List AcceptedSaving → List AcceptedSaving
unfolding saving
accept_offer offer id subtotal rest =
    if leb_ℤ subtotal (pos 0)
    then rest
    else record {
      id = id;
      description = offer.description;
      amount_saved_paise = saving offer.discount_type subtotal offer.value;
    }
      ∷ rest

-- One round of the loop.
unfoldable pub apply_offer :
    Offer
    → Option String
    → Result PriceError ℤ
    → Result PriceError (List AcceptedSaving)
    → Result PriceError (List AcceptedSaving)
unfolding accept_offer
apply_offer offer none subtotal_call rest = rest
apply_offer offer (some id) subtotal_call rest = do
  subtotal ← subtotal_call
  accepted ← rest
  ok (accept_offer offer id subtotal accepted)

unfoldable pub build_accepted_offers :
    List Offer → List PricedLine → Result PriceError (List AcceptedSaving)
unfolding has_id apply_offer offer_target_subtotal
build_accepted_offers [] lines = ok []
build_accepted_offers (offer ∷ offers) lines =
    apply_offer offer (has_id offer.id) (offer_target_subtotal offer.item_ids lines)
      (build_accepted_offers offers lines)
