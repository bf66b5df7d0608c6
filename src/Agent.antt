-- ===== src/Agent.antt =====
-- The ordering agent, services/merchant_agent/graph: the state of one session (state.py), and the
-- order lines as its nodes see them. A key that a dictionary of the source lacks is the value that
-- `get` gives for it. Texts of replies are told apart by what they announce.
pub mod Missing
pub mod Confirmed
pub mod Names
pub mod Distance
pub mod React
pub mod Stock
pub mod Covered
pub mod Alternatives
pub mod Withdrawn
pub mod Outcome
pub mod Settled
pub mod Session
pub mod Proceeded
pub mod Asked
pub mod Memory
pub mod Loaded
pub mod Merge
pub mod Parse
pub mod Unresolved
pub mod Lookup
pub mod Identified
mod Tests
pub mod Rounds
pub mod Closing
pub mod Graph
use merchant_ai_agent.Base.{
  ℕ, String, Bool, true, false, not, ◌&&◌, Option, none, some, List, [], ◌∷◌, map, str_eq,
  if◌then◌else◌, ltb, is_some,
}
use merchant_ai_agent.Base.Int.{ℤ}
use merchant_ai_agent.Invoice.Schema.{Invoice}
use merchant_ai_agent.Invoice.Offers.{Offer}

pub data CatalogStatus : Type 0 where
  missing_name resolved_status not_found ambiguous stockout_pending : CatalogStatus

-- A date is the number of its day, as in the table of items.
pub record LineItem : Type 0 where
  pub item_name : String
  pub brand : Option String
  pub qty : Option ℤ
  pub item_id : Option String
  pub unit_price_paise : Option ℤ
  pub available_qty : Option ℤ
  pub weight_per_unit : Option String
  pub expiry_date : Option ℕ
  pub resolved : Bool
  pub catalog_status : Option CatalogStatus

pub record Unavailable : Type 0 where
  pub item_id : Option String
  pub item_name : String
  pub brand : Option String
  pub requested_qty : Option ℤ
  pub available_qty : ℤ

-- The texts of `_compute_missing_fields`.
pub data MissingField : Type 0 where
  alternative product quantity address phone customer_name mandate : MissingField

pub data OrderStatus : Type 0 where
  draft awaiting_fields awaiting_confirmation validated invoiced failed : OrderStatus

pub data Reply : Type 0 where
  no_reply off_topic_redirect order_summary fields_asked alternatives_offered nothing_to_invoice :
      Reply
  order_validated invoice_generated : Reply
  payment_link_sent payment_link_failed link_voided reservation_failed unable_to_process : Reply

pub data Goal : Type 0 where
  cross_sell_lookup offer_lookup campaign_scan done : Goal

pub data Tool : Type 0 where
  cross_sell_tool offer_tool campaign_tool : Tool

-- What the reservation or the payment service answered, an exception being a failure.
pub record ServiceResult : Type 0 where
  pub success : Bool
  pub payment_link_url : Option String
  pub expires_at : Option ℕ
  pub unavailable_items : List Unavailable

-- The customer profile of the personal memory.
pub record Profile : Type 0 where
  pub customer_name : Option String
  pub address : Option String
  pub phone : Option String

pub record OrderState : Type 0 where
  pub message : String
  pub mandate_verified : Bool
  pub merchant_id : Option String
  pub line_items : List LineItem
  pub customer_name : Option String
  pub address : Option String
  pub phone : Option String
  pub missing_fields : List MissingField
  pub catalog_suggestions : List String
  pub status : OrderStatus
  pub reply : Reply
  pub invoice : Option Invoice
  pub off_topic : Bool
  pub unavailable_item : Option Unavailable
  pub unavailable_items : List Unavailable
  pub resolved_offers : List Offer
  pub cross_sell_candidates : List (List String)
  pub campaign_context : List Offer
  pub customer_profile : Profile
  pub react_scratchpad : List Goal
  pub reservation_invoice_id : Option String
  pub reservation_result : Option ServiceResult
  pub payment_result : Option ServiceResult
  pub payment_link_url : Option String
  pub payment_expires_at : Option ℕ
  pub reservation_expires_at : Option ℕ
  pub react_loop_count : ℕ
  pub react_goal : Option Goal
  pub react_selected_tools : List Tool
  pub react_loop_capped : Bool
  pub react_should_continue : Bool
  pub awaiting_invoice_confirmation : Bool
  pub invoice_proceed : Bool

-- The entries of the audit log, by their action.
pub data AuditAction : Type 0 where
  react_loop_capped offer_surfaced campaign_surfaced cross_sell_surfaced : AuditAction
  item_unavailable order_validated invoice_confirmation_offered fields_still_missing : AuditAction
  invoice_generated offer_applied_logged : AuditAction
  invoice_fulfilled payment_link_failed orphaned_payment_link_risk : AuditAction
  reservation_failed_payment_voided reservation_failed : AuditAction

-- Python's truth of an optional text.
unfoldable pub truthy : Option String → Bool
truthy none = false
truthy (some text) = not (str_eq text "")

unfoldable pub is_nonempty {ℓ} : {A : Type ℓ} → List A → Bool
is_nonempty [] = false
is_nonempty (x ∷ xs) = true

-- `item.get("catalog_status") == ...`
unfoldable pub is_stockout_pending : Option CatalogStatus → Bool
is_stockout_pending (some stockout_pending) = true
is_stockout_pending (some missing_name) = false
is_stockout_pending (some resolved_status) = false
is_stockout_pending (some not_found) = false
is_stockout_pending (some ambiguous) = false
is_stockout_pending none = false

unfoldable pub is_not_found : Option CatalogStatus → Bool
is_not_found (some not_found) = true
is_not_found (some missing_name) = false
is_not_found (some resolved_status) = false
is_not_found (some ambiguous) = false
is_not_found (some stockout_pending) = false
is_not_found none = false

unfoldable pub is_ambiguous : Option CatalogStatus → Bool
is_ambiguous (some ambiguous) = true
is_ambiguous (some missing_name) = false
is_ambiguous (some resolved_status) = false
is_ambiguous (some not_found) = false
is_ambiguous (some stockout_pending) = false
is_ambiguous none = false

-- `_orderable_line_items`. The names of the lines are stripped when they are read, so that
-- `_normalize_line_item` keeps them.
unfoldable pub is_orderable : LineItem → Bool
unfolding truthy is_stockout_pending
is_orderable item =
    item.resolved
    && truthy item.item_id
    && is_some item.qty
    && not (is_stockout_pending item.catalog_status)

unfoldable pub unavailable_from : List Unavailable → Option Unavailable → List Unavailable
unavailable_from (u ∷ us) single = u ∷ us
unavailable_from [] none = []
unavailable_from [] (some u) = u ∷ []

-- `unavailable_items_from_state`
unfoldable pub unavailable_items_from_state : OrderState → List Unavailable
unfolding unavailable_from
unavailable_items_from_state s = unavailable_from s.unavailable_items s.unavailable_item

unfoldable pub has_unavailable_items : OrderState → Bool
unfolding is_nonempty unavailable_items_from_state
has_unavailable_items s = is_nonempty (unavailable_items_from_state s)
