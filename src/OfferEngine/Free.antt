-- ===== src/OfferEngine/Free.antt =====
-- Combos and the stock that the reservation worker holds: services/offer_engine asks
-- services/merchant_admin/routers/internal_inventory.py, which reads the worker's counters.
use merchant_ai_agent.Base.{
  ℕ, ◌<◌, ◌≡◌, refl, subst, String, Option, none, some, List, [], ◌∷◌, ◌++◌, All, arith,
}
use merchant_ai_agent.Base.Int.{ℤ, sub_ℕ, pos_part}
use merchant_ai_agent.Base.Results.{ok}
use merchant_ai_agent.Uuid.{Uuid, codes, parse_uuid}
use merchant_ai_agent.Inventory.{Item, is_held}
use merchant_ai_agent.Inventory.Stock.{reserved_as}
use merchant_ai_agent.ReservationWorker.{WorkerState, load_item}
use merchant_ai_agent.ReservationWorker.Balance.{IsBalanced, Call, serve_all, serve_all-IsBalanced}
use merchant_ai_agent.OfferEngine.Availability.{get_true_available}
use merchant_ai_agent.OfferEngine.Create.{ComboCreateRequest, Moment, Engine, Created, create_combo}
use merchant_ai_agent.OfferEngine.Available.{stock_of, created_combo_is_available}

-- The quantity of an active item less its counter; an item that is not there answers 404.
unfoldable pub answer_of : Uuid → WorkerState → Option Item → Option ℤ
answer_of id w none = none
answer_of id w (some item) = some (sub_ℕ item.quantity_available (w.counters id))

unfoldable pub answer_for : WorkerState → Option Uuid → Option ℤ
unfolding answer_of load_item
answer_for w none = none
answer_for w (some id) = answer_of id w (load_item id w.db.items)

-- `get_true_available` of the admin service, by the text of an id; one that is no UUID answers 422.
unfoldable pub true_available_of : WorkerState → String → Option ℤ
unfolding answer_for
true_available_of w text = answer_for w (parse_uuid (codes text))

IsFreeItem : Uuid → WorkerState → Option Item → Type 0
IsFreeItem id w none = ⊥
IsFreeItem id w (some item) = reserved_as is_held id w.db.reserved_items < item.quantity_available

IsFreeId : WorkerState → Option Uuid → Type 0
IsFreeId w none = ⊥
IsFreeId w (some id) = IsFreeItem id w (load_item id w.db.items)

-- The item is on sale, and more of it stands on the shelf than is held.
pub IsFree : WorkerState → String → Type 0
IsFree w text = IsFreeId w (parse_uuid (codes text))

positive_sub : (a b : ℕ) → 0 < pos_part (sub_ℕ a b) → b < a
positive_sub a b h = ground arith

module _ (w : WorkerState) (balanced : IsBalanced w) where
  qty_of_answer : Option ℤ → ℕ
  qty_of_answer none = 0
  qty_of_answer (some z) = pos_part z

  answered-IsFreeItem :
      (id : Uuid) (item : Option Item)
      → 0 < qty_of_answer (answer_of id w item)
      → IsFreeItem id w item
  unfolding IsFreeItem answer_of qty_of_answer
  answered-IsFreeItem id none h = omega (arith, h)
  answered-IsFreeItem id (some item) h =
      omega (arith, positive_sub item.quantity_available (w.counters id) h, balanced id)

  answered-IsFreeId : (id : Option Uuid) → 0 < qty_of_answer (answer_for w id) → IsFreeId w id
  unfolding IsFreeId answer_for qty_of_answer
  answered-IsFreeId none h = omega (arith, h)
  answered-IsFreeId (some id) h = answered-IsFreeItem id (load_item id w.db.items) h

  found-answer :
      (o : Option ℤ)
      → (elim (elim o as (λ x. Option ℕ) [ none ↦ none | some z ↦ some (pos_part z) ]) as (λ x. ℕ) [
        | none ↦ 0
        | some q ↦ q
      ])
        ≡ qty_of_answer o
  unfolding qty_of_answer
  found-answer none = refl
  found-answer (some z) = refl

  stock_of-answer :
      (answers : String → Option ℤ) (text : String)
      → stock_of answers text ≡ qty_of_answer (answers text)
  unfolding stock_of get_true_available
  stock_of-answer answers text = found-answer (answers text)

  stock_of-IsFree : (text : String) → 0 < stock_of (true_available_of w) text → IsFree w text
  unfolding IsFree true_available_of
  stock_of-IsFree text h =
      answered-IsFreeId (parse_uuid (codes text))
        (subst (λ n. 0 < n) (stock_of-answer (true_available_of w) text) h)

  all-IsFree :
      (ids : List String)
      → All (λ id. 0 < stock_of (true_available_of w) id) ids
      → All (IsFree w) ids
  all-IsFree [] h = tt
  all-IsFree (id ∷ ids) h = (stock_of-IsFree id h.0, all-IsFree ids h.1)

-- After any sequence of calls of the reservation worker, failures among them, a combo is made, if the
-- admin service reads its counters, only of items on sale of which more stands on the shelf than the
-- rows of reservations hold.
pub combo_items-IsFree :
    (ttl : ℕ) (m : Moment) (payload : ComboCreateRequest) (engine : Engine)
    (result : Engine × Created) (calls : List Call) (w : WorkerState)
    → IsBalanced w
    → create_combo ttl
        (record m { availability = true_available_of (serve_all calls w) })
        payload
        engine
      ≡ ok result
    → All (IsFree (serve_all calls w)) (payload.item_ids ++ payload.combo_with_item_ids)
combo_items-IsFree ttl m payload engine result calls w balanced made =
    let after = serve_all calls w in
    all-IsFree after (serve_all-IsBalanced calls w balanced)
      (payload.item_ids ++ payload.combo_with_item_ids)
      (created_combo_is_available ttl (record m { availability = true_available_of after }) payload
        engine result made)
