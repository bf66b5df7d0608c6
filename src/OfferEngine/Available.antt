-- ===== src/OfferEngine/Available.antt =====
-- Combos and cross-sells of items that are in stock.
use merchant_ai_agent.Base.{
  ℕ, ◌<◌, ◌≤◌, ◌≡◌, refl, sym, subst, String, Bool, true, false, not, ◌++◌, Option, none, some,
  List, [], ◌∷◌, select, str_eq, eq_iff, if◌then◌else◌, All, arith,
}
use merchant_ai_agent.Base.Int.{ℤ}
use merchant_ai_agent.Base.Results.{Result, ok, err, bind-returned}
use merchant_ai_agent.Merchant.Dict.{TextMap, get}
use merchant_ai_agent.OfferEngine.Availability.{
  unique, get_true_available, add_qty, quantities_of, raise_if_failed, get_true_available_qty_map,
  qty_of,
}
use merchant_ai_agent.OfferEngine.Create.{
  ComboCreateRequest, Failure, unprocessable, availability_unknown, true_availability_zero, Moment,
  Engine, Created, unavailable_of, refuse_unavailable, valid_combo, create_combo,
}
use merchant_ai_agent.OfferEngine.CrossSell.{
  CrossSellCreateRequest, CrossSellPreference, item_ids_to_validate, has_targets, create_cross_sell,
}

module _ (answers : String → Option ℤ) where
  -- The true quantity of an item, or 0 if it is not known.
  unfoldable pub stock_of : String → ℕ
  unfolding get_true_available
  stock_of item_id = elim (get_true_available answers item_id) [ none ↦ 0 | some qty ↦ qty ]

  qty_of-added :
      (item_id id : String) (qty : Option ℕ)
      → get_true_available answers id ≡ qty
      → (quantities : TextMap ℕ) → qty_of quantities item_id ≤ stock_of item_id
      → qty_of (add_qty answers id qty quantities) item_id ≤ stock_of item_id
  unfolding qty_of get add_qty stock_of
  qty_of-added item_id id none e quantities h = h
  qty_of-added item_id id (some qty) e quantities h = ground (arith, e, eq_iff id item_id)

  qty_of-stock :
      (item_id : String) (ids : List String)
      → qty_of (quantities_of answers ids) item_id ≤ stock_of item_id
  unfolding qty_of get quantities_of add_qty stock_of
  qty_of-stock item_id [] = omega arith
  qty_of-stock item_id (id ∷ ids) =
      qty_of-added item_id id (get_true_available answers id) refl (quantities_of answers ids)
        (qty_of-stock item_id ids)

  none_unavailable :
      (quantities : TextMap ℕ) (ids : List String)
      → unavailable_of ids quantities ≡ []
      → All (λ id. 0 < qty_of quantities id) ids
  unfolding unavailable_of select
  none_unavailable quantities [] h = tt
  none_unavailable quantities (id ∷ ids) h = ground (arith, none_unavailable quantities ids)

  all-qty-stock :
      (asked ids : List String)
      → All (λ id. 0 < qty_of (quantities_of answers asked) id) ids
      → All (λ id. 0 < stock_of id) ids
  all-qty-stock asked [] h = tt
  all-qty-stock asked (id ∷ ids) h =
      (omega (arith, h.0, qty_of-stock id asked), all-qty-stock asked ids h.1)

  raised-quantities :
      (failed : List String) (quantities returned : TextMap ℕ)
      → raise_if_failed failed quantities ≡ ok returned
      → quantities ≡ returned
  unfolding raise_if_failed
  raised-quantities [] quantities returned h = cc
  raised-quantities (id ∷ failed) quantities returned h = cc

  none_refused :
      (ids : List String) (quantities returned : TextMap ℕ) (unavailable : List String)
      → unavailable_of ids quantities ≡ unavailable
      → ◌≡◌ {A = Result Failure (TextMap ℕ)}
          (elim unavailable [
            | [] ↦ ok quantities
            | id ∷ more ↦ err (true_availability_zero (id ∷ more))
          ])
          (ok returned)
      → unavailable_of ids quantities ≡ []
  none_refused ids quantities returned [] e h = e
  none_refused ids quantities returned (id ∷ more) e h = cc

  found_in_stock :
      (ids : List String) (found : Result (List String) (TextMap ℕ)) (returned : TextMap ℕ)
      → get_true_available_qty_map answers ids ≡ found
      → ◌≡◌ {A = Result Failure (TextMap ℕ)}
          (elim found [
            | err failed ↦ err (availability_unknown failed)
            | ok quantities ↦ elim (unavailable_of ids quantities) [
              | [] ↦ ok quantities
              | id ∷ more ↦ err (true_availability_zero (id ∷ more))
            ]
          ])
          (ok returned)
      → All (λ id. 0 < stock_of id) ids
  unfolding get_true_available_qty_map
  found_in_stock ids (err failed) returned e h = cc
  found_in_stock ids (ok quantities) returned e h =
      all-qty-stock (unique (select (λ id. not (str_eq id "")) ids)) ids (
        rw (raised-quantities _ _ quantities e) (
          none_unavailable quantities ids
            (none_refused ids quantities returned (unavailable_of ids quantities) refl h)))

  not_refused :
      (ids : List String) (returned : TextMap ℕ)
      → refuse_unavailable answers ids ≡ ok returned
      → All (λ id. 0 < stock_of id) ids
  unfolding refuse_unavailable
  not_refused ids returned h =
      found_in_stock ids (get_true_available_qty_map answers ids) returned refl h

module _ (P : String → Type 0) where
  All-other :
      (id other : String) (rest : List String) (b : Bool)
      → str_eq other id ≡ b
      → P id
      → All P (if not b then other ∷ rest else rest)
      → P other × All P rest
  All-other id other rest true e p h = (subst P (sym ((eq_iff other id).0 e)) p, h)
  All-other id other rest false e p h = h

  All-unselect :
      (id : String) (ids : List String)
      → P id
      → All P (select (λ other. not (str_eq other id)) ids)
      → All P ids
  unfolding select
  All-unselect id [] p h = tt
  All-unselect id (other ∷ ids) p h =
      let (first, rest) = All-other id other _ (str_eq other id) refl p h in
      (first, All-unselect id ids p rest)

  All-unique : (ids : List String) → All P (unique ids) → All P ids
  unfolding unique
  All-unique [] h = tt
  All-unique (id ∷ ids) h = (h.0, All-unique ids (All-unselect id (unique ids) h.0 h.1))

guarded-ok :
    {A : Type 0} (b : Bool) (r : Result Failure A) (e : Failure) (a : A)
    → (if b then r else err e) ≡ ok a
    → r ≡ ok a
guarded-ok true r e a h = h
guarded-ok false r e a h = cc

-- A combo is made only if the admin service has answered for each of its items, on both lists, that
-- some of it is left.
pub created_combo_is_available :
    (ttl : ℕ) (m : Moment) (payload : ComboCreateRequest) (engine : Engine)
    (result : Engine × Created)
    → create_combo ttl m payload engine ≡ ok result
    → All (λ id. 0 < stock_of m.availability id) (payload.item_ids ++ payload.combo_with_item_ids)
unfolding create_combo
created_combo_is_available ttl m payload engine result h =
    let ids = payload.item_ids ++ payload.combo_with_item_ids in
    let (quantities, checked, saved) =
      bind-returned (refuse_unavailable m.availability (unique ids)) _ result
        (guarded-ok (valid_combo payload) _ unprocessable result h) in
    All-unique (λ id. 0 < stock_of m.availability id) ids
      (not_refused m.availability (unique ids) quantities checked)

-- A cross-sell preference is made only if some of its item and of each target is left.
pub created_cross_sell_is_available :
    (m : Moment) (payload : CrossSellCreateRequest) (rows : List CrossSellPreference)
    (result : List CrossSellPreference × CrossSellPreference)
    → create_cross_sell m payload rows ≡ ok result
    → All (λ id. 0 < stock_of m.availability id) (item_ids_to_validate payload)
unfolding create_cross_sell
created_cross_sell_is_available m payload rows result h =
    let (quantities, checked, saved) =
      bind-returned (refuse_unavailable m.availability (item_ids_to_validate payload)) _ result
        (guarded-ok (has_targets payload.target_item_ids) _ unprocessable result h) in
    not_refused m.availability (item_ids_to_validate payload) quantities checked
