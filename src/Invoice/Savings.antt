-- ===== src/Invoice/Savings.antt =====
-- A percentage never saves more than the order is worth.
use merchant_ai_agent.Base.{
  ℕ, ◌+◌, ◌*◌, ◌/◌, ◌≤◌, ◌≡◌, refl, String, Bool, true, false, Option, none, some, List, [], ◌∷◌,
  if◌then◌else◌, arith, Bool-cases, ◌⊎◌, inl, inr, leb, ap,
}
use merchant_ai_agent.Base.Int.{ℤ, pos, negsuc, pos_part, leb_ℤ, ◌+ℤ◌, ◌*ℤ◌}
use merchant_ai_agent.Base.Results.{Result, ok, ◌>>=◌}
use merchant_ai_agent.Invoice.Offers.{
  DiscountType, percent, cashback, flat, unknown, Offer, PricedLine, PriceError, int_of, line_value,
  is_target, offer_target_subtotal, AcceptedSaving, saving, accept_offer, apply_offer,
  build_accepted_offers, has_id,
}

-- A line that the catalog has priced.
pub record Priced : Type 0 where
  pub item_id : Option String
  pub qty : ℕ
  pub price : ℕ

unfoldable pub as_line : Priced → PricedLine
as_line p = record {
  item_id = p.item_id;
  qty = some (pos p.qty);
  unit_price_paise = some (pos p.price);
}

unfoldable pub as_lines : List Priced → List PricedLine
unfolding as_line
as_lines [] = []
as_lines (p ∷ ps) = as_line p ∷ as_lines ps

unfoldable pub worth : List Priced → ℕ
worth [] = 0
worth (p ∷ ps) = p.qty * p.price + worth ps

-- What the lines that an offer is for are worth.
unfoldable pub target_worth : List String → List Priced → ℕ
unfolding as_line
target_worth ids [] = 0
target_worth ids (p ∷ ps) =
    let rest = target_worth ids ps in
    if is_target ids (as_line p) then p.qty * p.price + rest else rest

mul-pos : (a b : ℕ) → pos a *ℤ pos b ≡ pos (a * b)
unfolding ◌*ℤ◌
mul-pos a b = ground arith

add-pos : (a b : ℕ) → pos a +ℤ pos b ≡ pos (a + b)
unfolding ◌+ℤ◌
add-pos a b = ground arith

line_value-priced : (p : Priced) → line_value (as_line p) ≡ ok (pos (p.qty * p.price))
unfolding line_value as_line int_of
line_value-priced p = ap ok (mul-pos p.qty p.price)

add-values :
    (a b : Result PriceError ℤ) (x y : ℕ)
    → a ≡ ok (pos x)
    → b ≡ ok (pos y)
    → (do v ← a; s ← b; ok (v +ℤ s)) ≡ ok (pos (x + y))
add-values a b x y ea eb = rw ea (rw eb (ap ok (add-pos x y)))

pub subtotal-priced :
    (ids : List String) (ps : List Priced)
    → offer_target_subtotal ids (as_lines ps) ≡ ok (pos (target_worth ids ps))
unfolding offer_target_subtotal as_lines target_worth
subtotal-priced ids [] = refl
subtotal-priced ids (p ∷ ps) =
    let rest = offer_target_subtotal ids (as_lines ps) in
    let value = line_value (as_line p) in
    let both : (do v ← value; s ← rest; ok (v +ℤ s))
        ≡ ok (pos (p.qty * p.price + target_worth ids ps)) =
      add-values value rest (p.qty * p.price) (target_worth ids ps) (line_value-priced p)
        (subtotal-priced ids ps) in
    elim (Bool-cases (is_target ids (as_line p))) [
      | inl e ↦ rw e both
      | inr e ↦ rw e (subtotal-priced ids ps)
    ]

target-le-worth : (ids : List String) (ps : List Priced) → target_worth ids ps ≤ worth ps
unfolding target_worth worth
target-le-worth ids [] = omega arith
target-le-worth ids (p ∷ ps) = ground (arith, target-le-worth ids ps)

-- A percentage or a cashback of at most 100.
unfoldable pub is_share : DiscountType → ℤ → Bool
is_share percent value = leb (pos_part value) 100
is_share cashback value = leb (pos_part value) 100
is_share flat value = false
is_share unknown value = false

share-le : (n v w : ℕ) → n ≤ w → v ≤ 100 → n * v / 100 ≤ w
share-le n v w le lv = grind arith

pos_part-scaled : (n : ℕ) (v : ℤ) → pos_part (pos n *ℤ v) ≡ n * pos_part v
unfolding ◌*ℤ◌
pos_part-scaled n (pos v) = ground arith
pos_part-scaled n (negsuc v) = grind arith

share-saving-le :
    (n : ℕ) (v : ℤ) (w : ℕ) → n ≤ w → leb (pos_part v) 100 ≡ true → pos_part (pos n *ℤ v) / 100 ≤ w
share-saving-le n v w le e = rw (pos_part-scaled n v) (share-le n (pos_part v) w le (ground arith))

saving-le :
    (kind : DiscountType) (n : ℕ) (value : ℤ) (w : ℕ)
    → n ≤ w
    → is_share kind value ≡ true
    → saving kind (pos n) value ≤ w
unfolding saving is_share
saving-le percent n value w le e = share-saving-le n value w le e
saving-le cashback n value w le e = share-saving-le n value w le e
saving-le flat n value w le e = ground (arith, e)
saving-le unknown n value w le e = ground (arith, e)

-- An offer without an id, or for lines that are worth nothing.
pub IsSkipped : List Priced → Offer → Type 0
IsSkipped ps offer = (has_id offer.id ≡ none) ⊎ (target_worth offer.item_ids ps ≡ 0)

-- The savings stand in the order of the offers that they are of, only those are missing that are
-- skipped, and a percentage or a cashback of at most 100 saves at most what the lines are worth.
pub IsAccounted : List Priced → List Offer → List AcceptedSaving → Type 0
IsAccounted ps [] accepted = accepted ≡ []
IsAccounted ps (offer ∷ offers) accepted =
    (IsSkipped ps offer × IsAccounted ps offers accepted)
    ⊎ ((s : AcceptedSaving) × (rest : List AcceptedSaving) × (accepted ≡ s ∷ rest)
        × (offer.id ≡ some s.id)
        × (is_share offer.discount_type offer.value ≡ true → s.amount_saved_paise ≤ worth ps)
        × IsAccounted ps offers rest)

has_id-same : (o : Option String) (text : String) → has_id o ≡ some text → o ≡ some text
unfolding has_id
has_id-same none text h = cc
has_id-same (some id) text h = ground arith

no_units : (n : ℕ) → leb_ℤ (pos n) (pos 0) ≡ true → n ≡ 0
no_units n h = ground (arith, h)

module _ (ps : List Priced) (offer : Offer) (offers : List Offer) (rest : List AcceptedSaving)
    (accounted : IsAccounted ps offers rest) where
  abbrev subtotal : ℕ
  subtotal = target_worth offer.item_ids ps

  accept-IsAccounted :
      (id : String)
      → has_id offer.id ≡ some id
      → IsAccounted ps (offer ∷ offers) (accept_offer offer id (pos subtotal) rest)
  unfolding accept_offer IsAccounted IsSkipped
  accept-IsAccounted id e = elim (Bool-cases (leb_ℤ (pos subtotal) (pos 0))) [
    | inl none_left ↦ rw none_left (inl (inr (no_units subtotal none_left), accounted))
    | inr some_left ↦ rw some_left (
        inr (
          _,
          rest,
          refl,
          has_id-same offer.id id e,
          λ share.
              saving-le offer.discount_type subtotal offer.value (worth ps)
                (target-le-worth offer.item_ids ps) share,
          accounted,
        ))
  ]

  apply-IsAccounted :
      (id : Option String)
      → has_id offer.id ≡ id
      → (accepted : List AcceptedSaving) × (apply_offer offer id (ok (pos subtotal)) (ok rest)
          ≡ ok accepted)
        × IsAccounted ps (offer ∷ offers) accepted
  unfolding apply_offer IsAccounted IsSkipped
  apply-IsAccounted none e = (rest, refl, inl (inl e, accounted))
  apply-IsAccounted (some id) e =
      (accept_offer offer id (pos subtotal) rest, refl, accept-IsAccounted id e)

-- On priced lines the savings of any offers are computed without an error. They stand in the order of
-- the offers that they are of, under their ids; only the offers without an id and those for lines
-- that are worth nothing have none; and the saving of a percentage or a cashback of at most 100 is at
-- most what the order is worth, whatever offers of other kinds stand beside it.
pub build_accepted_offers-IsAccounted :
    (offers : List Offer) (ps : List Priced)
    → (accepted : List AcceptedSaving) × (build_accepted_offers offers (as_lines ps) ≡ ok accepted)
      × IsAccounted ps offers accepted
unfolding build_accepted_offers IsAccounted
build_accepted_offers-IsAccounted [] ps = ([], refl, refl)
build_accepted_offers-IsAccounted (offer ∷ offers) ps =
    let (accepted, e, accounted) = build_accepted_offers-IsAccounted offers ps in
    rw (subtotal-priced offer.item_ids ps)
      (rw e (apply-IsAccounted ps offer offers accepted accounted (has_id offer.id) refl))
