-- ===== src/Upload/Listing.antt =====
-- The catalog as a function of an item's key, and the upload of rows as updates of that function.
use merchant_ai_agent.Base.{
  ℕ, ◌+◌, ◌≡◌, refl, Bool, true, false, Option, none, some, List, [], ◌∷◌, ◌++◌, select,
  update_where, if◌then◌else◌, arith, sym, ◌∙◌, subst, Bool-cases, inl, inr,
}
use merchant_ai_agent.Strings.{same_codes-eq, same_codes_self}
use merchant_ai_agent.Inventory.{Item}
use merchant_ai_agent.Upload.{ValidatedUploadRow}
use merchant_ai_agent.Upload.Upsert.{Key, same_key, key_of, row_key, new_item, top_up, is_listed_as}

-- What the catalog says of a key: a price, a quantity, and whether it is on sale.
pub record Listed : Type 0 where
  pub price_paise : ℕ
  pub quantity_available : ℕ
  pub is_active : Bool

abbrev pub Catalog : Type 0
Catalog = Key → Option Listed

unfoldable pub listed_item : Item → Listed
listed_item item = record {
  price_paise = item.price_paise;
  quantity_available = item.quantity_available;
  is_active = item.is_active;
}

unfoldable pub listing : List Item → Catalog
unfolding listed_item
listing [] k = none
listing (item ∷ items) k = if is_listed_as k item then some (listed_item item) else listing items k

-- A row adds its quantity to what is there, sets the price, and puts the item on sale.
unfoldable pub merged : ValidatedUploadRow → Option Listed → Listed
merged row none = record {
  price_paise = row.price_paise;
  quantity_available = row.quantity_available;
  is_active = true;
}
merged row (some l) = record {
  price_paise = row.price_paise;
  quantity_available = l.quantity_available + row.quantity_available;
  is_active = true;
}

unfoldable pub put_row : ValidatedUploadRow → Catalog → Catalog
unfolding merged
put_row row catalog k =
    if same_key (row_key row) k then some (merged row (catalog k)) else catalog k

unfoldable pub put_rows : List ValidatedUploadRow → Catalog → Catalog
unfolding put_row
put_rows [] catalog = catalog
put_rows (row ∷ rows) catalog = put_rows rows (put_row row catalog)

pub same_key-eq : (a b : Key) → same_key a b ≡ true → a ≡ b
unfolding same_key
same_key-eq a b h = ground (
  arith,
  same_codes-eq a.name b.name,
  same_codes-eq a.brand b.brand,
  same_codes-eq a.weight_per_unit b.weight_per_unit,
)

same_key_self : (a : Key) → same_key a a ≡ true
unfolding same_key
same_key_self a =
    ground
      (arith, same_codes_self a.name, same_codes_self a.brand, same_codes_self a.weight_per_unit)

listed_key : (k : Key) (item : Item) → is_listed_as k item ≡ true → k ≡ key_of item
unfolding is_listed_as
listed_key k item h = same_key-eq k (key_of item) h

-- An item that is listed under one of two different keys is not listed under the other.
listed_once :
    (k key : Key) (item : Item)
    → same_key key k ≡ false
    → is_listed_as key item ≡ true
    → is_listed_as k item ≡ false
listed_once k key item other h = elim (Bool-cases (is_listed_as k item)) [
  | inl also ↦
      let e : key ≡ k = listed_key key item h ∙ sym (listed_key k item also) in
      cc (other, subst (λ x. same_key key x ≡ true) e (same_key_self key))
  | inr not_listed ↦ not_listed
]

pub listing-unmatched :
    (k : Key) (items : List Item) → select (is_listed_as k) items ≡ [] → listing items k ≡ none
unfolding select listing
listing-unmatched k [] h = refl
listing-unmatched k (item ∷ items) h = ground (arith, listing-unmatched k items)

listing-append :
    (k : Key) (items : List Item) (item : Item)
    → listing (items ++ item ∷ []) k
      ≡ elim (listing items k) [ none ↦ listing (item ∷ []) k | some l ↦ some l ]
unfolding listing
listing-append k [] item = refl
listing-append k (i ∷ items) item = ground (arith, listing-append k items item)

-- The row that is added is found under its key.
pub listed-new_item :
    (k : Key) (id : ℕ) (row : ValidatedUploadRow)
    → is_listed_as k (new_item id row) ≡ same_key k (row_key row)
unfolding is_listed_as key_of new_item row_key
listed-new_item k id row = refl

listing-new :
    (id : ℕ) (row : ValidatedUploadRow) (k : Key)
    → listing (new_item id row ∷ []) k
      ≡ (if same_key k (row_key row) then some (merged row none) else none)
unfolding listing is_listed_as key_of new_item row_key merged
listing-new id row k = refl

key_of-top_up : (row : ValidatedUploadRow) (item : Item) → key_of (top_up row item) ≡ key_of item
unfolding key_of top_up
key_of-top_up row item = refl

pub same_key_comm : (a b : Key) → same_key a b ≡ same_key b a
same_key_comm a b = elim (Bool-cases (same_key a b)) [
  | inl same ↦
      let e = same_key-eq a b same in
      same ∙ sym (subst (λ x. same_key x a ≡ true) e (same_key_self a))
  | inr other ↦ elim (Bool-cases (same_key b a)) [
    | inl same ↦
        let e = same_key-eq b a same in cc (subst (λ x. same_key x b ≡ true) e (same_key_self b))
    | inr also ↦ other ∙ sym also
  ]
]

pub listing-insert :
    (id : ℕ) (row : ValidatedUploadRow) (items : List Item) (k : Key)
    → select (is_listed_as (row_key row)) items ≡ []
    → listing (items ++ new_item id row ∷ []) k ≡ put_row row (listing items) k
unfolding put_row
listing-insert id row items k unmatched = elim (Bool-cases (same_key (row_key row) k)) [
  | inl same ↦
      let e = same_key-eq (row_key row) k same in
      let absent =
        subst (λ x. listing items x ≡ none) e (listing-unmatched (row_key row) items unmatched) in
      rw (listing-append, absent, listing-new, same_key_comm k (row_key row), same) refl
  | inr other ↦ ground (
    arith,
    listing-append k items (new_item id row),
    listing-new id row k,
    same_key_comm k (row_key row),
  )
]

pub listed-top_up :
    (k : Key) (row : ValidatedUploadRow) (item : Item)
    → is_listed_as k (top_up row item) ≡ is_listed_as k item
unfolding is_listed_as key_of top_up
listed-top_up k row item = refl

topped : ValidatedUploadRow → Option Listed → Option Listed
topped row none = none
topped row (some l) = some (merged row (some l))

listing-topped :
    (row : ValidatedUploadRow) (items : List Item)
    → listing (update_where (is_listed_as (row_key row)) (top_up row) items) (row_key row)
      ≡ topped row (listing items (row_key row))
unfolding listing update_where topped merged top_up
listing-topped row [] = refl
listing-topped row (item ∷ items) = elim (Bool-cases (is_listed_as (row_key row) item)) [
  | inl e ↦ rw (e, listed-top_up, e) refl
  | inr e ↦ rw (e, e) (listing-topped row items)
]

listing-other :
    (row : ValidatedUploadRow) (items : List Item) (k : Key)
    → same_key (row_key row) k ≡ false
    → listing (update_where (is_listed_as (row_key row)) (top_up row) items) k ≡ listing items k
unfolding listing update_where
listing-other row [] k other = refl
listing-other row (item ∷ items) k other = elim (Bool-cases (is_listed_as (row_key row) item)) [
  | inl e ↦
      rw (e, listed-top_up, listed_once k (row_key row) item other e)
        (listing-other row items k other)
  | inr e ↦ rw (e, listing-other row items k other) refl
]

listed_there :
    (k : Key) (items : List Item) (item : Item) (others : List Item)
    → select (is_listed_as k) items ≡ item ∷ others
    → (l : Listed) × (listing items k ≡ some l)
unfolding select listing
listed_there k [] item others h = cc
listed_there k (i ∷ items) item others h = elim (Bool-cases (is_listed_as k i)) [
  | inl e ↦ (listed_item i, rw e refl)
  | inr e ↦ rw e (listed_there k items item others (rw e at h))
]

pub listing-update :
    (row : ValidatedUploadRow) (items : List Item) (item : Item) (others : List Item) (k : Key)
    → select (is_listed_as (row_key row)) items ≡ item ∷ others
    → listing (update_where (is_listed_as (row_key row)) (top_up row) items) k
      ≡ put_row row (listing items) k
unfolding put_row topped
listing-update row items item others k found = elim (Bool-cases (same_key (row_key row) k)) [
  | inl same ↦
      let e = same_key-eq (row_key row) k same in
      let (l, there) = listed_there (row_key row) items item others found in
      rw same (
        subst
          (λ x.
            listing (update_where (is_listed_as (row_key row)) (top_up row) items) x
            ≡ some (merged row (listing items x)))
          e (listing-topped row items ∙ rw there refl))
  | inr other ↦ rw other (listing-other row items k other)
]
