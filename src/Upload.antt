-- ===== src/Upload.antt =====
-- The upload of a catalog: `validate_catalog_rows` of services/merchant_admin/routers/upload.py, with
-- shared/catalog_fields.py. A data frame that pandas has read is a parameter, as is
-- `date.fromisoformat`; texts are ASCII.
pub mod Number
pub mod Upsert
pub mod Listing
pub mod Refines
pub mod Ingest
mod Tests
use merchant_ai_agent.Base.{
  ℕ, ◌+◌, String, Bool, true, false, not, ◌||◌, Option, none, some, List, [], ◌∷◌, ◌++◌, str_eq,
  any, select, take, if◌then◌else◌,
}
use merchant_ai_agent.Base.Int.{ℤ, pos, negsuc}
use merchant_ai_agent.Base.Results.{Result, ok, err, ◌>>=◌}
use merchant_ai_agent.Uuid.{codes}
use merchant_ai_agent.Strings.{has_text, strip_text, lower_is}
use merchant_ai_agent.Merchant.Dict.{TextMap, get}
use Number.{int_of_text}

-- The values of a cell: `None`, NaN or NaT; a text; a bool; an integer; a float, with its value where
-- it is a whole number; a date; a datetime, with its date.
pub data Value : Type 0 where
  nothing text truth : Value
  integer : ℤ → Value
  real : Option ℤ → Value
  day stamp : ℕ → Value

-- A cell with its `str(...)`, which is the text itself where it is one.
pub record Cell : Type 0 where
  pub printed : String
  pub value : Value

pub record DataFrame : Type 0 where
  pub columns : List String
  pub records : List (TextMap Cell)

abbrev pub required_columns : List String
required_columns =
    "name" ∷ "brand" ∷ "weight_per_unit" ∷ "price_paise" ∷ "quantity_available" ∷ "expiry_date" ∷ []

-- The messages of the `ValueError`s.
pub data Rejection : Type 0 where
  is_required must_be_integer cannot_be_negative : String → Rejection
  unknown_weight bad_date : Rejection

pub record ValidatedUploadRow : Type 0 where
  pub row_number : ℕ
  pub name : String
  pub brand : String
  pub weight_per_unit : String
  pub price_paise : ℕ
  pub quantity_available : ℕ
  pub expiry_date : ℕ

pub record RejectedRow : Type 0 where
  pub row : ℕ
  pub reason : Rejection

unfoldable pub is_blank_cell : Cell → Bool
unfolding has_text
is_blank_cell cell = elim cell.value [
  | nothing ↦ true
  | text ↦ not (has_text cell.printed)
  | truth ↦ false
  | integer z ↦ false
  | real z ↦ false
  | day d ↦ false
  | stamp d ↦ false
]

unfoldable pub non_negative : String → ℤ → Result Rejection ℕ
non_negative field (pos n) = ok n
non_negative field (negsuc n) = err (cannot_be_negative field)

unfoldable pub or_not_integer : String → Option ℤ → Result Rejection ℕ
unfolding non_negative
or_not_integer field none = err (must_be_integer field)
or_not_integer field (some z) = non_negative field z

unfoldable pub number_of : String → String → Value → Result Rejection ℕ
unfolding or_not_integer non_negative strip_text int_of_text
number_of field printed nothing = err (is_required field)
number_of field printed text = or_not_integer field (int_of_text (codes (strip_text printed)))
number_of field printed truth = err (must_be_integer field)
number_of field printed (integer z) = non_negative field z
number_of field printed (real z) = or_not_integer field z
number_of field printed (day d) = err (must_be_integer field)
number_of field printed (stamp d) = err (must_be_integer field)

-- `_parse_non_negative_int`
unfoldable pub parse_non_negative_int : String → Cell → Result Rejection ℕ
unfolding is_blank_cell number_of
parse_non_negative_int field cell =
    if is_blank_cell cell then err (is_required field) else number_of field cell.printed cell.value

unfoldable pub normalize_weight_per_unit : String → Result Rejection String
unfolding strip_text lower_is
normalize_weight_per_unit value =
    let bare = strip_text value in
    if lower_is bare "gm"
    then ok "g"
    else if lower_is bare "l"
    then ok "L"
    else if lower_is bare "kg"
    then ok "kg"
    else if lower_is bare "g"
    then ok "g"
    else if lower_is bare "ml"
    then ok "ml"
    else err unknown_weight

unfoldable pub required : String → Cell → Result Rejection Cell
unfolding is_blank_cell
required field cell = if is_blank_cell cell then err (is_required field) else ok cell

-- `row.get(field)`
unfoldable pub cell_of : String → TextMap Cell → Cell
unfolding get
cell_of field row = elim (get field row) [
  | none ↦ record { printed = "None"; value = nothing }
  | some cell ↦ cell
]

module _ (fromisoformat : List ℕ → Option ℕ) where
  or_bad_date : Option ℕ → Result Rejection ℕ
  or_bad_date none = err bad_date
  or_bad_date (some d) = ok d

  date_of_text : String → Result Rejection ℕ
  unfolding or_bad_date
  date_of_text bare =
      if str_eq bare ""
      then err (is_required "expiry_date")
      else or_bad_date (fromisoformat (take 10 (codes bare)))

  unfoldable pub parse_expiry_date : Cell → Result Rejection ℕ
  unfolding date_of_text strip_text
  parse_expiry_date cell = elim cell.value [
    | nothing ↦ err (is_required "expiry_date")
    | day d ↦ ok d
    | stamp d ↦ ok d
    | text ↦ date_of_text (strip_text cell.printed)
    | truth ↦ date_of_text (strip_text cell.printed)
    | integer z ↦ date_of_text (strip_text cell.printed)
    | real z ↦ date_of_text (strip_text cell.printed)
  ]

  -- The body of the loop: a row, or the error that it raises.
  unfoldable pub validate_row : ℕ → TextMap Cell → Result Rejection ValidatedUploadRow
  unfolding required cell_of normalize_weight_per_unit parse_non_negative_int parse_expiry_date
      strip_text
  validate_row number row = do
    name ← required "name" (cell_of "name" row)
    brand ← required "brand" (cell_of "brand" row)
    weight ← required "weight_per_unit" (cell_of "weight_per_unit" row)
    expiry ← required "expiry_date" (cell_of "expiry_date" row)
    unit ← normalize_weight_per_unit weight.printed
    price ← parse_non_negative_int "price_paise" (cell_of "price_paise" row)
    quantity ← parse_non_negative_int "quantity_available" (cell_of "quantity_available" row)
    date ← parse_expiry_date expiry
    ok (record {
      row_number = number;
      name = strip_text name.printed;
      brand = strip_text brand.printed;
      weight_per_unit = unit;
      price_paise = price;
      quantity_available = quantity;
      expiry_date = date;
    })

  unfoldable pub sort_row :
      ℕ
      → Result Rejection ValidatedUploadRow
      → List ValidatedUploadRow × List RejectedRow
      → List ValidatedUploadRow × List RejectedRow
  sort_row number (ok row) (accepted, rejected) = (row ∷ accepted, rejected)
  sort_row number (err reason) (accepted, rejected) =
      (accepted, record { row = number; reason = reason } ∷ rejected)

  unfoldable pub validate_rows :
      ℕ → List (TextMap Cell) → List ValidatedUploadRow × List RejectedRow
  unfolding validate_row sort_row
  validate_rows number [] = ([], [])
  validate_rows number (row ∷ rows) =
      sort_row number (validate_row number row) (validate_rows (number + 1) rows)

unfoldable pub missing_columns : DataFrame → List String
unfolding select any
missing_columns frame =
    select (λ column. not (any (λ c. str_eq c column) frame.columns)) required_columns
