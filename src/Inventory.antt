-- ===== src/Inventory.antt =====
-- The tables `items`, `reserved_items` and `audit_log` (shared/models), and the catalog cache in
-- Redis (services/merchant_agent/catalog_service.py). A time is a number of seconds, a date the
-- number of its day.
pub mod Stock
use merchant_ai_agent.Base.{
  ℕ, zero, ◌+◌, String, Bool, Option, none, some, List, [], ◌∷◌, ◌++◌, map, ◌==◌, if◌then◌else◌,
  ◌&&◌, leb, ◌-◌, any, update_where, count_where, sum_where, find_first, ltb,
}
use merchant_ai_agent.Uuid.{Uuid}

-- `updated_at` is written by the database alone, and nothing reads it.
pub record Item : Type 0 where
  pub id : Uuid
  pub name : String
  pub brand : String
  pub weight_per_unit : String
  pub price_paise : ℕ
  pub quantity_available : ℕ
  pub expiry_date : ℕ
  pub is_active : Bool

-- The texts that the two reservation services write into the column `status`.
pub data HoldStatus : Type 0 where
  held released paid committed : HoldStatus

pub record ReservedItem : Type 0 where
  pub id : ℕ
  pub invoice_id : Uuid
  pub item_id : Uuid
  pub reserved_qty : ℕ
  pub reserved_at : ℕ
  pub expires_at : ℕ
  pub status : HoldStatus

-- The rows that the two reservation services add to `audit_log`; their action is always
-- RESERVATION_EXPIRED_ROLLED_BACK.
pub data Actor : Type 0 where
  reservation_service reservation_worker : Actor

pub record RollbackAudit : Type 0 where
  pub session_id : Uuid
  pub actor : Actor
  pub released_rows : ℕ

-- `next_id` stands for the fresh ids that `uuid4` gives to new rows of `reserved_items`.
pub record Db : Type 0 where
  pub items : List Item
  pub reserved_items : List ReservedItem
  pub audit_log : List RollbackAudit
  pub next_id : ℕ

abbrev pub is_held : HoldStatus → Bool
is_held held = Bool.true
is_held _ = Bool.false

abbrev pub is_paid : HoldStatus → Bool
is_paid paid = Bool.true
is_paid _ = Bool.false

-- `item_to_catalog_payload`.
pub record CatalogPayload : Type 0 where
  pub item_id : Uuid
  pub name : String
  pub brand : String
  pub weight_per_unit : String
  pub expiry_date : ℕ
  pub price_paise : ℕ
  pub available_qty : ℕ
  pub is_active : Bool

unfoldable pub item_to_catalog_payload : Item → CatalogPayload
item_to_catalog_payload item = record {
  item_id = item.id;
  name = item.name;
  brand = item.brand;
  weight_per_unit = item.weight_per_unit;
  expiry_date = item.expiry_date;
  price_paise = item.price_paise;
  available_qty = item.quantity_available;
  is_active = item.is_active;
}

-- A Redis entry, and the time at which it expires.
pub record Entry {ℓ} (V : Type ℓ) : Type ℓ where
  pub value : V
  pub expires : ℕ

abbrev pub Cache {ℓ} : Type ℓ → Type ℓ
Cache V = List (Uuid × Entry V)

-- `redis.set(key, value, ex=ttl)` at the time `now`.
unfoldable pub cache_set {ℓ} : {V : Type ℓ} → Uuid → V → ℕ → ℕ → Cache V → Cache V
cache_set k v ttl now [] = (k, record { value = v; expires = now + ttl }) ∷ []
cache_set k v ttl now ((j, e) ∷ c) =
    if j == k
    then (k, record { value = v; expires = now + ttl }) ∷ c
    else (j, e) ∷ cache_set k v ttl now c

-- `redis.get(key)` at the time `now`.
unfoldable pub cache_get {ℓ} : {V : Type ℓ} → Uuid → ℕ → Cache V → Option V
cache_get k now [] = none
cache_get k now ((j, e) ∷ c) =
    if j == k then (if ltb now e.expires then some e.value else none) else cache_get k now c

-- `refresh_catalog_items`.
unfoldable pub refresh_catalog_items :
    ℕ → ℕ → List Item → Cache CatalogPayload → Cache CatalogPayload
unfolding cache_set item_to_catalog_payload
refresh_catalog_items ttl now [] c = c
refresh_catalog_items ttl now (item ∷ items) c =
    refresh_catalog_items ttl now items (cache_set item.id (item_to_catalog_payload item) ttl now c)

-- The items whose ids are listed: `SELECT ... WHERE items.id IN (...)`.
unfoldable pub items_in : List Uuid → List Item → List Item
unfolding any
items_in ids [] = []
items_in ids (r ∷ rs) =
    let rest = items_in ids rs in if any (λ i. r.id == i) ids then r ∷ rest else rest
