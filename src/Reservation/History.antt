-- ===== src/Reservation/History.antt =====
-- The reservation service over time: any sequence of submitted invoices, rollbacks by the
-- scheduler and payments by the payment log, in any order and at any times.
use merchant_ai_agent.Base.{
  ℕ, ◌+◌, ◌≡◌, refl, sym, subst, ◌≤◌, sum_where, ◌∙◌, String, Option, none, some, List, [], ◌∷◌,
  arith,
}
use merchant_ai_agent.Base.Results.{ok, bind-returned, ok-injective}
use merchant_ai_agent.Uuid.{Uuid}
use merchant_ai_agent.Inventory.{Db, is_held, is_paid}
use merchant_ai_agent.Inventory.Stock.{units, stock, reserved_as}
use merchant_ai_agent.Invoice.Schema.{Invoice}
use merchant_ai_agent.Reservation.{
  Settings, World, Reply, StoredInvoice, ReservationLineItem, LineDict, reserve_in_transaction,
  reserve_normalized, reserve_payload, default_payload, uuid_of, normalize_payload_line_items,
  refresh_catalog_cache,
}
use merchant_ai_agent.Reservation.Expiry.{
  rollback_expired_holds, rollback_in_transaction, mark_reserved_paid, mark_paid,
}
use merchant_ai_agent.Reservation.Router.{
  SubmitInvoiceRequest, submit_invoice, submit, SubmitLineItem,
}
use merchant_ai_agent.Reservation.Conservation.{units-reserve, units-rollback, units-mark_paid}
use merchant_ai_agent.Reservation.Soundness.{IsSound}
use merchant_ai_agent.Reservation.Keeps.{reserve-IsSound, rollback-IsSound, mark_paid-IsSound}

pub data Step : World → World → Type 0 where
  submission :
      (cfg : Settings) (now later : ℕ) (r : SubmitInvoiceRequest) {w w' : World} (reply : Reply)
      → submit_invoice cfg now later r w ≡ ok (w', reply)
      → Step w w'
  rollback :
      (cfg : Settings) (now later : ℕ) {w w' : World}
      → w' ≡ (rollback_expired_holds cfg now later w).0
      → Step w w'
  pay :
      (invoice_id : String) {w w' : World} (rows : ℕ)
      → mark_reserved_paid invoice_id w ≡ ok (w', rows)
      → Step w w'

pub data History (w : World) : World → Type 0 where
  opening : History w w
  followed_by : {u v : World} → History w u → Step u v → History w v

-- Redis apart, a reservation is its transaction.
db-reserve_normalized :
    (cfg : Settings) (now later : ℕ) (i : Uuid) (lines : List ReservationLineItem)
    (payload : StoredInvoice) (w : World)
    → (reserve_normalized cfg now later i lines payload w).0.db
      ≡ (reserve_in_transaction i lines now (now + cfg.reservation_ttl_seconds) w.db).0
unfolding reserve_normalized
db-reserve_normalized cfg now later i lines payload w = ground arith

-- A request that returns has run one reservation.
payload-normalized :
    (cfg : Settings) (now later : ℕ) (id : Option String) (ls : List LineDict)
    (inv : Option Invoice) (w : World) (r : World × Reply)
    → reserve_payload cfg now later id ls inv w ≡ ok r
    → (i : Uuid) × (lines : List ReservationLineItem) × (payload : StoredInvoice)
      × (reserve_normalized cfg now later i lines payload w ≡ r)
unfolding reserve_payload
payload-normalized cfg now later none ls inv w r h = cc
payload-normalized cfg now later (some text) [] inv w r h = cc
payload-normalized cfg now later (some text) (d ∷ ds) inv w r h =
    let (i, _, h₁) = bind-returned (uuid_of text) _ _ h in
    let (lines, _, h₂) = bind-returned (normalize_payload_line_items (d ∷ ds)) _ _ h₁ in
    (i, lines, default_payload i lines inv, ok-injective _ r h₂)

submit-normalized :
    (cfg : Settings) (now later : ℕ) (inv : Option Invoice) (id : Option String)
    (ls : List SubmitLineItem) (w : World) (r : World × Reply)
    → submit cfg now later inv id ls w ≡ ok r
    → (i : Uuid) × (lines : List ReservationLineItem) × (payload : StoredInvoice)
      × (reserve_normalized cfg now later i lines payload w ≡ r)
unfolding submit
submit-normalized cfg now later none id ls w r h = payload-normalized cfg now later _ _ _ w r h
submit-normalized cfg now later (some inv) id ls w r h =
    payload-normalized cfg now later _ _ _ w r h

db-refresh :
    (cfg : Settings) (later : ℕ) (ids : List Uuid) (w : World)
    → (refresh_catalog_cache cfg later ids w).db ≡ w.db
unfolding refresh_catalog_cache
db-refresh cfg later ids w = refl

db-rollback :
    (cfg : Settings) (now later : ℕ) (w : World)
    → (rollback_expired_holds cfg now later w).0.db ≡ (rollback_in_transaction now w.db).db
unfolding rollback_expired_holds refresh_catalog_cache
db-rollback cfg now later w = ground arith

pay-mark_paid :
    (text : String) (w : World) (r : World × ℕ)
    → mark_reserved_paid text w ≡ ok r
    → (i : Uuid) × ((record w { db = (mark_paid i w.db).0 }, (mark_paid i w.db).1) ≡ r)
unfolding mark_reserved_paid
pay-mark_paid text w r h =
    let (i, _, e) = bind-returned (uuid_of text) _ _ h in (i, ok-injective _ r e)

-- A property of the tables that the three transactions keep, from sound tables, holds for ever.
module _ (P : Db → Type 0)
    (reserve_keeps : (i a e : ℕ) (lines : List ReservationLineItem) (db : Db)
      → IsSound db
      → P db
      → P (reserve_in_transaction i lines a e db).0)
    (rollback_keeps : (now : ℕ) (db : Db)
      → IsSound db
      → P db
      → P (rollback_in_transaction now db).db)
    (pay_keeps : (i : ℕ) (db : Db) → IsSound db → P db → P (mark_paid i db).0) where
  Step_keeps : {w w' : World} → Step w w' → IsSound w.db → P w.db → P w'.db
  Step_keeps {w} {w'} (submission cfg now later q reply h) s p =
      let (i, lines, payload, e) =
        submit-normalized cfg now later q.invoice q.invoice_id q.line_items w (w', reply)
          (unfold submit_invoice in h) in
      subst (λ (r : World × Reply). P r.0.db) e
        (rw db-reserve_normalized
          (reserve_keeps i now (now + cfg.reservation_ttl_seconds) lines w.db s p))
  Step_keeps {w} (rollback cfg now later h) s p =
      subst (λ (v : World). P v.db) (sym h) (rw db-rollback (rollback_keeps now w.db s p))
  Step_keeps {w} {w'} (pay text rows h) s p =
      let (i, e) = pay-mark_paid text w (w', rows) h in
      subst (λ (r : World × ℕ). P r.0.db) e (pay_keeps i w.db s p)

pub Step-IsSound : {w w' : World} → Step w w' → IsSound w.db → IsSound w'.db
Step-IsSound st s =
    Step_keeps IsSound (λ i a e lines db s _. reserve-IsSound i a e lines db s)
      (λ now db s _. rollback-IsSound now db s) (λ i db s _. mark_paid-IsSound i db s) st s s

units-Step : (j : Uuid) {w w' : World} → Step w w' → IsSound w.db → units j w'.db ≡ units j w.db
units-Step j {w} st s =
    Step_keeps (λ db. units j db ≡ units j w.db)
      (λ i a e lines db s p. units-reserve j i lines a e db s.items_keyed ∙ p)
      (λ now db s p. units-rollback j now db s.holds_keyed s.holds_homed ∙ p)
      (λ i db s p. units-mark_paid j i db ∙ p) st s refl

-- After any sequence of submitted invoices, rollbacks and payments that starts from sound
-- tables, the tables are sound: item ids and row ids are unique, the next id is fresh and
-- every reservation is of a known item.
pub history-IsSound : {w v : World} → History w v → IsSound w.db → IsSound v.db
history-IsSound opening s = s
history-IsSound (followed_by r st) s = Step-IsSound st (history-IsSound r s)

-- After any such sequence each item has as many units, on the shelf, held and paid together,
-- as at the start.
pub history_conserves_units :
    (j : Uuid) {w v : World} → History w v → IsSound w.db → units j v.db ≡ units j w.db
history_conserves_units j opening s = refl
history_conserves_units j (followed_by r st) s =
    units-Step j st (history-IsSound r s) ∙ history_conserves_units j r s

-- So over any sequence of submissions, rollbacks and payments a shop that starts without reservations
-- never has more units of an item held and paid together than it had on the shelf at the start. An
-- upload, which adds stock, is none of these steps.
pub never_oversold :
    (j : Uuid) {w v : World}
    → History w v
    → IsSound w.db
    → w.db.reserved_items ≡ []
    → reserved_as is_held j v.db.reserved_items + reserved_as is_paid j v.db.reserved_items
      ≤ stock j w.db.items
unfolding units reserved_as sum_where
never_oversold j {w} {v} r s e =
    let same : units j v.db ≡ units j w.db = history_conserves_units j r s in
    ground (arith, same, e)
