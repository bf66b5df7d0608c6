-- ===== src/PaymentLog/Tests.antt =====
-- Webhooks on a small shop.
use merchant_ai_agent.Base.{
  ◌≡◌, refl, String, true, All, str_eq, if◌then◌else◌, none, some, List, [], ◌∷◌, map, update_where,
}
use merchant_ai_agent.Strings.{stripped}
use merchant_ai_agent.Inventory.{ReservedItem, held, paid}
use merchant_ai_agent.Reservation.{uuid_of}
use merchant_ai_agent.Reservation.Expiry.{mark_paid}
use merchant_ai_agent.PaymentLog.{
  Entity, Webhook, failed, InvoiceAudit, PaymentWorld, extract_notes, payment_id_of,
  process_webhook,
}
use merchant_ai_agent.PaymentLog.Consumer.{
  Message, unreadable, webhook, no_fault, half_way, Consumer, message_at, Event, poll, restart,
  consume, consume_all,
}
use merchant_ai_agent.PaymentLog.Ingress.{Post, Links, Pipeline, Step, post, consumes, run}
use merchant_ai_agent.PaymentLog.Signed.{IsPosted, recorded_webhooks_were_signed}
use merchant_ai_agent.PaymentLog.Recorded.{
  IsCaughtUp, all_recorded, consume_all-IsCaughtUp, unreadable_blocks,
}
use merchant_ai_agent.PaymentLog.Delivery.{interrupted, delivered_again, first_webhook_stays}

abbrev hold : ReservedItem
hold = record {
  id = 0;
  invoice_id = 7;
  item_id = 1;
  reserved_qty = 2;
  reserved_at = 0;
  expires_at = 900;
  status = held;
}

abbrev shop : PaymentWorld
shop = record {
  shop = record {
    db = record { items = []; reserved_items = hold ∷ []; audit_log = []; next_id = 1 };
    catalog = [];
    invoices = [];
  };
  orders = [];
  invoice_audit = [];
}

abbrev invoice_text : String
invoice_text = "00000000-0000-0000-0000-000000000007"

abbrev nothing : Entity
nothing = record { id = none; order_id = none; reference_id = none; status = ""; notes = none }

abbrev captured : Webhook
captured = record {
  event = "payment.captured";
  payment = record nothing {
    id = some "pay_1";
    status = "captured";
    notes = some (record { invoice_id = some invoice_text; session_id = none; merchant_id = none });
  };
  payment_link = nothing;
  payload_notes = none;
  notes = none;
  payment_id = none;
}

abbrev authorized : Webhook
authorized = record captured {
  event = "payment.authorized";
  payment = record captured.payment { status = "authorized" };
}

captured_pays :
    map (λ (r : ReservedItem). r.status) (process_webhook 10 captured shop).shop.db.reserved_items
    ≡ paid ∷ []
unfolding process_webhook uuid_of mark_paid update_where
captured_pays = refl

captured_id : payment_id_of captured ≡ some "pay_1"
unfolding payment_id_of
captured_id = refl

captured_invoice : stripped (extract_notes captured).invoice_id ≡ some invoice_text
unfolding stripped extract_notes
captured_invoice = refl

authorized_invoice : stripped (extract_notes authorized).invoice_id ≡ some invoice_text
unfolding stripped extract_notes
authorized_invoice = refl

authorized_id : payment_id_of authorized ≡ some "pay_1"
unfolding payment_id_of
authorized_id = refl

delivered_again_example :
    (process_webhook 20 captured (process_webhook 10 captured shop)
      ≡ process_webhook 10 captured shop)
    × (process_webhook 20 captured (interrupted 10 captured shop)
        ≡ process_webhook 10 captured shop)
delivered_again_example = delivered_again 10 20 captured shop "pay_1" captured_id

first_webhook_stays_example :
    (process_webhook 20 captured (process_webhook 10 authorized shop)).invoice_audit
    ≡ (process_webhook 10 authorized shop).invoice_audit
first_webhook_stays_example =
    first_webhook_stays 10 20 authorized captured shop invoice_text "pay_1" authorized_invoice
      captured_invoice authorized_id captured_id

-- The payment was captured, and the audit says that it failed.
captured_on_record_as_failed :
    map
      (λ (r : InvoiceAudit). r.payment_status)
      (process_webhook 20 captured (process_webhook 10 authorized shop)).invoice_audit
    ≡ failed ∷ []
unfolding process_webhook
captured_on_record_as_failed = refl

-- Two webhooks, then a message that is no JSON.
abbrev queue : List Message
queue = webhook authorized ∷ webhook captured ∷ unreadable ∷ []

abbrev start : Consumer
start = record { committed = 0; position = 0; world = shop }

abbrev rounds : List Event
rounds = poll half_way 10 ∷ restart ∷ poll no_fault 12 ∷ poll no_fault 13 ∷ poll no_fault 14 ∷ []

start-IsCaughtUp : IsCaughtUp queue start
unfolding all_recorded
start-IsCaughtUp = (refl, refl)

consume_all-IsCaughtUp_example : IsCaughtUp queue (consume_all queue rounds start)
consume_all-IsCaughtUp_example = consume_all-IsCaughtUp queue rounds start start-IsCaughtUp

rounds_commit_two : (consume_all queue rounds start).committed ≡ 2
unfolding consume_all consume
rounds_commit_two = refl

abbrev at_bad_message : Consumer
at_bad_message = record { committed = 2; position = 2; world = shop }

bad_message : message_at 2 queue ≡ some unreadable
unfolding message_at
bad_message = refl

unreadable_blocks_example : (consume_all queue rounds at_bad_message).committed ≡ 2
unreadable_blocks_example = unreadable_blocks queue rounds at_bad_message refl bad_message

-- A keyed digest for the tests, and a decoder that knows one body.
abbrev digest : String → String → String
digest secret body = if str_eq body "captured" then "d1" else "d2"

abbrev decoded : String → Message
decoded body = if str_eq body "captured" then webhook captured else unreadable

abbrev signed_post : Post
signed_post = record {
  raw_body = "captured";
  headers = ("Host", "shop") ∷ ("X-Razorpay-Signature", " d1 ") ∷ [];
}

abbrev forged_post : Post
forged_post = record signed_post { headers = ("X-Razorpay-Signature", "d3") ∷ [] }

abbrev working : Links
working = record { worker_answers = true; has_producer = true; broker_accepts = true }

abbrev idle : Pipeline
idle = record { topic = []; consumer = record { committed = 0; position = 0; world = shop } }

abbrev traffic : List Step
traffic =
    consumes (poll no_fault 12)
    ∷ consumes restart
    ∷ consumes (poll half_way 11)
    ∷ post working signed_post
    ∷ post working forged_post
    ∷ []

one_body_is_enqueued : (run digest "s" decoded traffic idle).topic ≡ "captured" ∷ []
unfolding run
one_body_is_enqueued = refl

recorded_webhooks_were_signed_example :
    All
      (λ row. IsPosted digest "s" decoded traffic row.webhook_payload)
      (run digest "s" decoded traffic idle).consumer.world.invoice_audit
recorded_webhooks_were_signed_example =
    recorded_webhooks_were_signed digest "s" decoded traffic idle refl refl
