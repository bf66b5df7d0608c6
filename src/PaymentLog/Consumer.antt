-- ===== src/PaymentLog/Consumer.antt =====
-- `WebhookConsumer.consume_forever` of services/payment_log_service/webhook_consumer.py: one
-- partition of the topic, read message by message. Only a message that was processed is committed;
-- after an exception the consumer seeks back to the message, and a restart begins at the last commit.
use merchant_ai_agent.Base.{ℕ, zero, suc, Option, none, some, List, [], ◌∷◌}
use merchant_ai_agent.PaymentLog.{Webhook, Entity, PaymentWorld, process_webhook}
use merchant_ai_agent.PaymentLog.Delivery.{interrupted}

-- The value of a message: one that `json.loads` refuses or that is no object, or whose body is no
-- JSON; one without a body, or whose body is no object; or one with a webhook.
pub data Message : Type 0 where
  unreadable bodiless : Message
  webhook : Webhook → Message

abbrev pub empty_entity : Entity
empty_entity = record { id = none; order_id = none; reference_id = none; status = ""; notes = none }

abbrev pub empty_webhook : Webhook
empty_webhook = record {
  event = "";
  payment = empty_entity;
  payment_link = empty_entity;
  payload_notes = none;
  notes = none;
  payment_id = none;
}

unfoldable pub read : Message → Option Webhook
read unreadable = none
read bodiless = some empty_webhook
read (webhook h) = some h

-- Where the handling of a message raises: not at all, before the audit row, behind it, or at the
-- commit of the offset.
pub data Fault : Type 0 where
  no_fault at_start half_way at_commit : Fault

pub record Consumer : Type 0 where
  pub committed : ℕ
  pub position : ℕ
  pub world : PaymentWorld

unfoldable pub handle : Fault → ℕ → Option Webhook → Consumer → Consumer
handle fault now none c = c
handle no_fault now (some h) c = record {
  committed = suc c.position;
  position = suc c.position;
  world = process_webhook now h c.world;
}
handle at_start now (some h) c = c
handle half_way now (some h) c = record c { world = interrupted now h c.world }
handle at_commit now (some h) c = record c { world = process_webhook now h c.world }

unfoldable pub message_at : ℕ → List Message → Option Message
message_at n [] = none
message_at zero (m ∷ ms) = some m
message_at (suc n) (m ∷ ms) = message_at n ms

unfoldable pub poll_message : Fault → ℕ → Option Message → Consumer → Consumer
unfolding handle read
poll_message fault now none c = c
poll_message fault now (some m) c = handle fault now (read m) c

-- A round of the loop, or a restart of the process.
pub data Event : Type 0 where
  poll : Fault → ℕ → Event
  restart : Event

unfoldable pub consume : List Message → Event → Consumer → Consumer
unfolding message_at poll_message
consume messages (poll fault now) c = poll_message fault now (message_at c.position messages) c
consume messages restart c = record c { position = c.committed }

unfoldable pub consume_all : List Message → List Event → Consumer → Consumer
unfolding consume
consume_all messages [] c = c
consume_all messages (event ∷ events) c = consume_all messages events (consume messages event c)
