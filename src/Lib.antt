-- ===== src/Lib.antt =====
-- MerchantAI-agent: a shop whose orders are taken by a language-model agent. A consumer agent sends
-- a message with a signed mandate to the gateway; the async worker verifies the mandate and forwards
-- the message to the merchant agent, a graph of nodes that collects the order, checks it against the
-- catalog, makes an invoice, and asks the reservation service for the stock and the payment service
-- for a payment link, side by side. Webhooks of the payment provider reach the payment log, which
-- marks the held rows as paid. Holds that are not paid in time go back to the shelf.
--
-- The parts of the development and the code that they are about:
--   Base          Boolean tests, lists as tables, Python's integers, calls that may raise
--   Uuid, Strings Python's UUID(hex), str(uuid), strip and lower on ASCII texts
--   Inventory     shared/models/item.py, reserved_item.py, audit_log.py, and the entries of items in the
--                 catalog cache
--   Catalog       services/merchant_agent/catalog_service.py: the index, the search, the alternatives
--   Upload        services/merchant_admin/routers/upload.py and shared/catalog_fields.py
--   Merchant      shared/models/merchant.py, and what Redis keeps of it; text maps
--   Auth          services/auth_service: sign-up, log-in, the profile
--   Reservation   services/reservation_service: reserve, rollback_expired_holds and
--                 mark_reserved_paid, the router, and any sequence of them (History)
--   ReservationWorker  services/reservation_worker: the same contract with Redis counters
--   Invoice       shared/invoice_calc.py, shared/schemas/invoice.py,
--                 services/merchant_agent/invoice_service.py, and the offers of graph/nodes.py
--   OfferEngine   services/offer_engine: the offers, their cache by item, cross-sell preferences
--   Conversation  services/gateway and services/async_worker/main.py: the rate limit, the verified turn
--   Mandate       services/async_worker/mandate_verifier.py
--   Agent         services/merchant_agent/graph and memory_store.py: the session, how a message
--                 rewrites the lines, the look-up of the lines, the confirmation, the missing
--                 fields, the tool loop, the stock checks, the alternatives, the nodes that close a
--                 turn, the outcome of an invoice
--   Agent.Graph   services/merchant_agent/graph/build_graph.py and agent_turn of main.py: the nodes,
--                 the edges, a whole turn with what it saves, and any sequence of turns of a session
--   Payment       services/payment_service: the credentials, the client, the links
--   PaymentLog    services/payment_log_service, and webhook_router.py and webhook_verifier.py of
--                 services/async_worker: from the post of a webhook to its row
--
-- State is passed on as records: `Db` for the tables, `World` with the caches, `OrderState` for a
-- session, `Verifier` for the mandates. A transaction is a function on the tables; where it raises,
-- the tables stay. A handler that may raise returns a `Result`. A Redis key with a life is a value
-- with the time at which it expires, and the clock is an argument. Amounts and quantities that the
-- database or pydantic keep from being negative are natural numbers; the others are `ℤ`. The
-- only fixed widths are those of integer columns, beyond which a commit fails. A quantity in a Redis
-- counter is a natural number, since its key is deleted where it would not be positive.
--
-- The fuel of a turn of the agent (`walk`) is the recursion limit of LangGraph, 25 by default: a turn
-- that reaches it fails as one in which a node raises. It visits 23 nodes at most, since no goal of the
-- planner is tried twice. The tool loop alone (`react_loop`) takes the rounds as fuel: each round counts
-- itself, and `react_loop_max` bounds the count, so one round more than the limit is enough. All other
-- loops are structural. In a turn each node may raise before its commit or fail to save its state.
--
-- What the language model, the tools of the agent, the catalog's look-up and the two services answer
-- is a parameter of the definitions that ask, as are SHA-256, HMAC, bcrypt, JWT, the encryption of
-- secrets, the decoding of mandates and bodies, pandas, `date.fromisoformat` and the calls of the
-- payment provider. Where the database orders rows by a time, they stand in the order in which they
-- were made. Replies to the customer are told apart by what they announce. Not modelled are the texts
-- of prompts and replies and the regular expressions that find phrases in a message, the long-term
-- memory, the list of items for the picker of the offer engine, and what only wires libraries together
-- (applications, settings, clients, migrations).
pub mod Base
pub mod Uuid
pub mod Strings
pub mod Inventory
pub mod Invoice
pub mod Mandate
pub mod Agent
pub mod Reservation
pub mod ReservationWorker
pub mod Merchant
pub mod OfferEngine
pub mod Auth
pub mod Payment
pub mod Catalog
pub mod Upload
pub mod PaymentLog
pub mod Conversation
