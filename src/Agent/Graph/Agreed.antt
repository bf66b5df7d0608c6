-- ===== src/Agent/Graph/Agreed.antt =====
-- A turn asks the reservation service and the payment service for something only after the customer
-- was asked and agreed.
use merchant_ai_agent.Base.{ℕ, ◌≡◌, String, true, Option, none, some, List, [], ◌∷◌, All}
use merchant_ai_agent.Invoice.Service.{OrderTables}
use merchant_ai_agent.Agent.{OrderState, is_nonempty}
use merchant_ai_agent.Agent.Session.{is_invoice_proceed_message}
use merchant_ai_agent.Agent.Asked.{was_asked}
use merchant_ai_agent.Agent.Identified.{HasId, AllIdentified}
use merchant_ai_agent.Agent.Graph.{load_session, AgentTurnRequest, NodeDependencies, Saved}
use merchant_ai_agent.Agent.Graph.Turn.{invoke, initial_run, agent_turn, turn_run}
use merchant_ai_agent.Agent.Graph.Stage.{IsIdentified, no_calls, Always}
use merchant_ai_agent.Agent.Graph.Leaves.{turn-Always}
use merchant_ai_agent.Agent.Graph.Turn.{
  Event, turn, state_expires, draft_expires, SessionStore, store_of, happen, happen_all,
}

-- The items of the catalog that a turn searches have ids.
abbrev pub FindsIds : NodeDependencies → Type 0
FindsIds deps = (name : String) (brand : Option String) → All HasId (deps.search name brand)

abbrev pub EventFindsIds : Event → Type 0
EventFindsIds (turn deps r) = FindsIds deps
EventFindsIds state_expires = Unit
EventFindsIds draft_expires = Unit

-- The session asked for a confirmation, and the message of the turn gives it.
abbrev pub WasConfirmed : Saved → AgentTurnRequest → Type 0
WasConfirmed saved r =
    (is_invoice_proceed_message r.turn.message ≡ true)
    × ((s : OrderState) × (saved.state ≡ some s) × (s.awaiting_invoice_confirmation ≡ true))

invoked-Always :
    (limit : ℕ) (deps : NodeDependencies) (r : AgentTurnRequest) (store : SessionStore)
    → FindsIds deps
    → IsIdentified store.saved
    → Always r (WasConfirmed store.saved r) (turn_run limit deps r store)
unfolding turn_run agent_turn invoke initial_run AllIdentified
invoked-Always limit deps r store ids h =
    turn-Always deps r (WasConfirmed store.saved r) ids limit load_session
      (initial_run r store.saved store.tables)
      (
        tt,
        h,
        no_calls (WasConfirmed store.saved r),
        λ asked said. (said, was_asked store.saved.state asked),
      )

happened-IsIdentified :
    (limit : ℕ) (event : Event) (store : SessionStore)
    → EventFindsIds event
    → IsIdentified store.saved
    → IsIdentified (happen limit event store).saved
unfolding happen store_of AllIdentified
happened-IsIdentified limit (turn deps r) store ids h = (invoked-Always limit deps r store ids h).0
happened-IsIdentified limit state_expires store ids (hs, hd) = (tt, hd)
happened-IsIdentified limit draft_expires store ids (hs, hd) = (hs, tt)

all-IsIdentified :
    (limit : ℕ) (events : List Event) (store : SessionStore)
    → All EventFindsIds events
    → IsIdentified store.saved
    → IsIdentified (happen_all limit events store).saved
unfolding happen_all
all-IsIdentified limit [] store ids h = h
all-IsIdentified limit (event ∷ events) store (i, ids) h =
    all-IsIdentified limit events (happen limit event store) ids
      (happened-IsIdentified limit event store i h)

abbrev pub new_store : OrderTables → SessionStore
new_store tables = record { saved = record { state = none; draft = none }; tables = tables }

-- Over any turns of a session, whatever the model, the catalog, the tools and the services answer,
-- whichever nodes fail and whatever Redis lets go of between the turns, a turn calls the reservation
-- service or the payment service only if the session as it was saved waited for a confirmation and
-- the message of this turn holds a phrase that proceeds, provided that the items of the catalog have
-- ids.
pub called_only_if_confirmed :
    (limit : ℕ) (events : List Event) (tables : OrderTables) (deps : NodeDependencies)
    (r : AgentTurnRequest)
    → All EventFindsIds events
    → FindsIds deps
    → is_nonempty (turn_run limit deps r (happen_all limit events (new_store tables))).calls ≡ true
    → WasConfirmed (happen_all limit events (new_store tables)).saved r
unfolding AllIdentified
called_only_if_confirmed limit events tables deps r all ids called =
    let store = happen_all limit events (new_store tables) in
    let identified = all-IsIdentified limit events (new_store tables) all (tt, tt) in
    (invoked-Always limit deps r store ids identified).1 called
