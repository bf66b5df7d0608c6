-- ===== src/Agent/Graph/Once.antt =====
-- A session gets one invoice: the turn that has called the services is the last to do so.
use merchant_ai_agent.Base.{ℕ, ◌^◌, ◌<◌, ◌≡◌, Bool, true, false, List, [], ◌∷◌, All}
use merchant_ai_agent.Base.Results.{ok, err}
use merchant_ai_agent.Uuid.{show_uuid}
use merchant_ai_agent.Uuid.Shown.Parses.{show_uuid-parses, show_uuid-nonempty}
use merchant_ai_agent.Agent.{is_nonempty}
use merchant_ai_agent.Agent.Graph.{AgentTurnRequest, NodeDependencies}
use merchant_ai_agent.Agent.Graph.Turn.{
  Ended, invoke, SessionStore, store_of, turn_run, run_of, agent_turn, Event, turn, state_expires,
  draft_expires, happen, happen_all,
}
use merchant_ai_agent.Agent.Graph.Spent.{row_blocks_session}
use merchant_ai_agent.Agent.Graph.Made.{IsServed}
use merchant_ai_agent.Agent.Graph.Served.{Served, invoked-Served}

-- The turn has returned its state: no node has raised, and every save worked.
unfoldable pub was_answered : Ended → Bool
was_answered (err failure) = false
was_answered (ok run) = true

answered-IsServed :
    (deps : NodeDependencies) (r : AgentTurnRequest) (fresh : deps.issuer.fresh_id < 2 ^ 128)
    (ended : Ended)
    → Served deps r fresh ended
    → was_answered ended ≡ true
    → is_nonempty (run_of ended).calls ≡ true
    → IsServed (store_of (run_of ended))
unfolding was_answered run_of
answered-IsServed deps r fresh (err failure) served answered = cc
answered-IsServed deps r fresh (ok run) served answered = served

-- Redis keeps the state of the session.
abbrev pub KeepsState : Event → Type 0
KeepsState (turn deps r) = Unit
KeepsState state_expires = ⊥
KeepsState draft_expires = Unit

turn-blocked :
    (limit : ℕ) (deps : NodeDependencies) (r : AgentTurnRequest) (store : SessionStore)
    → IsServed store
    → ((turn_run limit deps r store).calls ≡ []) × IsServed (store_of (turn_run limit deps r store))
turn-blocked limit deps r store served =
    let (calls, kept, spent) =
      row_blocks_session limit deps r (show_uuid served.id) served.id store
        (show_uuid-nonempty served.id) (show_uuid-parses served.id served.bounded)
        served.is_spent in
    (calls, record { id = served.id; bounded = served.bounded; is_spent = spent })

happened-IsServed :
    (limit : ℕ) (event : Event) (store : SessionStore)
    → KeepsState event
    → IsServed store
    → IsServed (happen limit event store)
unfolding happen
happened-IsServed limit (turn deps r) store k served = (turn-blocked limit deps r store served).1
happened-IsServed limit state_expires store k served = elim k [ ]
happened-IsServed limit draft_expires store k served = record {
  id = served.id;
  bounded = served.bounded;
  is_spent = record {
    state = served.is_spent.state;
    is_saved = served.is_spent.is_saved;
    is_reserved = served.is_spent.is_reserved;
    has_row = served.is_spent.has_row;
  };
}

all-IsServed :
    (limit : ℕ) (events : List Event) (store : SessionStore)
    → All KeepsState events
    → IsServed store
    → IsServed (happen_all limit events store)
unfolding happen_all
all-IsServed limit [] store ks served = served
all-IsServed limit (event ∷ events) store (k, ks) served =
    all-IsServed limit events (happen limit event store) ks
      (happened-IsServed limit event store k served)

-- After a turn that was answered and that has called the reservation or the payment service, whatever
-- these answered, no later turn calls them again while Redis keeps the session: a customer whose
-- reservation failed cannot try again, and nobody can order twice. The UUID that was drawn for the
-- invoice has 128 bits.
pub calls_happen_once :
    (limit : ℕ) (deps : NodeDependencies) (r : AgentTurnRequest) (store : SessionStore)
    (later : List Event) (next_deps : NodeDependencies) (next : AgentTurnRequest)
    → deps.issuer.fresh_id < 2 ^ 128
    → was_answered (invoke limit deps r store.saved store.tables) ≡ true
    → is_nonempty (turn_run limit deps r store).calls ≡ true
    → All KeepsState later
    → (turn_run limit next_deps next (happen_all limit (turn deps r ∷ later) store)).calls ≡ []
unfolding turn_run agent_turn happen_all happen
calls_happen_once limit deps r store later next_deps next fresh answered called kept =
    let ended = invoke limit deps r store.saved store.tables in
    let served =
      answered-IsServed deps r fresh ended (invoked-Served deps r fresh limit store) answered
        called in
    (turn-blocked limit next_deps next (happen_all limit later (store_of (run_of ended)))
      (all-IsServed limit later (store_of (run_of ended)) kept served)).0
