-- ===== src/Agent/Graph/Turn.antt =====
-- A whole turn: the nodes of services/merchant_agent/graph/build_graph.py in their order, each with the
-- state that it leaves in the session; `agent_turn` of services/merchant_agent/main.py.
use merchant_ai_agent.Base.{ℕ, zero, suc, String, Option, none, some, List, [], ◌∷◌, ◌++◌}
use merchant_ai_agent.Base.Results.{Result, ok, err}
use merchant_ai_agent.Invoice.Schema.{Invoice}
use merchant_ai_agent.Invoice.Service.{OrderTables}
use merchant_ai_agent.Agent.{MissingField, OrderStatus, failed, Reply, OrderState}
use merchant_ai_agent.Agent.Session.{new_session}
use merchant_ai_agent.Agent.Memory.{draft_of}
use merchant_ai_agent.Agent.Closing.{ClosingError}
use merchant_ai_agent.Agent.Graph.{
  Node, load_session, AgentTurnRequest, Fate, raises, save_fails, goes_well, NodeDependencies,
  Saved, Run, NodeRun, run_node, next_node,
}

unfoldable pub saved_as : OrderState → Saved
unfolding draft_of
saved_as s = record { state = some s; draft = some (draft_of s) }

-- Why a turn failed: a node or its save raised, or LangGraph's limit of steps was reached.
pub data TurnError : Type 0 where
  node_error recursion_error : TurnError

-- `_with_persistence`: the state that a node leaves is saved. A failure keeps what was saved and
-- committed before, and the calls that were made.
unfoldable pub with_persistence :
    Fate → Run → Result ClosingError NodeRun → Result (TurnError × Run) Run
unfolding saved_as
with_persistence fate run (err e) = err (node_error, run)
with_persistence raises run (ok u) = err (node_error, record run { calls = run.calls ++ u.calls })
with_persistence save_fails run (ok u) = err (
  node_error,
  record run { tables = u.tables; calls = run.calls ++ u.calls; audits = run.audits ++ u.audits },
)
with_persistence goes_well run (ok u) = ok (record {
  state = u.state;
  saved = saved_as u.state;
  tables = u.tables;
  calls = run.calls ++ u.calls;
  audits = run.audits ++ u.audits;
})

-- A node with its persistence.
unfoldable pub visit :
    NodeDependencies → AgentTurnRequest → Node → Run → Result (TurnError × Run) Run
unfolding with_persistence run_node
visit deps r node run = with_persistence (deps.fate node run.state) run (run_node deps r node run)

abbrev pub Ended : Type 0
Ended = Result (TurnError × Run) Run

unfoldable pub follow : Option Node → (Node → Run → Ended) → Run → Ended
follow none further run = ok run
follow (some next) further run = further next run

-- The edge that a node is left by.
unfoldable pub leave : Node → (Node → Run → Ended) → Ended → Ended
unfolding follow next_node
leave node further (err failure) = err failure
leave node further (ok run) = follow (next_node node run.state) further run

-- The nodes from one on, at most `limit` of them: the recursion limit of LangGraph.
unfoldable pub walk : ℕ → NodeDependencies → AgentTurnRequest → Node → Run → Ended
unfolding visit leave
walk zero deps r node run = err (recursion_error, run)
walk (suc limit) deps r node run = leave node (walk limit deps r) (visit deps r node run)

-- What `ainvoke` starts from.
unfoldable pub initial_run : AgentTurnRequest → Saved → OrderTables → Run
initial_run r saved tables = record {
  state = record new_session {
    message = r.turn.message;
    mandate_verified = r.turn.mandate_verified;
    merchant_id = r.turn.merchant_id;
  };
  saved = saved;
  tables = tables;
  calls = [];
  audits = [];
}

unfoldable pub invoke : ℕ → NodeDependencies → AgentTurnRequest → Saved → OrderTables → Ended
unfolding walk initial_run
invoke limit deps r saved tables = walk limit deps r load_session (initial_run r saved tables)

-- The fields of ConverseResponse that come from the state.
pub record TurnReply : Type 0 where
  pub status : OrderStatus
  pub reply : Reply
  pub missing_fields : List MissingField
  pub catalog_suggestions : List String
  pub invoice : Option Invoice

abbrev pub failed_reply : TurnReply
failed_reply = record {
  status = failed;
  reply = Reply.unable_to_process;
  missing_fields = [];
  catalog_suggestions = [];
  invoice = none;
}

unfoldable pub reply_of : OrderState → TurnReply
reply_of s = record {
  status = s.status;
  reply = s.reply;
  missing_fields = s.missing_fields;
  catalog_suggestions = s.catalog_suggestions;
  invoice = s.invoice;
}

-- What a turn leaves behind, whether or not it failed.
unfoldable pub run_of : Ended → Run
run_of (err (e, run)) = run
run_of (ok run) = run

unfoldable pub reply_to : Ended → TurnReply
unfolding reply_of
reply_to (err failure) = failed_reply
reply_to (ok run) = reply_of run.state

-- `agent_turn`
unfoldable pub agent_turn :
    ℕ → NodeDependencies → AgentTurnRequest → Saved → OrderTables → Run × TurnReply
unfolding invoke run_of reply_to
agent_turn limit deps r saved tables =
    let ended = invoke limit deps r saved tables in (run_of ended, reply_to ended)

-- A turn of the session, with what the nodes are told in it; or Redis lets go of the state or of the
-- draft.
pub data Event : Type 0 where
  turn : NodeDependencies → AgentTurnRequest → Event
  state_expires draft_expires : Event

-- What Redis holds of the session, and the tables.
pub record SessionStore : Type 0 where
  pub saved : Saved
  pub tables : OrderTables

unfoldable pub store_of : Run → SessionStore
store_of run = record { saved = run.saved; tables = run.tables }

-- A turn on a store.
unfoldable pub turn_run : ℕ → NodeDependencies → AgentTurnRequest → SessionStore → Run
unfolding agent_turn
turn_run limit deps r store = (agent_turn limit deps r store.saved store.tables).0

unfoldable pub happen : ℕ → Event → SessionStore → SessionStore
unfolding store_of turn_run
happen limit (turn deps r) store = store_of (turn_run limit deps r store)
happen limit state_expires store = record {
  saved = record store.saved { state = none };
  tables = store.tables;
}
happen limit draft_expires store = record {
  saved = record store.saved { draft = none };
  tables = store.tables;
}

unfoldable pub happen_all : ℕ → List Event → SessionStore → SessionStore
unfolding happen
happen_all limit [] store = store
happen_all limit (event ∷ events) store = happen_all limit events (happen limit event store)
