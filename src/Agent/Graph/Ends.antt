-- ===== src/Agent/Graph/Ends.antt =====
-- A turn ends before it has visited too many nodes, whatever the setting `react_loop_max`.
use merchant_ai_agent.Base.{
  ℕ, zero, suc, ◌≤◌, ◌<◌, ◌≡◌, refl, Bool, true, false, Option, none, some, arith,
}
use merchant_ai_agent.Base.Results.{Result, ok, err}
use merchant_ai_agent.Invoice.Service.{OrderTables}
use merchant_ai_agent.Agent.Closing.{ClosingError}
use merchant_ai_agent.Agent.Graph.{
  Node, load_session, AgentTurnRequest, Fate, goes_well, raises, save_fails, NodeDependencies,
  Saved, Run, NodeRun, run_node, next_node,
}
use merchant_ai_agent.Agent.Graph.Turn.{
  Ended, node_error, recursion_error, with_persistence, visit, follow, leave, walk, initial_run,
  invoke,
}
use merchant_ai_agent.Agent.Graph.Rank.{rank, rank-positive, rank_of_start, Descends, descends}

module _ (deps : NodeDependencies) (r : AgentTurnRequest) where
  -- Behind a node and its save the turn goes on with fewer nodes left, or is over for another reason
  -- than the limit.
  abbrev GoesDown : ℕ → Node → Ended → Type 0
  GoesDown n node (err (node_error, run)) = Unit
  GoesDown n node (err (recursion_error, run)) = ⊥
  GoesDown n node (ok run) =
      (next : Node) → next_node node run.state ≡ some next → rank next run.state < n

  saved-GoesDown :
      (n : ℕ) (node : Node) (fate : Fate) (run : Run) (res : Result ClosingError NodeRun)
      → Descends deps r n node res
      → GoesDown n node (with_persistence fate run res)
  unfolding with_persistence
  saved-GoesDown n node fate run (err e) h = tt
  saved-GoesDown n node raises run (ok u) h = tt
  saved-GoesDown n node save_fails run (ok u) h = tt
  saved-GoesDown n node goes_well run (ok u) h = h

-- Whether a turn was cut off by the limit.
unfoldable pub cut_off : Ended → Bool
cut_off (err (node_error, run)) = false
cut_off (err (recursion_error, run)) = true
cut_off (ok run) = false

entered-ends :
    (n : ℕ) (o : Option Node) (further : Node → Run → Ended) (run : Run)
    → ((next : Node) → o ≡ some next → rank next run.state < suc n)
    → ((next : Node) → rank next run.state ≤ n → cut_off (further next run) ≡ false)
    → cut_off (follow o further run) ≡ false
unfolding follow cut_off
entered-ends n none further run to goes = refl
entered-ends n (some next) further run to goes =
    let below = to next refl in goes next (omega (arith, below))

module _ (deps : NodeDependencies) (r : AgentTurnRequest) where
  left-ends :
      (n : ℕ) (node : Node) (further : Node → Run → Ended) (ended : Ended)
      → GoesDown deps r (suc n) node ended
      → ((next : Node) (run : Run) → rank next run.state ≤ n → cut_off (further next run) ≡ false)
      → cut_off (leave node further ended) ≡ false
  unfolding leave cut_off
  left-ends n node further (err (node_error, run)) h goes = refl
  left-ends n node further (err (recursion_error, run)) h goes = elim h [ ]
  left-ends n node further (ok run) h goes =
      entered-ends n (next_node node run.state) further run h (λ next le. goes next run le)

  lower :
      (m n : ℕ) (node : Node) (ended : Ended)
      → m ≤ n
      → GoesDown deps r m node ended
      → GoesDown deps r n node ended
  lower m n node (err (node_error, run)) le h = tt
  lower m n node (err (recursion_error, run)) le h = h
  lower m n node (ok run) le h = λ next e. let below = h next e in omega (arith, le, below)

  walk-ends :
      (limit : ℕ) (node : Node) (run : Run)
      → rank node run.state ≤ limit
      → cut_off (walk limit deps r node run) ≡ false
  unfolding walk visit cut_off
  walk-ends zero node run le =
      let no : ⊥ = omega (arith, le, rank-positive node run.state) in elim no [ ]
  walk-ends (suc limit) node run le =
      left-ends limit node (walk limit deps r) (visit deps r node run)
        (lower (rank node run.state) (suc limit) node (visit deps r node run) le (
          saved-GoesDown deps r (rank node run.state) node (deps.fate node run.state) run
            (run_node deps r node run) (descends deps r node run)))
        (walk-ends limit)

-- No turn reaches a recursion limit of 23 nodes or more, LangGraph's default of 25 among them, whatever
-- the session holds, whatever is answered, and however large the setting `react_loop_max` is.
pub turn_ends :
    (limit : ℕ) (deps : NodeDependencies) (r : AgentTurnRequest) (saved : Saved)
    (tables : OrderTables)
    → 23 ≤ limit
    → cut_off (invoke limit deps r saved tables) ≡ false
unfolding invoke
turn_ends limit deps r saved tables le =
    let run = initial_run r saved tables in
    walk-ends deps r limit load_session run (omega (arith, le, rank_of_start run.state))
