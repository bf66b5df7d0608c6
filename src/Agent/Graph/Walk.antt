-- ===== src/Agent/Graph/Walk.antt =====
-- What holds along the nodes of a turn in services/merchant_agent/graph/build_graph.py.
use merchant_ai_agent.Base.{ℕ, zero, suc, ◌≡◌, refl, Option, none, some, subst}
use merchant_ai_agent.Base.Results.{err, ok}
use merchant_ai_agent.Agent.Graph.{Node, AgentTurnRequest, NodeDependencies, Run, next_node}
use merchant_ai_agent.Agent.Graph.Turn.{Ended, visit, follow, leave, walk, recursion_error}

-- At the end of an edge.
pub arrive :
    (P : Node → Type 0) (there next : Node)
    → P there
    → ◌≡◌ {A = Option Node} (some there) (some next)
    → P next
arrive P there next p e = let same : there ≡ next = cc in subst P same p

pub nowhere : (P : Node → Type 0) (next : Node) → ◌≡◌ {A = Option Node} none (some next) → P next
nowhere P next e = cc

module _ (deps : NodeDependencies) (r : AgentTurnRequest) (P : Node → Run → Type 0)
    (Q : Ended → Type 0) where
  -- What has to hold behind a node, where `P` holds before each and `Q` at the end.
  abbrev pub Visited : Node → Ended → Type 0
  Visited node (err failure) = Q (err failure)
  Visited node (ok run) =
      (next_node node run.state ≡ none → Q (ok run))
      × ((next : Node) → next_node node run.state ≡ some next → P next run)

  entered :
      (o : Option Node) (further : Node → Run → Ended) (run : Run)
      → (o ≡ none → Q (ok run))
      → ((next : Node) → o ≡ some next → P next run)
      → ((next : Node) → P next run → Q (further next run))
      → Q (follow o further run)
  unfolding follow
  entered none further run ends to goes = ends refl
  entered (some next) further run ends to goes = goes next (to next refl)

  left_by :
      (node : Node) (further : Node → Run → Ended) (ended : Ended)
      → Visited node ended
      → ((next : Node) (run : Run) → P next run → Q (further next run))
      → Q (leave node further ended)
  unfolding leave
  left_by node further (err failure) h goes = h
  left_by node further (ok run) (ends, to) goes =
      entered (next_node node run.state) further run ends to (λ next p. goes next run p)

  pub walked :
      ((node : Node) (run : Run) → P node run → Q (err (recursion_error, run)))
      → ((node : Node) (run : Run) → P node run → Visited node (visit deps r node run))
      → (limit : ℕ) (node : Node) (run : Run) → P node run
      → Q (walk limit deps r node run)
  unfolding walk
  walked stops steps zero node run p = stops node run p
  walked stops steps (suc limit) node run p =
      left_by node (walk limit deps r) (visit deps r node run) (steps node run p)
        (walked stops steps limit)
