-- ===== src/Agent/Memory.antt =====
-- services/merchant_agent/memory_store.py and memory/short_term.py: what Redis keeps of the sessions.
-- JSON gives back the states that were written.
use merchant_ai_agent.Base.{ℕ, String, Option, none, some, List, [], ◌∷◌}
use merchant_ai_agent.Inventory.{Entry}
use merchant_ai_agent.Merchant.Dict.{TextMap, get, put, alive, lasting}
use merchant_ai_agent.Agent.{OrderState}
use merchant_ai_agent.Agent.Session.{OrderDraft}

pub record MemoryStore : Type 0 where
  pub states : TextMap (Entry OrderState)
  pub drafts : TextMap (Entry OrderDraft)

-- The draft that `save_state` writes beside the state.
unfoldable pub draft_of : OrderState → OrderDraft
draft_of s = record {
  line_items = s.line_items;
  customer_name = s.customer_name;
  address = s.address;
  phone = s.phone;
  missing_fields = s.missing_fields;
  status = some s.status;
}

module _ (ttl now : ℕ) (session_id : String) where
  -- `EXPIRE`, which does nothing for a key that is not there.
  unfoldable pub extend : {V : Type 0} → TextMap (Entry V) → TextMap (Entry V)
  unfolding alive get put lasting
  extend d = elim (alive now (get session_id d)) [
    | none ↦ d
    | some v ↦ put session_id (lasting v ttl now) d
  ]

  -- `_touch_session_keys`
  unfoldable pub touch_session_keys : MemoryStore → MemoryStore
  unfolding extend
  touch_session_keys memory = record {
    states = extend memory.states;
    drafts = extend memory.drafts;
  }

  unfoldable pub touched_if : {V : Type 0} → Option V → MemoryStore → MemoryStore × Option V
  unfolding touch_session_keys
  touched_if none memory = (memory, none)
  touched_if (some v) memory = (touch_session_keys memory, some v)

  unfoldable pub load_state : MemoryStore → MemoryStore × Option OrderState
  unfolding touched_if alive get
  load_state memory = touched_if (alive now (get session_id memory.states)) memory

  unfoldable pub load_order_draft : MemoryStore → MemoryStore × Option OrderDraft
  unfolding touched_if alive get
  load_order_draft memory = touched_if (alive now (get session_id memory.drafts)) memory

  unfoldable pub save_state : OrderState → MemoryStore → MemoryStore
  unfolding put lasting draft_of
  save_state s memory = record {
    states = put session_id (lasting s ttl now) memory.states;
    drafts = put session_id (lasting (draft_of s) ttl now) memory.drafts;
  }

pub data Access : Type 0 where
  loads loads_draft : Access
  saves : OrderState → Access

unfoldable pub access : ℕ → ℕ → String → Access → MemoryStore → MemoryStore
unfolding load_state load_order_draft save_state
access ttl now id loads memory = (load_state ttl now id memory).0
access ttl now id loads_draft memory = (load_order_draft ttl now id memory).0
access ttl now id (saves s) memory = save_state ttl now id s memory

unfoldable pub access_all : ℕ → List (ℕ × String × Access) → MemoryStore → MemoryStore
unfolding access
access_all ttl [] memory = memory
access_all ttl ((now, id, a) ∷ more) memory = access_all ttl more (access ttl now id a memory)

-- The state and the draft that a turn begins with: the draft is read behind the state.
unfoldable pub load_both : ℕ → ℕ → String → MemoryStore → Option OrderState × Option OrderDraft
unfolding load_state load_order_draft
load_both ttl now id memory =
    let (after, s) = load_state ttl now id memory in (s, (load_order_draft ttl now id after).1)
