-- ===== src/Agent/Loaded.antt =====
-- A session that comes back, through services/merchant_agent/memory_store.py.
use merchant_ai_agent.Base.{
  ℕ, ◌+◌, ◌<◌, ◌≤◌, ◌≡◌, refl, ap, ◌∙◌, String, false, Option, none, some, List, [], ◌∷◌, str_eq,
  eq_refl, All, lt→ltb, arith,
}
use merchant_ai_agent.Inventory.{Entry}
use merchant_ai_agent.Merchant.Dict.{TextMap, get, put, get-put, alive, lasting}
use merchant_ai_agent.Agent.{Profile, OrderState}
use merchant_ai_agent.Agent.Session.{
  OrderDraft, TurnRequest, load_session, fill_from_draft, session_base, reset_turn, or_list,
}
use merchant_ai_agent.Agent.Memory.{
  MemoryStore, draft_of, extend, touch_session_keys, touched_if, load_state, load_order_draft,
  save_state, Access, access, access_all, load_both, loads, loads_draft, saves,
}

-- What Redis holds for a session.
abbrev entries_of : String → MemoryStore → Option (Entry OrderState) × Option (Entry OrderDraft)
entries_of id memory = (get id memory.states, get id memory.drafts)

module _ (session_id : String) (ttl now : ℕ) (id : String)
    (other : str_eq id session_id ≡ false) where
  extended-other :
      {V : Type 0}
      → (o : Option V) (d : TextMap (Entry V))
      → get session_id (elim o [ none ↦ d | some v ↦ put id (lasting v ttl now) d ])
        ≡ get session_id d
  extended-other none d = refl
  extended-other (some v) d = rw (get-put session_id id (lasting v ttl now) d, other) refl

  extend-other :
      {V : Type 0}
      → (d : TextMap (Entry V)) → get session_id (extend ttl now id d) ≡ get session_id d
  unfolding extend
  extend-other d = extended-other (alive now (get id d)) d

  touched-other :
      {V : Type 0}
      → (o : Option V) (memory : MemoryStore)
      → entries_of session_id (touched_if ttl now id o memory).0 ≡ entries_of session_id memory
  unfolding touched_if touch_session_keys
  touched-other none memory = refl
  touched-other (some v) memory = rw (extend-other memory.states, extend-other memory.drafts) refl

  access-other :
      (a : Access) (memory : MemoryStore)
      → entries_of session_id (access ttl now id a memory) ≡ entries_of session_id memory
  unfolding access load_state load_order_draft save_state
  access-other loads memory = touched-other _ memory
  access-other loads_draft memory = touched-other _ memory
  access-other (saves s) memory =
      rw
        (
          get-put session_id id (lasting s ttl now) memory.states,
          get-put session_id id (lasting (draft_of s) ttl now) memory.drafts,
          other,
        )
        refl

access_all-other :
    (session_id : String) (ttl : ℕ) (accesses : List (ℕ × String × Access)) (memory : MemoryStore)
    → All (λ a. str_eq a.1 session_id ≡ false) accesses
    → entries_of session_id (access_all ttl accesses memory) ≡ entries_of session_id memory
unfolding access_all
access_all-other session_id ttl [] memory h = refl
access_all-other session_id ttl ((now, id, a) ∷ more) memory h =
    access_all-other session_id ttl more (access ttl now id a memory) h.1
    ∙ access-other session_id ttl now id h.0 a memory

saved-entries :
    (session_id : String) (ttl saved : ℕ) (s : OrderState) (memory : MemoryStore)
    → entries_of session_id (save_state ttl saved session_id s memory)
      ≡ (some (lasting s ttl saved), some (lasting (draft_of s) ttl saved))
unfolding save_state
saved-entries session_id ttl saved s memory =
    rw
      (
        get-put session_id session_id (lasting s ttl saved) memory.states,
        get-put session_id session_id (lasting (draft_of s) ttl saved) memory.drafts,
        eq_refl session_id,
      )
      refl

module _ {V : Type 0} (v : V) (ttl : ℕ) where
  alive-lasting :
      (saved now : ℕ) → now < saved + ttl → alive now (some (lasting v ttl saved)) ≡ some v
  unfolding alive lasting
  alive-lasting saved now early = rw (lt→ltb now (saved + ttl) early) refl

  alive-extend :
      (now : ℕ) (session_id : String) (d : TextMap (Entry V))
      → alive now (get session_id d) ≡ some v
      → now < now + ttl
      → alive now (get session_id (extend ttl now session_id d)) ≡ some v
  unfolding extend
  alive-extend now session_id d there early =
      ap
        (λ o.
          alive now
            (get session_id (elim o [ none ↦ d | some u ↦ put session_id (lasting u ttl now) d ])))
        there
      ∙ rw (get-put session_id session_id (lasting v ttl now) d, eq_refl session_id)
          (alive-lasting now now early)

held-loads :
    (session_id : String) (ttl saved now : ℕ) (s : OrderState) (memory : MemoryStore)
    → entries_of session_id memory
      ≡ (some (lasting s ttl saved), some (lasting (draft_of s) ttl saved))
    → saved ≤ now
    → now < saved + ttl
    → load_both ttl now session_id memory ≡ (some s, some (draft_of s))
unfolding load_both load_state load_order_draft touched_if touch_session_keys
held-loads session_id ttl saved now s memory entries late early =
    let state : alive now (get session_id memory.states) ≡ some s =
      ap (λ e. alive now e.0) entries ∙ alive-lasting s ttl saved now early in
    let draft : alive now (get session_id memory.drafts) ≡ some (draft_of s) =
      ap (λ e. alive now e.1) entries ∙ alive-lasting (draft_of s) ttl saved now early in
    ap
      (λ o.
        let (after, found) = touched_if ttl now session_id o memory in
        (found, (load_order_draft ttl now session_id after).1))
      state
    ∙ ap
        (λ o. (
          some s,
          (touched_if ttl now session_id o (touch_session_keys ttl now session_id memory)).1,
        ))
        (alive-extend (draft_of s) ttl now session_id memory.drafts draft (omega arith))

filled_itself : {A : Type 0} (xs : List A) → or_list xs xs ≡ xs
unfolding or_list
filled_itself [] = refl
filled_itself (x ∷ xs) = refl

-- A session that was saved less than its life ago, and was used by no one since while other sessions
-- were loaded and saved, is loaded as it was, with the draft of its order; the turn that begins then
-- has its lines, its missing fields and its question for a confirmation.
pub saved_session_is_loaded :
    (session_id : String) (ttl saved now : ℕ) (s : OrderState) (memory : MemoryStore)
    (others : List (ℕ × String × Access)) (profile : Profile) (r : TurnRequest)
    → All (λ a. str_eq a.1 session_id ≡ false) others
    → saved ≤ now
    → now < saved + ttl
    → let loaded =
        load_both ttl now session_id
          (access_all ttl others (save_state ttl saved session_id s memory)) in
      let turn = load_session loaded.0 loaded.1 profile r in
      (loaded ≡ (some s, some (draft_of s)))
      × ((turn.line_items ≡ s.line_items)
          × ((turn.missing_fields ≡ s.missing_fields)
              × (turn.awaiting_invoice_confirmation ≡ s.awaiting_invoice_confirmation)))
unfolding load_session session_base fill_from_draft reset_turn draft_of
saved_session_is_loaded session_id ttl saved now s memory others profile r idle late early =
    let loaded =
      held-loads session_id ttl saved now s
        (access_all ttl others (save_state ttl saved session_id s memory))
        (access_all-other session_id ttl others (save_state ttl saved session_id s memory) idle
          ∙ saved-entries session_id ttl saved s memory)
        late early in
    (loaded, rw loaded (filled_itself s.line_items, (filled_itself s.missing_fields, refl)))
