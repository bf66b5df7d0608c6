-- ===== src/Conversation/Rate.antt =====
-- The limit on the rate of a consumer agent, over any sequence of requests to the gateway.
use merchant_ai_agent.Base.{
  ℕ, ◌+◌, ◌≤◌, ◌<◌, ◌≡◌, refl, String, Bool, true, false, ◌&&◌, List, [], ◌∷◌, ◌++◌, str_eq, eq_iff,
  if◌then◌else◌, ltb, leb, length, All, All-append, count_where, arith, ap, sym, ◌∙◌, Bool-cases,
  subst, eq_refl, ◌⊎◌, append-nil, inl, inr, ltb→lt, append_assoc,
}
use merchant_ai_agent.Conversation.Gateway.{
  window, Buckets, bucket_of, put_bucket, drop_old, is_rate_limited,
}

pub record Arrival : Type 0 where
  pub agent : String
  pub now : ℕ

-- The buckets, and the requests that were let through.
pub record Gate : Type 0 where
  pub buckets : Buckets
  pub admitted : List Arrival

note : Arrival → Gate → Buckets × Bool → Gate
note r g (buckets, true) = record g { buckets = buckets }
note r g (buckets, false) = record { buckets = buckets; admitted = g.admitted ++ r ∷ [] }

unfoldable pub arrive : ℕ → Arrival → Gate → Gate
unfolding note is_rate_limited
arrive limit r g = note r g (is_rate_limited r.agent limit r.now g.buckets)

unfoldable pub arrive_all : ℕ → List Arrival → Gate → Gate
unfolding arrive
arrive_all limit [] g = g
arrive_all limit (r ∷ rs) g = arrive_all limit rs (arrive limit r g)

-- The clock does not run backwards.
abbrev pub IsOrdered : ℕ → List Arrival → Type 0
IsOrdered now [] = Unit
IsOrdered now (r ∷ rs) = (now ≤ r.now) × IsOrdered r.now rs

-- The times at which an agent was let through.
unfoldable pub times_of : String → List Arrival → List ℕ
times_of agent [] = []
times_of agent (r ∷ rs) =
    let rest = times_of agent rs in if str_eq r.agent agent then r.now ∷ rest else rest

-- How many of the times lie in the minute from `start` on, its ends included.
unfoldable pub in_minute : ℕ → List ℕ → ℕ
unfolding count_where
in_minute start = count_where (λ t. leb start t && leb t (start + window))

times_of-append :
    (agent : String) (xs ys : List Arrival)
    → times_of agent (xs ++ ys) ≡ times_of agent xs ++ times_of agent ys
unfolding times_of
times_of-append agent [] ys = refl
times_of-append agent (r ∷ rs) ys = ground (arith, times_of-append agent rs ys)

in_minute-append :
    (start : ℕ) (xs ys : List ℕ)
    → in_minute start (xs ++ ys) ≡ in_minute start xs + in_minute start ys
unfolding in_minute
in_minute-append start [] ys = omega arith
in_minute-append start (t ∷ xs) ys = ground (arith, in_minute-append start xs ys)

in_minute-le : (start : ℕ) (xs : List ℕ) → in_minute start xs ≤ length xs
unfolding in_minute
in_minute-le start [] = omega arith
in_minute-le start (t ∷ xs) = ground (arith, in_minute-le start xs)

bucket_of-put :
    (agent a : String) (bucket : List ℕ) (buckets : Buckets)
    → bucket_of agent (put_bucket a bucket buckets)
      ≡ (if str_eq a agent then bucket else bucket_of agent buckets)
unfolding bucket_of put_bucket
bucket_of-put agent a bucket [] = refl
bucket_of-put agent a bucket ((b, old) ∷ buckets) =
    ground (arith, eq_iff a agent, eq_iff b a, eq_iff b agent, bucket_of-put agent a bucket buckets)

-- The times before `start`.
abbrev Before : ℕ → List ℕ → Type 0
Before start = All (λ t. t < start)

in_minute-Before : (start : ℕ) (xs : List ℕ) → Before start xs → in_minute start xs ≡ 0
unfolding in_minute
in_minute-Before start [] h = refl
in_minute-Before start (t ∷ xs) h = ground (arith, in_minute-Before start xs h.1)

-- The times that lie more than a minute before `now`.
abbrev Older : ℕ → List ℕ → Type 0
Older now = All (λ t. t + window < now)

Older-mono : (now later : ℕ) (xs : List ℕ) → now ≤ later → Older now xs → Older later xs
Older-mono now later [] le h = tt
Older-mono now later (t ∷ xs) le h = (omega arith, Older-mono now later xs le h.1)

Older-Before : (now start : ℕ) (xs : List ℕ) → now ≤ start + window → Older now xs → Before start xs
Older-Before now start [] le h = tt
Older-Before now start (t ∷ xs) le h = (omega arith, Older-Before now start xs le h.1)

-- What `drop_old` drops.
dropped : ℕ → List ℕ → List ℕ
dropped now [] = []
dropped now (t ∷ bucket) =
    let rest = dropped now bucket in if ltb (t + window) now then t ∷ rest else []

dropped-append : (now : ℕ) (bucket : List ℕ) → bucket ≡ dropped now bucket ++ drop_old now bucket
unfolding dropped drop_old
dropped-append now [] = refl
dropped-append now (t ∷ bucket) = ground (arith, dropped-append now bucket)

dropped-Older : (now : ℕ) (bucket : List ℕ) → Older now (dropped now bucket)
unfolding dropped
dropped-Older now [] = tt
dropped-Older now (t ∷ bucket) = elim (Bool-cases (ltb (t + window) now)) [
  | inl old ↦ rw old (ltb→lt (t + window) now old, dropped-Older now bucket)
  | inr new ↦ rw new tt
]

-- The bucket of an agent holds the last of the times at which it was let through, and the others are
-- older than a minute.
record Keeps (agent : String) (limit now : ℕ) (times bucket : List ℕ) : Type 0 where
  old : List ℕ
  split : times ≡ old ++ bucket
  is_old : Older now old
  limited : (start : ℕ) → in_minute start times ≤ limit

minute_cases :
    (start later : ℕ)
    → ((in_minute start (later ∷ []) ≡ 1) × (later ≤ start + window))
      ⊎ (in_minute start (later ∷ []) ≡ 0)
unfolding in_minute
minute_cases start later = elim (Bool-cases (leb start later && leb later (start + window))) [
  | inl inside ↦ inl (ground arith, ground arith)
  | inr outside ↦ inr (ground arith)
]

module _ (agent : String) (limit now later : ℕ) (times bucket : List ℕ) (le : now ≤ later)
    (k : Keeps agent limit now times bucket) where
  stays : Keeps agent limit later times bucket
  stays = record {
    old = k.old;
    split = k.split;
    is_old = Older-mono now later k.old le k.is_old;
    limited = k.limited;
  }

  split_dropped : times ≡ (k.old ++ dropped later bucket) ++ drop_old later bucket
  split_dropped =
      k.split
      ∙ ap (λ b. k.old ++ b) (dropped-append later bucket)
      ∙ sym (append_assoc k.old (dropped later bucket) (drop_old later bucket))

  all_dropped-Older : Older later (k.old ++ dropped later bucket)
  all_dropped-Older =
      All-append _ k.old (dropped later bucket) (Older-mono now later k.old le k.is_old)
        (dropped-Older later bucket)

  refused : Keeps agent limit later times (drop_old later bucket)
  refused = record {
    old = k.old ++ dropped later bucket;
    split = split_dropped;
    is_old = all_dropped-Older;
    limited = k.limited;
  }

  -- In a minute that reaches `later` only the times of the bucket count.
  reaching_later :
      (start : ℕ) → later ≤ start + window → in_minute start times ≤ length (drop_old later bucket)
  reaching_later start le_end =
      let before = k.old ++ dropped later bucket in
      let kept = drop_old later bucket in
      omega (
        arith,
        ap (in_minute start) split_dropped,
        in_minute-append start before kept,
        in_minute-Before start before (Older-Before later start before le_end all_dropped-Older),
        in_minute-le start kept,
      )

  let_through_limited :
      length (drop_old later bucket) < limit
      → (start : ℕ) → in_minute start (times ++ later ∷ []) ≤ limit
  let_through_limited few start = elim (minute_cases start later) [
    | inl (one, le_end) ↦
        omega (arith, in_minute-append start times (later ∷ []), reaching_later start le_end)
    | inr other ↦ omega (arith, in_minute-append start times (later ∷ []), k.limited start)
  ]

  let_through :
      length (drop_old later bucket) < limit
      → Keeps agent limit later (times ++ later ∷ []) (drop_old later bucket ++ later ∷ [])
  let_through few = record {
    old = k.old ++ dropped later bucket;
    split =
        ap (λ ts. ts ++ later ∷ []) split_dropped
        ∙ append_assoc (k.old ++ dropped later bucket) (drop_old later bucket) (later ∷ []);
    is_old = all_dropped-Older;
    limited = let_through_limited few;
  }

-- What `Keeps` says of a gate, for one agent.
KeepsGate : String → ℕ → ℕ → Gate → Type 0
KeepsGate agent limit now g =
    Keeps agent limit now (times_of agent g.admitted) (bucket_of agent g.buckets)

times_of-one :
    (agent : String) (r : Arrival)
    → times_of agent (r ∷ []) ≡ (if str_eq r.agent agent then r.now ∷ [] else [])
unfolding times_of
times_of-one agent r = refl

module _ (limit now : ℕ) (r : Arrival) (g : Gate) (le : now ≤ r.now) where
  abbrev kept : List ℕ
  kept = drop_old r.now (bucket_of r.agent g.buckets)

  other_arrives :
      (agent : String)
      → str_eq r.agent agent ≡ false
      → KeepsGate agent limit now g
      → KeepsGate agent limit r.now (arrive limit r g)
  unfolding KeepsGate arrive
  other_arrives agent other k = elim (Bool-cases (leb limit (length kept))) [
    | inl full ↦ rw (full, bucket_of-put, other) (stays agent limit now r.now _ _ le k)
    | inr room ↦
        rw (room, bucket_of-put, other, times_of-append, times_of-one, other, append-nil)
          (stays agent limit now r.now _ _ le k)
  ]

  same_arrives : KeepsGate r.agent limit now g → KeepsGate r.agent limit r.now (arrive limit r g)
  unfolding KeepsGate arrive
  same_arrives k = elim (Bool-cases (leb limit (length kept))) [
    | inl full ↦ rw (full, bucket_of-put, eq_refl) (refused r.agent limit now r.now _ _ le k)
    | inr room ↦
        rw (room, bucket_of-put, eq_refl, times_of-append, times_of-one, eq_refl)
          (let_through r.agent limit now r.now _ _ le k (ground arith))
  ]

  arrive-KeepsGate :
      (agent : String)
      → KeepsGate agent limit now g
      → KeepsGate agent limit r.now (arrive limit r g)
  arrive-KeepsGate agent k = elim (Bool-cases (str_eq r.agent agent)) [
    | inl same ↦
        let e = (eq_iff r.agent agent).0 same in
        subst (λ a. KeepsGate a limit r.now (arrive limit r g)) e
          (same_arrives (subst (λ a. KeepsGate a limit now g) (sym e) k))
    | inr other ↦ other_arrives agent other k
  ]

arrive_all-limited :
    (agent : String) (limit now : ℕ) (rs : List Arrival) (g : Gate)
    → IsOrdered now rs
    → KeepsGate agent limit now g
    → (start : ℕ) → in_minute start (times_of agent (arrive_all limit rs g).admitted) ≤ limit
unfolding arrive_all KeepsGate
arrive_all-limited agent limit now [] g h k start = k.limited start
arrive_all-limited agent limit now (r ∷ rs) g h k start =
    arrive_all-limited agent limit r.now rs (arrive limit r g) h.1
      (arrive-KeepsGate limit now r g h.0 agent k) start

abbrev pub open_gate : Gate
open_gate = record { buckets = []; admitted = [] }

open-KeepsGate : (agent : String) (limit : ℕ) → KeepsGate agent limit 0 open_gate
unfolding KeepsGate times_of bucket_of in_minute
open-KeepsGate agent limit = record {
  old = [];
  split = refl;
  is_old = tt;
  limited = λ start. omega arith;
}

-- Whatever requests arrive at a gateway that has just started, its clock never running backwards,
-- within any minute (both ends included) it lets through at most the limit of requests of an agent.
pub arrive_all-IsLimited :
    (agent : String) (limit : ℕ) (rs : List Arrival)
    → IsOrdered 0 rs
    → (start : ℕ)
    → in_minute start (times_of agent (arrive_all limit rs open_gate).admitted) ≤ limit
arrive_all-IsLimited agent limit rs ordered start =
    arrive_all-limited agent limit 0 rs open_gate ordered (open-KeepsGate agent limit) start
