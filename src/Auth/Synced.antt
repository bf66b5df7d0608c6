-- ===== src/Auth/Synced.antt =====
-- What Redis keeps of a merchant is what its row says, over any sequence of requests.
use merchant_ai_agent.Base.{
  ℕ, ◌≡◌, String, false, some, List, [], ◌∷◌, ◌++◌, str_eq, ◌==◌, All, All-append, update_where,
  arith, ◌∙◌, subst, Bool-cases, inl, inr,
}
use merchant_ai_agent.Uuid.{Uuid, show_uuid}
use merchant_ai_agent.Merchant.{Merchant, MerchantCache, CacheWrites, sync_with, merchant_by_id}
use merchant_ai_agent.Auth.{Crypto}
use merchant_ai_agent.Auth.Service.{Accounts, merchant_by_email, enter, commit_update}
use merchant_ai_agent.Auth.Kept.{
  IsKept, failed_ids, IsAbsent, IsDistinct, IsSynced, own-IsKept, other-IsKept, str_eq_comm,
}

module _ (P : Merchant → Type 0) where
  pub email-All :
      (email : String) (ms : List Merchant) (m : Merchant)
      → merchant_by_email email ms ≡ some m
      → All P ms
      → P m
  unfolding merchant_by_email
  email-All email [] m h all = cc
  email-All email (n ∷ ms) m h all = elim (Bool-cases (str_eq n.email email)) [
    | inl e ↦ let same : n ≡ m = ground arith in subst P same all.0
    | inr e ↦ email-All email ms m (rw e at h) all.1
  ]

  pub id-All :
      (id : Uuid) (ms : List Merchant) (m : Merchant)
      → merchant_by_id id ms ≡ some m
      → All P ms
      → P m
  unfolding merchant_by_id
  id-All id [] m h all = cc
  id-All id (n ∷ ms) m h all = elim (Bool-cases (n.id == id)) [
    | inl e ↦ let same : n ≡ m = ground arith in subst P same all.0
    | inr e ↦ id-All id ms m (rw e at h) all.1
  ]

pub by_id-id :
    (id : Uuid) (ms : List Merchant) (m : Merchant) → merchant_by_id id ms ≡ some m → m.id ≡ id
unfolding merchant_by_id
by_id-id id [] m h = cc
by_id-id id (n ∷ ms) m h = elim (Bool-cases (n.id == id)) [
  | inl e ↦ ground arith
  | inr e ↦ by_id-id id ms m (rw e at h)
]

IsDistinct-append :
    (ms : List Merchant) (m : Merchant)
    → IsDistinct ms
    → IsAbsent (show_uuid m.id) ms
    → IsDistinct (ms ++ m ∷ [])
IsDistinct-append [] m d h = (tt, tt)
IsDistinct-append (n ∷ ms) m d h = (
  All-append _ ms (m ∷ []) d.0 (str_eq_comm (show_uuid m.id) (show_uuid n.id) ∙ h.0, tt),
  IsDistinct-append ms m d.1 h.1,
)

others-AllKept :
    (w : CacheWrites) (behind : List String) (m : Merchant) (cache : MerchantCache)
    (ms : List Merchant)
    → IsAbsent (show_uuid m.id) ms
    → All (IsKept behind cache) ms
    → All (IsKept (failed_ids w (show_uuid m.id ∷ []) behind) (sync_with w m cache)) ms
others-AllKept w behind m cache [] h all = tt
others-AllKept w behind m cache (n ∷ ms) h all = (
  other-IsKept w behind m cache n (str_eq_comm (show_uuid m.id) (show_uuid n.id) ∙ h.0) all.0,
  others-AllKept w behind m cache ms h.1 all.1,
)

pub enter-IsSynced :
    (crypto : Crypto) (life now : ℕ) (w : CacheWrites) (behind : List String) (m : Merchant)
    (a : Accounts)
    → IsSynced behind a
    → IsAbsent (show_uuid m.id) a.merchants
    → IsSynced (failed_ids w (show_uuid m.id ∷ []) behind) (enter crypto life now w m a).0
unfolding enter
enter-IsSynced crypto life now w behind m a s fresh = record {
  cached =
      All-append _ a.merchants (m ∷ [])
        (others-AllKept w behind m a.cache a.merchants fresh s.cached)
        (own-IsKept w behind m a.cache, tt);
  distinct = IsDistinct-append a.merchants m s.distinct fresh;
}

-- The rows after an update of the row with the id of `m`.
replaced : Merchant → List Merchant → List Merchant
replaced m = update_where (λ (old : Merchant). old.id == m.id) (λ old. m)

replaced-IsAbsent :
    (text : String) (m : Merchant) (ms : List Merchant)
    → IsAbsent text ms
    → IsAbsent text (replaced m ms)
unfolding replaced update_where
replaced-IsAbsent text m [] h = tt
replaced-IsAbsent text m (n ∷ ms) h = elim (Bool-cases (n.id == m.id)) [
  | inl e ↦
      let same : n.id ≡ m.id = ground arith in
      rw e
        (subst (λ i. str_eq (show_uuid i) text ≡ false) same h.0, replaced-IsAbsent text m ms h.1)
  | inr e ↦ rw e (h.0, replaced-IsAbsent text m ms h.1)
]

replaced-IsDistinct :
    (m : Merchant) (ms : List Merchant) → IsDistinct ms → IsDistinct (replaced m ms)
unfolding replaced update_where
replaced-IsDistinct m [] d = tt
replaced-IsDistinct m (n ∷ ms) d = elim (Bool-cases (n.id == m.id)) [
  | inl e ↦
      let same : n.id ≡ m.id = ground arith in
      rw e (
        subst (λ i. IsAbsent (show_uuid i) (replaced m ms)) same (replaced-IsAbsent _ m ms d.0),
        replaced-IsDistinct m ms d.1,
      )
  | inr e ↦ rw e (replaced-IsAbsent _ m ms d.0, replaced-IsDistinct m ms d.1)
]

-- A text that no other row has is absent among the rows with another id.
absent-found :
    (text : String) (id : Uuid) (ms : List Merchant) (m : Merchant)
    → IsAbsent text ms
    → merchant_by_id id ms ≡ some m
    → str_eq (show_uuid id) text ≡ false
absent-found text id ms m h found =
    subst (λ i. str_eq (show_uuid i) text ≡ false) (by_id-id id ms m found)
      (id-All (λ n. str_eq (show_uuid n.id) text ≡ false) id ms m found h)

module _ (w : CacheWrites) (behind : List String) (m : Merchant) (cache : MerchantCache) where
  abbrev Stays : Merchant → Type 0
  Stays = IsKept (failed_ids w (show_uuid m.id ∷ []) behind) (sync_with w m cache)

  replaced_absent :
      (ms : List Merchant)
      → IsAbsent (show_uuid m.id) ms
      → All (IsKept behind cache) ms
      → All Stays (replaced m ms)
  unfolding replaced update_where
  replaced_absent [] h all = tt
  replaced_absent (n ∷ ms) h all = elim (Bool-cases (n.id == m.id)) [
    | inl e ↦ rw e (own-IsKept w behind m cache, replaced_absent ms h.1 all.1)
    | inr e ↦ rw e (
      other-IsKept w behind m cache n (str_eq_comm (show_uuid m.id) (show_uuid n.id) ∙ h.0) all.0,
      replaced_absent ms h.1 all.1,
    )
  ]

  replaced-AllKept :
      (old : Merchant) (ms : List Merchant)
      → IsDistinct ms
      → merchant_by_id m.id ms ≡ some old
      → All (IsKept behind cache) ms
      → All Stays (replaced m ms)
  unfolding replaced update_where merchant_by_id
  replaced-AllKept old [] d found all = tt
  replaced-AllKept old (n ∷ ms) d found all = elim (Bool-cases (n.id == m.id)) [
    | inl e ↦ rw e (
      own-IsKept w behind m cache,
      replaced_absent ms (subst (λ i. IsAbsent (show_uuid i) ms) (ground arith) d.0) all.1,
    )
    | inr e ↦ rw e (
      other-IsKept w behind m cache n
          (absent-found (show_uuid n.id) m.id ms old d.0 (rw e at found)) all.0,
      replaced-AllKept old ms d.1 (rw e at found) all.1,
    )
  ]

pub commit-IsSynced :
    (w : CacheWrites) (behind : List String) (m old : Merchant) (a : Accounts)
    → IsSynced behind a
    → merchant_by_id m.id a.merchants ≡ some old
    → IsSynced (failed_ids w (show_uuid m.id ∷ []) behind) (commit_update w m a)
unfolding commit_update replaced
commit-IsSynced w behind m old a s found = record {
  cached = replaced-AllKept w behind m a.cache old a.merchants s.distinct found s.cached;
  distinct = replaced-IsDistinct m a.merchants s.distinct;
}
