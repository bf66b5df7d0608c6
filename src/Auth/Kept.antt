-- ===== src/Auth/Kept.antt =====
-- What Redis keeps of a merchant, and what a write for one merchant leaves of the others.
use merchant_ai_agent.Base.{
  ◌≡◌, refl, String, Bool, true, false, any, ◌⊎◌, some, List, [], ◌∷◌, ◌++◌, str_eq, eq_iff,
  eq_refl, All, arith, ap, sym, ◌∙◌, subst, Bool-cases, inl, inr,
}
use merchant_ai_agent.Uuid.{show_uuid}
use merchant_ai_agent.Merchant.{
  Merchant, MerchantCache, CacheWrites, both_written, first_written, none_written,
  cached_credentials, sync_merchant_cache, sync_with,
}
use merchant_ai_agent.Merchant.Dict.{get, get-put}
use merchant_ai_agent.Auth.Service.{Accounts}

-- The two keys of a merchant hold what its row says.
pub record IsCached (cache : MerchantCache) (m : Merchant) : Type 0 where
  pub has_keys : get (show_uuid m.id) cache.razorpay_creds ≡ some (cached_credentials m)
  pub has_issuers : get (show_uuid m.id) cache.trusted_issuers ≡ some m.trusted_issuers

-- No row has this text for its id.
abbrev pub IsAbsent : String → List Merchant → Type 0
IsAbsent text = All (λ (m : Merchant). str_eq (show_uuid m.id) text ≡ false)

-- The primary key, as a text.
abbrev pub IsDistinct : List Merchant → Type 0
IsDistinct [] = Unit
IsDistinct (m ∷ ms) = IsAbsent (show_uuid m.id) ms × IsDistinct ms

-- The ids whose keys may be behind their rows, after writes for these ids.
unfoldable pub failed_ids : CacheWrites → List String → List String → List String
failed_ids both_written ids behind = behind
failed_ids first_written ids behind = ids ++ behind
failed_ids none_written ids behind = ids ++ behind

abbrev pub is_listed : String → List String → Bool
is_listed text = any (str_eq text)

-- The keys hold what the row says, unless the id is listed.
abbrev pub IsKept : List String → MerchantCache → Merchant → Type 0
IsKept behind cache m = (is_listed (show_uuid m.id) behind ≡ true) ⊎ IsCached cache m

pub record IsSynced (behind : List String) (a : Accounts) : Type 0 where
  pub cached : All (IsKept behind a.cache) a.merchants
  pub distinct : IsDistinct a.merchants

listed-append :
    (text : String) (ids behind : List String)
    → is_listed text behind ≡ true
    → is_listed text (ids ++ behind) ≡ true
unfolding any
listed-append text [] behind h = h
listed-append text (id ∷ ids) behind h = ground (arith, listed-append text ids behind h)

pub still-listed :
    (w : CacheWrites) (ids behind : List String) (text : String)
    → is_listed text behind ≡ true
    → is_listed text (failed_ids w ids behind) ≡ true
unfolding failed_ids
still-listed both_written ids behind text h = h
still-listed first_written ids behind text h = listed-append text ids behind h
still-listed none_written ids behind text h = listed-append text ids behind h

weaker-All :
    (w : CacheWrites) (ids behind : List String) (cache : MerchantCache) (ms : List Merchant)
    → All (IsKept behind cache) ms
    → All (IsKept (failed_ids w ids behind) cache) ms
weaker-All w ids behind cache [] h = tt
weaker-All w ids behind cache (m ∷ ms) (inl listed, hs) =
    (inl (still-listed w ids behind (show_uuid m.id) listed), weaker-All w ids behind cache ms hs)
weaker-All w ids behind cache (m ∷ ms) (inr c, hs) = (inr c, weaker-All w ids behind cache ms hs)

pub weaker-IsSynced :
    (w : CacheWrites) (ids behind : List String) (a : Accounts)
    → IsSynced behind a
    → IsSynced (failed_ids w ids behind) a
weaker-IsSynced w ids behind a s = record {
  cached = weaker-All w ids behind a.cache a.merchants s.cached;
  distinct = s.distinct;
}

sync-IsCached : (m : Merchant) (cache : MerchantCache) → IsCached (sync_merchant_cache m cache) m
unfolding sync_merchant_cache
sync-IsCached m cache = record {
  has_keys = rw (get-put, eq_refl) refl;
  has_issuers = rw (get-put, eq_refl) refl;
}

sync-other :
    (w : CacheWrites) (m n : Merchant) (cache : MerchantCache)
    → str_eq (show_uuid m.id) (show_uuid n.id) ≡ false
    → IsCached cache n
    → IsCached (sync_with w m cache) n
unfolding sync_with sync_merchant_cache
sync-other both_written m n cache other c = record {
  has_keys = rw (get-put, other) c.has_keys;
  has_issuers = rw (get-put, other) c.has_issuers;
}
sync-other first_written m n cache other c = record {
  has_keys = rw (get-put, other) c.has_keys;
  has_issuers = c.has_issuers;
}
sync-other none_written m n cache other c = c

pub str_eq_comm : (s t : String) → str_eq s t ≡ str_eq t s
str_eq_comm s t = ground (arith, eq_iff s t, eq_iff t s)

-- To write what is there changes nothing.
sync_again :
    (m n : Merchant) (cache : MerchantCache)
    → IsCached cache m
    → IsCached cache n
    → IsCached (sync_merchant_cache m cache) n
unfolding sync_merchant_cache
sync_again m n cache cm cn = elim (Bool-cases (str_eq (show_uuid m.id) (show_uuid n.id))) [
  | inl same ↦
      let e = (eq_iff (show_uuid m.id) (show_uuid n.id)).0 same in
      record {
        has_keys =
            rw (get-put, same)
              (sym cm.has_keys ∙ ap (λ t. get t cache.razorpay_creds) e ∙ cn.has_keys);
        has_issuers =
            rw (get-put, same)
              (sym cm.has_issuers ∙ ap (λ t. get t cache.trusted_issuers) e ∙ cn.has_issuers);
      }
  | inr other ↦ record {
    has_keys = rw (get-put, other) cn.has_keys;
    has_issuers = rw (get-put, other) cn.has_issuers;
  }
]

-- What a write for `m` leaves of the other rows, and of `m` itself.
module _ (w : CacheWrites) (behind : List String) (m : Merchant) (cache : MerchantCache) where
  abbrev pub behind' : List String
  behind' = failed_ids w (show_uuid m.id ∷ []) behind

  pub other-IsKept :
      (n : Merchant)
      → str_eq (show_uuid m.id) (show_uuid n.id) ≡ false
      → IsKept behind cache n
      → IsKept behind' (sync_with w m cache) n
  other-IsKept n other (inl listed) =
      inl (still-listed w (show_uuid m.id ∷ []) behind (show_uuid n.id) listed)
  other-IsKept n other (inr c) = inr (sync-other w m n cache other c)

pub own-IsKept :
    (w : CacheWrites) (behind : List String) (m : Merchant) (cache : MerchantCache)
    → IsKept (failed_ids w (show_uuid m.id ∷ []) behind) (sync_with w m cache) m
unfolding sync_with failed_ids any
own-IsKept both_written behind m cache = inr (sync-IsCached m cache)
own-IsKept first_written behind m cache = inl (rw (eq_refl (show_uuid m.id)) refl)
own-IsKept none_written behind m cache = inl (rw (eq_refl (show_uuid m.id)) refl)

-- Another row with the id of `m`, where `m` was kept before.
same-IsKept :
    (w : CacheWrites) (behind : List String) (m n : Merchant) (cache : MerchantCache)
    → show_uuid m.id ≡ show_uuid n.id
    → IsKept behind cache m
    → IsKept behind cache n
    → IsKept (failed_ids w (show_uuid m.id ∷ []) behind) (sync_with w m cache) n
unfolding sync_with failed_ids any
same-IsKept both_written behind m n cache same (inl listed) kept =
    inl (subst (λ t. is_listed t behind ≡ true) same listed)
same-IsKept both_written behind m n cache same (inr c) (inl listed) = inl listed
same-IsKept both_written behind m n cache same (inr c) (inr d) = inr (sync_again m n cache c d)
same-IsKept first_written behind m n cache same before kept =
    inl (rw ((eq_iff (show_uuid n.id) (show_uuid m.id)).1 (sym same)) refl)
same-IsKept none_written behind m n cache same before kept =
    inl (rw ((eq_iff (show_uuid n.id) (show_uuid m.id)).1 (sym same)) refl)

again-IsKept :
    (w : CacheWrites) (behind : List String) (m n : Merchant) (cache : MerchantCache)
    → IsKept behind cache m
    → IsKept behind cache n
    → IsKept (failed_ids w (show_uuid m.id ∷ []) behind) (sync_with w m cache) n
again-IsKept w behind m n cache before kept =
    elim (Bool-cases (str_eq (show_uuid m.id) (show_uuid n.id))) [
      | inl e ↦
          same-IsKept w behind m n cache ((eq_iff (show_uuid m.id) (show_uuid n.id)).0 e) before
            kept
      | inr other ↦ other-IsKept w behind m cache n other kept
    ]

pub again-AllKept :
    (w : CacheWrites) (behind : List String) (m : Merchant) (cache : MerchantCache)
    (ms : List Merchant)
    → IsKept behind cache m
    → All (IsKept behind cache) ms
    → All (IsKept (failed_ids w (show_uuid m.id ∷ []) behind) (sync_with w m cache)) ms
again-AllKept w behind m cache [] before h = tt
again-AllKept w behind m cache (n ∷ ms) before h =
    (again-IsKept w behind m n cache before h.0, again-AllKept w behind m cache ms before h.1)
