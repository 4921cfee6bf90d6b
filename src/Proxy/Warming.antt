-- ===== src/Proxy/Warming.antt =====
-- Whom the warming of the library cache in internal/proxy/proxy_perf.go serves.
use hapudding.Base.{
  ◌≤◌, ◌+◌, ℕ, ◌≡◌, ◌≢◌, ap, ◌∙◌, List, [], ◌∷◌, true, false, Option, some, length, if◌then◌else◌,
  Bool-cases, Option-cases, inl, inr, ◌⊎◌,
}
use hapudding.Base.Int.{pos_part, ℤ, pos, ltb_ℤ}
use hapudding.Text.{Bytes, is_empty}
use hapudding.Config.{Performance, Backend}
use hapudding.Config.Defaults.{seconds}
use hapudding.Store.Types.{Store}
use hapudding.Store.Tokens.{hash_token}
use hapudding.Router.Types.{Identifiers}
use hapudding.LibCache.Cache.{Entry, Cache, put, refuses}
use hapudding.LibCache.Paths.{method_get, is_library_request}
use hapudding.LibCache.Invariant.{IsValid, put-IsValid}
use hapudding.LibCache.Lookup.{held, served}
use hapudding.LibCache.Tokens.{IsLine}
use hapudding.Proxy.Library.{
  Target, Fetched, library_key, serve_library_cached, entry_of, cache_key-ne, served_held,
}
use hapudding.Proxy.Isolation.{served-put, Gives, get-entry_of}
use hapudding.Proxy.Warm.{
  WarmRequest, warm_request, warm_key, may_warm, warm_one, warm_all, warm_paths, warm_login,
}

abbrev page : Bytes × Bytes → Target
page u = record { method = method_get; path = u.0; raw_query = u.1 }

module _ (fetch : Backend → WarmRequest → Option Fetched)
    (parse_url : Bytes → Option (Bytes × Bytes)) (st : Store) (now : ℕ) (b : Backend) where
  -- What one request leaves: the cache as it was, or with an entry under a key of the token.
  warm_one-cases :
      (token : Bytes) (timeout : ℤ) (c : Cache) (raw_url : Bytes)
      → (warm_one fetch parse_url st now b token timeout c raw_url ≡ c)
        ⊎ ((u : Bytes × Bytes) × (ent : Entry) × (warm_one fetch parse_url st now b token timeout c
                raw_url
              ≡ (put c now (warm_key st b token u) ent).1))
  unfolding warm_one
  warm_one-cases token timeout c raw_url =
      elim (Option-cases (fetch b (warm_request b token raw_url timeout))) [
        | inl e ↦ inl (rw (e, warm_one))
        | inr (res, e) ↦ elim (Option-cases res.body) [
          | inl f ↦ inl (rw (e, f, warm_one))
          | inr (raw, f) ↦ elim (Bool-cases (may_warm c res raw)) [
            | inr g ↦ inl (rw (e, f, g, warm_one))
            | inl g ↦ elim (Option-cases (parse_url raw_url)) [
              | inl i ↦ inl (rw (e, f, g, i, warm_one))
              | inr (u, i) ↦ inr (u, entry_of c now b.name res raw, rw (e, f, g, i, warm_one))
            ]
          ]
        ]
      ]

  warm_one-served :
      (token : Bytes) (timeout : ℤ) (c : Cache) (p : Bytes) (later : ℕ) (k : Bytes) (ent : Entry)
      → IsValid c
      → ((u : Bytes × Bytes) → warm_key st b token u ≢ k)
      → let c1 = warm_one fetch parse_url st now b token timeout c p in
        IsValid c1 × (served later (held c1 k) ≡ some ent → served later (held c k) ≡ some ent)
  warm_one-served token timeout c p later k ent v ne = elim (warm_one-cases token timeout c p) [
    | inl same ↦ rw same (v, λ h. h)
    | inr (u, new, same) ↦ rw same (
      put-IsValid c now (warm_key st b token u) new v,
      served-put c now later (warm_key st b token u) k new ent v (ne u),
    )
  ]

  -- What is served at a key that is no key of the token was served before the requests.
  warm_all-served :
      (token : Bytes) (timeout : ℤ) (c : Cache) (ps : List Bytes) (later : ℕ) (k : Bytes)
      (ent : Entry)
      → IsValid c
      → ((u : Bytes × Bytes) → warm_key st b token u ≢ k)
      → let c1 = warm_all fetch parse_url st now b token timeout c ps in
        IsValid c1 × (served later (held c1 k) ≡ some ent → served later (held c k) ≡ some ent)
  unfolding warm_all
  warm_all-served token timeout c [] later k ent v ne = (v, λ h. h)
  warm_all-served token timeout c (p ∷ ps) later k ent v ne =
      let c1 = warm_one fetch parse_url st now b token timeout c p in
      let (v1, back1) = warm_one-served token timeout c p later k ent v ne in
      let (v2, back2) = warm_all-served token timeout c1 ps later k ent v1 ne in
      (v2, λ h. back1 (back2 h))

  -- Whatever the backend answers, warming the cache for one user gives no other client anything: what
  -- a valid cache serves after it at another backend, or to a token with another hash, is what it held
  -- for the key of that request before, with its hit counted. Backend names and hashes hold no newline.
  pub serve-warm_login :
      (token : Bytes) (p : Performance) (c : Cache) (user_id : Bytes) (later : ℕ) (b' : Bytes)
      (id : Identifiers) (t : Target) (ent : Entry)
      → IsValid c
      → IsLine b.name
      → IsLine (hash_token st token)
      → IsLine b'
      → IsLine (hash_token st id.token)
      → (b' ≢ b.name) ⊎ (hash_token st id.token ≢ hash_token st token)
      → (serve_library_cached
          (warm_login fetch parse_url st now b token p c user_id)
          st
          later
          b'
          id
          t).0
        ≡ some ent
      → served later (held c (library_key st b' id t)) ≡ some ent
  unfolding warm_login
  serve-warm_login token p c user_id later b' id t ent v lb lh lb' lh' other h =
      let timeout : ℤ = if ltb_ℤ (pos 0) p.auth_timeout then p.auth_timeout else seconds 60 in
      let k = library_key st b' id t in
      let (v1, back) = warm_all-served token timeout c (warm_paths user_id) later k ent v (λ u.
        cache_key-ne b' (hash_token st id.token) b.name (hash_token st token) t (page u) lb' lh' lb
          lh other) in
      back (
        served_held (warm_all fetch parse_url st now b token timeout c (warm_paths user_id)) st
          later b' id t ent v1 h)

  -- A page that was fetched for a user who logged in is served to the next request of that token for
  -- it, with its status, its body and its header without cookies, as long as the time to live of the
  -- configuration, which is positive, has not passed: where the answer is 200 and JSON, the body could be
  -- read and fits in a valid cache, the address could be parsed, and the path is one of the library's.
  pub serve-warm_one :
      (timeout : ℤ) (c : Cache) (raw_url : Bytes) (later : ℕ) (id : Identifiers) (u : Bytes × Bytes)
      (res : Fetched) (raw : Bytes)
      → IsValid c
      → is_empty id.token ≡ false
      → is_library_request method_get u.0 ≡ true
      → parse_url raw_url ≡ some u
      → fetch b (warm_request b id.token raw_url timeout) ≡ some res
      → res.body ≡ some raw
      → may_warm c res raw ≡ true
      → refuses c.cfg (length raw) ≡ false
      → ltb_ℤ (pos 0) c.cfg.ttl ≡ true
      → later ≤ now + pos_part c.cfg.ttl
      → (ent : Entry) × ((serve_library_cached
            (warm_one fetch parse_url st now b id.token timeout c raw_url)
            st
            later
            b.name
            id
            (page u)).0
          ≡ some ent)
        × Gives b.name res raw ent
  unfolding warm_one serve_library_cached
  serve-warm_one timeout c raw_url later id u res raw v known library parsed sent read may fits
        lives fresh =
      let k = library_key st b.name id (page u) in
      let (ent, hit, gives) = get-entry_of c now later b.name k res raw v fits lives fresh in
      let same : warm_one fetch parse_url st now b id.token timeout c raw_url
          ≡ (put c now k (entry_of c now b.name res raw)).1 =
        rw (sent, read, may, parsed, warm_one) in
      (
        ent,
        ap (λ (x : Cache). (serve_library_cached x st later b.name id (page u)).0) same
            ∙ rw (known, library, hit, serve_library_cached),
        gives,
      )
