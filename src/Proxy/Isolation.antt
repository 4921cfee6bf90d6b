-- ===== src/Proxy/Isolation.antt =====
-- What internal/proxy/proxy_perf.go serves from the library cache, and to whom.
use hapudding.Base.{
  ◌≤◌, ◌+◌, List, [], ◌∷◌, All, select, subst, ℕ, ◌≡◌, ◌≢◌, refl, sym, ap, ◌∙◌, true, false, not,
  ◌||◌, Option, none, some, length, arith, Bool-cases, Option-cases, inl, inr, ◌⊎◌,
}
use hapudding.Base.Int.{pos, pos_part, ltb_ℤ}
use hapudding.Text.{Bytes, codes, is_empty, str_eq, to_lower}
use hapudding.Text.Equality.{str_eq_iff}
use hapudding.Store.Types.{Store}
use hapudding.Store.Tokens.{hash_token}
use hapudding.Router.Types.{Identifiers}
use hapudding.LibCache.Cache.{Entry, Item, Cache, get, put, refuses, count_hit}
use hapudding.LibCache.Paths.{is_library_request}
use hapudding.LibCache.Invariant.{IsValid, put-IsValid}
use hapudding.LibCache.Lookup.{held, served, kept_item, get-put, held-put}
use hapudding.LibCache.Tokens.{IsLine}
use hapudding.Proxy.Library.{
  Target, Fetched, library_key, serve_library_cached, entry_of, without_cookies, may_store,
  maybe_store_library, cache_key-ne, served_held,
}

served-some :
    (now : ℕ) (o : Option Item) (ent : Entry)
    → served now o ≡ some ent
    → (it : Item) × (o ≡ some it)
unfolding served
served-some now none ent h = absurd (ground arith)
served-some now (some it) ent h = (it, refl)

-- An entry that is served after a `Put` of another key was served before it.
pub served-put :
    (c : Cache) (now later : ℕ) (k j : Bytes) (new ent : Entry)
    → IsValid c
    → k ≢ j
    → served later (held (put c now k new).1 j) ≡ some ent
    → served later (held c j) ≡ some ent
served-put c now later k j new ent v ne h =
    let (it, e) = served-some later (held (put c now k new).1 j) ent h in
    ap (served later) (held-put c now k j new it v ne e ∙ sym e) ∙ h

-- No client is served what was stored for another: an entry that a valid cache serves at a backend
-- to a token, after a response was stored for another backend or a token with another hash, is the
-- entry that the cache held for the key of this request before, with its hit counted. Backend names
-- and hashes hold no newline.
pub serve-maybe_store :
    (c : Cache) (st : Store) (now later : ℕ) (b b' : Bytes) (id id' : Identifiers) (t t' : Target)
    (res : Fetched) (ent : Entry)
    → IsValid c
    → IsLine b
    → IsLine (hash_token st id.token)
    → IsLine b'
    → IsLine (hash_token st id'.token)
    → (b ≢ b') ⊎ (hash_token st id.token ≢ hash_token st id'.token)
    → (serve_library_cached (maybe_store_library c st now b' id' t' res) st later b id t).0
      ≡ some ent
    → served later (held c (library_key st b id t)) ≡ some ent
unfolding maybe_store_library
serve-maybe_store c st now later b b' id id' t t' res ent v lb lh lb' lh' other h =
    let unchanged : maybe_store_library c st now b' id' t' res ≡ c
        → served later (held c (library_key st b id t)) ≡ some ent =
      λ e.
        served_held c st later b id t ent v
          (ap (λ (x : Cache). (serve_library_cached x st later b id t).0) (sym e) ∙ h) in
    elim (Bool-cases (may_store c id' t' res)) [
      | inr e ↦ unchanged (rw (e, maybe_store_library))
      | inl e ↦ elim (Option-cases res.body) [
        | inl f ↦ unchanged (rw (e, f, maybe_store_library))
        | inr (body, f) ↦ elim (Bool-cases (ltb_ℤ c.cfg.max_object (pos (length body)))) [
          | inl g ↦ unchanged (rw (e, f, g, maybe_store_library))
          | inr g ↦
              let k = library_key st b' id' t' in
              let new = entry_of c now b' res body in
              let c' : Cache = (put c now k new).1 in
              let same : maybe_store_library c st now b' id' t' res ≡ c' =
                rw (e, f, g, maybe_store_library) in
              let h' : (serve_library_cached c' st later b id t).0 ≡ some ent =
                ap (λ (x : Cache). (serve_library_cached x st later b id t).0) (sym same) ∙ h in
              served-put c now later k (library_key st b id t) new ent v
                (cache_key-ne b (hash_token st id.token) b' (hash_token st id'.token) t t' lb lh lb'
                  lh' other)
                (served_held c' st later b id t ent (put-IsValid c now k new v) h')
        ]
      ]
    ]

-- An entry that gives a client the response of a backend: its status, its body, its content type and its
-- header but for the cookies.
pub record Gives (b : Bytes) (res : Fetched) (body : Bytes) (ent : Entry) : Type 0 where
  pub of_backend : ent.backend ≡ b
  pub same_status : ent.status ≡ res.status
  pub same_body : ent.body ≡ body
  pub same_type : ent.content_type ≡ to_lower res.content_type
  pub no_cookies : All (λ (f : Bytes × Bytes). str_eq f.0 (codes "Set-Cookie") ≡ false) ent.header
  pub same_fields :
      (k : Bytes)
      → str_eq (codes "Set-Cookie") k ≡ false
      → select (λ (f : Bytes × Bytes). str_eq f.0 k) ent.header
        ≡ select (λ (f : Bytes × Bytes). str_eq f.0 k) res.header

without_cookies-none :
    (h : List (Bytes × Bytes))
    → All (λ (f : Bytes × Bytes). str_eq f.0 (codes "Set-Cookie") ≡ false) (without_cookies h)
without_cookies-none [] = tt
without_cookies-none (f ∷ h) = elim (Bool-cases (str_eq f.0 (codes "Set-Cookie"))) [
  | inl e ↦ rw e (without_cookies-none h)
  | inr e ↦ rw e (e, without_cookies-none h)
]

without_cookies-others :
    (h : List (Bytes × Bytes)) (k : Bytes)
    → str_eq (codes "Set-Cookie") k ≡ false
    → select (λ (f : Bytes × Bytes). str_eq f.0 k) (without_cookies h)
      ≡ select (λ (f : Bytes × Bytes). str_eq f.0 k) h
without_cookies-others [] k other = refl
without_cookies-others (f ∷ h) k other =
    let rest = without_cookies-others h k other in
    elim (Bool-cases (str_eq f.0 (codes "Set-Cookie"))) [
      | inl e ↦
          let differ : str_eq f.0 k ≡ false =
            subst (λ s. str_eq s k ≡ false) (sym ((str_eq_iff f.0 (codes "Set-Cookie")).0 e))
              other in
          rw (e, differ) rest
      | inr e ↦ elim (Bool-cases (str_eq f.0 k)) [
        | inl g ↦ rw (e, g) (ap (λ fs. f ∷ fs) rest)
        | inr g ↦ rw (e, g) rest
      ]
    ]

entry_of-Gives :
    (c : Cache) (now : ℕ) (b k : Bytes) (res : Fetched) (body : Bytes)
    → Gives b res body (count_hit (kept_item c now k (entry_of c now b res body))).ent
entry_of-Gives c now b k res body = record {
  of_backend = refl;
  same_status = refl;
  same_body = refl;
  same_type = refl;
  no_cookies = without_cookies-none res.header;
  same_fields = without_cookies-others res.header;
}

-- An entry that was made of a response and fits in a valid cache is served at its key, as long as the positive
-- time to live has not passed.
pub get-entry_of :
    (c : Cache) (now later : ℕ) (b k : Bytes) (res : Fetched) (body : Bytes)
    → IsValid c
    → refuses c.cfg (length body) ≡ false
    → ltb_ℤ (pos 0) c.cfg.ttl ≡ true
    → later ≤ now + pos_part c.cfg.ttl
    → (ent : Entry) × ((get (put c now k (entry_of c now b res body)).1 later k).0 ≡ some ent)
      × Gives b res body ent
get-entry_of c now later b k res body v fits lives fresh =
    let new = entry_of c now b res body in
    (
      (count_hit (kept_item c now k new)).ent,
      get-put c now later k new v fits (ground arith),
      entry_of-Gives c now b k res body,
    )

-- A response that may be stored and fits in a valid cache is served to the next request like it of
-- the same token, with its status, its body and its header without cookies, as long as the time to live of the
-- configuration, which is positive, has not passed.
pub serve-stored :
    (c : Cache) (st : Store) (now later : ℕ) (b : Bytes) (id : Identifiers) (t : Target)
    (res : Fetched) (body : Bytes)
    → IsValid c
    → may_store c id t res ≡ true
    → res.body ≡ some body
    → refuses c.cfg (length body) ≡ false
    → ltb_ℤ (pos 0) c.cfg.ttl ≡ true
    → later ≤ now + pos_part c.cfg.ttl
    → (ent : Entry) × ((serve_library_cached
          (maybe_store_library c st now b id t res)
          st
          later
          b
          id
          t).0
        ≡ some ent)
      × Gives b res body ent
unfolding maybe_store_library serve_library_cached may_store
serve-stored c st now later b id t res body v may read fits lives fresh =
    let k = library_key st b id t in
    let small : ltb_ℤ c.cfg.max_object (pos (length body)) ≡ false = ground arith in
    let filled : (is_empty id.token || not (is_library_request t.method t.path)) ≡ false =
      ground arith in
    let (ent, hit, gives) = get-entry_of c now later b k res body v fits lives fresh in
    let same : maybe_store_library c st now b id t res
        ≡ (put c now k (entry_of c now b res body)).1 =
      rw (may, read, small, maybe_store_library) in
    (
      ent,
      ap (λ (x : Cache). (serve_library_cached x st later b id t).0) same
          ∙ rw (filled, hit, serve_library_cached),
      gives,
    )
