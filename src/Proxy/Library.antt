-- ===== src/Proxy/Library.antt =====
-- How internal/proxy/proxy_perf.go uses the library cache: what it serves, stores and drops.
use hapudding.Base.{
  ℕ, ◌+◌, ◌-◌, ◌≡◌, ◌≢◌, sym, ap, ◌∙◌, List, Bool, not, ◌&&◌, ◌||◌, Option, none, some, ltb, leb,
  ◌==◌, if◌then◌else◌, length, select, arith, Bool-cases, Option-cases, inl, inr, ◌⊎◌,
}
use hapudding.Base.Int.{ℤ, pos, pos_part, neg_part, ltb_ℤ}
use hapudding.Text.{Bytes, codes, is_empty, str_eq, to_lower, contains}
use hapudding.Text.Equality.{str_eq_refl, str_eq_iff}
use hapudding.Store.Types.{Store}
use hapudding.Store.Tokens.{hash_token, touch_token}
use hapudding.Store.Bindings.{touch_device}
use hapudding.Router.Types.{Identifiers}
use hapudding.LibCache.Cache.{Entry, Cache, cache_key, get, put, drop_token}
use hapudding.LibCache.Paths.{is_library_request, is_invalidate_request}
use hapudding.LibCache.Invariant.{IsValid}
use hapudding.LibCache.Lookup.{held, served, get-served}
use hapudding.LibCache.Tokens.{IsLine, prefix_key}

-- The request as the cache's key reads it: at the client's side, or as it was sent to the backend.
pub record Target : Type 0 where
  pub method : Bytes
  pub path : Bytes
  pub raw_query : Bytes

-- A response whose body can be read, or not. The header keys are canonical.
pub record Fetched : Type 0 where
  pub status : ℕ
  pub header : List (Bytes × Bytes)
  pub content_type : Bytes
  pub content_length : ℤ
  pub body : Option Bytes

abbrev pub library_key : Store → Bytes → Identifiers → Target → Bytes
library_key st backend id t = cache_key backend (hash_token st id.token) t.method t.path t.raw_query

-- `serveLibraryCached`: the entry that is written to the client, if any, with the touches.
unfoldable pub serve_library_cached :
    Cache → Store → ℕ → Bytes → Identifiers → Target → Option Entry × Cache × Store
serve_library_cached c st now backend id t =
    if is_empty id.token || not (is_library_request t.method t.path)
    then (none, c, st)
    else let (found, c') = get c now (library_key st backend id t) in
      elim found [
        | none ↦ (none, c', st)
        | some ent ↦
            let st' = (touch_token st now id.token t.method t.path ent.status).1 in
            (some ent, c', (touch_device st' now id.device_id).1)
      ]

-- hdr.Del("Set-Cookie")
abbrev pub without_cookies : List (Bytes × Bytes) → List (Bytes × Bytes)
without_cookies = select (λ f. not (str_eq f.0 (codes "Set-Cookie")))

abbrev pub entry_of : Cache → ℕ → Bytes → Fetched → Bytes → Entry
entry_of c now backend res body = record {
  backend = backend;
  status = res.status;
  header = without_cookies res.header;
  body = body;
  content_type = to_lower res.content_type;
  hits = 0;
  stored_at = 0;
  expires_at = now + pos_part c.cfg.ttl - neg_part c.cfg.ttl;
}

-- The early returns of `maybeStoreLibrary` before it reads the body.
unfoldable pub may_store : Cache → Identifiers → Target → Fetched → Bool
may_store c id sent res =
    not (is_empty id.token)
    && (is_library_request sent.method sent.path
        && ((res.status == 200)
            && (contains (to_lower res.content_type) (codes "json")
                && not (
                    ltb_ℤ c.cfg.max_object res.content_length
                    && ltb_ℤ (pos 0) res.content_length))))

-- `maybeStoreLibrary`, at the request that was sent to the backend. The body that the client gets is
-- the same on every branch.
unfoldable pub maybe_store_library :
    Cache → Store → ℕ → Bytes → Identifiers → Target → Fetched → Cache
maybe_store_library c st now backend id sent res =
    if may_store c id sent res
    then elim res.body [
      | none ↦ c
      | some body ↦
          if ltb_ℤ c.cfg.max_object (pos (length body))
          then c
          else (put c now (library_key st backend id sent) (entry_of c now backend res body)).1
    ]
    else c

unfoldable pub maybe_invalidate_library : Cache → Store → Bytes → Identifiers → Target → ℕ → Cache
maybe_invalidate_library c st backend id t status =
    if is_empty id.token
      || (ltb status 200 || leb 300 status || not (is_invalidate_request t.method t.path))
    then c
    else drop_token c backend (hash_token st id.token)

-- Keys of different backends or tokens are different, whatever the requests.
pub cache_key-ne :
    (b h b' h' : Bytes) (t t' : Target)
    → IsLine b
    → IsLine h
    → IsLine b'
    → IsLine h'
    → (b ≢ b') ⊎ (h ≢ h')
    → cache_key b' h' t'.method t'.path t'.raw_query ≢ cache_key b h t.method t.path t.raw_query
cache_key-ne b h b' h' t t' lb lh lb' lh' other e = ground (
  arith,
  prefix_key b' h' b h t.method t.path t.raw_query lb' lh' lb lh,
  prefix_key b' h' b' h' t'.method t'.path t'.raw_query lb' lh' lb' lh',
  str_eq_iff b' b,
  str_eq_iff h' h,
  str_eq_refl b',
  str_eq_refl h',
  e,
)

-- What is served comes from the entry that the cache holds for the key.
pub served_held :
    (c : Cache) (st : Store) (now : ℕ) (backend : Bytes) (id : Identifiers) (t : Target)
    (ent : Entry)
    → IsValid c
    → (serve_library_cached c st now backend id t).0 ≡ some ent
    → served now (held c (library_key st backend id t)) ≡ some ent
unfolding serve_library_cached
served_held c st now backend id t ent v h =
    let k = library_key st backend id t in
    elim (Bool-cases (is_empty id.token || not (is_library_request t.method t.path))) [
      | inl e ↦ absurd (ground arith)
      | inr e ↦ elim (Option-cases (get c now k).0) [
        | inl f ↦ absurd (ground arith)
        | inr (ent', f) ↦
            let same : ent' ≡ ent = ground arith in sym (get-served c now k v) ∙ f ∙ ap some same
      ]
    ]
