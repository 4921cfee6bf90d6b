-- ===== src/Proxy/Hop/Cached.antt =====
-- What internal/proxy serves from its caches: `serveCached` of proxy.go and `serveLibraryCached` of proxy_perf.go.
use hapudding.Base.{ℕ, ◌-◌, ◌/◌, [], not, ◌||◌, Option, none, some, if◌then◌else◌, select, ◌==◌}
use hapudding.Base.Int.{ℤ}
use hapudding.Text.{Bytes, codes, equal_fold}
use hapudding.Store.Types.{Store, second}
use hapudding.Store.Tokens.{touch_token}
use hapudding.Store.Bindings.{touch_device}
use hapudding.Router.Types.{Identifiers}
use hapudding.ImgCache.Types.{Entry, cache_key}
use hapudding.ImgCache.Cache.{get}
use hapudding.ImgCache.Request.{is_cacheable_request}
use hapudding.ImgCache.Fresh.{fresh_for}
use hapudding.LibCache.Cache.{Entry as LibraryEntry}
use hapudding.LibCache.Paths.{method_head}
use hapudding.Proxy.Headers
use hapudding.Proxy.Headers.{Headers}
use hapudding.Proxy.Library.{Target, serve_library_cached}
use hapudding.Proxy.Hop.State.{Handler, Asked, Written, backend_cookie, skip_cached_header}

-- TouchToken and TouchDevice, whose errors are ignored
unfoldable pub touch : Store → ℕ → Identifiers → Target → ℕ → Store
touch st now id t status =
    (touch_device (touch_token st now id.token t.method t.path status).1 now id.device_id).1

-- The headers of an entry, but for those that are skipped.
unfoldable pub kept_headers : Headers → Headers
kept_headers = select (λ f. not (skip_cached_header f.0))

-- No body is written where the status is 304 or the method is HEAD.
unfoldable body_for : Bytes → ℕ → Bytes → Bytes
body_for method status body = if (status == 304) || equal_fold method method_head then [] else body

unfoldable pub image_key : Bytes → Target → Headers → Bytes
image_key backend t header =
    cache_key backend t.path t.raw_query (Headers.get header (codes "Accept"))

-- What is written of an image that the cache holds.
unfoldable pub write_image : Handler → ℕ → Bytes → Asked → ℕ → Entry → Written
unfolding body_for kept_headers
write_image h now backend r status ent = record {
  status = status;
  header = kept_headers ent.header;
  age = some ((now - ent.stored_at) / second);
  cookie = some (backend_cookie r.inbound backend h.cfg.affinity.device_ttl);
  body = body_for r.target.method status ent.body;
}

unfoldable pub serve_cached :
    (Bytes → Option ℤ) → Handler → ℕ → Bytes → Identifiers → Asked → Option Written × Handler
serve_cached parse_time h now backend id r = elim h.images [
  | none ↦ (none, h)
  | some c ↦
      if not (is_cacheable_request r.target.method r.target.path)
      then (none, h)
      else let (found, c') = get c now (image_key backend r.target r.inbound.header) in
        let h' : Handler = record h { images = some c' } in
        elim found [
          | none ↦ (none, h')
          | some ent ↦
              let fresh =
                fresh_for parse_time ent (Headers.get r.inbound.header (codes "If-None-Match"))
                  (Headers.get r.inbound.header (codes "If-Modified-Since")) in
              let status : ℕ = if fresh then 304 else 200 in
              (
                some (write_image h now backend r status ent),
                record h' { st = touch h.st now id r.target status },
              )
        ]
]

unfoldable write_library : Handler → ℕ → Bytes → Asked → LibraryEntry → Written
unfolding kept_headers
write_library h now backend r ent = record {
  status = ent.status;
  header = kept_headers ent.header;
  age = some ((now - ent.stored_at) / second);
  cookie = some (backend_cookie r.inbound backend h.cfg.affinity.device_ttl);
  body = if equal_fold r.target.method method_head then [] else ent.body;
}

unfoldable pub serve_library : Handler → ℕ → Bytes → Identifiers → Asked → Option Written × Handler
unfolding write_library
serve_library h now backend id r = elim h.library [
  | none ↦ (none, h)
  | some c ↦
      let (found, c', st') = serve_library_cached c h.st now backend id r.target in
      let h' : Handler = record h { library = some c'; st = st' } in
      elim found [ none ↦ (none, h') | some ent ↦ (some (write_library h now backend r ent), h') ]
]
