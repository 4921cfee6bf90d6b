-- ===== src/Proxy/Hop/Coalesced.antt =====
-- The requests that internal/proxy/proxy_perf.go answers by one hop, and `proxy` of internal/proxy/proxy.go.
-- singleflight.Group is a parameter as far as it goes: while a call of a key is under way, the others of that key
-- wait for its result. `send` is the network: what a backend answers to a request, if it does; `sent` is that
-- request as its answer names it.
use hapudding.Base.{
  ℕ, suc, ◌+◌, ◌*◌, List, [], ◌∷◌, Bool, true, false, not, ◌||◌, Option, none, some, if◌then◌else◌,
  length, take, ◌++◌,
}
use hapudding.Base.Int.{ℤ, pos}
use hapudding.Text.{Bytes, codes, equal_fold, trim_right_byte}
use hapudding.Config.{Config, Backend, coalesce_enabled}
use hapudding.Store.Types.{Store}
use hapudding.Router.Types.{Identifiers}
use hapudding.ImgCache.Request.{is_cacheable_request}
use hapudding.LibCache.Paths.{is_library_request, method_head}
use hapudding.Proxy.Headers.{Headers}
use hapudding.Proxy.LibSem.{acquire, release}
use hapudding.Proxy.Login.{LoginJson}
use hapudding.Proxy.Library.{Target, library_key}
use hapudding.Proxy.Origin.Urls.{Urls}
use hapudding.Proxy.Origin.SystemInfo.{Json}
use hapudding.Proxy.Origin.Response.{Response, rewrite_proxied_response}
use hapudding.Proxy.Hop.State.{Handler, Asked, Written, Cookie, backend_cookie}
use hapudding.Proxy.Hop.Cached.{touch, kept_headers, image_key, serve_cached, serve_library}
use hapudding.Proxy.Hop.Modify.{store_answer, modify_response}

unfoldable pub should_coalesce : Handler → Target → Bool
should_coalesce h t =
    if not (coalesce_enabled h.cfg.performance)
    then false
    else is_cacheable_request t.method t.path || is_library_request t.method t.path

unfoldable pub coalesce_key : Store → Bytes → Identifiers → Asked → Bytes
coalesce_key st backend id r =
    if is_library_request r.target.method r.target.path
    then library_key st backend id r.target
    else image_key backend r.target r.inbound.header

-- The limit that a read of MaxObject + 1 bytes keeps to; io.LimitReader reads nothing at a negative one.
unfoldable pub coalesce_read_limit : Handler → Target → ℕ
coalesce_read_limit h t =
    let others : ℕ = elim h.images [
      | some c ↦ suc_part c.cfg.max_object
      | none ↦ 4 * 1024 * 1024 + 1
    ] in
    elim h.library [
      | some c ↦ if is_library_request t.method t.path then suc_part c.cfg.max_object else others
      | none ↦ others
    ]
  where
    suc_part : ℤ → ℕ
    suc_part (pos n) = suc n
    suc_part (ℤ.negsuc n) = 0

-- `acquireLibrary`: none where the semaphore does not let the request in before its context ends.
unfoldable pub acquire_library : Handler → Target → Bytes → Option Handler
acquire_library h t backend = elim h.sem [
  | none ↦ some h
  | some s ↦
      if is_library_request t.method t.path
      then elim (acquire s backend) [ none ↦ none | some s' ↦ some (record h { sem = some s' }) ]
      else some h
]

unfoldable pub release_library : Handler → Target → Bytes → Handler
release_library h t backend = elim h.sem [
  | none ↦ h
  | some s ↦
      if is_library_request t.method t.path then record h { sem = some (release s backend) } else h
]

-- hopBuf
pub record HopBuf : Type 0 where
  pub status : ℕ
  pub header : Headers
  pub body : Bytes

-- What a request comes to: an answer, the 503 backend_unreachable, or a panic.
pub data Served (A : Type 0) : Type 0 where
  serves : A → Served A
  unreachable panics : Served A

module _ (u : Urls) (j : Json) (send : Backend → Asked → Bool → Option Response) (now : ℕ) where
  -- `hopOnce`
  unfoldable pub hop_once : Config → Backend → Asked → Target → Bool → Served Response
  hop_once cfg b r sent graylisted = elim (send b r graylisted) [
    | none ↦ unreachable
    | some res ↦ elim (rewrite_proxied_response u j cfg res r.inbound r.target.method sent.path) [
      | none ↦ panics
      | some out ↦ serves out
    ]
  ]

  -- The buffer that is made of a response: the body as far as it is read.
  unfoldable pub buffer_hop :
      Handler → Backend → Identifiers → Asked → Target → Response → Served HopBuf × Handler
  unfolding coalesce_read_limit
  buffer_hop h b id r sent res = elim res.body [
    | none ↦ (unreachable, h)
    | some raw ↦
        let seen = take (coalesce_read_limit h r.target) raw in
        let read : Response = record res { body = some seen; content_length = pos (length seen) } in
        (
          serves (record { status = res.status; header = res.header; body = seen }),
          store_answer h now b.name id r sent read,
        )
  ]

  -- The end of a flight: the slot is given back on each branch.
  unfoldable pub land :
      Handler → Backend → Identifiers → Asked → Target → Served Response → Served HopBuf × Handler
  unfolding release_library buffer_hop
  land h b id r sent unreachable = (unreachable, release_library h r.target b.name)
  land h b id r sent panics = (panics, release_library h r.target b.name)
  land h b id r sent (serves res) =
      let (out, h') = buffer_hop h b id r sent res in (out, release_library h' r.target b.name)

  -- The function that `flight.Do` runs for the first call of a key.
  unfoldable pub fly :
      Handler → Backend → Identifiers → Asked → Target → Bool → Served HopBuf × Handler
  unfolding acquire_library hop_once land
  fly h b id r sent graylisted = elim (acquire_library h r.target b.name) [
    | none ↦ (unreachable, h)
    | some h1 ↦ land h1 b id r sent (hop_once h1.cfg b r sent graylisted)
  ]

  -- What one call writes of the result, with its touches and its count.
  unfoldable pub write_hop :
      Bool → Handler → Bytes → Identifiers → Asked → HopBuf → Written × Handler
  write_hop shared h backend id r buf = (
    record {
      status = buf.status;
      header = kept_headers buf.header;
      age = none;
      cookie = some (backend_cookie r.inbound backend h.cfg.affinity.device_ttl);
      body = if equal_fold r.target.method method_head then [] else buf.body;
    },
    record h {
      st = touch h.st now id r.target buf.status;
      shared = if shared then suc h.shared else h.shared;
      solo = if shared then h.solo else suc h.solo;
    },
  )

  -- A call whose flight failed is counted too.
  unfoldable pub count_call : Bool → Handler → Handler
  count_call true h = record h { shared = suc h.shared }
  count_call false h = record h { solo = suc h.solo }

  unfoldable pub write_each :
      Bool → Handler → Bytes → List (Identifiers × Asked) → HopBuf → List Written × Handler
  unfolding write_hop
  write_each shared h backend [] buf = ([], h)
  write_each shared h backend (c ∷ cs) buf =
      let (w, h1) = write_hop shared h backend c.0 c.1 buf in
      let (ws, h2) = write_each shared h1 backend cs buf in (w ∷ ws, h2)

  unfoldable pub count_each : Bool → Handler → List (Identifiers × Asked) → Handler
  unfolding count_call
  count_each shared h [] = h
  count_each shared h (c ∷ cs) = count_each shared (count_call shared h) cs

  -- What the calls of a flight write, by its outcome.
  unfoldable pub write_result :
      Bool
      → Bytes
      → List (Identifiers × Asked)
      → Served HopBuf
      → Handler
      → Served (List Written) × Handler
  unfolding write_each count_each
  write_result shared backend cs (serves buf) h =
      let (ws, h') = write_each shared h backend cs buf in (serves ws, h')
  write_result shared backend cs unreachable h = (unreachable, count_each shared h cs)
  write_result shared backend cs panics h = (panics, h)

  abbrev pub is_shared : List (Identifiers × Asked) → Bool
  is_shared [] = false
  is_shared (c ∷ cs) = true

  -- `proxyCoalesced` of the first call of a key and of those that come while it is under way.
  unfoldable pub proxy_coalesced :
      Handler
      → Backend
      → Target
      → Bool
      → Identifiers × Asked
      → List (Identifiers × Asked)
      → Served (List Written) × Handler
  unfolding fly write_result
  proxy_coalesced h b sent graylisted leader others =
      let (out, h1) = fly h b leader.0 leader.1 sent graylisted in
      write_result (is_shared others) b.name (leader ∷ others) out h1

  -- What the reverse proxy passes on: the response and its cookie. `sent` is the request that it sends.
  unfoldable pub pass_on :
      (Bytes → Option LoginJson)
      → Handler
      → Backend
      → Identifiers
      → Asked
      → Target
      → Bool
      → Served (Response × Cookie) × Handler
  pass_on parse h b id r sent graylisted = elim (send b r graylisted) [
    | none ↦ (unreachable, h)
    | some res ↦ elim (modify_response u j parse now h b.name id r sent res) [
      | none ↦ (panics, h)
      | some (out, cookie, h') ↦ (serves (out, cookie), h')
    ]
  ]

-- The address that `proxy` parses.
abbrev pub backend_url : Backend → Bytes
backend_url b = trim_right_byte b.url b'/' ++ codes "/"

-- How `proxy` answers; `bad_backend_url` is that 502.
pub data Answered : Type 0 where
  bad_backend_url : Answered
  from_cache : Written → Answered
  from_flight : Served (List Written) → Answered
  from_backend : Served (Response × Cookie) → Answered

module _ (u : Urls) (j : Json) (send : Backend → Asked → Bool → Option Response)
    (parse_time : Bytes → Option ℤ) (parse : Bytes → Option LoginJson) (now : ℕ) where
  -- `proxy`, alone in its flight where it coalesces.
  unfoldable pub proxy :
      Handler → Backend → Identifiers → Asked → Target → Bool → Answered × Handler
  unfolding proxy_coalesced pass_on
  proxy h b id r sent graylisted =
      let (image, h1) = serve_cached parse_time h now b.name id r in
      elim image [
        | some w ↦ (from_cache w, h1)
        | none ↦
            let (entry, h2) = serve_library h1 now b.name id r in
            elim entry [
              | some w ↦ (from_cache w, h2)
              | none ↦
                  if should_coalesce h2 r.target
                  then (let (out, h3) =
                        proxy_coalesced u j send now h2 b sent graylisted (id, r) [] in
                      (from_flight out, h3))
                  else elim (acquire_library h2 r.target b.name) [
                    | none ↦ (from_backend unreachable, h2)
                    | some h3 ↦ elim (u.parse (backend_url b)) [
                      | none ↦ (bad_backend_url, release_library h3 r.target b.name)
                      | some target ↦
                          let (out, h4) = pass_on u j send now parse h3 b id r sent graylisted in
                          (from_backend out, release_library h4 r.target b.name)
                    ]
                  ]
            ]
      ]
