-- ===== src/Proxy/Hop/Modify.antt =====
-- What an answer of a backend changes: `maybeStoreImage` and the ModifyResponse of `proxy` of
-- internal/proxy/proxy.go. What is read of a login's JSON is a parameter.
use hapudding.Base.{
  ℕ, ◌+◌, ◌*◌, [], not, ◌&&◌, ◌||◌, Option, none, some, if◌then◌else◌, leb, ◌==◌, length, take,
}
use hapudding.Base.Int.{ℤ, pos, pos_part, ltb_ℤ}
use hapudding.Text.{Bytes, codes, is_empty, to_lower, has_prefix}
use hapudding.Health.Monitor.{Monitor, record_auth_failure}
use hapudding.Store.Types.{Store}
use hapudding.Store.Tokens.{delete_token}
use hapudding.Router.Types.{Identifiers}
use hapudding.ImgCache.Types.{Entry, Cache as Images}
use hapudding.ImgCache.Cache.{put}
use hapudding.ImgCache.Request.{is_cacheable_request, store_ttl}
use hapudding.Proxy.Headers.{Headers, get}
use hapudding.Proxy.Paths.{is_login_path, is_logout_path, is_user_path}
use hapudding.Proxy.Login.{LoginJson, peek_login, is_success}
use hapudding.Proxy.Library.{
  Target, Fetched, without_cookies, maybe_store_library, maybe_invalidate_library,
}
use hapudding.Proxy.Origin.Urls.{Urls}
use hapudding.Proxy.Origin.SystemInfo.{Json}
use hapudding.Proxy.Origin.Response.{Response, rewrite_proxied_response}
use hapudding.Proxy.Hop.State.{Handler, Asked, Cookie, backend_cookie}
use hapudding.Proxy.Hop.Cached.{touch, image_key}

-- The time that an image may be kept, where it may be stored at all.
unfoldable image_ttl : Images → Target → Response → Option ℤ
image_ttl c sent res =
    if not (is_cacheable_request sent.method sent.path)
      || (not (res.status == 200)
          || not (has_prefix (to_lower (get res.header (codes "Content-Type"))) (codes "image/")))
    then none
    else store_ttl (get res.header (codes "Cache-Control")) c.cfg.default_ttl c.cfg.max_ttl

abbrev image_entry : ℕ → Bytes → Response → Bytes → ℤ → Entry
image_entry now backend res raw ttl = record {
  backend = backend;
  status = res.status;
  header = without_cookies res.header;
  body = raw;
  etag = get res.header (codes "ETag");
  last_modified = get res.header (codes "Last-Modified");
  content_type = get res.header (codes "Content-Type");
  hits = 0;
  stored_at = 0;
  expires_at = now + pos_part ttl;
}

-- `maybeStoreImage`, at the request that was sent and the headers of the client's. The body that the client
-- gets is the same on every branch; a time to live is positive.
unfoldable maybe_store_image : Images → ℕ → Bytes → Headers → Target → Response → Images
unfolding image_ttl
maybe_store_image c now backend header sent res = elim (image_ttl c sent res) [
  | none ↦ c
  | some ttl ↦ if ltb_ℤ c.cfg.max_object res.content_length then c else elim res.body [
    | none ↦ c
    | some raw ↦
        if ltb_ℤ c.cfg.max_object (pos (length raw))
        then c
        else (put c now (image_key backend sent header) (image_entry now backend res raw ttl)).1
  ]
]

-- The response as the library cache reads it.
abbrev pub fetched : Response → Fetched
fetched res = record {
  status = res.status;
  header = res.header;
  content_type = get res.header (codes "Content-Type");
  content_length = res.content_length;
  body = res.body;
}

-- The two stores, in the order of the code.
unfoldable pub store_answer :
    Handler → ℕ → Bytes → Identifiers → Asked → Target → Response → Handler
unfolding maybe_store_image
store_answer h now backend id r sent res = record h {
  images = elim h.images [
    | none ↦ none
    | some c ↦ some (maybe_store_image c now backend r.inbound.header sent res)
  ];
  library = elim h.library [
    | none ↦ none
    | some c ↦ some (maybe_store_library c h.st now backend id sent (fetched res))
  ];
}

-- The token that a logout ends.
unfoldable pub end_session : Store → Identifiers → Target → ℕ → Store
end_session st id t status =
    if is_logout_path t.method t.path && (is_success status && not (is_empty id.token))
    then (delete_token st id.token).1
    else st

abbrev peek_limit : ℕ
peek_limit = 2 * 1024 * 1024

-- What `peekLogin` leaves of the response: the body as far as it was read, or none of it.
unfoldable peeked : Response → Response
peeked res = elim res.body [
  | none ↦ record res { body = some [] }
  | some raw ↦
      let seen = take peek_limit raw in
      record res { body = some seen; content_length = pos (length seen) }
]

unfoldable login_seen : (Bytes → Option LoginJson) → Response → Option LoginJson
login_seen parse res = elim res.body [ none ↦ none | some raw ↦ parse (take peek_limit raw) ]

module _ (u : Urls) (j : Json) (parse : Bytes → Option LoginJson) (now : ℕ) where
  -- ModifyResponse behind the rewriting. The cookie that it adds to the response comes beside the state.
  unfoldable pub settle_answer :
      Handler → Bytes → Identifiers → Asked → Target → Response → Cookie × Handler
  unfolding store_answer end_session
  settle_answer h backend id r sent res =
      let stored = store_answer h now backend id r sent res in
      let kept : Handler = record stored {
        library = elim stored.library [
          | none ↦ none
          | some c ↦ some (maybe_invalidate_library c h.st backend id r.target res.status)
        ];
      } in
      let ended = end_session h.st id r.target res.status in
      let mon : Monitor =
        if is_user_path sent.path && leb 500 res.status
        then record_auth_failure h.mon now backend
        else h.mon in
      (
        backend_cookie r.inbound backend h.cfg.affinity.device_ttl,
        record kept { st = touch ended now id sent res.status; mon = mon },
      )

  -- The answer to a login is looked into in front.
  unfoldable pub peek_answer : Handler → Bytes → Identifiers → Asked → Response → Response × Handler
  unfolding peeked login_seen
  peek_answer h backend id r res =
      if is_login_path r.target.method r.target.path && is_success res.status
      then (
        peeked res,
        record h { st = peek_login h.st now id r.client_ip backend (login_seen parse res) },
      )
      else (res, h)

  -- ModifyResponse from the rewriting on; none where that panics.
  unfoldable pub finish_answer :
      Handler
      → Bytes
      → Identifiers
      → Asked
      → Target
      → Response
      → Option (Response × Cookie × Handler)
  unfolding settle_answer
  finish_answer h backend id r sent res =
      elim (rewrite_proxied_response u j h.cfg res r.inbound r.target.method sent.path) [
        | none ↦ none
        | some out ↦
            let (cookie, h') = settle_answer h backend id r sent out in some (out, cookie, h')
      ]

  -- ModifyResponse, at the request that was sent.
  unfoldable pub modify_response :
      Handler
      → Bytes
      → Identifiers
      → Asked
      → Target
      → Response
      → Option (Response × Cookie × Handler)
  unfolding peek_answer finish_answer
  modify_response h backend id r sent res =
      let (seen, h1) = peek_answer h backend id r res in finish_answer h1 backend id r sent seen
