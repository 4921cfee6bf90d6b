-- ===== src/Proxy/Origin/Response.antt =====
-- `bufferAndRewrite` and `rewriteProxiedResponse` of internal/proxy/origin.go.
use hapudding.Base.{ℕ, ◌*◌, [], not, ◌&&◌, Option, none, some, ◌==◌, ltb, if◌then◌else◌, length}
use hapudding.Base.Int.{ℤ, pos}
use hapudding.Text.{Bytes, codes, is_empty, str_eq, to_lower, contains}
use hapudding.Config.{
  Config, stay_on_origin_enabled, translate_server_id_enabled, rewrite_playlists_enabled,
  translate_server_name,
}
use hapudding.Proxy.Headers.{Headers, get, set, del, itoa}
use hapudding.Proxy.Origin.Urls.{
  Urls, Incoming, origin_string, inbound_origin_of, rewrite_location_headers,
}
use hapudding.Proxy.Origin.Playlist.{is_playlist, rewrite_playlist_body}
use hapudding.Proxy.Origin.SystemInfo.{Json, is_system_info_path, rewrite_system_info}

-- http.Response; the body is none where its reader fails.
pub record Response : Type 0 where
  pub status : ℕ
  pub header : Headers
  pub content_length : ℤ
  pub body : Option Bytes

-- The response with the body in place of its own.
unfoldable pub with_body : Response → Bytes → Response
with_body res out = record res {
  header =
      del (set res.header (codes "Content-Length") (itoa (length out))) (codes "Transfer-Encoding");
  content_length = pos (length out);
  body = some out;
}

-- `bufferAndRewrite`; none where `fn` panics. A body that is too long is passed on as it is.
unfoldable pub buffer_and_rewrite : Response → ℕ → (Bytes → Option Bytes) → Option Response
unfolding with_body
buffer_and_rewrite res max fn = elim res.body [
  | none ↦ some res
  | some raw ↦
      if ltb max (length raw)
      then some res
      else elim (fn raw) [ none ↦ none | some out ↦ some (with_body res out) ]
]

abbrev pub playlist_limit : ℕ
playlist_limit = 8 * 1024 * 1024

abbrev pub info_limit : ℕ
info_limit = 1024 * 1024

module _ (u : Urls) (j : Json) (cfg : Config) where
  -- What is done behind the location headers; `path` is that of the request that was sent.
  unfoldable pub rewrite_bodies : Response → Bytes → Bytes → Bytes → Option Response
  unfolding buffer_and_rewrite
  rewrite_bodies res method path inbound =
      let stay = stay_on_origin_enabled cfg in
      let xlate = translate_server_id_enabled cfg in
      let ct = get res.header (codes "Content-Type") in
      if stay && (rewrite_playlists_enabled cfg && is_playlist path ct)
      then buffer_and_rewrite res playlist_limit
          (λ body. some (rewrite_playlist_body u inbound body))
      else if str_eq method (codes "GET") && (is_system_info_path path && res.status == 200)
      then (if not (is_empty (to_lower ct)) && not (contains (to_lower ct) (codes "json"))
          then some res
          else buffer_and_rewrite res info_limit (
              rewrite_system_info u j inbound (if xlate then cfg.translate.id else [])
                (if xlate then translate_server_name cfg else []) stay))
      else some res

  -- At the request that came in and its method, and the path of the one that was sent; none where the
  -- code panics.
  unfoldable pub rewrite_proxied_response : Response → Incoming → Bytes → Bytes → Option Response
  unfolding rewrite_bodies
  rewrite_proxied_response res r method path =
      let stay = stay_on_origin_enabled cfg in
      let inbound = origin_string (inbound_origin_of u r) in
      if not stay && not (translate_server_id_enabled cfg)
      then some res
      else rewrite_bodies
          (if stay
            then record res { header = rewrite_location_headers u res.header inbound }
            else res)
          method path inbound
