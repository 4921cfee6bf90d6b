-- ===== src/Proxy/Origin/Urls.antt =====
-- The URLs of internal/proxy/origin.go, over what it uses of packages net and net/url.
use hapudding.Base.{[], ◌∷◌, Bool, not, ◌||◌, Option, none, some, if◌then◌else◌, ◌++◌, map}
use hapudding.Text.{Bytes, codes, is_empty, trim_space, cut, str_eq}
use hapudding.Proxy.Headers.{Headers, get, values, del, add_each}

-- `with_origin in u` is u with the scheme and the host of `in`; `split_host_port` fails where there is no port.
pub record Urls : Type 1 where
  pub Url : Type 0
  pub parse : Bytes → Option Url
  pub print : Url → Bytes
  pub is_abs : Url → Bool
  pub scheme : Url → Bytes
  pub host : Url → Bytes
  pub with_origin : Url → Url → Url
  pub split_host_port : Bytes → Option (Bytes × Bytes)

-- What is read of the request that came in: http.Request with `TLS` as `is_tls`.
pub record Incoming : Type 0 where
  pub header : Headers
  pub host : Bytes
  pub is_tls : Bool
  pub remote_addr : Bytes

pub record InboundOrigin : Type 0 where
  pub host : Bytes
  pub proto : Bytes
  pub port : Bytes

-- String
unfoldable pub origin_string : InboundOrigin → Bytes
origin_string o =
    if is_empty o.host
    then []
    else (if is_empty o.proto then codes "http" else o.proto) ++ (codes "://" ++ o.host)

-- strings.TrimSpace(s[:i]) in front of the first comma, or the whole
unfoldable first_csv : Bytes → Bytes
first_csv s =
    let t = trim_space s in
    if is_empty t
    then []
    else let (front, _, found) = cut t b',' in if found then trim_space front else t

module _ (u : Urls) where
  unfoldable pub inbound_origin_of : Incoming → InboundOrigin
  unfolding first_csv
  inbound_origin_of r =
      let forwarded_host = first_csv (get r.header (codes "X-Forwarded-Host")) in
      let host = if is_empty forwarded_host then r.host else forwarded_host in
      let forwarded_proto = first_csv (get r.header (codes "X-Forwarded-Proto")) in
      let proto =
        if is_empty forwarded_proto
        then (if r.is_tls then codes "https" else codes "http")
        else forwarded_proto in
      let forwarded_port = first_csv (get r.header (codes "X-Forwarded-Port")) in
      let own_port : Bytes = elim (u.split_host_port host) [
        | some (_, p) ↦ p
        | none ↦ if str_eq proto (codes "https") then codes "443" else codes "80"
      ] in
      record {
        host = host;
        proto = proto;
        port = if is_empty forwarded_port then own_port else forwarded_port;
      }

  unfoldable pub rewrite_any_abs_url : Bytes → Bytes → Bytes
  rewrite_any_abs_url raw inbound =
      let t = trim_space raw in
      if is_empty t || is_empty inbound then t else elim (u.parse t) [
        | none ↦ t
        | some v ↦ if not (u.is_abs v) || is_empty (u.host v) then t else elim (u.parse inbound) [
          | none ↦ t
          | some in_url ↦ if is_empty (u.host in_url) then t else u.print (u.with_origin in_url v)
        ]
      ]

  -- One round of the loop of `rewriteLocationHeaders`.
  unfoldable pub rewrite_header : Bytes → Headers → Bytes → Headers
  unfolding rewrite_any_abs_url
  rewrite_header inbound h name = elim (values h name) [
    | [] ↦ h
    | v ∷ vs ↦ add_each (del h name) name (map (λ s. rewrite_any_abs_url s inbound) (v ∷ vs))
  ]

  unfoldable pub rewrite_location_headers : Headers → Bytes → Headers
  unfolding rewrite_header
  rewrite_location_headers h inbound =
      if is_empty inbound
      then h
      else rewrite_header inbound (rewrite_header inbound h (codes "Location"))
          (codes "Content-Location")
