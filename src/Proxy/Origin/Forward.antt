-- ===== src/Proxy/Origin/Forward.antt =====
-- `applyForwardedOrigin` of internal/proxy/origin.go: what a backend is told of the client's side.
use hapudding.Base.{Bool, ◌&&◌, not, none, some, if◌then◌else◌}
use hapudding.Text.{Bytes, codes, is_empty}
use hapudding.Config.{Backend}
use hapudding.Proxy.Headers.{Headers, get, set}
use hapudding.Proxy.Origin.Urls.{Urls, Incoming, InboundOrigin, inbound_origin_of}

-- What is changed of the request that goes out.
pub record Outgoing : Type 0 where
  pub header : Headers
  pub host : Bytes

-- if v != "" { h.Set(key, v) }
unfoldable set_if : Headers → Bytes → Bytes → Headers
set_if h key v = if is_empty v then h else set h key v

module _ (u : Urls) where
  unfoldable forwarded_headers : Headers → Incoming → InboundOrigin → Bool → Headers
  unfolding set_if
  forwarded_headers h in_request orig stay =
      let h1 =
        if stay
        then set_if
            (set_if (set_if h (codes "X-Forwarded-Host") orig.host) (codes "X-Forwarded-Proto")
              orig.proto)
            (codes "X-Forwarded-Port") orig.port
        else if is_empty (get h (codes "X-Forwarded-Proto"))
        then set h (codes "X-Forwarded-Proto") orig.proto
        else h in
      if is_empty (get h1 (codes "X-Forwarded-For"))
      then elim (u.split_host_port in_request.remote_addr) [
        | some (host, _) ↦ set h1 (codes "X-Forwarded-For") host
        | none ↦ h1
      ]
      else h1

  unfoldable outgoing_host : Bytes → InboundOrigin → Backend → Bool → Bytes
  outgoing_host host orig b stay =
      if not (is_empty b.host)
      then b.host
      else if stay && not (is_empty orig.host)
      then orig.host
      else elim (u.parse b.url) [ some v ↦ u.host v | none ↦ host ]

  -- At a request and a backend that are not nil, as at each of its calls.
  unfoldable pub apply_forwarded_origin : Outgoing → Incoming → Backend → Bool → Outgoing
  unfolding forwarded_headers outgoing_host
  apply_forwarded_origin req in_request b stay =
      let orig = inbound_origin_of u in_request in
      record {
        header = forwarded_headers req.header in_request orig stay;
        host = outgoing_host req.host orig b stay;
      }
