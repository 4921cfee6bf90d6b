-- ===== src/Proxy/Hop/Send.antt =====
-- The requests that internal/proxy sends: by the Director of the reverse proxy, for a login, and for requests
-- that are coalesced.
use hapudding.Base.{
  ℕ, ◌++◌, List, [], ◌∷◌, Bool, true, false, ◌||◌, not, Option, none, some, if◌then◌else◌,
}
use hapudding.Text.{Bytes, codes, is_empty, trim_space, contains, to_lower, trim_right_byte}
use hapudding.Config.{Config, Backend, preferred_backend}
use hapudding.Store.Types.{kind_token, no_kind, kind_device, kind_anon}
use hapudding.Router.Types.{Decision}
use hapudding.Proxy.Headers.{Headers, get, set, del, set_each, del_each, itoa}
use hapudding.Proxy.Paths.{single_joining_slash, name_of}
use hapudding.Proxy.Library.{Target}
use hapudding.Proxy.Origin.Urls.{Urls, Incoming}
use hapudding.Proxy.Origin.Forward.{Outgoing, apply_forwarded_origin}

unfoldable login_hop_headers : List Bytes
login_hop_headers =
    codes "Connection"
    ∷ codes "Keep-Alive"
    ∷ codes "Proxy-Authenticate"
    ∷ codes "Proxy-Authorization"
    ∷ codes "Proxy-Connection"
    ∷ codes "Te"
    ∷ codes "Trailer"
    ∷ codes "Transfer-Encoding"
    ∷ codes "Upgrade"
    ∷ []

-- Of the headers; the body is sent with its length and no transfer coding.
unfoldable sanitize_login_hop_headers : Headers → ℕ → Headers
unfolding login_hop_headers
sanitize_login_hop_headers h body_len =
    set (del_each (del h (codes "Expect")) login_hop_headers) (codes "Content-Length")
      (itoa body_len)

-- The headers of the configuration, and Connection for a client that is gray-listed.
unfoldable with_backend_headers : Headers → Backend → Bool → Headers
with_backend_headers h b graylisted =
    let h1 = set_each h b.headers in
    if graylisted then set h1 (codes "Connection") (codes "close") else h1

module _ (u : Urls) where
  -- What the Director, or Rewrite, does to the headers and the host of the request that goes out.
  unfoldable direct : Outgoing → Incoming → Backend → Bool → Bool → Outgoing
  unfolding with_backend_headers
  direct req in_request b stay graylisted =
      let out = apply_forwarded_origin u req in_request b stay in
      record out { header = del (with_backend_headers out.header b graylisted) (codes "Expect") }

  -- The headers and the host of `loginHop`.
  unfoldable login_request : Outgoing → Incoming → Backend → Bool → Bool → ℕ → Outgoing
  unfolding sanitize_login_hop_headers with_backend_headers
  login_request req in_request b stay graylisted body_len =
      let clean : Outgoing = record req {
        header = sanitize_login_hop_headers in_request.header body_len;
      } in
      let out = apply_forwarded_origin u clean in_request b stay in
      record out { header = with_backend_headers out.header b graylisted }

  -- The headers and the host of `hopOnce`.
  unfoldable hop_request : Outgoing → Incoming → Backend → Bool → Bool → Outgoing
  unfolding with_backend_headers
  hop_request req in_request b stay graylisted =
      let clean : Outgoing = record req { header = del in_request.header (codes "Expect") } in
      let out = apply_forwarded_origin u clean in_request b stay in
      record out { header = with_backend_headers out.header b graylisted }

-- The URL of the request, joined by the Director to the path and the query of the backend's.
unfoldable directed : Bytes → Bytes → Target → Target
directed target_path target_query t = record t {
  path = single_joining_slash (trim_right_byte target_path b'/') t.path;
  raw_query =
      if is_empty target_query || is_empty t.raw_query
      then target_query ++ t.raw_query
      else target_query ++ (b'&' ∷ t.raw_query);
}

-- `loginPreferred`, at the username that is read of the body.
unfoldable login_preferred : Config → Decision → Bytes → Bytes
login_preferred cfg d username =
    let preferred = name_of d.backend in
    let want = preferred_backend cfg.affinity username in
    let configured = if is_empty want then preferred else want in
    elim d.kind [
      | kind_token ↦ preferred
      | no_kind ↦ configured
      | kind_device ↦ configured
      | kind_anon ↦ configured
    ]

-- `loginUsername`, at what json.Unmarshal finds.
unfoldable login_username : Option Bytes → Bytes
login_username none = []
login_username (some name) = trim_space name

-- `acceptExpectContinue`: the headers and whether the body, of the length if it can be read, was read.
unfoldable accept_expect_continue : Headers → Option (Option ℕ) → Bool × Headers
accept_expect_continue h body =
    if not (contains (to_lower (get h (codes "Expect"))) (codes "100-continue"))
    then (true, h)
    else let h1 = del h (codes "Expect") in
      elim body [
        | none ↦ (true, h1)
        | some none ↦ (false, h1)
        | some (some n) ↦ (true, set h1 (codes "Content-Length") (itoa n))
      ]
