-- ===== src/Proxy/Warm.antt =====
-- The warming of the library cache after a login, of internal/proxy/proxy_perf.go. The network and the
-- parser of net/url are parameters: `fetch` is what the backend answers, or none where the request fails.
use hapudding.Base.{
  ℕ, ◌+◌, ◌-◌, ◌/◌, ◌%◌, List, [], ◌∷◌, ◌++◌, Bool, not, ◌&&◌, ◌||◌, Option, none, some, ltb, leb,
  ◌==◌, if◌then◌else◌, length,
}
use hapudding.Base.Int.{ℤ, pos, ltb_ℤ}
use hapudding.Text.{Bytes, codes, is_empty, to_lower, contains, trim_right_byte}
use hapudding.Config.{Performance, Backend, warm_login_enabled, library_enabled}
use hapudding.Config.Defaults.{seconds}
use hapudding.Store.Types.{Store}
use hapudding.Store.Tokens.{hash_token}
use hapudding.LibCache.Cache.{Cache, cache_key, put}
use hapudding.LibCache.Paths.{method_get}
use hapudding.Proxy.Library.{Fetched, entry_of}

is_unreserved : ℕ → Bool
is_unreserved c =
    (leb b'a' c && leb c b'z')
    || ((leb b'A' c && leb c b'Z')
        || ((leb b'0' c && leb c b'9')
            || ((c == b'-') || ((c == b'_') || ((c == b'.') || (c == b'~'))))))

hex_digit : ℕ → ℕ
hex_digit d = if ltb d 10 then b'0' + d else b'A' + (d - 10)

-- url.QueryEscape
unfoldable pub query_escape : Bytes → Bytes
unfolding is_unreserved hex_digit
query_escape [] = []
query_escape (c ∷ s) =
    let rest = query_escape s in
    if is_unreserved c
    then c ∷ rest
    else if c == b' '
    then b'+' ∷ rest
    else b'%' ∷ hex_digit (c / 16) ∷ hex_digit (c % 16) ∷ rest

-- The request that is sent, for GET and with no body; the host is none where it is that of the address.
pub record WarmRequest : Type 0 where
  pub url : Bytes
  pub authorization : Bytes
  pub host : Option Bytes
  pub timeout : ℤ

unfoldable pub warm_request : Backend → Bytes → Bytes → ℤ → WarmRequest
warm_request b token raw_url timeout = record {
  url = trim_right_byte b.url b'/' ++ raw_url;
  authorization = codes "MediaBrowser Token=\"" ++ (token ++ codes "\"");
  host = if is_empty b.host then none else some b.host;
  timeout = timeout;
}

abbrev pub warm_key : Store → Backend → Bytes → Bytes × Bytes → Bytes
warm_key st b token u = cache_key b.name (hash_token st token) method_get u.0 u.1

-- The guards of `warmOne` on an answer whose body could be read.
unfoldable pub may_warm : Cache → Fetched → Bytes → Bool
may_warm c res raw =
    (res.status == 200)
    && (not (ltb_ℤ c.cfg.max_object (pos (length raw)))
        && contains (to_lower res.content_type) (codes "json"))

unfoldable pub warm_paths : Bytes → List Bytes
warm_paths user_id =
    (codes "/Users/" ++ (user_id ++ codes "/Views"))
    ∷ (codes "/Users/" ++ (user_id ++ codes "/Items/Resume"))
    ∷ (codes "/Shows/NextUp?UserId=" ++ query_escape user_id)
    ∷ []

-- `fetch` is the client of the backend with its transport; `parse_url` gives a path and a query.
module _ (fetch : Backend → WarmRequest → Option Fetched)
    (parse_url : Bytes → Option (Bytes × Bytes)) (st : Store) (now : ℕ) (b : Backend)
    (token : Bytes) where
  unfoldable pub warm_one : ℤ → Cache → Bytes → Cache
  warm_one timeout c raw_url = elim (fetch b (warm_request b token raw_url timeout)) [
    | none ↦ c
    | some res ↦ elim res.body [
      | none ↦ c
      | some raw ↦
          if may_warm c res raw
          then elim (parse_url raw_url) [
            | none ↦ c
            | some u ↦ (put c now (warm_key st b token u) (entry_of c now b.name res raw)).1
          ]
          else c
    ]
  ]

  unfoldable pub warm_all : ℤ → Cache → List Bytes → Cache
  warm_all timeout c [] = c
  warm_all timeout c (p ∷ ps) = warm_all timeout (warm_one timeout c p) ps

  unfoldable pub warm_login : Performance → Cache → Bytes → Cache
  warm_login p c user_id =
      let timeout : ℤ = if ltb_ℤ (pos 0) p.auth_timeout then p.auth_timeout else seconds 60 in
      warm_all timeout c (warm_paths user_id)

  -- `scheduleWarmLogin`, with what it starts run to its end; a cache that is nil is none.
  unfoldable schedule_warm_login : Performance → Option Cache → Bytes → Option Cache
  schedule_warm_login p none user_id = none
  schedule_warm_login p (some c) user_id =
      if not (warm_login_enabled p && library_enabled p) || (is_empty token || is_empty user_id)
      then some c
      else some (warm_login p c user_id)
