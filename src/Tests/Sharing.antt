-- ===== src/Tests/Sharing.antt =====
-- Examples on hops: a logout, the slots, and requests that share one.
use hapudding.Base.{
  ◌≡◌, ◌≢◌, refl, List, [], ◌∷◌, Bool, true, false, Option, none, some, arith, map, take,
}
use hapudding.Base.Int.{ℤ, pos}
use hapudding.Text.{
  Bytes, codes, str_eq, to_lower, to_upper, lower_byte, upper_byte, equal_fold, contains,
  has_prefix, has_suffix,
}
use hapudding.Config.{Backend}
use hapudding.Store.Types.{ok}
use hapudding.Store.Tokens.{hash_token, lookup_token}
use hapudding.Router.Types.{Identifiers}
use hapudding.LibCache.Cache.{new}
use hapudding.LibCache.Paths.{is_library_request, is_library_path}
use hapudding.LibCache.Tokens.{IsLine}
use hapudding.Proxy.Paths.{is_login_path, is_logout_path}
use hapudding.Proxy.LibSem.{new_lib_sem, acquire, release}
use hapudding.Proxy.Login.{LoginJson}
use hapudding.Proxy.Origin.Response.{Response, rewrite_proxied_response}
use hapudding.Proxy.Hop.State.{Handler, Asked, Written, Cookie, skip_cached_header}
use hapudding.Proxy.Hop.Cached.{kept_headers}
use hapudding.Proxy.Hop.Modify.{
  store_answer, settle_answer, peek_answer, finish_answer, modify_response,
}
use hapudding.Proxy.Hop.Coalesced.{
  serves, coalesce_read_limit, acquire_library, release_library, hop_once, buffer_hop, land, fly,
  write_hop, write_each, write_result, proxy_coalesced, proxy,
}
use hapudding.Proxy.Hop.Logout.{LogsOut, modify_response-LogsOut}
use hapudding.Proxy.Hop.Slots.{slots, proxy-slots}
use hapudding.Proxy.Hop.Shared.{coalesce_key-same, shared_answer, proxy_coalesced-answers}
use hapudding.Tests.Data.{two_backends, no_rows, all_healthy, phone, alpha, row_of, library_limits}
use hapudding.Tests.Origins.{at_urls, null_json, from_hap}

abbrev handler : Handler
handler = record {
  cfg = two_backends;
  st = record no_rows { tokens = row_of (codes "t") (codes "alpha") (codes "ann") ∷ [] };
  mon = all_healthy;
  images = none;
  library = some (new library_limits);
  sem = some (new_lib_sem 2);
  solo = 0;
  shared = 0;
}

abbrev asks : Bytes → Bytes → Asked
asks method path = record {
  target = record { method = method; path = path; raw_query = [] };
  inbound = from_hap;
  client_ip = codes "::1";
}

abbrev logout : Asked
logout = asks (codes "POST") (codes "/Sessions/Logout")

abbrev granted : Response
granted = record { status = 204; header = []; content_length = pos 0; body = some [] }

abbrev no_login : Bytes → Option LoginJson
no_login _ = none

logs_out : LogsOut logout phone
unfolding is_logout_path is_login_path equal_fold to_lower lower_byte contains has_prefix has_suffix
    str_eq
logs_out = (refl, refl, refl)

abbrev settled : Cookie × Handler
settled =
    settle_answer at_urls null_json no_login 5 handler (codes "alpha") phone logout logout.target
      granted

passed :
    modify_response at_urls null_json no_login 5 handler
      (codes "alpha")
      phone
      logout
      logout.target
      granted
    ≡ some (granted, settled.0, settled.1)
unfolding modify_response peek_answer finish_answer rewrite_proxied_response is_login_path
    equal_fold to_lower lower_byte contains has_prefix has_suffix str_eq
passed = refl

modify_response-LogsOut_example :
    (lookup_token settled.1.st 6 (codes "t")).0
    ≢ ok (some (row_of (codes "t") (codes "alpha") (codes "ann")))
modify_response-LogsOut_example =
    modify_response-LogsOut at_urls null_json no_login 5 handler settled.1 (codes "alpha") phone
      logout logout.target granted granted settled.0 6
      (row_of (codes "t") (codes "alpha") (codes "ann")) logs_out refl refl passed

abbrev page : Asked
page = asks (codes "GET") (codes "/Users/u/Views")

abbrev answer : Response
answer = record {
  status = 200;
  header = (codes "Content-Type", codes "application/json") ∷ [];
  content_length = pos 9;
  body = some (codes "{\"a\":123}");
}

abbrev sends : Backend → Asked → Bool → Option Response
sends _ _ _ = some answer

abbrev no_time : Bytes → Option ℤ
no_time _ = none

proxy-slots_example :
    slots
      (proxy at_urls null_json sends no_time no_login 5 handler alpha phone page page.target
        false).1.sem
      (codes "alpha")
    ≡ slots handler.sem (codes "alpha")
proxy-slots_example =
    proxy-slots at_urls null_json sends no_time no_login 5 handler alpha phone page page.target
      false (codes "alpha")

abbrev calls : List (Identifiers × Asked)
calls = (phone, page) ∷ (phone, asks (codes "GET") (codes "/Users/u/Views")) ∷ []

-- The answer has nine bytes, of which a limit of six lets seven through.
abbrev writes : List Written
writes =
    map (shared_answer at_urls null_json sends 5 handler (codes "alpha") answer (codes "{\"a\":12"))
      calls

flown :
    (proxy_coalesced at_urls null_json sends 5 handler alpha page.target false
      (phone, page)
      ((phone, asks (codes "GET") (codes "/Users/u/Views")) ∷ [])).0
    ≡ serves writes
unfolding proxy_coalesced fly write_result write_each write_hop land buffer_hop hop_once
    acquire_library release_library acquire release coalesce_read_limit is_library_request
    is_library_path rewrite_proxied_response store_answer equal_fold to_lower lower_byte to_upper
    upper_byte contains has_prefix has_suffix str_eq kept_headers skip_cached_header
flown = refl

proxy_coalesced-answers_example :
    (reply : Response) × (raw : Bytes) × (hop_once at_urls null_json sends 5 two_backends alpha page
        page.target false
      ≡ serves reply)
    × (reply.body ≡ some raw)
    × (writes
        ≡ map
            (shared_answer at_urls null_json sends 5 handler
              (codes "alpha")
              reply
              (take (coalesce_read_limit handler page.target) raw))
            calls)
proxy_coalesced-answers_example =
    proxy_coalesced-answers at_urls null_json sends 5 handler alpha page.target false (phone, page)
      ((phone, asks (codes "GET") (codes "/Users/u/Views")) ∷ []) writes flown

alpha-IsLine : IsLine (codes "alpha")
alpha-IsLine = (ground arith, (ground arith, (ground arith, (ground arith, (ground arith, tt)))))

token-IsLine : IsLine (hash_token no_rows (codes "t"))
unfolding hash_token
token-IsLine = (ground arith, tt)

is_library : is_library_request (codes "GET") (codes "/Users/u/Views") ≡ true
unfolding is_library_request is_library_path equal_fold to_lower lower_byte to_upper upper_byte
    contains has_prefix has_suffix str_eq
is_library = refl

coalesce_key-same_example :
    (codes "alpha" ≡ codes "alpha")
    × (hash_token no_rows (codes "t") ≡ hash_token no_rows (codes "t"))
coalesce_key-same_example =
    coalesce_key-same no_rows (codes "alpha") (codes "alpha") phone phone page page alpha-IsLine
      token-IsLine alpha-IsLine token-IsLine is_library is_library refl
