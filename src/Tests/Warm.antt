-- ===== src/Tests/Warm.antt =====
-- A cache that is warmed for a user, and what it serves to that user and to another.
use hapudding.Base.{◌≡◌, ◌++◌, refl, [], true, Option, none, some, arith, inr, if◌then◌else◌}
use hapudding.Base.Int.{pos, negsuc}
use hapudding.Text.{
  Bytes, codes, str_eq, to_lower, lower_byte, to_upper, upper_byte, equal_fold, contains,
  has_prefix, has_suffix, trim_right_byte,
}
use hapudding.Config.{Backend}
use hapudding.Store.Tokens.{hash_token}
use hapudding.LibCache.Cache.{Entry, Cache, new, get, get_at, put, cache_key, count_hit}
use hapudding.LibCache.Paths.{method_get, is_library_request, is_library_path}
use hapudding.LibCache.Invariant.{new-IsValid, put-IsValid}
use hapudding.LibCache.Lookup.{held, served, kept_item}
use hapudding.LibCache.Tokens.{IsLine}
use hapudding.Lru.Defs.{
  store_item, evict, evict_loop, push_front, remove_key, remove_locked, move_to_front,
}
use hapudding.Lru.Elements.{value?, remove_el, back, set_value}
use hapudding.Proxy.Library.{Target, Fetched, library_key, serve_library_cached, entry_of}
use hapudding.Proxy.Isolation.{Gives}
use hapudding.Proxy.Warm.{
  WarmRequest, warm_request, may_warm, warm_one, warm_all, warm_paths, warm_login, query_escape,
}
use hapudding.Proxy.Warming.{serve-warm_login, serve-warm_one}
use hapudding.Tests.Data.{alpha, library_limits, no_rows, phone, two_backends}

abbrev fetched : Fetched
fetched = record {
  status = 200;
  header = [];
  content_type = codes "application/JSON";
  content_length = negsuc 0;
  body = some (codes "{}");
}

-- The page of resumed items is found, the others fail.
abbrev views : Bytes
views = codes "/Users/9/Views"

abbrev only_views : Backend → WarmRequest → Option Fetched
only_views b r = if str_eq r.url (codes "http://jellyfin" ++ views) then some fetched else none

abbrev as_path : Bytes → Option (Bytes × Bytes)
as_path s = some (s, [])

escaped : query_escape (codes "a b/9") ≡ codes "a+b%2F9"
unfolding query_escape
escaped = refl

is_library : is_library_request method_get views ≡ true
unfolding is_library_request is_library_path equal_fold to_lower lower_byte to_upper upper_byte
    contains has_prefix has_suffix str_eq
is_library = refl

answered : only_views alpha (warm_request alpha (codes "t") views (pos 5)) ≡ some fetched
unfolding warm_request trim_right_byte str_eq
answered = refl

may : may_warm (new library_limits) fetched (codes "{}") ≡ true
unfolding may_warm to_lower lower_byte contains has_prefix
may = refl

serve-warm_one_example :
    (ent : Entry) × ((serve_library_cached
        (warm_one only_views as_path no_rows 5 alpha (codes "t") (pos 5) (new library_limits) views)
        no_rows
        6
        (codes "alpha")
        phone
        (record { method = method_get; path = views; raw_query = [] })).0
      ≡ some ent)
    × Gives (codes "alpha") fetched (codes "{}") ent
serve-warm_one_example =
    serve-warm_one only_views as_path no_rows 5 alpha (pos 5) (new library_limits) views 6 phone
      (views, []) fetched (codes "{}") (new-IsValid library_limits) refl is_library refl answered
      refl may refl refl (omega arith)

abbrev asked : Target
asked = record { method = method_get; path = views; raw_query = [] }

abbrev stored : Cache
stored =
    (put (new library_limits) 5 (library_key no_rows (codes "alpha") phone asked)
      (entry_of (new library_limits) 5 (codes "alpha") fetched (codes "{}"))).1

abbrev seen : Entry
seen =
    (count_hit (
      kept_item (new library_limits) 5 (library_key no_rows (codes "alpha") phone asked)
        (entry_of (new library_limits) 5 (codes "alpha") fetched (codes "{}")))).ent

-- The other user is warmed too.
abbrev warmed : Cache
warmed =
    warm_login only_views as_path no_rows 6 alpha (codes "u") two_backends.performance stored
      (codes "9")

served_after : (serve_library_cached warmed no_rows 7 (codes "alpha") phone asked).0 ≡ some seen
unfolding serve_library_cached warm_login warm_paths warm_all warm_one warm_request may_warm
    query_escape trim_right_byte is_library_request is_library_path to_lower lower_byte to_upper
    upper_byte equal_fold contains has_prefix has_suffix str_eq hash_token cache_key get get_at put
    store_item evict evict_loop push_front remove_key remove_locked move_to_front value? remove_el
    back set_value
served_after = refl

alpha-IsLine : IsLine (codes "alpha")
alpha-IsLine = (ground arith, (ground arith, (ground arith, (ground arith, (ground arith, tt)))))

t-IsLine : IsLine (codes "t")
t-IsLine = (ground arith, tt)

u-IsLine : IsLine (codes "u")
u-IsLine = (ground arith, tt)

serve-warm_login_example :
    served 7 (held stored (library_key no_rows (codes "alpha") phone asked)) ≡ some seen
unfolding hash_token
serve-warm_login_example =
    serve-warm_login only_views as_path no_rows 6 alpha (codes "u") two_backends.performance stored
      (codes "9") 7 (codes "alpha") phone asked seen
      (put-IsValid (new library_limits) 5 (library_key no_rows (codes "alpha") phone asked)
        (entry_of (new library_limits) 5 (codes "alpha") fetched (codes "{}"))
        (new-IsValid library_limits))
      alpha-IsLine u-IsLine alpha-IsLine t-IsLine (inr (ground arith)) served_after
