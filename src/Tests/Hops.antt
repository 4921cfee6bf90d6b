-- ===== src/Tests/Hops.antt =====
-- Examples on what the proxy serves from the library cache.
use hapudding.Base.{◌∷◌, ◌≡◌, refl, [], true, some, inr, arith}
use hapudding.Base.Int.{negsuc}
use hapudding.Text.{
  codes, str_eq, to_lower, to_upper, lower_byte, upper_byte, equal_fold, contains, has_prefix,
  has_suffix,
}
use hapudding.Router.Types.{Identifiers}
use hapudding.Store.Tokens.{hash_token}
use hapudding.LibCache.Cache.{Entry, Cache, new, cache_key, get, put, get_at, count_hit}
use hapudding.LibCache.Paths.{is_library_request, is_library_path}
use hapudding.LibCache.Invariant.{new-IsValid, put-IsValid}
use hapudding.LibCache.Lookup.{held, served, kept_item}
use hapudding.LibCache.Tokens.{IsLine}
use hapudding.Lru.Defs.{
  store_item, evict, evict_loop, push_front, remove_key, remove_locked, move_to_front,
}
use hapudding.Lru.Elements.{value?, remove_el, back, set_value}
use hapudding.Proxy.Library.{
  Target, Fetched, library_key, serve_library_cached, entry_of, may_store, maybe_store_library,
}
use hapudding.Proxy.Isolation.{Gives, serve-maybe_store, serve-stored}
use hapudding.Tests.Data.{library_limits, no_rows, phone}

abbrev target : Target
target = record { method = codes "GET"; path = codes "/Users/u/Views"; raw_query = [] }

abbrev page : Fetched
page = record {
  status = 200;
  header = (codes "Set-Cookie", codes "a=b") ∷ (codes "Server", codes "x") ∷ [];
  content_type = codes "application/json";
  content_length = negsuc 0;
  body = some (codes "{}");
}

abbrev tablet : Identifiers
tablet = record phone { token = codes "u" }

allowed : may_store (new library_limits) phone target page ≡ true
unfolding may_store is_library_request is_library_path to_lower lower_byte equal_fold contains
    has_prefix has_suffix str_eq
allowed = refl

serve-stored_example :
    (ent : Entry) × ((serve_library_cached
        (maybe_store_library (new library_limits) no_rows 5 (codes "alpha") phone target page)
        no_rows
        6
        (codes "alpha")
        phone
        target).0
      ≡ some ent)
    × Gives (codes "alpha") page (codes "{}") ent
serve-stored_example =
    serve-stored (new library_limits) no_rows 5 6 (codes "alpha") phone target page (codes "{}")
      (new-IsValid library_limits) allowed refl refl refl (omega arith)

abbrev filled : Cache
filled =
    (put (new library_limits) 5 (library_key no_rows (codes "alpha") phone target)
      (entry_of (new library_limits) 5 (codes "alpha") page (codes "{}"))).1

abbrev answer : Entry
answer =
    (count_hit (
      kept_item (new library_limits) 5 (library_key no_rows (codes "alpha") phone target)
        (entry_of (new library_limits) 5 (codes "alpha") page (codes "{}")))).ent

answers :
    (serve_library_cached
      (maybe_store_library filled no_rows 6 (codes "alpha") tablet target page)
      no_rows
      7
      (codes "alpha")
      phone
      target).0
    ≡ some answer
unfolding serve_library_cached maybe_store_library may_store is_library_request is_library_path
    to_lower lower_byte to_upper upper_byte equal_fold contains has_prefix has_suffix str_eq
    hash_token cache_key get get_at put store_item evict evict_loop push_front remove_key
    remove_locked move_to_front value? remove_el back set_value
answers = refl

alpha-IsLine : IsLine (codes "alpha")
alpha-IsLine = (ground arith, (ground arith, (ground arith, (ground arith, (ground arith, tt)))))

t-IsLine : IsLine (codes "t")
t-IsLine = (ground arith, tt)

u-IsLine : IsLine (codes "u")
u-IsLine = (ground arith, tt)

serve-maybe_store_example :
    served 7 (held filled (library_key no_rows (codes "alpha") phone target)) ≡ some answer
unfolding hash_token
serve-maybe_store_example =
    serve-maybe_store filled no_rows 6 7 (codes "alpha") (codes "alpha") phone tablet target target
      page answer
      (put-IsValid (new library_limits) 5 (library_key no_rows (codes "alpha") phone target)
        (entry_of (new library_limits) 5 (codes "alpha") page (codes "{}"))
        (new-IsValid library_limits))
      alpha-IsLine t-IsLine alpha-IsLine u-IsLine (inr (ground arith)) answers
