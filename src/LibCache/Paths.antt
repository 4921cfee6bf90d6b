-- ===== src/LibCache/Paths.antt =====
-- Which requests internal/libcache/cache.go caches and which ones invalidate.
use hapudding.Base.{Bool, false, ◌&&◌, ◌||◌, not, if◌then◌else◌}
use hapudding.Text.{Bytes, codes, str_eq, to_lower, to_upper, equal_fold, contains, has_suffix}

abbrev pub method_get : Bytes
method_get = codes "GET"

abbrev pub method_head : Bytes
method_head = codes "HEAD"

unfoldable pub is_library_path : Bytes → Bool
is_library_path path =
    let p = to_lower path in
    contains p (codes "/items/resume")
    || (contains p (codes "/shows/nextup")
        || (contains p (codes "/items/latest")
            || (contains p (codes "/users/") && has_suffix p (codes "/views"))))

unfoldable pub is_library_request : Bytes → Bytes → Bool
is_library_request method path =
    if not (equal_fold method method_get) && not (equal_fold method method_head)
    then false
    else is_library_path path

unfoldable is_mutation : Bytes → Bool
is_mutation m = str_eq m (codes "POST") || (str_eq m (codes "DELETE") || str_eq m (codes "PUT"))

unfoldable pub is_invalidate_request : Bytes → Bytes → Bool
unfolding is_mutation
is_invalidate_request method path =
    if is_mutation (to_upper method)
    then (let p = to_lower path in
        contains p (codes "/sessions/playing")
        || (contains p (codes "/playeditems")
            || (contains p (codes "/favoriteitems")
                || (contains p (codes "/userdata") || contains p (codes "/rating")))))
    else false
