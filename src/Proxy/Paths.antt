-- ===== src/Proxy/Paths.antt =====
-- The tests on paths of internal/proxy/proxy.go and `singleJoiningSlash`.
use hapudding.Base.{
  ℕ, suc, [], ◌∷◌, ◌++◌, Bool, not, ◌&&◌, ◌||◌, Option, none, some, ◌==◌, if◌then◌else◌,
}
use hapudding.Text.{
  Bytes, codes, is_empty, str_eq, to_lower, equal_fold, has_prefix, has_suffix, contains,
}
use hapudding.Config.{Backend}
use hapudding.Config.Guid.{is_guid}

unfoldable pub is_login_path : Bytes → Bytes → Bool
is_login_path method path =
    equal_fold method (codes "POST")
    && (has_suffix (to_lower path) (codes "/users/authenticatebyname")
        || (has_suffix (to_lower path) (codes "/users/authenticatewithquickconnect")
            || contains (to_lower path) (codes "/quickconnect/connect")))

unfoldable pub is_logout_path : Bytes → Bytes → Bool
is_logout_path method path =
    (equal_fold method (codes "POST") || equal_fold method (codes "DELETE"))
    && (has_suffix (to_lower path) (codes "/sessions/logout")
        || contains (to_lower path) (codes "/sessions/logout"))

unfoldable pub is_user_path : Bytes → Bool
is_user_path path =
    contains (to_lower path) (codes "/users/") || contains (to_lower path) (codes "/sessions/")

unfoldable pub is_status_path : Bytes → Bool
is_status_path path =
    has_prefix (to_lower path) (codes "/hap/") || str_eq (to_lower path) (codes "/metrics")

abbrev pub name_of : Option Backend → Bytes
name_of none = []
name_of (some b) = b.name

drop : ℕ → Bytes → Bytes
drop ℕ.zero s = s
drop (suc n) [] = []
drop (suc n) (c ∷ s) = drop n s

until_slash : Bytes → Bytes
until_slash [] = []
until_slash (c ∷ s) = if c == b'/' then [] else c ∷ until_slash s

unfoldable pub path_user_id : Bytes → Bytes
unfolding drop until_slash
path_user_id path =
    if has_prefix (to_lower path) (codes "/users/")
    then (let rest = until_slash (drop 7 path) in if is_guid rest then rest else [])
    else []

unfoldable pub single_joining_slash : Bytes → Bytes → Bytes
unfolding drop
single_joining_slash a b =
    let aslash = has_suffix a (codes "/") in
    let bslash = has_prefix b (codes "/") in
    if aslash && bslash
    then a ++ drop 1 b
    else if not aslash && not bslash
    then (if is_empty a then b else a ++ (codes "/" ++ b))
    else a ++ b
