-- ===== src/Config/Graylist.antt =====
-- Graylist of internal/config/config.go: which clients and paths are gray-listed.
use hapudding.Base.{List, [], ◌∷◌, ◌++◌, Bool, true, false, ◌&&◌, not, none, some, if◌then◌else◌}
use hapudding.Text.{Bytes, codes, is_empty, to_lower, equal_fold, contains, has_prefix}
use hapudding.Config.Types.{Graylist}

abbrev infuse : Bytes
infuse = codes "Infuse"

abbrev infuse_sync : Bytes
infuse_sync = codes "/InfuseSync"

unfoldable pub client_names : Graylist → List Bytes
client_names g = elim g.clients [ none ↦ infuse ∷ [] | some names ↦ names ]

unfoldable pub names_infuse : List Bytes → Bool
names_infuse [] = false
names_infuse (name ∷ names) = if equal_fold name infuse then true else names_infuse names

unfoldable pub match_paths : Graylist → List Bytes
unfolding client_names names_infuse
match_paths g =
    if names_infuse (client_names g) then g.path_prefixes ++ infuse_sync ∷ [] else g.path_prefixes

unfoldable pub any_contained : Bytes → List Bytes → Bool
any_contained cl [] = false
any_contained cl (name ∷ names) =
    if not (is_empty name) && contains cl (to_lower name) then true else any_contained cl names

unfoldable pub matches_client : Graylist → Bytes → Bool
unfolding client_names any_contained
matches_client g client =
    if is_empty client then false else any_contained (to_lower client) (client_names g)

unfoldable pub any_prefix : Bytes → List Bytes → Bool
any_prefix p [] = false
any_prefix p (prefix ∷ prefixes) =
    if not (is_empty prefix) && has_prefix p (to_lower prefix) then true else any_prefix p prefixes

unfoldable pub matches_path : Graylist → Bytes → Bool
unfolding match_paths any_prefix
matches_path g path = if is_empty path then false else any_prefix (to_lower path) (match_paths g)
