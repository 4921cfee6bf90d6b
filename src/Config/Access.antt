-- ===== src/Config/Access.antt =====
-- The accessors of internal/config/config.go.
use hapudding.Base.{List, [], ◌∷◌, Bool, true, false, ◌&&◌, Option, none, some, if◌then◌else◌}
use hapudding.Text.{Bytes, is_empty, trim_space, equal_fold}
use hapudding.Config.Types.{Config, Affinity, Performance, Health}

-- `b != nil && *b`
abbrev pub is_set : Option Bool → Bool
is_set none = false
is_set (some b) = b

-- `b == nil || *b`
abbrev unset_or : Option Bool → Bool
unset_or none = true
unset_or (some b) = b

abbrev pub stay_on_origin_enabled : Config → Bool
stay_on_origin_enabled c = is_set c.stay_on_origin.enabled

unfoldable pub rewrite_playlists_enabled : Config → Bool
rewrite_playlists_enabled c =
    if stay_on_origin_enabled c then unset_or c.stay_on_origin.rewrite_playlists else false

abbrev pub translate_server_id_enabled : Config → Bool
translate_server_id_enabled c = is_set c.translate.enabled

unfoldable pub translate_server_name : Config → Bytes
translate_server_name c = if translate_server_id_enabled c then trim_space c.translate.name else []

abbrev pub cache_enabled : Performance → Bool
cache_enabled p = is_set p.cache.enabled

abbrev pub cache_disk_enabled : Performance → Bool
cache_disk_enabled p = cache_enabled p && is_set p.cache.disk.enabled

abbrev pub library_enabled : Performance → Bool
library_enabled p = is_set p.library.enabled

abbrev pub coalesce_enabled : Performance → Bool
coalesce_enabled p = is_set p.coalesce.enabled

abbrev pub warm_login_enabled : Performance → Bool
warm_login_enabled p = is_set p.warm_login.enabled

abbrev pub library_concurrency_enabled : Performance → Bool
library_concurrency_enabled p = is_set p.library_concurrency.enabled

abbrev pub public_info_enabled : Health → Bool
public_info_enabled h = unset_or h.public_info

abbrev pub jellyfin_health_enabled : Health → Bool
jellyfin_health_enabled h = unset_or h.jellyfin_health

abbrev pub passive_enabled : Health → Bool
passive_enabled h = unset_or h.passive_auth_failures.enabled

-- The two loops of `PreferredBackend`, over the list and over one map.
unfoldable preferred_in : Bytes → List (Bytes × Bytes) → Option Bytes
preferred_in u [] = none
preferred_in u ((user, backend) ∷ m) =
    if equal_fold (trim_space user) u then some (trim_space backend) else preferred_in u m

unfoldable preferred_among : Bytes → List (List (Bytes × Bytes)) → Bytes
preferred_among u [] = []
preferred_among u (m ∷ ms) = elim (preferred_in u m) [ some b ↦ b | none ↦ preferred_among u ms ]

unfoldable pub preferred_backend : Affinity → Bytes → Bytes
unfolding preferred_in preferred_among
preferred_backend a username =
    let u = trim_space username in if is_empty u then [] else preferred_among u a.user_affinity

pub record UserAffinityEntry : Type 0 where
  pub username : Bytes
  pub backend : Bytes

unfoldable pub entries_of : List (Bytes × Bytes) → List UserAffinityEntry → List UserAffinityEntry
entries_of [] rest = rest
entries_of ((user, backend) ∷ m) rest =
    if is_empty (trim_space user)
    then entries_of m rest
    else record { username = trim_space user; backend = trim_space backend } ∷ entries_of m rest

unfoldable pub entries_among : List (List (Bytes × Bytes)) → List UserAffinityEntry
entries_among [] = []
entries_among (m ∷ ms) = entries_of m (entries_among ms)

unfoldable pub user_affinity_entries : Affinity → List UserAffinityEntry
unfolding entries_of entries_among
user_affinity_entries a = entries_among a.user_affinity
