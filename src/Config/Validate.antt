-- ===== src/Config/Validate.antt =====
-- `validate` and `Load` of internal/config/config.go.
use hapudding.Base.{
  List, [], ◌∷◌, Bool, true, false, not, ◌&&◌, ◌||◌, Option, none, some, if◌then◌else◌,
}
use hapudding.Base.Int.{ℤ, pos, ltb_ℤ}
use hapudding.Text.{Bytes, codes, is_empty, str_eq, to_lower, trim_space}
use hapudding.Config.Types.{Config, Backend, Affinity, Performance}
use hapudding.Config.Access.{
  UserAffinityEntry, user_affinity_entries, cache_enabled, cache_disk_enabled, library_enabled,
  library_concurrency_enabled, translate_server_id_enabled,
}
use hapudding.Config.Guid.{is_guid}
use hapudding.Config.Defaults.{apply_defaults}
use hapudding.Config.Env.{apply_env}

-- The errors, in the order of the tests.
pub data ConfigError : Type 0 where
  no_backends unknown_policy unknown_new_clients_require unknown_graylist_policy unknown_store
        no_postgres_url :
      ConfigError
  cache_max_bytes cache_max_object no_disk_path disk_max_bytes disk_max_object : ConfigError
  library_max_bytes library_max_object library_concurrency_max : ConfigError
  server_id_not_uuid bad_user_affinity duplicate_username unknown_backend : ConfigError
  no_name_or_url duplicate_backend reserved_header : ConfigError
  unreadable : ConfigError

pub data Validated {ℓ} (A : Type ℓ) : Type ℓ where
  valid : A → Validated A
  invalid : ConfigError → Validated A

abbrev pub is_known_policy : Bytes → Bool
is_known_policy p =
    str_eq p (codes "force_reauth")
    || (str_eq p (codes "fail_closed") || str_eq p (codes "pin_unhealthy"))

abbrev pub is_known_requirement : Bytes → Bool
is_known_requirement s = str_eq s (codes "healthy") || str_eq s (codes "healthy_or_degraded")

abbrev pub is_known_store : Bytes → Bool
is_known_store s = str_eq s (codes "sqlite") || str_eq s (codes "postgres")

abbrev is_reserved : Bytes → Bool
is_reserved h =
    str_eq h (codes "authorization")
    || (str_eq h (codes "x-emby-authorization")
        || (str_eq h (codes "x-emby-token") || str_eq h (codes "x-mediabrowser-token")))

unfoldable pub check_affinity : Affinity → Option ConfigError
check_affinity a =
    if not (is_known_policy a.policy)
    then some unknown_policy
    else if not (is_known_requirement a.new_clients_require)
    then some unknown_new_clients_require
    else if not (is_known_policy a.graylist.policy)
    then some unknown_graylist_policy
    else if not (is_known_store a.store)
    then some unknown_store
    else if str_eq a.store (codes "postgres") && is_empty a.postgres_url
    then some no_postgres_url
    else none

-- a <= 0
abbrev pub not_positive : ℤ → Bool
not_positive n = not (ltb_ℤ (pos 0) n)

-- A row of `if … { return errors.New(…) }`.
unfoldable pub first_error : List (Bool × ConfigError) → Option ConfigError
first_error [] = none
first_error (t ∷ ts) = if t.0 then some t.1 else first_error ts

abbrev pub performance_tests : Performance → List (Bool × ConfigError)
performance_tests p =
    (cache_enabled p && not_positive p.cache.max_bytes, cache_max_bytes)
    ∷ (ltb_ℤ p.cache.max_bytes p.cache.max_object, cache_max_object)
    ∷ (cache_disk_enabled p && is_empty p.cache.disk.path, no_disk_path)
    ∷ (cache_disk_enabled p && not_positive p.cache.disk.max_bytes, disk_max_bytes)
    ∷ (cache_disk_enabled p && ltb_ℤ p.cache.disk.max_bytes p.cache.max_object, disk_max_object)
    ∷ (library_enabled p && not_positive p.library.max_bytes, library_max_bytes)
    ∷ (
      ltb_ℤ p.library.max_bytes p.library.max_object && ltb_ℤ (pos 0) p.library.max_bytes,
      library_max_object,
    )
    ∷ (
      library_concurrency_enabled p && ltb_ℤ p.library_concurrency.max (pos 1),
      library_concurrency_max,
    )
    ∷ []

unfoldable pub check_performance : Performance → Option ConfigError
check_performance p = first_error (performance_tests p)

-- The map `seen` as the list of its keys.
unfoldable pub is_in : Bytes → List Bytes → Bool
is_in k [] = false
is_in k (j ∷ js) = str_eq j k || is_in k js

unfoldable pub has_name : Bytes → List Backend → Bool
has_name name [] = false
has_name name (b ∷ bs) = str_eq b.name name || has_name name bs

unfoldable pub check_users : List Backend → List Bytes → List UserAffinityEntry → Option ConfigError
check_users bs seen [] = none
check_users bs seen (e ∷ es) =
    let rest = check_users bs (to_lower e.username ∷ seen) es in
    if is_empty e.username || is_empty e.backend
    then some bad_user_affinity
    else if is_in (to_lower e.username) seen
    then some duplicate_username
    else if has_name e.backend bs
    then rest
    else some unknown_backend

unfoldable pub has_reserved : List (Bytes × Bytes) → Bool
has_reserved [] = false
has_reserved (h ∷ hs) = is_reserved (to_lower h.0) || has_reserved hs

unfoldable pub check_backends : List Bytes → List Backend → Option ConfigError
check_backends seen [] = none
check_backends seen (b ∷ bs) =
    let rest = check_backends (b.name ∷ seen) bs in
    if is_empty b.name || is_empty b.url
    then some no_name_or_url
    else if is_in b.name seen
    then some duplicate_backend
    else if has_reserved b.headers
    then some reserved_header
    else rest

abbrev pub is_none_list : List Backend → Bool
is_none_list [] = true
is_none_list (b ∷ bs) = false

-- if err := …; err != nil { return err }, and the code behind
abbrev pub unless : {A : Type 0} → Option ConfigError → Validated A → Validated A
unless (some e) rest = invalid e
unless none rest = rest

abbrev pub trimmed : Config → Config
trimmed c =
    if translate_server_id_enabled c
    then record c {
      translate = record (c.translate) {
        id = trim_space c.translate.id;
        name = trim_space c.translate.name;
      };
    }
    else c

-- The configuration that `validate` leaves behind its pointer, or the error.
unfoldable pub validate : Config → Validated Config
validate c = unless (if is_none_list c.backends then some no_backends else none) (
    unless (check_affinity c.affinity) (
      unless (check_performance c.performance) (
        unless
          (if translate_server_id_enabled c && not (is_guid (trim_space c.translate.id))
            then some server_id_not_uuid
            else none)
          (unless (check_users c.backends [] (user_affinity_entries c.affinity))
            (unless (check_backends [] c.backends) (valid (trimmed c)))))))

-- `Load`, at what os.ReadFile and yaml.Unmarshal make of the file.
unfoldable pub load :
    (Bytes → Option ℤ) → (Bytes → Bytes) → List Bytes → Option Config → Validated Config
load parse_duration env environ none = invalid unreadable
load parse_duration env environ (some c) =
    validate (apply_env parse_duration env environ (apply_defaults c))
