-- ===== src/Config/Env.antt =====
-- `applyEnv` of internal/config/config.go. The environment is a parameter: os.Getenv and the entries of
-- os.Environ; so is time.ParseDuration, none for an error.
use hapudding.Base.{
  ℕ, zero, suc, List, [], ◌∷◌, ◌++◌, map, Bool, not, ◌||◌, Option, none, some, ◌==◌, if◌then◌else◌,
  length,
}
use hapudding.Base.Int.{ℤ, pos, ltb_ℤ}
use hapudding.Text.{Bytes, codes, is_empty, str_eq, to_lower, to_upper, trim_space, has_prefix, cut}
use hapudding.Config.Types.{Config, Backend, Affinity, Performance}

-- strings.ReplaceAll at two bytes
unfoldable pub replace_byte : ℕ → ℕ → Bytes → Bytes
replace_byte b b' = map (λ c. if c == b then b' else c)

unfoldable pub env_name : Bytes → Bytes
env_name s = replace_byte b'-' b'_' (to_upper s)

unfoldable pub env_bool : Bytes → Bool
env_bool v =
    let t = to_lower (trim_space v) in
    str_eq t (codes "1")
    || (str_eq t (codes "true") || (str_eq t (codes "yes") || str_eq t (codes "on")))

-- m[k] = v
unfoldable pub set_header : List (Bytes × Bytes) → Bytes → Bytes → List (Bytes × Bytes)
set_header [] k v = (k, v) ∷ []
set_header ((j, w) ∷ m) k v = if str_eq j k then (k, v) ∷ m else (j, w) ∷ set_header m k v

drop : ℕ → Bytes → Bytes
drop zero s = s
drop (suc n) [] = []
drop (suc n) (c ∷ s) = drop n s

-- The loop over os.Environ for one backend, at its prefix.
unfoldable pub env_headers : Bytes → List Bytes → List (Bytes × Bytes) → List (Bytes × Bytes)
unfolding drop
env_headers prefix [] m = m
env_headers prefix (e ∷ es) m =
    let (k, val, found) = cut e b'=' in
    env_headers prefix es (
      if not found || not (has_prefix k prefix)
      then m
      else set_header m (replace_byte b'_' b'-' (drop (length prefix) k)) val)

abbrev header_prefix : Bytes → Bytes
header_prefix name = codes "HAP_BACKEND_" ++ (env_name name ++ codes "_HEADER_")

module _ (parse_duration : Bytes → Option ℤ) where
  unfoldable pub env_duration : Bytes → Option ℤ
  env_duration v = elim (parse_duration (trim_space v)) [
    | none ↦ none
    | some d ↦ if ltb_ℤ (pos 0) d then some d else none
  ]

module _ (parse_duration : Bytes → Option ℤ) (env : Bytes → Bytes) where
  -- if v := os.Getenv(name); v != "" { … }
  abbrev env_text : Bytes → Bytes → Bytes
  env_text name old = if is_empty (env name) then old else env name

  abbrev env_flag : Bytes → Option Bool → Option Bool
  env_flag name old = if is_empty (env name) then old else some (env_bool (env name))

  abbrev env_time : Bytes → ℤ → ℤ
  env_time name old =
      if is_empty (env name)
      then old
      else elim (env_duration parse_duration (env name)) [ none ↦ old | some d ↦ d ]

  unfoldable pub affinity_env : Affinity → Affinity
  affinity_env a = record a {
    store = env_text (codes "HAP_STORE") a.store;
    sqlite_path = env_text (codes "HAP_SQLITE_PATH") a.sqlite_path;
    postgres_url = env_text (codes "HAP_DATABASE_URL") a.postgres_url;
    policy = env_text (codes "HAP_AFFINITY_POLICY") a.policy;
    new_clients_require = env_text (codes "HAP_NEW_CLIENTS_REQUIRE") a.new_clients_require;
    graylist = record (a.graylist) {
      policy = env_text (codes "HAP_GRAYLIST_POLICY") a.graylist.policy;
    };
  }

  unfoldable pub performance_env : Performance → Performance
  performance_env p = record p {
    auth_timeout = env_time (codes "HAP_AUTH_TIMEOUT") p.auth_timeout;
    cache = record (p.cache) {
      enabled = env_flag (codes "HAP_CACHE_ENABLED") p.cache.enabled;
      disk = record (p.cache.disk) {
        enabled = env_flag (codes "HAP_CACHE_DISK_ENABLED") p.cache.disk.enabled;
        path = env_text (codes "HAP_CACHE_DISK_PATH") p.cache.disk.path;
      };
    };
    library = record (p.library) {
      enabled = env_flag (codes "HAP_LIBRARY_CACHE_ENABLED") p.library.enabled;
    };
    coalesce = record { enabled = env_flag (codes "HAP_COALESCE_ENABLED") p.coalesce.enabled };
    warm_login = record {
      enabled = env_flag (codes "HAP_WARM_LOGIN_ENABLED") p.warm_login.enabled;
    };
    library_concurrency = record (p.library_concurrency) {
      enabled = env_flag (codes "HAP_LIBRARY_CONCURRENCY_ENABLED") p.library_concurrency.enabled;
    };
  }

  unfoldable pub apply_env : List Bytes → Config → Config
  apply_env environ c = record c {
    listen = env_text (codes "HAP_LISTEN") c.listen;
    status_listen = env_text (codes "HAP_STATUS_LISTEN") c.status_listen;
    affinity = affinity_env c.affinity;
    performance = performance_env c.performance;
    stay_on_origin = record (c.stay_on_origin) {
      enabled = env_flag (codes "HAP_STAY_ON_ORIGIN") c.stay_on_origin.enabled;
    };
    translate = record (c.translate) {
      enabled = env_flag (codes "HAP_TRANSLATE_SERVER_ID") c.translate.enabled;
    };
    backends =
        map {A = Backend}
          (λ b. record b { headers = env_headers (header_prefix b.name) environ b.headers })
          c.backends;
  }
