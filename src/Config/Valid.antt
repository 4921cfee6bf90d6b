-- ===== src/Config/Valid.antt =====
-- What `validate` of internal/config/config.go promises of a configuration that it accepts.
use hapudding.Base.{
  ◌≡◌, ◌≢◌, refl, subst, List, [], ◌∷◌, Bool, true, false, not, ◌&&◌, Option, none, some,
  if◌then◌else◌, arith, Bool-cases, inl, inr, ◌⊎◌, All, All-map,
}
use hapudding.Base.Int.{ℤ, pos, ltb_ℤ, ◌≤ℤ◌}
use hapudding.Text.{Bytes, is_empty, to_lower, trim_space}
use hapudding.Text.Equality.{str_eq_comm}
use hapudding.Config.Types.{Config, Backend, Affinity, Performance}
use hapudding.Config.Access.{
  UserAffinityEntry, user_affinity_entries, cache_disk_enabled, library_enabled,
  library_concurrency_enabled, translate_server_id_enabled,
}
use hapudding.Config.Guid.{is_guid}
use hapudding.Config.Validate.{
  ConfigError, Validated, valid, is_known_policy, is_known_requirement, is_known_store,
  check_affinity, check_performance, is_in, has_name, check_users, has_reserved, check_backends,
  is_none_list, unless, trimmed, validate, no_backends, server_id_not_uuid, first_error,
  performance_tests, not_positive,
}

-- Each backend has a name and a URL, sets no reserved header, and has a name of its own.
abbrev IsServable : Backend → Type 0
IsServable b =
    (is_empty b.name ≡ false) × (is_empty b.url ≡ false) × (has_reserved b.headers ≡ false)

abbrev NamesDiffer : List Backend → Type 0
NamesDiffer [] = Unit
NamesDiffer (b ∷ bs) = (has_name b.name bs ≡ false) × NamesDiffer bs

-- A configuration that the program can run on.
pub record IsSane (c : Config) : Type 0 where
  pub some_backend : c.backends ≢ []
  pub servable : All IsServable c.backends
  pub names_differ : NamesDiffer c.backends
  pub policy_known : is_known_policy c.affinity.policy ≡ true
  pub graylist_policy_known : is_known_policy c.affinity.graylist.policy ≡ true
  pub requirement_known : is_known_requirement c.affinity.new_clients_require ≡ true
  pub store_known : is_known_store c.affinity.store ≡ true
  pub images_fit : c.performance.cache.max_object ≤ℤ c.performance.cache.max_bytes
  pub disk_fits :
      (cache_disk_enabled c.performance ≡ false)
      ⊎ (c.performance.cache.max_object ≤ℤ c.performance.cache.disk.max_bytes)
  pub library_positive :
      (library_enabled c.performance ≡ false) ⊎ (pos 1 ≤ℤ c.performance.library.max_bytes)
  pub slots_positive :
      (library_concurrency_enabled c.performance ≡ false)
      ⊎ (pos 1 ≤ℤ c.performance.library_concurrency.max)
  pub server_id : (translate_server_id_enabled c ≡ false) ⊎ (is_guid c.translate.id ≡ true)
  pub users_known :
      All (λ e. has_name e.backend c.backends ≡ true) (user_affinity_entries c.affinity)

unless-valid :
    {A : Type 0} (o : Option ConfigError) (rest : Validated A) (a : A)
    → unless o rest ≡ valid a
    → (o ≡ none) × (rest ≡ valid a)
unless-valid none rest a h = (refl, h)
unless-valid (some e) rest a h = cc

older : (k j : Bytes) (seen : List Bytes) → is_in j (k ∷ seen) ≡ false → is_in j seen ≡ false
unfolding is_in
older k j seen h = ground arith

-- No name that was seen comes again.
unseen :
    (seen : List Bytes) (bs : List Backend)
    → check_backends seen bs ≡ none
    → All (λ b. is_in b.name seen ≡ false) bs
unfolding check_backends
unseen seen [] h = tt
unseen seen (b ∷ bs) h =
    let rest = unseen (b.name ∷ seen) bs (ground arith) in
    (
      ground arith,
      All-map (λ c. is_in c.name (b.name ∷ seen) ≡ false) (λ c. is_in c.name seen ≡ false)
          (λ c k. older b.name c.name seen k) bs rest,
    )

absent_name :
    (name : Bytes) (seen : List Bytes) (bs : List Backend)
    → All (λ b. is_in b.name (name ∷ seen) ≡ false) bs
    → has_name name bs ≡ false
unfolding has_name is_in
absent_name name seen [] h = refl
absent_name name seen (b ∷ bs) h =
    ground (arith, absent_name name seen bs h.1, str_eq_comm b.name name, h.0)

backends_lem :
    (seen : List Bytes) (bs : List Backend)
    → check_backends seen bs ≡ none
    → All IsServable bs × NamesDiffer bs
unfolding check_backends
backends_lem seen [] h = (tt, tt)
backends_lem seen (b ∷ bs) h =
    let rest : check_backends (b.name ∷ seen) bs ≡ none = ground arith in
    let (servable, differ) = backends_lem (b.name ∷ seen) bs rest in
    (
      ((ground arith, ground arith, ground arith), servable),
      (absent_name b.name seen bs (unseen (b.name ∷ seen) bs rest), differ),
    )

users_lem :
    (bs : List Backend) (seen : List Bytes) (es : List UserAffinityEntry)
    → check_users bs seen es ≡ none
    → All (λ e. has_name e.backend bs ≡ true) es
unfolding check_users
users_lem bs seen [] h = tt
users_lem bs seen (e ∷ es) h =
    (ground arith, users_lem bs (to_lower e.username ∷ seen) es (ground arith))

not_raised : (t : Bool) (e : ConfigError) → (if t then some e else none) ≡ none → t ≡ false
not_raised true e h = cc
not_raised false e h = refl

valid-inj : (c c' : Config) → valid c ≡ valid c' → c ≡ c'
valid-inj c c' h = cc

-- What each test of `validate` found.
pub passes :
    (c c' : Config)
    → validate c ≡ valid c'
    → (is_none_list c.backends ≡ false)
      × (check_affinity c.affinity ≡ none)
      × (check_performance c.performance ≡ none)
      × ((translate_server_id_enabled c && not (is_guid (trim_space c.translate.id))) ≡ false)
      × (check_users c.backends [] (user_affinity_entries c.affinity) ≡ none)
      × (check_backends [] c.backends ≡ none)
      × (trimmed c ≡ c')
unfolding validate
passes c c' h =
    let (a, h1) = unless-valid _ _ c' h in
    let (b, h2) = unless-valid _ _ c' h1 in
    let (d, h3) = unless-valid _ _ c' h2 in
    let (e, h4) = unless-valid _ _ c' h3 in
    let (f, h5) = unless-valid _ _ c' h4 in
    let (g, h6) = unless-valid _ _ c' h5 in
    (
      not_raised (is_none_list c.backends) no_backends a,
      b,
      d,
      not_raised (translate_server_id_enabled c && not (is_guid (trim_space c.translate.id)))
          server_id_not_uuid e,
      f,
      g,
      valid-inj (trimmed c) c' h6,
    )

first_error-none :
    (ts : List (Bool × ConfigError)) → first_error ts ≡ none → All (λ t. t.0 ≡ false) ts
unfolding first_error
first_error-none [] h = tt
first_error-none (t ∷ ts) h = (ground arith, first_error-none ts (ground arith))

not_less : (a b : ℤ) → ltb_ℤ a b ≡ false → b ≤ℤ a
not_less a b h = ground arith

at_least_one : (a : ℤ) → not (ltb_ℤ (pos 0) a) ≡ false → pos 1 ≤ℤ a
at_least_one a h = ground arith

unless_off : (on t : Bool) (P : Type 0) → (t ≡ false → P) → (on && t) ≡ false → (on ≡ false) ⊎ P
unless_off true t P f h = inr (f h)
unless_off false t P f h = inl refl

-- What the tests say of the configuration before it is trimmed.
performance_lem :
    (p : Performance)
    → check_performance p ≡ none
    → (p.cache.max_object ≤ℤ p.cache.max_bytes)
      × ((cache_disk_enabled p ≡ false) ⊎ (p.cache.max_object ≤ℤ p.cache.disk.max_bytes))
      × ((library_enabled p ≡ false) ⊎ (pos 1 ≤ℤ p.library.max_bytes))
      × ((library_concurrency_enabled p ≡ false) ⊎ (pos 1 ≤ℤ p.library_concurrency.max))
unfolding check_performance
performance_lem p h =
    let found = first_error-none (performance_tests p) h in
    (
      not_less p.cache.max_bytes p.cache.max_object found.1.0,
      unless_off (cache_disk_enabled p) (ltb_ℤ p.cache.disk.max_bytes p.cache.max_object)
          (p.cache.max_object ≤ℤ p.cache.disk.max_bytes)
          (not_less p.cache.disk.max_bytes p.cache.max_object) found.1.1.1.1.0,
      unless_off (library_enabled p) (not_positive p.library.max_bytes)
          (pos 1 ≤ℤ p.library.max_bytes) (at_least_one p.library.max_bytes) found.1.1.1.1.1.0,
      unless_off (library_concurrency_enabled p) (ltb_ℤ p.library_concurrency.max (pos 1))
          (pos 1 ≤ℤ p.library_concurrency.max) (not_less p.library_concurrency.max (pos 1))
          found.1.1.1.1.1.1.1.0,
    )

affinity_lem :
    (a : Affinity)
    → check_affinity a ≡ none
    → (is_known_policy a.policy ≡ true)
      × (is_known_requirement a.new_clients_require ≡ true)
      × (is_known_policy a.graylist.policy ≡ true)
      × (is_known_store a.store ≡ true)
unfolding check_affinity
affinity_lem a h = (ground arith, ground arith, ground arith, ground arith)

-- A configuration that `validate` accepts has backends with names of their own, policies and a store
-- that the program knows, limits that its caches can keep, a server id that is a UUID if it is
-- translated, and users that are sent to backends that exist.
pub validate-IsSane : (c c' : Config) → validate c ≡ valid c' → IsSane c'
validate-IsSane c c' h =
    let (some_backend, checked, measured, id, users, backends, same) = passes c c' h in
    let (policy, requirement, graylist, store) = affinity_lem c.affinity checked in
    let (images, disk, library, slots) = performance_lem c.performance measured in
    let (servable, differ) = backends_lem [] c.backends backends in
    let found = users_lem c.backends [] (user_affinity_entries c.affinity) users in
    let filled : c.backends ≢ [] = λ e. ground (arith, e) in
    subst IsSane same (elim (Bool-cases (translate_server_id_enabled c)) [
      | inl e ↦ rw e (record {
        some_backend = filled;
        servable = servable;
        names_differ = differ;
        policy_known = policy;
        graylist_policy_known = graylist;
        requirement_known = requirement;
        store_known = store;
        images_fit = images;
        disk_fits = disk;
        library_positive = library;
        slots_positive = slots;
        server_id = inr (ground arith);
        users_known = found;
      })
      | inr e ↦ rw e (record {
        some_backend = filled;
        servable = servable;
        names_differ = differ;
        policy_known = policy;
        graylist_policy_known = graylist;
        requirement_known = requirement;
        store_known = store;
        images_fit = images;
        disk_fits = disk;
        library_positive = library;
        slots_positive = slots;
        server_id = inl e;
        users_known = found;
      })
    ])
