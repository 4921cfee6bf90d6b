-- ===== src/Status/Backends.antt =====
-- The answers of internal/status/status.go, and its handlers about backends and about pins.
use hapudding.Base.{
  ℕ, List, [], ◌∷◌, Bool, true, false, not, ◌&&◌, Option, none, some, if◌then◌else◌, map,
}
use hapudding.Text.{Bytes, codes, is_empty, trim_space, equal_fold}
use hapudding.Config.{Backend, UserAffinityEntry, user_affinity_entries}
use hapudding.Health.Monitor.{Snapshot, Monitor, ineligible_reason}
use hapudding.Store.Types.{Counts, ok, err}
use hapudding.Store.Pins.{is_among, delete_pins_by_username}
use hapudding.Store.Reports.{counts_by_backend}
use hapudding.Router.Types.{Router, by}
use hapudding.Router.Flags.{is_disabled, set_runtime}
use hapudding.Router.Decide.{is_ready}

-- backendView: the snapshot with the reason that is shown in it, and the flags.
pub record BackendView : Type 0 where
  pub snap : Snapshot
  pub reason : Bytes
  pub is_off : Bool
  pub config_off : Bool
  pub runtime_off : Bool

-- `All` of internal/health/health.go, over the backends of the configuration.
unfoldable snaps_of : Monitor → List Backend → List Snapshot
snaps_of m [] = []
snaps_of m (b ∷ bs) =
    let rest = snaps_of m bs in elim (m.snaps b.name) [ none ↦ rest | some s ↦ s ∷ rest ]

unfoldable all_snapshots : Monitor → List Snapshot
unfolding snaps_of
all_snapshots m = snaps_of m m.cfg.backends

unfoldable pub view_of : Router → Snapshot → BackendView
view_of r snap = record {
  snap = snap;
  reason =
      if is_disabled r.flags snap.name
      then codes "disabled"
      else ineligible_reason snap r.cfg.affinity.new_clients_require;
  is_off = is_disabled r.flags snap.name;
  config_off = r.flags.yaml snap.name;
  runtime_off = r.flags.runtime snap.name;
}

unfoldable pub backend_views : Router → List BackendView
unfolding all_snapshots view_of
backend_views r = map (view_of r) (all_snapshots r.mon)

-- What is encoded as JSON; `failed` is the message of an error of the store.
pub data Body : Type 0 where
  ok_flag : Bool → Body
  problem : Bytes → Body
  backend_problem : Bytes → Bytes → Body
  conflict : Bytes → List BackendView → Body
  failed : Body
  views : List BackendView → Body
  entries : List UserAffinityEntry → Body
  unpinned : Bytes → ℕ → ℕ → Body
  counts : (Bytes → Counts) → Body

pub record Reply : Type 0 where
  pub status : ℕ
  pub body : Body

-- writeJSON
abbrev pub reply : ℕ → Body → Reply
reply status body = record { status = status; body = body }

unfoldable pub health : Reply
health = reply 200 (ok_flag true)

unfoldable ready : Router → Reply
ready r = if not (is_ready r) then reply 503 (ok_flag false) else reply 200 (ok_flag true)

unfoldable pub backends : Router → Reply
backends r = reply 200 (views (backend_views r))

unfoldable pub set_backend_disabled : Router → ℕ → Bytes → Bool → Reply × Router
set_backend_disabled r now name disabled = elim (by r name) [
  | none ↦ (reply 404 (backend_problem (codes "not_found") name), r)
  | some _ ↦
      if not disabled && r.flags.yaml name
      then (reply 409 (conflict name (backend_views r)), r)
      else let (outcome, flags, st) = set_runtime r.flags r.st now name disabled in
        let r' : Router = record r { flags = flags; st = st } in
        elim outcome [
          | err ↦ (reply 500 failed, r')
          | ok _ ↦ (reply 200 (views (backend_views r')), r')
        ]
]

unfoldable pub disable_backend : Router → ℕ → Bytes → Reply × Router
unfolding set_backend_disabled
disable_backend r now name = set_backend_disabled r now name true

unfoldable enable_backend : Router → ℕ → Bytes → Reply × Router
unfolding set_backend_disabled
enable_backend r now name = set_backend_disabled r now name false

unfoldable pub user_affinity : Router → Reply
user_affinity r = reply 200 (entries (user_affinity_entries r.cfg.affinity))

-- `publicUserID`, at the users (name and id) that GET /Users/Public of the backend lists.
unfoldable public_user_id : Bytes → List (Bytes × Bytes) → Bytes
public_user_id username [] = []
public_user_id username ((name, id) ∷ users) =
    if equal_fold (trim_space name) username then trim_space id else public_user_id username users

-- The loop of `publicUserIDs`; `public_users` is `none` where a backend gives no list.
unfoldable public_user_ids :
    (Backend → Option (List (Bytes × Bytes))) → Bytes → List Bytes → List Backend → List Bytes
public_user_ids public_users username seen [] = []
public_user_ids public_users username seen (b ∷ bs) =
    let id : Bytes = elim (public_users b) [
      | none ↦ []
      | some users ↦ public_user_id username users
    ] in
    let next = public_user_ids public_users username seen bs in
    let rest = public_user_ids public_users username (id ∷ seen) bs in
    if is_empty id then next else if is_among id seen then next else id ∷ rest

unfoldable unpin_user : (Backend → Option (List (Bytes × Bytes))) → Router → Bytes → Reply × Router
unpin_user public_users r path_value =
    let username = trim_space path_value in
    if is_empty username
    then (reply 400 (problem (codes "username_required")), r)
    else let (outcome, st) =
        delete_pins_by_username r.st username
          (public_user_ids public_users username [] r.cfg.backends) in
      let r' : Router = record r { st = st } in
      elim outcome [
        | err ↦ (reply 500 failed, r')
        | ok (tokens, devices) ↦ (reply 200 (unpinned username tokens devices), r')
      ]

unfoldable pub affinity : Router → Reply
affinity r = elim (counts_by_backend r.st) [
  | err ↦ reply 500 failed
  | ok table ↦ reply 200 (counts table)
]
