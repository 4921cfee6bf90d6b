-- ===== src/Health/Monitor.antt =====
-- The monitor of internal/health/health.go: its state, the passive failures, the snapshots and
-- `IneligibleReason`. The transports (HopTransport, Client, RoundTripper) are not modelled but for whether
-- they can be built.
use hapudding.Base.{
  ℕ, ◌+◌, List, [], ◌∷◌, ◌++◌, Bool, false, not, ◌&&◌, Option, none, some, ltb, if◌then◌else◌,
  length, select,
}
use hapudding.Base.Int.{ℤ, pos_part, neg_part}
use hapudding.Text.{Bytes, codes, is_empty, str_eq, trim_right_byte}
use hapudding.Config.{Backend, Config, passive_enabled}

pub data State : Type 0 where
  unknown healthy degraded unhealthy : State

pub record Layer : Type 0 where
  pub is_ok : Bool
  pub error : Bytes
  pub status : ℕ
  pub checked : ℕ

pub record Snapshot : Type 0 where
  pub name : Bytes
  pub url : Bytes
  pub state : State
  pub reachability : Layer
  pub public_info : Layer
  pub jellyfin_health : Layer
  pub auth_plane : Layer
  pub public_id : Bytes
  pub public_name : Bytes
  pub version : Bytes
  pub auth_failures : ℕ

-- The maps `snaps` and `fails`, as functions of the name.
pub record Monitor : Type 0 where
  pub cfg : Config
  pub snaps : Bytes → Option Snapshot
  pub fails : Bytes → List ℕ

-- `m[k] = v`
abbrev pub put {ℓ} : {V : Type ℓ} → (Bytes → V) → Bytes → V → Bytes → V
put m k v j = if str_eq k j then v else m j

abbrev pub no_layer : Layer
no_layer = record { is_ok = false; error = []; status = 0; checked = 0 }

-- &Snapshot{Name: name, URL: url, State: state}
abbrev pub blank : Bytes → Bytes → State → Snapshot
blank name url state = record {
  name = name;
  url = url;
  state = state;
  reachability = no_layer;
  public_info = no_layer;
  jellyfin_health = no_layer;
  auth_plane = no_layer;
  public_id = [];
  public_name = [];
  version = [];
  auth_failures = 0;
}

-- `publicURL`
abbrev pub public_url : Backend → Bytes
public_url b = trim_right_byte b.url b'/'

-- The loop of `New`, where `hop` says whether the transports of a backend can be built.
unfoldable snaps_for :
    (Backend → Bool) → (Bytes → Option Snapshot) → List Backend → Option (Bytes → Option Snapshot)
snaps_for hop snaps [] = some snaps
snaps_for hop snaps (b ∷ bs) =
    let rest = snaps_for hop (put snaps b.name (some (blank b.name (public_url b) unknown))) bs in
    if hop b then rest else none

-- `New`; none is an error.
unfoldable pub new_monitor : (Backend → Bool) → Config → Option Monitor
unfolding snaps_for
new_monitor hop cfg = elim (snaps_for hop (λ _. none) cfg.backends) [
  | none ↦ none
  | some snaps ↦ some (record { cfg = cfg; snaps = snaps; fails = λ _. [] })
]

unfoldable pub set_snapshot : Monitor → Bytes → Snapshot → Monitor
set_snapshot m name snap = record m { snaps = put m.snaps name (some snap) }

-- `Snapshot(name)`
unfoldable pub snapshot : Monitor → Bytes → Snapshot
snapshot m name = elim (m.snaps name) [ none ↦ blank name [] unknown | some s ↦ s ]

-- `State(name)`
unfoldable pub state_of : Monitor → Bytes → State
unfolding snapshot
state_of m name = (snapshot m name).state

unfoldable set_state : Monitor → Bytes → State → Monitor
set_state m name st = elim (m.snaps name) [
  | some s ↦ record m { snaps = put m.snaps name (some (record s { state = st })) }
  | none ↦ record m { snaps = put m.snaps name (some (blank name [] st)) }
]

unfoldable pub record_auth_failure : Monitor → ℕ → Bytes → Monitor
record_auth_failure m now backend =
    if passive_enabled m.cfg.health
    then record m { fails = put m.fails backend (m.fails backend ++ now ∷ []) }
    else m

-- t.After(time.Now().Add(-window))
unfoldable pub within : ℕ → ℤ → ℕ → Bool
within now window t = ltb (now + neg_part window) (t + pos_part window)

unfoldable pub recent_fails : Monitor → ℕ → Bytes → ℕ × Monitor
unfolding within
recent_fails m now backend =
    let keep = select (within now m.cfg.health.passive_auth_failures.window) (m.fails backend) in
    (length keep, record m { fails = put m.fails backend keep })

unfoldable pub ineligible_reason : Snapshot → Bytes → Bytes
ineligible_reason s new_clients_require = elim s.state [
  | healthy ↦ []
  | unknown ↦ []
  | degraded ↦
      if str_eq new_clients_require (codes "healthy") then codes "degraded_auth_plane" else []
  | unhealthy ↦
      if not s.reachability.is_ok && not (is_empty s.reachability.error)
      then codes "unreachable"
      else if not s.jellyfin_health.is_ok
      then codes "jellyfin_health"
      else if not s.public_info.is_ok
      then codes "public_info"
      else codes "unhealthy"
]
