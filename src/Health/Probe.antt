-- ===== src/Health/Probe.antt =====
-- The probe of internal/health/health.go. What the backend answers to the calls of one probe is an
-- argument; one instant stands for the readings of the clock within a probe.
use hapudding.Base.{
  ℕ, List, [], ◌∷◌, Bool, true, false, not, ◌&&◌, ◌||◌, Option, none, some, ltb, leb, if◌then◌else◌,
}
use hapudding.Base.Int.{pos, ltb_ℤ}
use hapudding.Text.{Bytes, codes, is_empty}
use hapudding.Config.{Backend, public_info_enabled, jellyfin_health_enabled, passive_enabled}
use hapudding.Health.Monitor.{
  State, unknown, healthy, degraded, unhealthy, Layer, Snapshot, Monitor, no_layer, blank,
  public_url, set_snapshot, recent_fails,
}

-- One HTTP exchange: an error with its text, or a status with its text and the body.
pub data Response : Type 0 where
  failed : Bytes → Response
  answered : ℕ → Bytes → Bytes → Response

-- The fields of the public info that json.Unmarshal finds in a body.
pub record PublicInfo : Type 0 where
  pub id : Bytes
  pub server_name : Bytes
  pub version : Bytes

-- What the hop does in one probe, in the order of the calls.
pub record Answers : Type 0 where
  pub reachability : Response
  pub public_info : Response
  pub jellyfin_health : Response
  pub auth : Response
  pub decode : Bytes → Option PublicInfo

unfoldable pub is_success : ℕ → Bool
is_success status = leb 200 status && ltb status 300

-- `get`, and `probeAuth` after its request is built
unfoldable pub layer_of : ℕ → Response → Layer
unfolding is_success
layer_of now (failed e) = record { is_ok = false; error = e; status = 0; checked = now }
layer_of now (answered status text body) = record {
  is_ok = is_success status;
  error = if is_success status then [] else text;
  status = status;
  checked = now;
}

-- The callback that `getJSON` runs on a successful body.
unfoldable learn : (Bytes → Option PublicInfo) → Response → Snapshot → Snapshot
unfolding is_success
learn decode (failed e) snap = snap
learn decode (answered status text body) snap =
    if is_success status
    then elim (decode body) [
      | none ↦ snap
      | some info ↦ record snap {
        public_id = info.id;
        public_name = info.server_name;
        version = info.version;
      }
    ]
    else snap

abbrev pub passed : Layer
passed = record no_layer { is_ok = true }

unfoldable pub classify : Bool → Bool → Bool → State
classify jellyfin_ok public_ok auth_ok =
    if not jellyfin_ok || not public_ok
    then unhealthy
    else if not auth_ok
    then degraded
    else healthy

-- The verdict of the passive failures: `authOK` after the first test.
unfoldable pub passive_ok : Monitor → ℕ → Bool
passive_ok m n =
    if passive_enabled m.cfg.health
    then ltb_ℤ (pos n) m.cfg.health.passive_auth_failures.threshold
    else true

-- The auth layer from the passive verdict and the active probe.
unfoldable pub auth_plane : Monitor → ℕ → Bool → Answers → Layer
unfolding layer_of
auth_plane m now passive a =
    let probed = layer_of now a.auth in
    let active =
      m.cfg.health.auth_probe.enabled && not (is_empty m.cfg.health.auth_probe.username) in
    record {
      is_ok = passive && not (active && not probed.is_ok);
      error =
          if active && not probed.is_ok
          then probed.error
          else if passive
          then []
          else codes "passive auth-plane failures";
      status = 0;
      checked = now;
    }

-- `probe` behind a reachable backend.
unfoldable pub probe_layers : Monitor → ℕ → Answers → Backend → Snapshot → Monitor
unfolding layer_of learn classify passive_ok auth_plane recent_fails
probe_layers m now a b snap =
    let public_on = public_info_enabled m.cfg.health in
    let public_layer = if public_on then layer_of now a.public_info else passed in
    let learned = if public_on then learn a.decode a.public_info snap else snap in
    let jellyfin_layer =
      if jellyfin_health_enabled m.cfg.health then layer_of now a.jellyfin_health else passed in
    let passive_on = passive_enabled m.cfg.health in
    let (n, counted) = recent_fails m now b.name in
    let m' = if passive_on then counted else m in
    let auth_layer = auth_plane m now (passive_ok m n) a in
    set_snapshot m' b.name (record learned {
      public_info = public_layer;
      jellyfin_health = jellyfin_layer;
      auth_plane = auth_layer;
      auth_failures = if passive_on then n else 0;
      state = classify jellyfin_layer.is_ok public_layer.is_ok auth_layer.is_ok;
    })

unfoldable pub probe : Monitor → ℕ → Answers → Backend → Monitor
unfolding layer_of probe_layers
probe m now a b =
    let reach = layer_of now a.reachability in
    let snap : Snapshot = record (blank b.name (public_url b) unknown) { reachability = reach } in
    if reach.is_ok
    then probe_layers m now a b snap
    else set_snapshot m b.name (record snap { state = unhealthy })

-- The loop of `ProbeAll`, at the time of each probe and the answers that each backend gives.
unfoldable pub probe_each : Monitor → (Backend → ℕ) → (Backend → Answers) → List Backend → Monitor
probe_each m now answers [] = m
probe_each m now answers (b ∷ bs) = probe_each (probe m (now b) (answers b) b) now answers bs

unfoldable pub probe_all : Monitor → (Backend → ℕ) → (Backend → Answers) → Monitor
unfolding probe_each
probe_all m now answers = probe_each m now answers m.cfg.backends
