-- ===== src/Health/Verdict.antt =====
-- What a probe of internal/health/health.go makes of the answers of a backend.
use hapudding.Base.{
  ℕ, ◌≡◌, ap, ◌∙◌, Bool, true, not, ◌&&◌, ◌||◌, arith, Bool-cases, inl, inr, if◌then◌else◌,
}
use hapudding.Base.Int.{pos, ltb_ℤ}
use hapudding.Text.{Bytes, is_empty, str_eq}
use hapudding.Config.{Backend, public_info_enabled, jellyfin_health_enabled, passive_enabled}
use hapudding.Health.Monitor.{
  State, unknown, healthy, degraded, unhealthy, Snapshot, Monitor, blank, public_url, set_snapshot,
  snapshot, state_of, recent_fails,
}
use hapudding.Health.Probe.{
  Answers, layer_of, classify, passive_ok, auth_plane, probe_layers, probe,
}

-- A layer that the configuration asks for has to be good.
abbrev if_on : Bool → Bool → Bool
if_on on good = not on || good

abbrev public_good : Monitor → ℕ → Answers → Bool
public_good m now a = if_on (public_info_enabled m.cfg.health) (layer_of now a.public_info).is_ok

abbrev jellyfin_good : Monitor → ℕ → Answers → Bool
jellyfin_good m now a =
    if_on (jellyfin_health_enabled m.cfg.health) (layer_of now a.jellyfin_health).is_ok

-- Fewer failures of logins within the window than the threshold, and a login of the probe's own.
abbrev auth_good : Monitor → ℕ → Answers → Backend → Bool
auth_good m now a b =
    if_on (passive_enabled m.cfg.health)
      (ltb_ℤ (pos (recent_fails m now b.name).0) m.cfg.health.passive_auth_failures.threshold)
    && if_on (m.cfg.health.auth_probe.enabled && not (is_empty m.cfg.health.auth_probe.username))
        (layer_of now a.auth).is_ok

-- The state that the answers call for.
abbrev pub verdict : Monitor → ℕ → Answers → Backend → State
verdict m now a b =
    if (layer_of now a.reachability).is_ok && (public_good m now a && jellyfin_good m now a)
    then (if auth_good m now a b then healthy else degraded)
    else unhealthy

state_of-set_snapshot :
    (m : Monitor) (name other : Bytes) (snap : Snapshot)
    → state_of (set_snapshot m name snap) other
      ≡ (if str_eq name other then snap.state else state_of m other)
unfolding state_of snapshot set_snapshot
state_of-set_snapshot m name other snap = elim (Bool-cases (str_eq name other)) [
  | inl e ↦ rw (e, state_of, snapshot, set_snapshot)
  | inr e ↦ rw (e, state_of, snapshot, set_snapshot)
]

classified :
    (m : Monitor) (now : ℕ) (a : Answers) (b : Backend)
    → (layer_of now a.reachability).is_ok ≡ true
    → classify
        (if jellyfin_health_enabled m.cfg.health
          then (layer_of now a.jellyfin_health).is_ok
          else true)
        (if public_info_enabled m.cfg.health then (layer_of now a.public_info).is_ok else true)
        (auth_plane m now (passive_ok m (recent_fails m now b.name).0) a).is_ok
      ≡ verdict m now a b
unfolding classify auth_plane passive_ok
classified m now a b h = ground arith

state_of-probe_layers :
    (m : Monitor) (now : ℕ) (a : Answers) (b : Backend) (snap : Snapshot) (other : Bytes)
    → (layer_of now a.reachability).is_ok ≡ true
    → state_of (probe_layers m now a b snap) other
      ≡ (if str_eq b.name other then verdict m now a b else state_of m other)
unfolding probe_layers state_of snapshot set_snapshot recent_fails
state_of-probe_layers m now a b snap other h = elim (Bool-cases (str_eq b.name other)) [
  | inl e ↦ ground (arith, classified m now a b h)
  | inr e ↦ ground (arith, e)
]

-- A probe puts the backend in the state that the answers call for: unhealthy if it cannot be reached
-- or a layer that the configuration asks for is not good, else degraded if its logins fail, else
-- healthy. It leaves the state of every other backend.
pub state_of-probe :
    (m : Monitor) (now : ℕ) (a : Answers) (b : Backend) (other : Bytes)
    → state_of (probe m now a b) other
      ≡ (if str_eq b.name other then verdict m now a b else state_of m other)
unfolding probe
state_of-probe m now a b other =
    let snap : Snapshot = record (blank b.name (public_url b) unknown) {
      reachability = layer_of now a.reachability;
    } in
    elim (Bool-cases (layer_of now a.reachability).is_ok) [
      | inl e ↦
          let same : probe m now a b ≡ probe_layers m now a b snap = rw (e, probe) in
          ap (λ (k : Monitor). state_of k other) same ∙ state_of-probe_layers m now a b snap other e
      | inr e ↦
          let down : Snapshot = record snap { state = unhealthy } in
          let same : probe m now a b ≡ set_snapshot m b.name down = rw (e, probe) in
          ap (λ (k : Monitor). state_of k other) same
          ∙ state_of-set_snapshot m b.name other down
          ∙ rw e
    ]
