-- ===== src/Router/Flags.antt =====
-- internal/router/flags.go: the disabled flags, from the configuration and from the store.
use hapudding.Base.{ℕ, List, [], ◌∷◌, Bool, true, false, ◌||◌, if◌then◌else◌}
use hapudding.Text.{Bytes, str_eq}
use hapudding.Config.{Config, Backend}
use hapudding.Store.Types.{Store, Result, ok, err}
use hapudding.Store.Reports.{list_backend_flags, set_backend_disabled, clear_backend_flag}
use hapudding.Router.Types.{Flags}

-- The loop of `newFlags`: a later backend of the same name overwrites.
yaml_of : List Backend → (Bytes → Bool) → Bytes → Bool
yaml_of [] m = m
yaml_of (b ∷ bs) m = yaml_of bs (λ name. if str_eq b.name name then b.disabled else m name)

unfoldable pub new_flags : Config → Flags
unfolding yaml_of
new_flags cfg = record { yaml = yaml_of cfg.backends (λ _. false); runtime = λ _. false }

unfoldable pub runtime_of : List (Bytes × Bool) → (Bytes → Bool) → Bytes → Bool
runtime_of [] m = m
runtime_of ((n, disabled) ∷ rows) m =
    runtime_of rows (if disabled then (λ name. if str_eq n name then true else m name) else m)

unfoldable pub load : Flags → Store → Flags
unfolding runtime_of
load f st = elim (list_backend_flags st) [
  | err ↦ f
  | ok rows ↦ record f { runtime = runtime_of rows f.runtime }
]

unfoldable pub is_disabled : Flags → Bytes → Bool
is_disabled f name = f.yaml name || f.runtime name

unfoldable pub set_runtime : Flags → Store → ℕ → Bytes → Bool → Result (Unit {0}) × Flags × Store
set_runtime f st now name true =
    let (r, st') = set_backend_disabled st now name true in
    elim r [
      | err ↦ (err, f, st')
      | ok _ ↦ (ok tt, record f { runtime = λ j. if str_eq name j then true else f.runtime j }, st')
    ]
set_runtime f st now name false =
    let (r, st') = clear_backend_flag st name in
    elim r [
      | err ↦ (err, f, st')
      | ok _ ↦
          (ok tt, record f { runtime = λ j. if str_eq name j then false else f.runtime j }, st')
    ]
