-- ===== src/Health/Round.antt =====
-- A round of probes over the backends: `ProbeAll` of internal/health/health.go.
use hapudding.Base.{ℕ, ◌≡◌, refl, ap, ◌∙◌, List, [], ◌∷◌, ◌++◌, false, Bool-cases, inl, inr, All}
use hapudding.Text.{Bytes, str_eq}
use hapudding.Text.Equality.{str_eq_refl}
use hapudding.Config.{Backend, passive_enabled}
use hapudding.Health.Monitor.{Monitor, set_snapshot, state_of, recent_fails}
use hapudding.Health.Probe.{Answers, layer_of, probe_layers, probe, probe_each, probe_all}
use hapudding.Health.Verdict.{verdict, state_of-probe}

-- The backends with other names.
abbrev pub Others : Bytes → List Backend → Type 0
Others name = All (λ b. str_eq b.name name ≡ false)

-- What a verdict on the backend of a name reads of a monitor is what it reads of the other.
record Agrees (m m' : Monitor) (name : Bytes) : Type 0 where
  configs : m'.cfg ≡ m.cfg
  counted : m'.fails name ≡ m.fails name

probe-Agrees :
    (m : Monitor) (now : ℕ) (a : Answers) (b : Backend) (name : Bytes)
    → str_eq b.name name ≡ false
    → Agrees m (probe m now a b) name
unfolding probe probe_layers set_snapshot recent_fails
probe-Agrees m now a b name h = elim (Bool-cases (layer_of now a.reachability).is_ok) [
  | inr e ↦ record { configs = rw e; counted = rw e }
  | inl e ↦ elim (Bool-cases (passive_enabled m.cfg.health)) [
    | inl f ↦ record { configs = rw (e, f); counted = rw (e, f, h) }
    | inr f ↦ record { configs = rw (e, f); counted = rw (e, f) }
  ]
]

verdict-Agrees :
    (m m' : Monitor) (now : ℕ) (a : Answers) (b : Backend)
    → Agrees m m' b.name
    → verdict m' now a b ≡ verdict m now a b
unfolding recent_fails
verdict-Agrees m m' now a b h = rw (h.configs, h.counted)

module _ (now : Backend → ℕ) (answers : Backend → Answers) where
  probe_each-Others :
      (m : Monitor) (bs : List Backend) (name : Bytes)
      → Others name bs
      → state_of (probe_each m now answers bs) name ≡ state_of m name
  unfolding probe_each
  probe_each-Others m [] name h = refl
  probe_each-Others m (b ∷ bs) name (h, hs) =
      probe_each-Others (probe m (now b) (answers b) b) bs name hs
      ∙ state_of-probe m (now b) (answers b) b name
      ∙ rw h

  probe_each-verdict :
      (m : Monitor) (before after : List Backend) (b : Backend)
      → Others b.name before
      → Others b.name after
      → state_of (probe_each m now answers (before ++ b ∷ after)) b.name
        ≡ verdict m (now b) (answers b) b
  unfolding probe_each
  probe_each-verdict m [] after b hb ha =
      probe_each-Others (probe m (now b) (answers b) b) after b.name ha
      ∙ state_of-probe m (now b) (answers b) b b.name
      ∙ rw (str_eq_refl b.name)
  probe_each-verdict m (c ∷ before) after b (h, hs) ha =
      probe_each-verdict (probe m (now c) (answers c) c) before after b hs ha
      ∙ verdict-Agrees m (probe m (now c) (answers c) c) (now b) (answers b) b
          (probe-Agrees m (now c) (answers c) c b.name h)

  -- After a round of probes a backend whose name no other has is in the state that its own answers and
  -- its own failures of logins within the window call for, whatever the others answer: unhealthy if it
  -- cannot be reached or a layer that the configuration asks for is not good, else degraded if its logins
  -- fail, else healthy.
  pub probe_all-verdict :
      (m : Monitor) (before after : List Backend) (b : Backend)
      → m.cfg.backends ≡ before ++ b ∷ after
      → Others b.name before
      → Others b.name after
      → state_of (probe_all m now answers) b.name ≡ verdict m (now b) (answers b) b
  unfolding probe_all
  probe_all-verdict m before after b e hb ha =
      ap (λ bs. state_of (probe_each m now answers bs) b.name) e
      ∙ probe_each-verdict m before after b hb ha
