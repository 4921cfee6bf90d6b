-- ===== src/Proxy/LibSem.antt =====
-- `libSem` of internal/proxy/proxy_perf.go: for each backend a channel that holds at most `max`
-- tokens. `acquire` is `none` where it would wait, or where the request's context ends first.
use hapudding.Base.{ℕ, suc, ◌-◌, ◌≡◌, List, [], ◌∷◌, Option, none, some, ltb, if◌then◌else◌, arith}
use hapudding.Text.{Bytes, str_eq}
use hapudding.Text.Equality.{str_eq_iff, str_eq_refl}

pub record LibSem : Type 0 where
  pub max : ℕ
  pub held : Bytes → ℕ

-- `newLibSem`
abbrev pub new_lib_sem : ℕ → LibSem
new_lib_sem max = record { max = if ltb max 1 then 1 else max; held = λ _. 0 }

abbrev hold : LibSem → Bytes → ℕ → LibSem
hold s name n = record s { held = λ k. if str_eq name k then n else s.held k }

unfoldable pub acquire : LibSem → Bytes → Option LibSem
acquire s name = if ltb (s.held name) s.max then some (hold s name (suc (s.held name))) else none

-- The channel may be empty: then nothing is taken.
unfoldable pub release : LibSem → Bytes → LibSem
release s name = hold s name (s.held name - 1)

-- The requests, as they come in: an acquire that would wait leaves the channel as it is.
pub data Event : Type 0 where
  acquires releases : Bytes → Event

unfoldable pub step : LibSem → Event → LibSem
step s (acquires name) = elim (acquire s name) [ none ↦ s | some s' ↦ s' ]
step s (releases name) = release s name

unfoldable pub run : LibSem → List Event → LibSem
run s [] = s
run s (e ∷ es) = run (step s e) es

-- A hop that could be acquired and is released leaves every backend's count of hops as it was.
pub release-acquire :
    (s s' : LibSem) (name k : Bytes)
    → acquire s name ≡ some s'
    → (release s' name).held k ≡ s.held k
unfolding acquire release
release-acquire s s' name k h = ground (arith, str_eq_iff name k, str_eq_refl name)
