-- ===== src/Proxy/Candidates.antt =====
-- Which of the candidates `login` of internal/proxy/proxy.go answers from.
use hapudding.Base.{◌≡◌, ◌≢◌, List, [], ◌∷◌, ◌++◌, Option, none, some, All, ◌⊎◌}
use hapudding.Config.{Backend}
use hapudding.Proxy.Login.{Answer, LoginOutcome, answered, no_eligible, login_failed, unreachable}

module _ (hop : Backend → Option Answer) where
  -- A candidate that does not settle the login: it cannot be reached, or it answers 401.
  abbrev Fails : Backend → Type 0
  Fails b = (hop b ≡ none) ⊎ ((ans : Answer) × (hop b ≡ some ans) × (ans.status ≡ 401))

  -- `b` answered, behind candidates that failed, and with another status than 401 unless it is the
  -- last.
  pub record Settles (cands : List Backend) (b : Backend) (ans : Answer) : Type 0 where
    pub before : List Backend
    pub after : List Backend
    pub split : cands ≡ before ++ b ∷ after
    pub failed : All Fails before
    pub answer : hop b ≡ some ans
    final : (ans.status ≢ 401) ⊎ (after ≡ [])

  -- What an outcome says of the candidates.
  unfoldable pub Explains : List Backend → LoginOutcome → Type 0
  Explains cands (answered b ans) = Settles cands b ans
  Explains cands no_eligible = cands ≡ []
  Explains cands login_failed = All Fails cands
  Explains cands unreachable = All Fails cands
