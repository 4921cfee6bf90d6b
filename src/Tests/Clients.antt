-- ===== src/Tests/Clients.antt =====
-- Examples on the login, the cap on library hops and the headers of clients.
use hapudding.Base.{
  List, ◌+◌, ◌≡◌, ◌≤◌, refl, [], ◌∷◌, Option, none, some, arith, All, false, if◌then◌else◌,
}
use hapudding.Text.{Bytes, codes, str_eq}
use hapudding.Health.Probe.{Answers, answered, probe_all}
use hapudding.Health.Round.{probe_all-verdict}
use hapudding.Health.Verdict.{verdict}
use hapudding.Health.Monitor.{state_of}
use hapudding.Store.Types.{Counts}
use hapudding.Router.Pick.{least_loaded_of}
use hapudding.Router.Balance.{least_loaded_of-minimal}
use mathlib.Core.List.{Memᴰ}
use hapudding.Config.{Backend}
use hapudding.Proxy.Login.{Answer, LoginState}
use hapudding.Proxy.LibSem.{LibSem, Event, new_lib_sem, acquire, acquires, releases}
use hapudding.AuthHeader.Parse.{apply_parts, parse_media_browser, named_values_from}
use hapudding.AuthHeader.Quoted.{token_header, named_values_from-fuel, parse-token_header}
use hapudding.Tests.Data.{alpha, beta, no_rows, all_healthy}

-- alpha answers 401 and beta lets the user in.
abbrev hop : Backend → Option Answer
hop b = some (record { status = if str_eq b.name (codes "alpha") then 401 else 200; json = none })

abbrev before : LoginState
before = record { st = no_rows; mon = all_healthy }

abbrev comings : List Event
comings = acquires (codes "a") ∷ acquires (codes "a") ∷ releases (codes "a") ∷ []

abbrev one_held : LibSem
one_held = record { max = 1; held = λ k. if str_eq (codes "a") k then 1 else 0 }

acquired : acquire (new_lib_sem 1) (codes "a") ≡ some one_held
unfolding acquire
acquired = refl

named_values_from-fuel_example :
    named_values_from (λ s. some s) 9 [] (codes "Token=abc")
    ≡ named_values_from (λ s. some s) 20 [] (codes "Token=abc")
named_values_from-fuel_example =
    named_values_from-fuel (λ s. some s) 9 20 [] (codes "Token=abc") (omega arith) (omega arith)

parse-token_header_example :
    apply_parts (parse_media_browser (λ s. some s) (token_header (codes "abc")))
    ≡ record { token = codes "abc"; device_id = []; client = []; device = []; version = [] }
parse-token_header_example =
    parse-token_header (λ s. some s) (codes "abc")
      ((refl, refl), ((refl, refl), ((refl, refl), tt)))

-- alpha has one binding, beta none.
abbrev bindings : Bytes → Counts
bindings name = record {
  tokens = if str_eq name (codes "alpha") then 1 else 0;
  devices = 0;
  anons = 0;
}

least_loaded_of-minimal_example :
    let r = least_loaded_of bindings alpha (beta ∷ []) in
    Memᴰ r (alpha ∷ beta ∷ [])
    × All
        (λ b.
          (bindings r.name).tokens + (bindings r.name).devices
          ≤ (bindings b.name).tokens + (bindings b.name).devices)
        (alpha ∷ beta ∷ [])
least_loaded_of-minimal_example = least_loaded_of-minimal bindings alpha (beta ∷ [])

-- Every call is answered by a 200, but the probe's login is refused.
abbrev answers : Answers
answers = record {
  reachability = answered 200 [] [];
  public_info = answered 200 [] [];
  jellyfin_health = answered 200 [] [];
  auth = answered 401 [] [];
  decode = λ _. none;
}

differ : str_eq (codes "alpha") (codes "beta") ≡ false
unfolding str_eq
differ = refl

probe_all-verdict_example :
    state_of (probe_all all_healthy (λ _. 0) (λ _. answers)) (codes "beta")
    ≡ verdict all_healthy 0 answers beta
probe_all-verdict_example =
    probe_all-verdict (λ _. 0) (λ _. answers) all_healthy (alpha ∷ []) [] beta refl (differ, tt) tt
