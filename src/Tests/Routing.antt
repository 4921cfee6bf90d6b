-- ===== src/Tests/Routing.antt =====
-- Examples on the decisions of the router and what the proxy binds.
use hapudding.Base.{◌≡◌, refl, [], ◌∷◌, ◌*◌, ◌^◌, true, false, none, some, inl, ◌⊎◌}
use hapudding.Base.Int.{pos}
use hapudding.Text.{
  codes, str_eq, has_prefix, has_suffix, contains, to_lower, equal_fold, lower_byte,
}
use hapudding.Config.Graylist.{
  matches_client, matches_path, client_names, names_infuse, match_paths, any_contained, any_prefix,
}
use hapudding.Health.Monitor.{state_of, snapshot}
use hapudding.Store.Types.{ok, err, unix, expired}
use hapudding.Store.Table.{find}
use hapudding.Store.Tokens.{lookup_token, bind_token, hash_token}
use hapudding.Store.Bindings.{lookup_device}
use hapudding.Router.Types.{
  Router, by, backend_in, no_error, store_unavailable, no_eligible_backend,
}
use hapudding.Router.Flags.{is_disabled}
use hapudding.Router.Pick.{eligible, pick_eligible}
use hapudding.Router.Placement.{Placed, pick_eligible_lem}
use hapudding.Router.Safety.{MayServe, pins, decide-MayServe}
use hapudding.Router.Affinity.{KeepsTo, decide-KeepsTo, decide-store_fails}
use hapudding.Router.Decide.{is_graylisted, policy_for, bound, serves_bound, decide, decide_rows}
use hapudding.Proxy.Paths.{is_status_path, is_login_path}
use hapudding.Proxy.Serve.{passes_on, serve_http, serve_decision}
use hapudding.Proxy.Sticky.{serve_http-KeepsTo}
use hapudding.Tests.Data.{beta, no_rows, router_over, phone, item_request, row_of}

abbrev one_token : Router
one_token = router_over (record no_rows { tokens = row_of (codes "t") (codes "beta") [] ∷ [] })

one_token_found :
    (lookup_token one_token.st (10 ^ 9) (codes "t")).0
    ≡ ok (some (row_of (codes "t") (codes "beta") []))
unfolding lookup_token hash_token find str_eq expired
one_token_found = refl

decide-KeepsTo_example :
    KeepsTo one_token (codes "beta") (decide one_token (10 ^ 9) item_request phone).0
decide-KeepsTo_example =
    decide-KeepsTo one_token (10 ^ 9) item_request phone (row_of (codes "t") (codes "beta") []) refl
      one_token_found

bound_token : (bind_token no_rows 0 (codes "t") (codes "alpha") (row_of [] [] [])).0 ≡ ok tt
unfolding bind_token
bound_token = refl

fresh : expired (10 ^ 9) (unix 0) (pos (3600 * 10 ^ 9)) ≡ false
unfolding expired
fresh = refl

abbrev broken : Router
broken = router_over (record no_rows { fails = λ _. true })

lookup_fails :
    ((lookup_token broken.st 0 (codes "t")).0 ≡ err)
    ⊎ ((lookup_device (lookup_token broken.st 0 (codes "t")).1 0 (codes "d")).0 ≡ err)
unfolding lookup_token
lookup_fails = inl refl

decide-store_fails_example :
    ((decide broken 0 item_request phone).0.backend ≡ none)
    × ((decide broken 0 item_request phone).0.hap_error ≡ store_unavailable)
    × ((decide broken 0 item_request phone).0.hap_status ≡ 503)
decide-store_fails_example = decide-store_fails broken 0 item_request phone lookup_fails

decided :
    ((decide one_token (10 ^ 9) item_request phone).0.hap_error ≡ no_error)
    × ((decide one_token (10 ^ 9) item_request phone).0.backend ≡ some beta)
unfolding decide lookup_token lookup_device hash_token find str_eq expired decide_rows is_graylisted
    policy_for bound is_disabled state_of snapshot serves_bound by backend_in matches_client
    matches_path client_names names_infuse match_paths any_contained any_prefix contains has_prefix
    to_lower lower_byte
decided = (refl, refl)

decide-MayServe_example : MayServe one_token (pins one_token) beta
decide-MayServe_example =
    decide-MayServe one_token (10 ^ 9) item_request phone beta decided.0 decided.1

pick_eligible_lem_example :
    ((eligible one_token ≡ [])
      × ((pick_eligible one_token phone (codes "beta")).hap_error ≡ no_eligible_backend))
    ⊎ Placed one_token (pick_eligible one_token phone (codes "beta"))
pick_eligible_lem_example = pick_eligible_lem one_token phone (codes "beta")

later : expired (2 * 10 ^ 9) (unix (10 ^ 9)) (pos (3600 * 10 ^ 9)) ≡ false
unfolding expired
later = refl

passed : (serve_http one_token (10 ^ 9) item_request phone true).0 ≡ passes_on beta false
unfolding serve_http is_status_path decide lookup_token lookup_device hash_token find str_eq expired
    decide_rows is_graylisted policy_for bound is_disabled state_of snapshot serves_bound by
    backend_in matches_client matches_path client_names names_infuse match_paths any_contained
    any_prefix contains has_prefix has_suffix to_lower lower_byte serve_decision is_login_path
    equal_fold
passed = refl

serve_http-KeepsTo_example :
    KeepsTo
      (serve_http one_token (10 ^ 9) item_request phone true).1
      (codes "beta")
      (decide
        (serve_http one_token (10 ^ 9) item_request phone true).1
        (2 * 10 ^ 9)
        item_request
        phone).0
serve_http-KeepsTo_example =
    serve_http-KeepsTo one_token (10 ^ 9) (2 * 10 ^ 9) item_request item_request phone phone beta
      false refl refl refl refl passed later refl
