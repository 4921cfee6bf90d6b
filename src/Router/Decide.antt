-- ===== src/Router/Decide.antt =====
-- `Decide` of internal/router/router.go, with the policies at a backend that is down. A lookup may
-- delete a row that has run out, so a decision comes with the store that it leaves.
use hapudding.Base.{
  ℕ, [], ◌∷◌, Bool, true, false, not, ◌&&◌, ◌||◌, Option, none, some, ltb, if◌then◌else◌, is_none,
  length,
}
use hapudding.Text.{Bytes, codes, is_empty, str_eq}
use hapudding.Config.{Backend}
use hapudding.Config.Graylist.{matches_client, matches_path}
use hapudding.Health.Monitor.{State, unknown, healthy, degraded, unhealthy, state_of}
use hapudding.Store.Types.{
  Store, TokenRow, SimpleBinding, ok, err, BindingKind, kind_token, kind_device, kind_anon,
}
use hapudding.Store.Tokens.{lookup_token, hash_anon, hash_session_ip}
use hapudding.Store.Bindings.{lookup_device, lookup_anon}
use hapudding.Store.Reports.{counts_by_backend, ping}
use hapudding.Router.Types.{
  Identifiers, Request, Decision, no_decision, store_unavailable, backend_disabled,
  bound_backend_unavailable, reauth_required, Router, by, client_ip, cookie_hint,
  is_session_media_path,
}
use hapudding.Router.Flags.{is_disabled}
use hapudding.Router.Pick.{pick_eligible, hash_name, names, load_of, eligible}

abbrev pub fail_closed : Bytes
fail_closed = codes "fail_closed"

abbrev pub pin_unhealthy : Bytes
pin_unhealthy = codes "pin_unhealthy"

abbrev pub store_is_unavailable : Decision
store_is_unavailable = record no_decision { hap_error = store_unavailable; hap_status = 503 }

-- `Graylisted`, at the two stored classes
unfoldable pub is_graylisted : Router → Request → Identifiers → Bytes → Bytes → Bool
is_graylisted r req id token_client device_client =
    let g = r.cfg.affinity.graylist in
    matches_client g id.client
    || (matches_path g req.path
        || (matches_client g token_client || matches_client g device_client))

unfoldable pub policy_for : Router → Bool → Bytes
policy_for r false = r.cfg.affinity.policy
policy_for r true =
    if is_empty r.cfg.affinity.graylist.policy then fail_closed else r.cfg.affinity.graylist.policy

-- The states at which a bound client is served.
unfoldable pub serves_bound : State → Bool
serves_bound healthy = true
serves_bound degraded = true
serves_bound unknown = true
serves_bound unhealthy = false

-- &Decision{Backend: b, Kind: kind, Bound: true, Graylisted: gray}
abbrev bound_to : Option Backend → BindingKind → Bool → Decision
bound_to b kind gray = record no_decision {
  backend = b;
  kind = kind;
  is_bound = true;
  graylisted = gray;
}

-- `bound` at a backend that is down: the `switch policy`.
unfoldable pub bound_down : Router → Bytes → BindingKind → Identifiers → Bytes → Bool → Decision
bound_down r name kind id policy gray =
    if str_eq policy fail_closed
    then record (bound_to (by r name) kind gray) {
      hap_error = bound_backend_unavailable;
      hap_status = 503;
    }
    else if str_eq policy pin_unhealthy
    then elim (by r name) [
      | some b ↦ bound_to (some b) kind gray
      | none ↦ record no_decision {
        graylisted = gray;
        hap_error = bound_backend_unavailable;
        hap_status = 503;
      }
    ]
    else if is_empty id.token
    then record (pick_eligible r id []) { drop_client = true; kind = kind; graylisted = gray }
    else record no_decision {
      drop_client = true;
      kind = kind;
      refuse_token = true;
      graylisted = gray;
      hap_error = reauth_required;
      hap_status = 401;
    }

unfoldable pub bound : Router → Bytes → BindingKind → Identifiers → Bytes → Bool → Decision
bound r name kind id policy gray =
    if is_disabled r.flags name
    then record (bound_to (by r name) kind gray) { hap_error = backend_disabled; hap_status = 503 }
    else if serves_bound (state_of r.mon name)
    then bound_to (by r name) kind gray
    else bound_down r name kind id policy gray

-- `pickNew` under pin_unhealthy, at the name that the hash over the whole pool gives.
unfoldable pub pick_pinned : Router → Bytes → Bool → Decision
pick_pinned r name gray =
    let placed = record no_decision { backend = by r name; graylisted = gray } in
    if is_disabled r.flags name
    then record placed { kind = kind_device; hap_error = backend_disabled; hap_status = 503 }
    else elim (state_of r.mon name) [
      | unhealthy ↦ record placed {
        kind = kind_device;
        hap_error = bound_backend_unavailable;
        hap_status = 503;
      }
      | _ ↦ placed
    ]

unfoldable pub pick_new : Router → Request → Identifiers → Bytes → Bytes → Bool → Decision
pick_new r req id anon_key policy gray =
    if str_eq policy pin_unhealthy
    then pick_pinned r (hash_name id.device_id anon_key (names r)) gray
    else record (pick_eligible r id (cookie_hint req)) { graylisted = gray }

unfoldable pub has_live_binding : Router → Bytes → Bool
has_live_binding r name = elim (counts_by_backend r.st) [
  | err ↦ false
  | ok counts ↦ ltb 0 (load_of counts name)
]

-- `Some d` where the Go code returns `d, true`.
unfoldable pub follow_session :
    Router → ℕ → Request → Identifiers → Bytes → Bool → Option Decision × Store
follow_session r now req id policy gray =
    let hint = cookie_hint req in
    if not (is_empty hint) && (not (is_none (by r hint)) && has_live_binding r hint)
    then (some (bound r hint kind_anon id policy gray), r.st)
    else let (res, st) = lookup_anon r.st now (hash_session_ip r.st (client_ip req)) in
      elim res [
        | err ↦ (some store_is_unavailable, st)
        | ok none ↦ (none, st)
        | ok (some row) ↦
            (some (bound (record r { st = st }) row.backend kind_anon id policy gray), st)
      ]

-- The last steps of `Decide`: the anonymous binding, else a new placement.
unfoldable pub decide_anon : Router → ℕ → Request → Identifiers → Bytes → Bool → Decision × Store
decide_anon r now req id policy gray =
    let anon_key = hash_anon r.st (client_ip req) req.user_agent in
    let (res, st) = lookup_anon r.st now anon_key in
    let r' = record r { st = st } in
    elim res [
      | err ↦ (store_is_unavailable, st)
      | ok none ↦ (pick_new r' req id anon_key policy gray, st)
      | ok (some row) ↦ (bound r' row.backend kind_anon id policy gray, st)
    ]

-- `Decide` of a client with neither a token row nor a device row.
unfoldable pub decide_unbound : Router → ℕ → Request → Identifiers → Bytes → Bool → Decision × Store
decide_unbound r now req id policy gray =
    if is_session_media_path req
    then (let (found, st) = follow_session r now req id policy gray in
        elim found [
          | some d ↦ (d, st)
          | none ↦ decide_anon (record r { st = st }) now req id policy gray
        ])
    else decide_anon r now req id policy gray

abbrev token_class : Option TokenRow → Bytes
token_class none = []
token_class (some row) = row.client

abbrev pub device_class : Option SimpleBinding → Bytes
device_class none = []
device_class (some row) = row.client

-- `Decide` behind the two lookups.
unfoldable pub decide_rows :
    Router → ℕ → Request → Identifiers → Option TokenRow → Option SimpleBinding → Decision × Store
decide_rows r now req id (some row) device =
    let gray = is_graylisted r req id row.client (device_class device) in
    (bound r row.backend kind_token id (policy_for r gray) gray, r.st)
decide_rows r now req id none (some row) =
    let gray = is_graylisted r req id [] row.client in
    (bound r row.backend kind_device id (policy_for r gray) gray, r.st)
decide_rows r now req id none none =
    let gray = is_graylisted r req id [] [] in decide_unbound r now req id (policy_for r gray) gray

unfoldable pub decide : Router → ℕ → Request → Identifiers → Decision × Store
decide r now req id =
    let (token_res, st) = lookup_token r.st now id.token in
    elim token_res [
      | err ↦ (store_is_unavailable, st)
      | ok token_row ↦
          let (device_res, st') = lookup_device st now id.device_id in
          elim device_res [
            | err ↦ (store_is_unavailable, st')
            | ok device_row ↦ decide_rows (record r { st = st' }) now req id token_row device_row
          ]
    ]

-- `Ready`: the health of the proxy itself.
unfoldable pub is_ready : Router → Bool
is_ready r = elim (ping r.st) [
  | err ↦ false
  | ok _ ↦ if ltb 0 (length (eligible r)) then true else elim r.cfg.backends [
    | [] ↦ false
    | b ∷ [] ↦ not (is_disabled r.flags b.name) && serves_bound (state_of r.mon b.name)
    | b ∷ _ ∷ _ ↦ false
  ]
]
