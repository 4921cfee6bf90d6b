-- ===== src/Proxy/Serve.antt =====
-- `ServeHTTP` of internal/proxy/proxy.go: what a request does to the store before it is passed on.
-- What goes over the network is not modelled: the request passed on is an outcome.
use hapudding.Base.{ℕ, [], Bool, true, false, none, some, if◌then◌else◌, ◌==◌}
use hapudding.Text.{Bytes, is_empty}
use hapudding.Config.{Backend}
use hapudding.Store.Types.{Store, TokenRow}
use hapudding.Store.Tokens.{hash_anon, hash_session_ip, bind_token}
use hapudding.Store.Bindings.{bind_device, bind_anon, delete_client}
use hapudding.Router.Types.{
  Identifiers, Request, HapError, no_error, no_eligible_backend, store_unavailable,
  backend_disabled, bound_backend_unavailable, reauth_required, Decision, Router, client_ip,
}
use hapudding.Router.Decide.{decide}
use hapudding.Proxy.Paths.{is_status_path, is_login_path, name_of, path_user_id}

-- `hap` is what `writeHAP` writes: the status, the code and the name of the backend.
pub data Outcome : Type 0 where
  not_found bad_request : Outcome
  hap : ℕ → HapError → Bytes → Outcome
  logs_in : Decision → Outcome
  passes_on : Backend → Bool → Outcome

-- if status == 0 { status = http.StatusServiceUnavailable }
abbrev write_hap : ℕ → HapError → Bytes → Outcome
write_hap status code backend = hap (if status == 0 then 503 else status) code backend

-- store.TokenRow{UserID: pathUserID(r.URL.Path), …}
unfoldable pub meta_of : Request → Identifiers → TokenRow
meta_of req id = record {
  token_hash = [];
  backend = [];
  user_id = path_user_id req.path;
  username = [];
  device_id = id.device_id;
  client = id.client;
  device = id.device;
  version = id.version;
  session_id = [];
  created_at = 0;
  last_seen = 0;
  last_method = [];
  last_path = [];
  last_status = 0;
}

unfoldable pub bind_identity : Store → ℕ → Request → Identifiers → Bytes → Store
bind_identity st now req id backend =
    if is_empty id.device_id
    then (bind_anon st now (hash_anon st (client_ip req) req.user_agent) backend).1
    else (bind_device st now id.device_id backend id.client).1

unfoldable pub bind_session : Store → ℕ → Request → Identifiers → Bytes → Store
bind_session st now req id backend =
    if is_empty id.token
    then st
    else let st' = (bind_token st now id.token backend (meta_of req id)).1 in
      (bind_anon st' now (hash_session_ip st' (client_ip req)) backend).1

abbrev pub is_error : HapError → Bool
is_error no_error = false
is_error store_unavailable = true
is_error backend_disabled = true
is_error bound_backend_unavailable = true
is_error reauth_required = true
is_error no_eligible_backend = true

-- `ServeHTTP` behind `Decide` and `DeleteClient`.
unfoldable pub serve_decision : Store → ℕ → Request → Identifiers → Decision → Outcome × Store
serve_decision st now req id d =
    if is_error d.hap_error
    then (write_hap d.hap_status d.hap_error (name_of d.backend), st)
    else elim d.backend [
      | none ↦ (write_hap 503 no_eligible_backend [], st)
      | some b ↦
          if is_login_path req.method req.path
          then (logs_in d, st)
          else let st' = bind_identity st now req id b.name in
            (passes_on b d.graylisted, bind_session st' now req id b.name)
    ]

-- `accepted` tells whether `acceptExpectContinue` could read the body.
unfoldable pub serve_http : Router → ℕ → Request → Identifiers → Bool → Outcome × Router
serve_http r now req id accepted =
    if is_status_path req.path
    then (not_found, r)
    else if accepted
    then (let (d, st) = decide r now req id in
        let st' = if d.drop_client then (delete_client st id.token id.device_id).1 else st in
        let (outcome, st'') = serve_decision st' now req id d in (outcome, record r { st = st'' }))
    else (bad_request, r)
