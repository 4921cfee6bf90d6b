-- ===== src/Proxy/Sticky.antt =====
-- A token that `ServeHTTP` of internal/proxy/proxy.go binds is sent to the same backend from then on.
use hapudding.Base.{
  ℕ, ◌≡◌, refl, ap, subst, ◌∙◌, Bool, true, false, Option, some, arith, Bool-cases, Option-cases,
  inl, inr, if◌then◌else◌,
}
use hapudding.Text.{Bytes, is_empty}
use hapudding.Text.Equality.{str_eq_refl}
use hapudding.Config.{Backend}
use hapudding.Store.Types.{
  Store, TokenRow, Result, ok, selects, inserts, token_bindings, unix, expired,
}
use hapudding.Store.Tokens.{bind_token, hash_session_ip, hash_anon, hash_token}
use hapudding.Store.Bindings.{bind_anon, delete_client}
use hapudding.Store.RoundTrip.{
  token_at, token_at-bind_token, bound_row, bound_row_fields, lookup_token-found,
}
use hapudding.Store.Frame.{
  SameEnv, trans, bind_device-SameEnv, bind_anon-SameEnv, bind_token-SameEnv, delete_client-SameEnv,
  tokens-bind_anon,
}
use hapudding.Router.Types.{Identifiers, Request, Decision, Router, client_ip}
use hapudding.Router.Decide.{decide}
use hapudding.Router.Frame.{decide-SameEnv}
use hapudding.Router.Affinity.{KeepsTo, decide-KeepsTo}
use hapudding.Proxy.Paths.{is_status_path, is_login_path}
use hapudding.Proxy.Serve.{
  passes_on, meta_of, bind_identity, bind_session, is_error, serve_decision, serve_http,
}

bind_identity-SameEnv :
    (st : Store) (now : ℕ) (req : Request) (id : Identifiers) (backend : Bytes)
    → SameEnv (bind_identity st now req id backend) st
unfolding bind_identity
bind_identity-SameEnv st now req id backend = elim (Bool-cases (is_empty id.device_id)) [
  | inl e ↦
      rw (e, bind_identity)
        (bind_anon-SameEnv st now (hash_anon st (client_ip req) req.user_agent) backend)
  | inr e ↦ rw (e, bind_identity) (bind_device-SameEnv st now id.device_id backend id.client)
]

-- The row that the token of a request has once the request is bound.
session_row :
    (st : Store) (now : ℕ) (req : Request) (id : Identifiers) (backend : Bytes)
    → is_empty id.token ≡ false
    → is_empty backend ≡ false
    → st.fails (inserts token_bindings (st.sha id.token)) ≡ false
    → let st' = bind_session st now req id backend in
      (row : TokenRow) × (token_at st' id.token ≡ some row)
      × (row.backend ≡ backend)
      × (row.last_seen ≡ unix now)
      × SameEnv st' st
unfolding bind_session hash_token
session_row st now req id backend filled named works =
    let meta = meta_of req id in
    let mid : Store = (bind_token st now id.token backend meta).1 in
    let k = hash_session_ip mid (client_ip req) in
    let env = bind_token-SameEnv st now id.token backend meta in
    let env' = bind_anon-SameEnv mid now k backend in
    let tokens = tokens-bind_anon mid now k backend in
    let done : (bind_token st now id.token backend meta).0 ≡ ok tt =
      unfold bind_token in unfold hash_token in rw (filled, named, works) refl in
    let found : token_at mid id.token ≡ some (bound_row st now id.token backend meta) =
      token_at-bind_token st now id.token backend meta id.token done
      ∙ rw (filled, named, str_eq_refl (hash_token st id.token)) in
    let (to, seen) = bound_row_fields st now id.token backend meta in
    rw (filled, bind_session)
      (
        bound_row st now id.token backend meta,
        rw (tokens, env'.2) found,
        to,
        seen,
        trans (bind_anon mid now k backend).1 mid st env' env,
      )

-- A request of a decision that is passed on to `b` leaves a row of its token that names `b`.
serve_decision_row :
    (st : Store) (now : ℕ) (req : Request) (id : Identifiers) (d : Decision) (b : Backend)
    (gray : Bool)
    → is_empty id.token ≡ false
    → is_empty b.name ≡ false
    → st.fails (inserts token_bindings (st.sha id.token)) ≡ false
    → (serve_decision st now req id d).0 ≡ passes_on b gray
    → let st' = (serve_decision st now req id d).1 in
      (row : TokenRow) × (token_at st' id.token ≡ some row)
      × (row.backend ≡ b.name)
      × (row.last_seen ≡ unix now)
      × SameEnv st' st
unfolding serve_decision
serve_decision_row st now req id d b gray filled named works h =
    elim (Bool-cases (is_error d.hap_error)) [
      | inl e ↦ absurd (ground arith)
      | inr e ↦ elim (Option-cases d.backend) [
        | inl f ↦ absurd (ground arith)
        | inr (b', f) ↦ elim (Bool-cases (is_login_path req.method req.path)) [
          | inl g ↦ absurd (ground arith)
          | inr g ↦
              let same : b' ≡ b = ground arith in
              let st' : Store = bind_identity st now req id b'.name in
              let env = bind_identity-SameEnv st now req id b'.name in
              let named' : is_empty b'.name ≡ false = rw same named in
              let works' : st'.fails (inserts token_bindings (st'.sha id.token)) ≡ false =
                rw (env.1, env.2) works in
              let (row, found, to, seen, env') =
                session_row st' now req id b'.name filled named' works' in
              rw (e, f, g, serve_decision)
                (
                  row,
                  found,
                  to ∙ ap (λ (x : Backend). x.name) same,
                  seen,
                  trans (bind_session st' now req id b'.name) st' st env' env,
                )
        ]
      ]
    ]

-- The state behind a request that was passed on, with the row of its token.
served_row :
    (r : Router) (now : ℕ) (req : Request) (id : Identifiers) (b : Backend) (gray : Bool)
    → is_empty id.token ≡ false
    → is_empty b.name ≡ false
    → r.st.fails (inserts token_bindings (r.st.sha id.token)) ≡ false
    → (serve_http r now req id true).0 ≡ passes_on b gray
    → let st' = (serve_http r now req id true).1.st in
      (row : TokenRow) × (token_at st' id.token ≡ some row)
      × (row.backend ≡ b.name)
      × (row.last_seen ≡ unix now)
      × SameEnv st' r.st
unfolding serve_http
served_row r now req id b gray filled named works h =
    let d = (decide r now req id).0 in
    let st : Store = (decide r now req id).1 in
    let st' : Store = if d.drop_client then (delete_client st id.token id.device_id).1 else st in
    let env = decide-SameEnv now req id r in
    let env' : SameEnv st' st = elim (Bool-cases d.drop_client) [
      | inl e ↦ rw e (delete_client-SameEnv st id.token id.device_id)
      | inr e ↦ rw e (refl, refl, refl)
    ] in
    let (p, q, s) = trans st' st r.st env' env in
    let works' : st'.fails (inserts token_bindings (st'.sha id.token)) ≡ false = rw (q, s) works in
    elim (Bool-cases (is_status_path req.path)) [
      | inl e ↦ absurd (ground arith)
      | inr e ↦
          let h' : (serve_decision st' now req id d).0 ≡ passes_on b gray = ground arith in
          let (row, found, to, seen, env'') =
            serve_decision_row st' now req id d b gray filled named works' h' in
          rw (e, serve_http)
            (
              row,
              found,
              to,
              seen,
              trans (serve_decision st' now req id d).1 st' r.st env'' (p, q, s),
            )
    ]

-- Once a request with a token was passed on to a backend, the decision on a request with that
-- token, at any later time in the state that the first left, is for that backend or an error, until
-- the row runs out: whatever the request, the policy and the backends' states, if neither the
-- insert of the row nor its lookup fails. Token and name are not empty.
pub serve_http-KeepsTo :
    (r : Router) (now later : ℕ) (req next : Request) (id next_id : Identifiers) (b : Backend)
    (gray : Bool)
    → is_empty id.token ≡ false
    → is_empty b.name ≡ false
    → r.st.fails (inserts token_bindings (r.st.sha id.token)) ≡ false
    → r.st.fails (selects token_bindings (r.st.sha id.token)) ≡ false
    → (serve_http r now req id true).0 ≡ passes_on b gray
    → expired later (unix now) r.st.token_ttl ≡ false
    → next_id.token ≡ id.token
    → let r' = (serve_http r now req id true).1 in
      KeepsTo r' b.name (decide r' later next next_id).0
unfolding hash_token
serve_http-KeepsTo r now later req next id next_id b gray filled named works reads h fresh same =
    let r' : Router = (serve_http r now req id true).1 in
    let (row, found, to, seen, (p, q, s)) = served_row r now req id b gray filled named works h in
    let reads' : r'.st.fails (selects token_bindings (hash_token r'.st next_id.token)) ≡ false =
      rw (q, s, same) reads in
    let fresh' : expired later row.last_seen r'.st.token_ttl ≡ false = rw (seen, p) fresh in
    let filled' : is_empty next_id.token ≡ false = rw same filled in
    let found' : token_at r'.st next_id.token ≡ some row = rw same found in
    let looked = lookup_token-found r'.st later next_id.token row filled' reads' found' fresh' in
    subst (λ n. KeepsTo r' n (decide r' later next next_id).0) to
      (decide-KeepsTo r' later next next_id row filled'
        (ap (λ (x : Result (Option TokenRow) × Store). x.0) looked))
