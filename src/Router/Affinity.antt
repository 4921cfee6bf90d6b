-- ===== src/Router/Affinity.antt =====
-- The affinity that `Decide` of internal/router/router.go keeps: a token stays with its backend.
use hapudding.Base.{ℕ, ◌≡◌, ◌≢◌, refl, subst, Bool, false, none, some, arith, inl, inr, ◌⊎◌}
use hapudding.Text.{Bytes, is_empty}
use hapudding.Store.Types.{
  TokenRow, ok, err, Result-cases, selects, token_bindings, unix, expired, BindingKind, kind_token,
}
use hapudding.Store.Tokens.{lookup_token, bind_token, hash_token}
use hapudding.Store.RoundTrip.{lookup_token-bind_token}
use hapudding.Store.Bindings.{lookup_device}
use hapudding.Router.Types.{Identifiers, Request, Decision, no_error, store_unavailable, Router, by}
use hapudding.Router.Decide.{
  policy_for, bound_down, bound, is_graylisted, device_class, decide_rows, decide,
}

-- The decision names the backend that the configuration has under a name (none where it has none) and drops
-- nothing; or it names none and has an error.
abbrev pub KeepsTo : Router → Bytes → Decision → Type 0
KeepsTo r name d =
    ((d.backend ≡ by r name) × (d.drop_client ≡ false))
    ⊎ ((d.backend ≡ none) × (d.hap_error ≢ no_error))

bound-KeepsTo :
    (r : Router) (name : Bytes) (kind : BindingKind) (id : Identifiers) (policy : Bytes)
    (gray : Bool)
    → is_empty id.token ≡ false
    → KeepsTo r name (bound r name kind id policy gray)
unfolding bound bound_down
bound-KeepsTo r name kind id policy gray h = ground arith

-- On a request whose token, which is not empty, has a live row, the decision names the backend that the
-- configuration has under the name in the row and does not drop the client, or it names none and has an error;
-- it never names another backend. Where the configuration has no backend of that name, the decision names none,
-- with an error or without. This holds under every policy and in every state of the backends.
pub decide-KeepsTo :
    (r : Router) (now : ℕ) (req : Request) (id : Identifiers) (row : TokenRow)
    → is_empty id.token ≡ false
    → (lookup_token r.st now id.token).0 ≡ ok (some row)
    → KeepsTo r row.backend (decide r now req id).0
unfolding decide decide_rows by
decide-KeepsTo r now req id row h found =
    let st = (lookup_token r.st now id.token).1 in
    let st' = (lookup_device st now id.device_id).1 in
    elim (Result-cases (lookup_device st now id.device_id).0) [
      | inr f ↦ rw (found, f, decide) (inr (refl, ground arith))
      | inl (device_row, f) ↦
          let r' = record r { st = st' } in
          let gray = is_graylisted r' req id row.client (device_class device_row) in
          rw (found, f, decide)
            (bound-KeepsTo r' row.backend kind_token id (policy_for r' gray) gray h)
    ]

-- In the state that a binding of a token without an error leaves, a request with that token is sent
-- to the backend of the binding or to none with an error, until the row runs out, whatever the
-- request, if the lookup of the token does not fail. Token and backend are not empty.
decide-bind_token :
    (r : Router) (now later : ℕ) (backend : Bytes) (meta : TokenRow) (req : Request)
    (id : Identifiers)
    → is_empty id.token ≡ false
    → is_empty backend ≡ false
    → (bind_token r.st now id.token backend meta).0 ≡ ok tt
    → r.st.fails (selects token_bindings (hash_token r.st id.token)) ≡ false
    → expired later (unix now) r.st.token_ttl ≡ false
    → KeepsTo r backend
        (decide (record r { st = (bind_token r.st now id.token backend meta).1 }) later req id).0
unfolding by
decide-bind_token r now later backend meta req id filled named done works fresh =
    let r' = record r { st = (bind_token r.st now id.token backend meta).1 } in
    let (row, found, to) =
      lookup_token-bind_token r.st now later id.token backend meta filled named done works fresh in
    subst (λ b. KeepsTo r' b (decide r' later req id).0) to
      (decide-KeepsTo r' later req id row filled found)

-- If the store fails to look up the token or the device that a request carries, the request is
-- refused by a 503 and no backend is chosen.
pub decide-store_fails :
    (r : Router) (now : ℕ) (req : Request) (id : Identifiers)
    → let found = lookup_token r.st now id.token in
      (found.0 ≡ err) ⊎ ((lookup_device found.1 now id.device_id).0 ≡ err)
      → let d = (decide r now req id).0 in
        (d.backend ≡ none) × (d.hap_error ≡ store_unavailable) × (d.hap_status ≡ 503)
unfolding decide
decide-store_fails r now req id (inl e) = rw (e, decide) (refl, refl, refl)
decide-store_fails r now req id (inr e) = elim (Result-cases (lookup_token r.st now id.token).0) [
  | inr f ↦ rw (f, decide) (refl, refl, refl)
  | inl (row, f) ↦ rw (f, e, decide) (refl, refl, refl)
]
