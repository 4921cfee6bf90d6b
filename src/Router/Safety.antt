-- ===== src/Router/Safety.antt =====
-- What `Decide` of internal/router/router.go promises of the backend that it names, over every path
-- through it.
use hapudding.Base.{
  ℕ, ◌≡◌, refl, subst, [], Bool, true, false, not, Option, none, some, arith, Bool-cases,
  Option-cases, inl, inr, ◌||◌, ◌&&◌, ◌⊎◌, is_none,
}
use hapudding.Text.{Bytes, str_eq, is_empty}
use hapudding.Config.{Backend}
use hapudding.Health.Monitor.{State, unknown, healthy, degraded, unhealthy, state_of}
use hapudding.Store.Types.{
  TokenRow, SimpleBinding, Result-cases, BindingKind, kind_token, kind_device, kind_anon,
}
use hapudding.Store.Tokens.{lookup_token, hash_anon, hash_session_ip}
use hapudding.Store.Bindings.{lookup_device, lookup_anon}
use hapudding.Router.Types.{
  Identifiers, Request, Decision, no_error, Router, by, client_ip, cookie_hint,
  is_session_media_path,
}
use hapudding.Router.Flags.{is_disabled}
use hapudding.Router.Pick.{takes_new, is_eligible, pick_eligible, hash_name, names}
use hapudding.Router.Decide.{
  pin_unhealthy, fail_closed, store_is_unavailable, policy_for, serves_bound, bound_down, bound,
  pick_pinned, pick_new, has_live_binding, follow_session, decide_anon, decide_unbound,
  is_graylisted, device_class, decide_rows, decide,
}
use hapudding.Router.Placement.{backend_in-name, pick_eligible_lem}

by-name : (r : Router) (name : Bytes) (b : Backend) → by r name ≡ some b → b.name ≡ name
unfolding by
by-name r name b h = backend_in-name r.cfg.backends name b h

-- A backend that may be sent traffic: not disabled, and not down unless the policy pins.
abbrev pub MayServe : Router → Bool → Backend → Type 0
MayServe r pinned b =
    (is_disabled r.flags b.name ≡ false)
    × ((pinned ≡ true) ⊎ (serves_bound (state_of r.mon b.name) ≡ true))

-- A decision that forwards names a backend that may be sent traffic.
abbrev IsSafe : Router → Bool → Decision → Type 0
IsSafe r pinned d =
    (b : Backend) → d.hap_error ≡ no_error → d.backend ≡ some b → MayServe r pinned b

serves_of_takes : (s : State) (require : Bytes) → takes_new s require ≡ true → serves_bound s ≡ true
unfolding takes_new serves_bound
serves_of_takes healthy require h = refl
serves_of_takes unknown require h = refl
serves_of_takes degraded require h = refl
serves_of_takes unhealthy require h = h

eligible-MayServe :
    (r : Router) (pinned : Bool) (b : Backend) → is_eligible r b ≡ true → MayServe r pinned b
unfolding is_eligible
eligible-MayServe r pinned b h =
    let on : is_disabled r.flags b.name ≡ false = ground arith in
    let takes : takes_new (state_of r.mon b.name) r.cfg.affinity.new_clients_require ≡ true =
      ground arith in
    (on, inr (serves_of_takes (state_of r.mon b.name) r.cfg.affinity.new_clients_require takes))

module _ (r : Router) where
  pick_eligible-IsSafe :
      (id : Identifiers) (hint : Bytes) (pinned : Bool) → IsSafe r pinned (pick_eligible r id hint)
  pick_eligible-IsSafe id hint pinned b ok_ to = elim (pick_eligible_lem r id hint) [
    | inl (_, e) ↦ absurd (ground (arith, e))
    | inr p ↦
        let same : p.target ≡ b = ground (arith, p.sent_to) in
        subst (MayServe r pinned) same (eligible-MayServe r pinned p.target p.target_eligible)
  ]

  named-MayServe :
      (pinned : Bool) (name : Bytes) (b : Backend)
      → by r name ≡ some b
      → is_disabled r.flags name ≡ false
      → (pinned ≡ true) ⊎ (serves_bound (state_of r.mon name) ≡ true)
      → MayServe r pinned b
  named-MayServe pinned name b e on up = let same = by-name r name b e in rw same (on, up)

  bound_down-IsSafe :
      (name : Bytes) (kind : BindingKind) (id : Identifiers) (policy : Bytes) (gray : Bool)
      → is_disabled r.flags name ≡ false
      → IsSafe r (str_eq policy pin_unhealthy) (bound_down r name kind id policy gray)
  unfolding bound_down
  bound_down-IsSafe name kind id policy gray on b fine to =
      elim (Bool-cases (str_eq policy fail_closed)) [
        | inl e ↦ absurd (ground arith)
        | inr e ↦ elim (Bool-cases (str_eq policy pin_unhealthy)) [
          | inl f ↦ named-MayServe _ name b (ground arith) on (inl f)
          | inr f ↦
              pick_eligible-IsSafe id [] (str_eq policy pin_unhealthy) b (ground arith)
                (ground arith)
        ]
      ]

  bound-IsSafe :
      (name : Bytes) (kind : BindingKind) (id : Identifiers) (policy : Bytes) (gray : Bool)
      → IsSafe r (str_eq policy pin_unhealthy) (bound r name kind id policy gray)
  unfolding bound
  bound-IsSafe name kind id policy gray b fine to = elim (Bool-cases (is_disabled r.flags name)) [
    | inl e ↦ absurd (ground arith)
    | inr e ↦ elim (Bool-cases (serves_bound (state_of r.mon name))) [
      | inl f ↦ named-MayServe _ name b (ground arith) e (inr f)
      | inr f ↦ bound_down-IsSafe name kind id policy gray e b (ground arith) (ground arith)
    ]
  ]

  pick_pinned-IsSafe :
      (name : Bytes) (gray pinned : Bool) → IsSafe r pinned (pick_pinned r name gray)
  unfolding pick_pinned serves_bound
  pick_pinned-IsSafe name gray pinned b fine to = elim (Bool-cases (is_disabled r.flags name)) [
    | inl e ↦ absurd (ground arith)
    | inr e ↦ named-MayServe pinned name b (ground arith) e (inr (ground arith))
  ]

  pick_new-IsSafe :
      (req : Request) (id : Identifiers) (anon_key policy : Bytes) (gray : Bool)
      → IsSafe r (str_eq policy pin_unhealthy) (pick_new r req id anon_key policy gray)
  unfolding pick_new
  pick_new-IsSafe req id anon_key policy gray b fine to =
      elim (Bool-cases (str_eq policy pin_unhealthy)) [
        | inl e ↦
            pick_pinned-IsSafe (hash_name id.device_id anon_key (names r)) gray _ b (ground arith)
              (ground arith)
        | inr e ↦ pick_eligible-IsSafe id (cookie_hint req) _ b (ground arith) (ground arith)
      ]

  unavailable-IsSafe : (pinned : Bool) → IsSafe r pinned store_is_unavailable
  unavailable-IsSafe pinned b fine to = absurd (ground arith)

-- The steps of `Decide`. A changed store leaves the flags and the monitor of the router alone.
module _ (r : Router) (now : ℕ) (req : Request) (id : Identifiers) (policy : Bytes)
    (gray : Bool) where
  decide_anon-IsSafe :
      IsSafe r (str_eq policy pin_unhealthy) (decide_anon r now req id policy gray).0
  unfolding decide_anon
  decide_anon-IsSafe =
      let anon_key = hash_anon r.st (client_ip req) req.user_agent in
      let st = (lookup_anon r.st now anon_key).1 in
      let r' = record r { st = st } in
      elim (Result-cases (lookup_anon r.st now anon_key).0) [
        | inr e ↦ rw (e, decide_anon) (unavailable-IsSafe r (str_eq policy pin_unhealthy))
        | inl (none, e) ↦ rw (e, decide_anon) (pick_new-IsSafe r' req id anon_key policy gray)
        | inl (some row, e) ↦
            rw (e, decide_anon) (bound-IsSafe r' row.backend kind_anon id policy gray)
      ]

  follow_session-IsSafe :
      (d : Decision)
      → (follow_session r now req id policy gray).0 ≡ some d
      → IsSafe r (str_eq policy pin_unhealthy) d
  unfolding follow_session
  follow_session-IsSafe d e =
      let P = IsSafe r (str_eq policy pin_unhealthy) in
      let hint = cookie_hint req in
      let k = hash_session_ip r.st (client_ip req) in
      let st = (lookup_anon r.st now k).1 in
      elim (Bool-cases
        (not (is_empty hint) && (not (is_none (by r hint)) && has_live_binding r hint))) [
          | inl f ↦
              let same : bound r hint kind_anon id policy gray ≡ d = ground arith in
              subst P same (bound-IsSafe r hint kind_anon id policy gray)
          | inr f ↦ elim (Result-cases (lookup_anon r.st now k).0) [
            | inr g ↦
                let same : store_is_unavailable ≡ d = ground arith in
                subst P same (unavailable-IsSafe r (str_eq policy pin_unhealthy))
            | inl (none, g) ↦ absurd (ground arith)
            | inl (some row, g) ↦
                let r' = record r { st = st } in
                let same : bound r' row.backend kind_anon id policy gray ≡ d = ground arith in
                subst P same (bound-IsSafe r' row.backend kind_anon id policy gray)
          ]
        ]

decide_unbound-IsSafe :
    (r : Router) (now : ℕ) (req : Request) (id : Identifiers) (policy : Bytes) (gray : Bool)
    → IsSafe r (str_eq policy pin_unhealthy) (decide_unbound r now req id policy gray).0
unfolding decide_unbound
decide_unbound-IsSafe r now req id policy gray = elim (Bool-cases (is_session_media_path req)) [
  | inr e ↦ rw e (decide_anon-IsSafe r now req id policy gray)
  | inl e ↦ elim (Option-cases (follow_session r now req id policy gray).0) [
    | inl f ↦
        let st = (follow_session r now req id policy gray).1 in
        rw (e, f, decide_unbound) (decide_anon-IsSafe (record r { st = st }) now req id policy gray)
    | inr (d, f) ↦ rw (e, f, decide_unbound) (follow_session-IsSafe r now req id policy gray d f)
  ]
]

-- One of the policies that a request can meet is `pin_unhealthy`.
abbrev pub pins : Router → Bool
pins r = str_eq (policy_for r true) pin_unhealthy || str_eq (policy_for r false) pin_unhealthy

widen :
    (r : Router) (gray : Bool) (d : Decision)
    → IsSafe r (str_eq (policy_for r gray) pin_unhealthy) d
    → IsSafe r (pins r) d
widen r true d h b fine to = ground (arith, h b fine to)
widen r false d h b fine to = ground (arith, h b fine to)

decide_rows-IsSafe :
    (r : Router) (now : ℕ) (req : Request) (id : Identifiers) (token : Option TokenRow)
    (device : Option SimpleBinding)
    → IsSafe r (pins r) (decide_rows r now req id token device).0
unfolding decide_rows
decide_rows-IsSafe r now req id (some row) device =
    let gray = is_graylisted r req id row.client (device_class device) in
    let policy = policy_for r gray in
    widen r gray (bound r row.backend kind_token id policy gray)
      (bound-IsSafe r row.backend kind_token id policy gray)
decide_rows-IsSafe r now req id none (some row) =
    let gray = is_graylisted r req id [] row.client in
    let policy = policy_for r gray in
    widen r gray (bound r row.backend kind_device id policy gray)
      (bound-IsSafe r row.backend kind_device id policy gray)
decide_rows-IsSafe r now req id none none =
    let gray = is_graylisted r req id [] [] in
    let policy = policy_for r gray in
    widen r gray (decide_unbound r now req id policy gray).0
      (decide_unbound-IsSafe r now req id policy gray)

decided-IsSafe :
    (r : Router) (now : ℕ) (req : Request) (id : Identifiers)
    → IsSafe r (pins r) (decide r now req id).0
unfolding decide policy_for
decided-IsSafe r now req id =
    let st = (lookup_token r.st now id.token).1 in
    let st' = (lookup_device st now id.device_id).1 in
    elim (Result-cases (lookup_token r.st now id.token).0) [
      | inr e ↦ rw (e, decide) (unavailable-IsSafe r (pins r))
      | inl (token_row, e) ↦ elim (Result-cases (lookup_device st now id.device_id).0) [
        | inr f ↦ rw (e, f, decide) (unavailable-IsSafe r (pins r))
        | inl (device_row, f) ↦
            rw (e, f, decide)
              (decide_rows-IsSafe (record r { st = st' }) now req id token_row device_row)
      ]
    ]

-- On every path: a backend that a decision without an error names is not disabled, and it is not
-- unhealthy unless a policy of the configuration pins to unhealthy backends.
pub decide-MayServe :
    (r : Router) (now : ℕ) (req : Request) (id : Identifiers) (b : Backend)
    → (decide r now req id).0.hap_error ≡ no_error
    → (decide r now req id).0.backend ≡ some b
    → MayServe r (pins r) b
decide-MayServe r now req id b fine to = decided-IsSafe r now req id b fine to
