-- ===== src/Router/Frame.antt =====
-- `Decide` of internal/router/router.go leaves the database as it behaves.
use hapudding.Base.{
  ℕ, refl, [], Bool, Option, none, some, Bool-cases, Option-cases, inl, inr, not, ◌&&◌, is_none,
}
use hapudding.Text.{Bytes, is_empty}
use hapudding.Store.Types.{Store, TokenRow, SimpleBinding, Result-cases}
use hapudding.Store.Tokens.{lookup_token, hash_anon, hash_session_ip}
use hapudding.Store.Bindings.{lookup_device, lookup_anon}
use hapudding.Store.Frame.{
  SameEnv, trans, lookup_token-SameEnv, lookup_device-SameEnv, lookup_anon-SameEnv,
}
use hapudding.Router.Types.{
  Identifiers, Request, Router, client_ip, cookie_hint, by, is_session_media_path,
}
use hapudding.Router.Decide.{
  has_live_binding, follow_session, decide_anon, decide_unbound, decide_rows, decide, policy_for,
  is_graylisted,
}

module _ (now : ℕ) (req : Request) (id : Identifiers) where
  decide_anon-SameEnv :
      (r : Router) (policy : Bytes) (gray : Bool)
      → SameEnv (decide_anon r now req id policy gray).1 r.st
  unfolding decide_anon
  decide_anon-SameEnv r policy gray =
      let k = hash_anon r.st (client_ip req) req.user_agent in
      let same = lookup_anon-SameEnv r.st now k in
      elim (Result-cases (lookup_anon r.st now k).0) [
        | inr e ↦ rw (e, decide_anon) same
        | inl (o, e) ↦ elim (Option-cases o) [
          | inl f ↦ rw (e, f, decide_anon) same
          | inr (row, f) ↦ rw (e, f, decide_anon) same
        ]
      ]

  follow_session-SameEnv :
      (r : Router) (policy : Bytes) (gray : Bool)
      → SameEnv (follow_session r now req id policy gray).1 r.st
  unfolding follow_session
  follow_session-SameEnv r policy gray =
      let hint = cookie_hint req in
      let k = hash_session_ip r.st (client_ip req) in
      let same = lookup_anon-SameEnv r.st now k in
      elim (Bool-cases
        (not (is_empty hint) && (not (is_none (by r hint)) && has_live_binding r hint))) [
          | inl g ↦ rw (g, follow_session) (refl, refl, refl)
          | inr g ↦ elim (Result-cases (lookup_anon r.st now k).0) [
            | inr e ↦ rw (g, e, follow_session) same
            | inl (o, e) ↦ elim (Option-cases o) [
              | inl f ↦ rw (g, e, f, follow_session) same
              | inr (row, f) ↦ rw (g, e, f, follow_session) same
            ]
          ]
        ]

  decide_unbound-SameEnv :
      (r : Router) (policy : Bytes) (gray : Bool)
      → SameEnv (decide_unbound r now req id policy gray).1 r.st
  unfolding decide_unbound
  decide_unbound-SameEnv r policy gray =
      let st : Store = (follow_session r now req id policy gray).1 in
      let same = follow_session-SameEnv r policy gray in
      elim (Bool-cases (is_session_media_path req)) [
        | inr g ↦ rw (g, decide_unbound) (decide_anon-SameEnv r policy gray)
        | inl g ↦ elim (Option-cases (follow_session r now req id policy gray).0) [
          | inr (d, e) ↦ rw (g, e, decide_unbound) same
          | inl e ↦
              rw (g, e, decide_unbound)
                (trans (decide_anon (record r { st = st }) now req id policy gray).1 st r.st
                  (decide_anon-SameEnv (record r { st = st }) policy gray) same)
        ]
      ]

  decide_rows-SameEnv :
      (r : Router) (token : Option TokenRow) (device : Option SimpleBinding)
      → SameEnv (decide_rows r now req id token device).1 r.st
  unfolding decide_rows
  decide_rows-SameEnv r (some row) device = (refl, refl, refl)
  decide_rows-SameEnv r none (some row) = (refl, refl, refl)
  decide_rows-SameEnv r none none =
      let gray = is_graylisted r req id [] [] in decide_unbound-SameEnv r (policy_for r gray) gray

  pub decide-SameEnv : (r : Router) → SameEnv (decide r now req id).1 r.st
  unfolding decide
  decide-SameEnv r =
      let st : Store = (lookup_token r.st now id.token).1 in
      let st' : Store = (lookup_device st now id.device_id).1 in
      let same = lookup_token-SameEnv r.st now id.token in
      let same' = trans st' st r.st (lookup_device-SameEnv st now id.device_id) same in
      elim (Result-cases (lookup_token r.st now id.token).0) [
        | inr e ↦ rw (e, decide) same
        | inl (t, e) ↦ elim (Result-cases (lookup_device st now id.device_id).0) [
          | inr f ↦ rw (e, f, decide) same'
          | inl (d, f) ↦
              rw (e, f, decide)
                (trans (decide_rows (record r { st = st' }) now req id t d).1 st' r.st
                  (decide_rows-SameEnv (record r { st = st' }) t d) same')
        ]
      ]
