-- ===== src/Proxy/Hop/Logout.antt =====
-- What a logout through internal/proxy/proxy.go leaves of the binding of its token.
use hapudding.Base.{
  ℕ, ◌≡◌, ◌≢◌, refl, sym, ap, ◌∙◌, subst, true, false, Option, none, some, arith, Bool-cases,
  Option-cases, inl, inr,
}
use hapudding.Text.{Bytes, is_empty}
use hapudding.Text.Equality.{str_eq_refl}
use hapudding.Store.Types.{
  Store, TokenRow, Result, ok, err, deletes, selects, updates, token_bindings, unix,
}
use hapudding.Store.Laws.{find-update, find-delete_key}
use hapudding.Store.Tokens.{hash_token, lookup_token, touch_token, delete_token, drop_token_row}
use hapudding.Store.Bindings.{touch_device}
use hapudding.Store.RoundTrip.{token_at}
use hapudding.Router.Types.{Identifiers}
use hapudding.Proxy.Paths.{is_login_path, is_logout_path}
use hapudding.Proxy.Login.{LoginJson, is_success}
use hapudding.Proxy.Library.{Target}
use hapudding.Proxy.Origin.Urls.{Urls}
use hapudding.Proxy.Origin.SystemInfo.{Json}
use hapudding.Proxy.Origin.Response.{Response, rewrite_proxied_response}
use hapudding.Proxy.Origin.Frame.{Answered, NamesNull, rewrite_proxied_response-Answered}
use hapudding.Proxy.Hop.State.{Handler, Asked, Cookie}
use hapudding.Proxy.Hop.Cached.{touch}
use hapudding.Proxy.Hop.Modify.{
  end_session, settle_answer, peek_answer, finish_answer, modify_response,
}

token_at-touch_token :
    (s : Store) (now : ℕ) (token method path : Bytes) (status : ℕ)
    → token_at s token ≡ none
    → token_at (touch_token s now token method path status).1 token ≡ none
unfolding touch_token hash_token
token_at-touch_token s now token method path status h = elim (Bool-cases (is_empty token)) [
  | inl e ↦ rw (e, touch_token) h
  | inr e ↦ elim (Bool-cases (s.fails (updates token_bindings (hash_token s token)))) [
    | inl f ↦ rw (e, f, touch_token) h
    | inr f ↦
        let k = hash_token s token in
        let seen : TokenRow → TokenRow = λ r. record r {
          last_seen = unix now;
          last_method = method;
          last_path = path;
          last_status = status;
        } in
        rw (e, f, touch_token)
          (find-update (λ (r : TokenRow). r.token_hash) k k seen s.tokens (λ r. refl)
            ∙ rw (h, str_eq_refl k))
  ]
]

token_at-touch_device :
    (s : Store) (now : ℕ) (device_id token : Bytes)
    → token_at (touch_device s now device_id).1 token ≡ token_at s token
unfolding touch_device hash_token
token_at-touch_device s now device_id token = ground arith

token_at-delete_token :
    (s : Store) (token : Bytes)
    → is_empty token ≡ false
    → s.fails (deletes token_bindings (hash_token s token)) ≡ false
    → token_at (delete_token s token).1 token ≡ none
unfolding delete_token drop_token_row hash_token
token_at-delete_token s token filled works =
    let k = hash_token s token in
    rw (filled, works, delete_token, drop_token_row)
      (find-delete_key (λ (r : TokenRow). r.token_hash) k k s.tokens ∙ rw (str_eq_refl k))

abbrev no_row : Result (Option TokenRow)
no_row = ok none

abbrev nothing : Option (Response × Cookie × Handler)
nothing = none

abbrev failed : Result (Option TokenRow)
failed = err

lookup_token-absent :
    (s : Store) (now : ℕ) (token : Bytes) (row : TokenRow)
    → token_at s token ≡ none
    → (lookup_token s now token).0 ≢ ok (some row)
unfolding lookup_token
lookup_token-absent s now token row h found = elim (Bool-cases (is_empty token)) [
  | inl e ↦ let k : no_row ≡ ok (some row) = rw (e, lookup_token) at found in absurd (cc)
  | inr e ↦ elim (Bool-cases (s.fails (selects token_bindings (hash_token s token)))) [
    | inl f ↦ let k : failed ≡ ok (some row) = rw (e, f, lookup_token) at found in absurd (cc)
    | inr f ↦ let k : no_row ≡ ok (some row) = rw (e, f, h, lookup_token) at found in absurd (cc)
  ]
]

token_at-touch :
    (s : Store) (now : ℕ) (id : Identifiers) (t : Target) (status : ℕ)
    → token_at s id.token ≡ none
    → token_at (touch s now id t status) id.token ≡ none
unfolding touch
token_at-touch s now id t status h =
    token_at-touch_device (touch_token s now id.token t.method t.path status).1 now id.device_id
      id.token
    ∙ token_at-touch_token s now id.token t.method t.path status h

-- A request that logs a session out.
abbrev pub LogsOut : Asked → Identifiers → Type 0
LogsOut r id =
    (is_logout_path r.target.method r.target.path ≡ true)
    × (is_login_path r.target.method r.target.path ≡ false)
    × (is_empty id.token ≡ false)

end_session-absent :
    (st : Store) (id : Identifiers) (r : Asked) (status : ℕ)
    → LogsOut r id
    → is_success status ≡ true
    → st.fails (deletes token_bindings (hash_token st id.token)) ≡ false
    → token_at (end_session st id r.target status) id.token ≡ none
unfolding end_session
end_session-absent st id r status (ends, other, filled) granted works =
    rw (ends, granted, filled, end_session) (token_at-delete_token st id.token filled works)

module _ (u : Urls) (j : Json) (parse : Bytes → Option LoginJson) (now : ℕ) where
  settled-absent :
      (h : Handler) (backend : Bytes) (id : Identifiers) (r : Asked) (sent : Target)
      (res : Response)
      → LogsOut r id
      → is_success res.status ≡ true
      → h.st.fails (deletes token_bindings (hash_token h.st id.token)) ≡ false
      → token_at (settle_answer u j parse now h backend id r sent res).1.st id.token ≡ none
  unfolding settle_answer
  settled-absent h backend id r sent res asked granted works =
      token_at-touch (end_session h.st id r.target res.status) now id sent res.status
        (end_session-absent h.st id r res.status asked granted works)

  some-inj : (a b : Response × Cookie × Handler) → some a ≡ some b → a ≡ b
  some-inj a b e = cc

  peek_answer-LogsOut :
      (h : Handler) (backend : Bytes) (id : Identifiers) (r : Asked) (res : Response)
      → LogsOut r id
      → peek_answer u j parse now h backend id r res ≡ (res, h)
  unfolding peek_answer
  peek_answer-LogsOut h backend id r res asked = rw (asked.1, peek_answer)

  -- Behind a logout that the backend has granted, the store finds no binding of the token, whenever it is asked,
  -- if the statement that deletes the row did not fail: the touches that follow do not bring it back.
  pub modify_response-LogsOut :
      (h h' : Handler) (backend : Bytes) (id : Identifiers) (r : Asked) (sent : Target)
      (res out : Response) (cookie : Cookie) (later : ℕ) (row : TokenRow)
      → LogsOut r id
      → is_success res.status ≡ true
      → h.st.fails (deletes token_bindings (hash_token h.st id.token)) ≡ false
      → modify_response u j parse now h backend id r sent res ≡ some (out, cookie, h')
      → (lookup_token h'.st later id.token).0 ≢ ok (some row)
  unfolding modify_response finish_answer
  modify_response-LogsOut h h' backend id r sent res out cookie later row asked granted works e =
      let m = r.target.method in
      let finished : finish_answer u j parse now h backend id r sent res ≡ some (out, cookie, h') =
        ap (λ (p : Response × Handler). finish_answer u j parse now p.1 backend id r sent p.0)
          (sym (peek_answer-LogsOut h backend id r res asked))
        ∙ e in
      elim (Option-cases (rewrite_proxied_response u j h.cfg res r.inbound m sent.path)) [
        | inl f ↦
            let k : nothing ≡ some (out, cookie, h') = rw (f, finish_answer) at finished in
            absurd (cc)
        | inr (mid, f) ↦
            let kept : mid.status ≡ res.status =
              (subst (Answered res (NamesNull u j h.cfg res m sent.path)) f
                (rewrite_proxied_response-Answered u j h.cfg res r.inbound m sent.path)).0 in
            let settled = settle_answer u j parse now h backend id r sent mid in
            let same : (mid, settled.0, settled.1) ≡ (out, cookie, h') =
              some-inj _ _ (rw (f, finish_answer) at finished) in
            let after : settled.1 ≡ h' = ap (λ (x : Response × Cookie × Handler). x.2) same in
            let absent = settled-absent h backend id r sent mid asked (rw kept granted) works in
            lookup_token-absent h'.st later id.token row
              (subst (λ (x : Handler). token_at x.st id.token ≡ none) after absent)
      ]
