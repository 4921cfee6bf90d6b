-- ===== src/Proxy/Login.antt =====
-- `login` of internal/proxy/proxy.go over the candidates, with `peekLogin`. What goes over the
-- network is a parameter: `hop` is `loginHop`, or none where the hop fails.
use hapudding.Base.{
  ℕ, List, [], ◌∷◌, Bool, true, false, not, ◌&&◌, Option, none, some, leb, ltb, ◌==◌, if◌then◌else◌,
}
use hapudding.Text.{Bytes, is_empty}
use hapudding.Config.{Backend}
use hapudding.Health.Monitor.{Monitor, record_auth_failure}
use hapudding.Store.Types.{Store, TokenRow}
use hapudding.Store.Tokens.{bind_token, hash_session_ip}
use hapudding.Store.Bindings.{bind_device, bind_anon}
use hapudding.Router.Types.{Identifiers}

-- `loginJSON`; a user that is absent is none.
pub record LoginJson : Type 0 where
  pub access_token : Bytes
  pub user : Option (Bytes × Bytes)
  pub session_device_id : Bytes

-- The status of a response and what json.Unmarshal makes of its body, if it succeeds.
pub record Answer : Type 0 where
  pub status : ℕ
  pub json : Option LoginJson

-- What the client is told: the answer of a backend, or an error of the proxy.
pub data LoginOutcome : Type 0 where
  answered : Backend → Answer → LoginOutcome
  no_eligible login_failed unreachable : LoginOutcome

abbrev user_of : Option (Bytes × Bytes) → Bytes × Bytes
user_of none = ([], [])
user_of (some user) = user

-- The metadata that `peekLogin` binds with the token.
unfoldable pub login_meta : Identifiers → LoginJson → TokenRow
login_meta id body = record {
  token_hash = [];
  backend = [];
  user_id = (user_of body.user).0;
  username = (user_of body.user).1;
  device_id = if is_empty body.session_device_id then id.device_id else body.session_device_id;
  client = id.client;
  device = id.device;
  version = id.version;
  session_id = [];
  created_at = 0;
  last_seen = 0;
  last_method = [];
  last_path = [];
  last_status = 0;
}

unfoldable pub bind_login : Store → ℕ → Identifiers → Bytes → Bytes → LoginJson → Store
bind_login st now id client_ip backend body =
    let meta = login_meta id body in
    let st' = (bind_token st now body.access_token backend meta).1 in
    let st'' : Store =
      if is_empty meta.device_id
      then st'
      else (bind_device st' now meta.device_id backend meta.client).1 in
    if is_empty client_ip
    then st''
    else (bind_anon st'' now (hash_session_ip st'' client_ip) backend).1

unfoldable pub peek_login : Store → ℕ → Identifiers → Bytes → Bytes → Option LoginJson → Store
peek_login st now id client_ip backend none = st
peek_login st now id client_ip backend (some body) =
    if is_empty body.access_token then st else bind_login st now id client_ip backend body

abbrev pub is_success : ℕ → Bool
is_success status = leb 200 status && ltb status 300

abbrev pub after_loop : ℕ → LoginOutcome
after_loop last = if last == 401 then login_failed else unreachable

abbrev pub is_last : List Backend → Bool
is_last [] = true
is_last (b ∷ bs) = false

-- The state that the loop changes.
pub record LoginState : Type 0 where
  pub st : Store
  pub mon : Monitor

unfoldable pub settle : ℕ → Identifiers → Bytes → LoginState → Backend → Answer → LoginState
settle now id client_ip s b ans = record {
  st = if is_success ans.status then peek_login s.st now id client_ip b.name ans.json else s.st;
  mon = if leb 500 ans.status then record_auth_failure s.mon now b.name else s.mon;
}

module _ (hop : Backend → Option Answer) (now : ℕ) (id : Identifiers) (client_ip : Bytes) where
  unfoldable pub login_loop : LoginState → List Backend → ℕ → LoginOutcome × LoginState
  login_loop s [] last = (after_loop last, s)
  login_loop s (b ∷ bs) last = elim (hop b) [
    | none ↦ login_loop (record s { mon = record_auth_failure s.mon now b.name }) bs last
    | some ans ↦ elim ((ans.status == 401) && not (is_last bs)) [
      | true ↦ login_loop s bs ans.status
      | false ↦ (answered b ans, settle now id client_ip s b ans)
    ]
  ]

  unfoldable pub login : LoginState → List Backend → LoginOutcome × LoginState
  login s [] = (no_eligible, s)
  login s (b ∷ bs) = login_loop s (b ∷ bs) 0
