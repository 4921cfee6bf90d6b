-- ===== src/Store/Tokens.antt =====
-- The token bindings of internal/store/store.go.
use hapudding.Base.{ℕ, [], ◌∷◌, ◌++◌, Bool, ◌||◌, Option, none, some, if◌then◌else◌, take}
use hapudding.Text.{Bytes, is_empty, str_eq}
use hapudding.Store.Table.{find, upsert, update, delete_where}
use hapudding.Store.Types.{
  Store, TokenRow, Result, ok, err, selects, inserts, updates, deletes, token_bindings, unix,
  expired,
}

unfoldable pub hash_token : Store → Bytes → Bytes
hash_token s token = s.sha token

unfoldable pub hash_anon : Store → Bytes → Bytes → Bytes
hash_anon s ip ua = s.sha (ip ++ 0 ∷ ua)

unfoldable pub hash_session_ip : Store → Bytes → Bytes
unfolding hash_anon
hash_session_ip s ip = hash_anon s ip []

abbrev is_token : Bytes → TokenRow → Bool
is_token h r = str_eq r.token_hash h

-- A failed DELETE is ignored by the callers that look up, and reported by `delete_token`.
unfoldable pub drop_token_row : Store → Bytes → Store
drop_token_row s h =
    if s.fails (deletes token_bindings h)
    then s
    else record s { tokens = delete_where (is_token h) s.tokens }

unfoldable pub lookup_token : Store → ℕ → Bytes → Result (Option TokenRow) × Store
lookup_token s now token =
    if is_empty token
    then (ok none, s)
    else if s.fails (selects token_bindings (hash_token s token))
    then (err, s)
    else elim (find (λ (r : TokenRow). r.token_hash) (hash_token s token) s.tokens) [
      | none ↦ (ok none, s)
      | some row ↦
          if expired now row.last_seen s.token_ttl
          then (ok none, drop_token_row s (hash_token s token))
          else (ok (some row), s)
    ]

-- CASE WHEN excluded.c IS NULL OR excluded.c = '' THEN t.c ELSE excluded.c END
abbrev pub unless_empty : Bytes → Bytes → Bytes
unless_empty new old = if is_empty new then old else new

-- The row that BindToken inserts.
unfoldable pub token_row : Bytes → Bytes → TokenRow → ℕ → TokenRow
token_row h backend meta now = record meta {
  token_hash = h;
  backend = backend;
  session_id = if is_empty meta.session_id then take 16 h else meta.session_id;
  created_at = unix now;
  last_seen = unix now;
}

-- ON CONFLICT (token_hash) DO UPDATE SET ...
unfoldable pub merge_token : TokenRow → TokenRow → TokenRow
merge_token new old = record old {
  backend = new.backend;
  last_seen = new.last_seen;
  user_id = unless_empty new.user_id old.user_id;
  username = unless_empty new.username old.username;
  device_id = unless_empty new.device_id old.device_id;
  device = unless_empty new.device old.device;
  version = unless_empty new.version old.version;
  client = unless_empty new.client old.client;
}

unfoldable pub bind_token : Store → ℕ → Bytes → Bytes → TokenRow → Result (Unit {0}) × Store
bind_token s now token backend meta =
    if is_empty token || is_empty backend
    then (ok tt, s)
    else let h = hash_token s token in
      if s.fails (inserts token_bindings h)
      then (err, s)
      else let new = token_row h backend meta now in
        (
          ok tt,
          record s {
            tokens = upsert (λ (r : TokenRow). r.token_hash) h new (merge_token new) s.tokens;
          },
        )

unfoldable pub touch_token : Store → ℕ → Bytes → Bytes → Bytes → ℕ → Result (Unit {0}) × Store
touch_token s now token method path status =
    if is_empty token
    then (ok tt, s)
    else let h = hash_token s token in
      if s.fails (updates token_bindings h) then (err, s) else (
        ok tt,
        record s {
          tokens =
              update (λ (r : TokenRow). r.token_hash) h
                (λ r. record r {
                  last_seen = unix now;
                  last_method = method;
                  last_path = path;
                  last_status = status;
                })
                s.tokens;
        },
      )

unfoldable pub delete_token : Store → Bytes → Result (Unit {0}) × Store
delete_token s token =
    if is_empty token
    then (ok tt, s)
    else let h = hash_token s token in
      if s.fails (deletes token_bindings h) then (err, s) else (ok tt, drop_token_row s h)
