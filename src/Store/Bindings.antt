-- ===== src/Store/Bindings.antt =====
-- The device and anonymous bindings of internal/store/store.go, and `DeleteClient`.
use hapudding.Base.{ℕ, [], Bool, ◌||◌, Option, none, some, if◌then◌else◌}
use hapudding.Text.{Bytes, is_empty, str_eq}
use hapudding.Store.Table.{find, upsert, update, delete_where}
use hapudding.Store.Types.{
  Store, SimpleBinding, Result, ok, err, selects, inserts, updates, deletes, device_bindings,
  anon_bindings, unix, expired,
}
use hapudding.Store.Tokens.{unless_empty, delete_token}

abbrev is_key : Bytes → SimpleBinding → Bool
is_key k r = str_eq r.key k

unfoldable pub drop_device_row : Store → Bytes → Store
drop_device_row s k =
    if s.fails (deletes device_bindings k)
    then s
    else record s { devices = delete_where (is_key k) s.devices }

unfoldable pub drop_anon_row : Store → Bytes → Store
drop_anon_row s k =
    if s.fails (deletes anon_bindings k)
    then s
    else record s { anons = delete_where (is_key k) s.anons }

unfoldable pub lookup_device : Store → ℕ → Bytes → Result (Option SimpleBinding) × Store
lookup_device s now device_id =
    if is_empty device_id
    then (ok none, s)
    else if s.fails (selects device_bindings device_id)
    then (err, s)
    else elim (find (λ (r : SimpleBinding). r.key) device_id s.devices) [
      | none ↦ (ok none, s)
      | some row ↦
          if expired now row.last_seen s.device_ttl
          then (ok none, drop_device_row s device_id)
          else (ok (some row), s)
    ]

-- `LookupAnon`, with `lookupSimple` at its table
unfoldable pub lookup_anon : Store → ℕ → Bytes → Result (Option SimpleBinding) × Store
lookup_anon s now k =
    if is_empty k
    then (ok none, s)
    else if s.fails (selects anon_bindings k)
    then (err, s)
    else elim (find (λ (r : SimpleBinding). r.key) k s.anons) [
      | none ↦ (ok none, s)
      | some row ↦
          if expired now row.last_seen s.anon_ttl
          then (ok none, drop_anon_row s k)
          else (ok (some row), s)
    ]

unfoldable pub simple_row : Bytes → Bytes → Bytes → ℕ → SimpleBinding
simple_row k backend client now = record {
  key = k;
  backend = backend;
  client = client;
  created_at = unix now;
  last_seen = unix now;
}

unfoldable pub merge_simple : SimpleBinding → SimpleBinding → SimpleBinding
merge_simple new old = record old {
  backend = new.backend;
  last_seen = new.last_seen;
  client = unless_empty new.client old.client;
}

unfoldable pub bind_device : Store → ℕ → Bytes → Bytes → Bytes → Result (Unit {0}) × Store
bind_device s now device_id backend client =
    if is_empty device_id || is_empty backend
    then (ok tt, s)
    else if s.fails (inserts device_bindings device_id)
    then (err, s)
    else let new = simple_row device_id backend client now in
      (
        ok tt,
        record s {
          devices =
              upsert (λ (r : SimpleBinding). r.key) device_id new (merge_simple new) s.devices;
        },
      )

-- `BindAnon`, with `upsertSimple` at its table
unfoldable pub bind_anon : Store → ℕ → Bytes → Bytes → Result (Unit {0}) × Store
bind_anon s now k backend =
    if is_empty k || is_empty backend
    then (ok tt, s)
    else if s.fails (inserts anon_bindings k)
    then (err, s)
    else let new = simple_row k backend [] now in
      (
        ok tt,
        record s { anons = upsert (λ (r : SimpleBinding). r.key) k new (merge_simple new) s.anons },
      )

unfoldable pub touch_device : Store → ℕ → Bytes → Result (Unit {0}) × Store
touch_device s now device_id =
    if is_empty device_id
    then (ok tt, s)
    else if s.fails (updates device_bindings device_id)
    then (err, s)
    else (
      ok tt,
      record s {
        devices =
            update (λ (r : SimpleBinding). r.key) device_id (λ r. record r { last_seen = unix now })
              s.devices;
      },
    )

unfoldable touch_anon : Store → ℕ → Bytes → Result (Unit {0}) × Store
touch_anon s now k =
    if is_empty k then (ok tt, s) else if s.fails (updates anon_bindings k) then (err, s) else (
      ok tt,
      record s {
        anons =
            update (λ (r : SimpleBinding). r.key) k (λ r. record r { last_seen = unix now })
              s.anons;
      },
    )

unfoldable pub delete_device : Store → Bytes → Result (Unit {0}) × Store
delete_device s device_id =
    if is_empty device_id
    then (ok tt, s)
    else if s.fails (deletes device_bindings device_id)
    then (err, s)
    else (ok tt, drop_device_row s device_id)

unfoldable pub delete_client : Store → Bytes → Bytes → Result (Unit {0}) × Store
delete_client s token device_id =
    let (r, s') = delete_token s token in
    elim r [ err ↦ (err, s') | ok _ ↦ delete_device s' device_id ]
