-- ===== src/Store/Pins.antt =====
-- DeletePinsByUsername of internal/store/store.go: one transaction over both tables of pins.
use hapudding.Base.{ℕ, ◌+◌, List, [], ◌∷◌, Bool, true, false, ◌&&◌, ◌||◌, if◌then◌else◌}
use hapudding.Text.{Bytes, is_empty, str_eq, to_lower, trim_space}
use hapudding.Store.Table.{delete_where, count_where}
use hapudding.Store.Types.{
  Store, TokenRow, SimpleBinding, Result, ok, err, begins, selects_pins, selects_orphans,
  deletes_pins, commits, deletes, device_bindings,
}

-- compactIDs
unfoldable pub compact_ids : List Bytes → List Bytes
compact_ids [] = []
compact_ids (id ∷ ids) =
    let rest = compact_ids ids in if is_empty (trim_space id) then rest else trim_space id ∷ rest

unfoldable pub is_among : Bytes → List Bytes → Bool
is_among x [] = false
is_among x (y ∷ ys) = str_eq x y || is_among x ys

-- The condition that pinWhere spells: LOWER(username)=LOWER(?) OR user_id IN (...)
unfoldable pub pin_where : Bytes → List Bytes → TokenRow → Bool
pin_where username ids r =
    str_eq (to_lower r.username) (to_lower username) || is_among r.user_id ids

-- COALESCE(username,'')='' AND COALESCE(user_id,'')=''
unfoldable pub is_orphan : TokenRow → Bool
is_orphan r = is_empty r.username && is_empty r.user_id

-- The set of backends of the rows that match, in the order of the rows.
unfoldable pub pinned_backends : (TokenRow → Bool) → List TokenRow → List Bytes
unfolding is_among
pinned_backends p [] = []
pinned_backends p (r ∷ rs) =
    let rest = pinned_backends p rs in
    if p r && (if is_empty r.backend then false else true)
    then (if is_among r.backend rest then rest else r.backend ∷ rest)
    else rest

unfoldable pub on_backend : Bytes → SimpleBinding → Bool
on_backend b r = str_eq r.backend b

-- The loop over the backends: the devices left and how many went; `err` where a DELETE fails.
unfoldable pub delete_devices_on :
    Store → List Bytes → List SimpleBinding → ℕ → Result (List SimpleBinding × ℕ)
delete_devices_on s [] devices n = ok (devices, n)
delete_devices_on s (b ∷ bs) devices n =
    let rest =
      delete_devices_on s bs (delete_where (on_backend b) devices)
        (n + count_where (on_backend b) devices) in
    if s.fails (deletes device_bindings b) then err else rest

-- The tail of the transaction, at the condition and the backends that were found.
unfoldable pub delete_pins : Store → (TokenRow → Bool) → List Bytes → Result (ℕ × ℕ) × Store
delete_pins s p [] = if s.fails commits then (err, s) else (ok (0, 0), s)
delete_pins s p (b ∷ bs) =
    if s.fails deletes_pins then (err, s) else elim (delete_devices_on s (b ∷ bs) s.devices 0) [
      | err ↦ (err, s)
      | ok (devices, n) ↦ if s.fails commits then (err, s) else (
        ok (count_where p s.tokens, n),
        record s { tokens = delete_where p s.tokens; devices = devices },
      )
    ]

unfoldable pub delete_pins_by_username : Store → Bytes → List Bytes → Result (ℕ × ℕ) × Store
delete_pins_by_username s username extra_user_ids =
    let name = trim_space username in
    if is_empty name
    then (ok (0, 0), s)
    else if s.fails begins || s.fails selects_pins
    then (err, s)
    else let p = pin_where name (compact_ids extra_user_ids) in
      elim (pinned_backends p s.tokens) [
        | [] ↦
            if s.fails selects_orphans
            then (err, s)
            else delete_pins s is_orphan (pinned_backends is_orphan s.tokens)
        | b ∷ bs ↦ delete_pins s p (b ∷ bs)
      ]
