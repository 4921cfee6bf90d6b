-- ===== src/Store/RoundTrip.antt =====
-- What a lookup of internal/store/store.go finds behind a binding.
use hapudding.Base.{
  ℕ, ◌≡◌, refl, ap, ◌∙◌, false, not, Option, none, some, if◌then◌else◌, arith, Bool-cases,
  Option-cases, inl, inr, ◌||◌, ◌&&◌,
}
use hapudding.Text.{Bytes, str_eq, is_empty}
use hapudding.Text.Equality.{str_eq_refl}
use hapudding.Store.Table.{find, upsert}
use hapudding.Store.Types.{
  Store, TokenRow, SimpleBinding, Result, ok, selects, inserts, token_bindings, unix, expired,
}
use hapudding.Store.Tokens.{
  lookup_token, bind_token, token_row, merge_token, hash_token, delete_token, drop_token_row,
}
use hapudding.Store.Bindings.{drop_device_row, delete_device, delete_client}
use hapudding.Store.Laws.{find-upsert, merged, find-delete_key}

abbrev token_key : TokenRow → Bytes
token_key r = r.token_hash

abbrev device_key : SimpleBinding → Bytes
device_key r = r.key

-- The row of a token, whatever its age.
abbrev pub token_at : Store → Bytes → Option TokenRow
token_at s token = find token_key (hash_token s token) s.tokens

abbrev pub device_at : Store → Bytes → Option SimpleBinding
device_at s device_id = find device_key device_id s.devices

-- The row that BindToken leaves for its token.
abbrev pub bound_row : Store → ℕ → Bytes → Bytes → TokenRow → TokenRow
bound_row s now token backend meta =
    let new = token_row (hash_token s token) backend meta now in
    elim (token_at s token) [ none ↦ new | some old ↦ merge_token new old ]

hash-bind_token :
    (s : Store) (now : ℕ) (token backend : Bytes) (meta : TokenRow) (other : Bytes)
    → hash_token (bind_token s now token backend meta).1 other ≡ hash_token s other
unfolding bind_token hash_token
hash-bind_token s now token backend meta other = ground arith

upserted_token :
    (s : Store) (now : ℕ) (token backend : Bytes) (meta : TokenRow) (h' : Bytes)
    → let h = hash_token s token in
      let new = token_row h backend meta now in
      find token_key h' (upsert token_key h new (merge_token new) s.tokens) ≡ (
        if str_eq h h'
        then some (bound_row s now token backend meta)
        else find token_key h' s.tokens)
upserted_token s now token backend meta h' =
    let h = hash_token s token in
    let new = token_row h backend meta now in
    find-upsert token_key h h' new (merge_token new) s.tokens (unfold token_row in refl)
      (λ r. unfold merge_token in refl)
    ∙ ap (λ (o : TokenRow). if str_eq h h' then some o else find token_key h' s.tokens)
        (merged-bound_row (token_at s token))
  where
    merged-bound_row :
        (o : Option TokenRow)
        → merged token_key
            (token_row (hash_token s token) backend meta now)
            (merge_token (token_row (hash_token s token) backend meta now))
            o
          ≡ elim o [
            | none ↦ token_row (hash_token s token) backend meta now
            | some old ↦ merge_token (token_row (hash_token s token) backend meta now) old
          ]
    merged-bound_row none = refl
    merged-bound_row (some old) = refl

-- A BindToken that reports no error has put the token's row as `bound_row` says and left the row of
-- every token with another hash; if the token or the backend is empty it has done nothing.
pub token_at-bind_token :
    (s : Store) (now : ℕ) (token backend : Bytes) (meta : TokenRow) (other : Bytes)
    → (bind_token s now token backend meta).0 ≡ ok tt
    → token_at (bind_token s now token backend meta).1 other ≡ (
        if is_empty token || is_empty backend
        then token_at s other
        else if str_eq (hash_token s token) (hash_token s other)
        then some (bound_row s now token backend meta)
        else token_at s other)
unfolding bind_token
token_at-bind_token s now token backend meta other h =
    elim (Bool-cases (is_empty token || is_empty backend)) [
      | inl e ↦ rw e
      | inr e ↦ elim (Bool-cases (s.fails (inserts token_bindings (hash_token s token)))) [
        | inl f ↦ absurd (ground arith)
        | inr f ↦
            rw (e, f, bind_token)
              (unfold hash_token in upserted_token s now token backend meta (hash_token s other))
      ]
    ]

pub lookup_token-found :
    (s : Store) (now : ℕ) (token : Bytes) (row : TokenRow)
    → is_empty token ≡ false
    → s.fails (selects token_bindings (hash_token s token)) ≡ false
    → token_at s token ≡ some row
    → expired now row.last_seen s.token_ttl ≡ false
    → lookup_token s now token ≡ (ok (some row), s)
unfolding lookup_token
lookup_token-found s now token row filled works found fresh =
    rw (filled, works, found, lookup_token, fresh)

pub bound_row_fields :
    (s : Store) (now : ℕ) (token backend : Bytes) (meta : TokenRow)
    → let row = bound_row s now token backend meta in
      (row.backend ≡ backend) × (row.last_seen ≡ unix now)
unfolding merge_token token_row
bound_row_fields s now token backend meta = elim (Option-cases (token_at s token)) [
  | inl e ↦ rw (e, bound_row) (refl, refl)
  | inr (old, e) ↦ rw (e, bound_row) (refl, refl)
]

bind_token_keeps :
    (s : Store) (now : ℕ) (token backend : Bytes) (meta : TokenRow)
    → let s' = (bind_token s now token backend meta).1 in
      (s'.token_ttl ≡ s.token_ttl) × (s'.fails ≡ s.fails)
unfolding bind_token
bind_token_keeps s now token backend meta = (ground arith, ground arith)

-- A token that was bound to a backend without an error, neither being empty, is found again, bound
-- to that backend, as long as its row has not run out and the statement does not fail.
pub lookup_token-bind_token :
    (s : Store) (now later : ℕ) (token backend : Bytes) (meta : TokenRow)
    → is_empty token ≡ false
    → is_empty backend ≡ false
    → (bind_token s now token backend meta).0 ≡ ok tt
    → s.fails (selects token_bindings (hash_token s token)) ≡ false
    → expired later (unix now) s.token_ttl ≡ false
    → (row : TokenRow) × ((lookup_token (bind_token s now token backend meta).1 later token).0
        ≡ ok (some row))
      × (row.backend ≡ backend)
lookup_token-bind_token s now later token backend meta filled named done works fresh =
    let s' = (bind_token s now token backend meta).1 in
    let row = bound_row s now token backend meta in
    let (to, seen) = bound_row_fields s now token backend meta in
    let (same_ttl, same_fails) = bind_token_keeps s now token backend meta in
    let found : token_at s' token ≡ some row =
      token_at-bind_token s now token backend meta token done
      ∙ rw (filled, named, str_eq_refl (hash_token s token)) in
    let fresh' : expired later row.last_seen s'.token_ttl ≡ false = rw (seen, same_ttl) fresh in
    let works' : s'.fails (selects token_bindings (hash_token s' token)) ≡ false =
      rw (same_fails, hash-bind_token s now token backend meta token) works in
    (
      row,
      ap (λ (r : Result (Option TokenRow) × Store). r.0)
          (lookup_token-found s' later token row filled works' found fresh'),
      to,
    )

-- A DeleteClient that reports no error leaves no row of the token and none of the device, and every
-- row of another token or device as it was. An empty token or device names no row.
pub delete_client_lem :
    (s : Store) (token device_id : Bytes) (u e : Bytes)
    → (delete_client s token device_id).0 ≡ ok tt
    → let s' = (delete_client s token device_id).1 in
      (token_at s' u ≡ (
        if not (is_empty token) && str_eq (hash_token s token) (hash_token s u)
        then none
        else token_at s u))
      × (device_at s' e
          ≡ (if not (is_empty device_id) && str_eq device_id e then none else device_at s e))
unfolding delete_client delete_token delete_device drop_token_row drop_device_row hash_token
delete_client_lem s token device_id u e h = ground (
  arith,
  find-delete_key token_key (s.sha token) (s.sha u) s.tokens,
  find-delete_key device_key device_id e s.devices,
)
