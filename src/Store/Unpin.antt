-- ===== src/Store/Unpin.antt =====
-- DeletePinsByUsername of internal/store/store.go takes all or nothing.
use hapudding.Base.{
  ℕ, ◌+◌, ◌≡◌, sym, ap, ◌∙◌, List, [], ◌∷◌, Bool, true, false, if◌then◌else◌, arith, Bool-cases,
  List-cases, ◌⊎◌, inl, inr, ◌||◌, All, length,
}
use hapudding.Text.{Bytes, is_empty, trim_space}
use hapudding.Store.Table.{delete_where, count_where}
use hapudding.Store.Types.{
  Store, TokenRow, SimpleBinding, Result, err, begins, selects_pins, selects_orphans,
}
use hapudding.Store.Pins.{
  compact_ids, pin_where, is_orphan, pinned_backends, on_backend, is_among, delete_pins,
  delete_pins_by_username,
}

-- No device of the backend is left.
abbrev IsClear : List SimpleBinding → Bytes → Type 0
IsClear devices b = count_where (on_backend b) devices ≡ 0

-- A device of one of the backends.
abbrev on_any : List Bytes → SimpleBinding → Bool
on_any bs r = is_among r.backend bs

-- Which rows the transaction takes: those of the user, else, if the user has none, the orphans.
pub pin_condition : Store → Bytes → List Bytes → TokenRow → Bool
pin_condition s username ids =
    let p = pin_where (trim_space username) (compact_ids ids) in
    elim (pinned_backends p s.tokens) [ [] ↦ is_orphan | b ∷ bs ↦ p ]

abbrev any : List Bytes → Bool
any [] = false
any (b ∷ bs) = true

-- What a transaction that committed has done, at its condition and its backends.
pub record Unpinned (s s' : Store) (p : TokenRow → Bool) (bs : List Bytes) (n m : ℕ) : Type 0 where
  pub tokens_left : s'.tokens ≡ (if any bs then delete_where p s.tokens else s.tokens)
  pub tokens_counted : n + length s'.tokens ≡ length s.tokens
  pub devices_left : s'.devices ≡ delete_where (on_any bs) s.devices
  pub devices_counted : m + length s'.devices ≡ length s.devices
  pub devices_clear : All (IsClear s'.devices) bs
  pub anons_kept : s'.anons ≡ s.anons

-- The transaction fails before its tail, or is its tail at the condition.
outcomes :
    (s : Store) (username : Bytes) (ids : List Bytes)
    → is_empty (trim_space username) ≡ false
    → let r = delete_pins_by_username s username ids in
      let p = pin_condition s username ids in
      (r ≡ (err, s)) ⊎ (r ≡ delete_pins s p (pinned_backends p s.tokens))
unfolding delete_pins_by_username pin_condition
outcomes s username ids filled = elim (Bool-cases (s.fails begins || s.fails selects_pins)) [
  | inl e ↦ inl (rw (filled, e))
  | inr e ↦
      let p = pin_where (trim_space username) (compact_ids ids) in
      elim (List-cases (pinned_backends p s.tokens)) [
        | inr (b, bs, f) ↦ inr (rw (filled, e, f, delete_pins_by_username, pin_condition, f))
        | inl f ↦ elim (Bool-cases (s.fails selects_orphans)) [
          | inl g ↦ inl (rw (filled, e, f, delete_pins_by_username, g))
          | inr g ↦ inr (rw (filled, e, f, delete_pins_by_username, pin_condition, g))
        ]
      ]
]

delete_pins_err :
    (s : Store) (p : TokenRow → Bool) (bs : List Bytes)
    → (delete_pins s p bs).0 ≡ err
    → (delete_pins s p bs).1 ≡ s
unfolding delete_pins
delete_pins_err s p [] h = ground arith
delete_pins_err s p (b ∷ bs) h = ground arith

-- An unpin that reports an error has changed nothing.
pub delete_pins_by_username_err :
    (s : Store) (username : Bytes) (ids : List Bytes)
    → (delete_pins_by_username s username ids).0 ≡ err
    → (delete_pins_by_username s username ids).1 ≡ s
unfolding delete_pins_by_username
delete_pins_by_username_err s username ids h = elim (Bool-cases (is_empty (trim_space username))) [
  | inl e ↦ rw e
  | inr e ↦ elim (outcomes s username ids e) [
    | inl f ↦ ap (λ (r : Result (ℕ × ℕ) × Store). r.1) f
    | inr f ↦
        let p = pin_condition s username ids in
        ap (λ (r : Result (ℕ × ℕ) × Store). r.1) f
        ∙ delete_pins_err s p (pinned_backends p s.tokens)
            (sym (ap (λ (r : Result (ℕ × ℕ) × Store). r.0) f) ∙ h)
  ]
]
