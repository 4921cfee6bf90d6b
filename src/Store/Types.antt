-- ===== src/Store/Types.antt =====
-- The rows, the state and the outcomes of internal/store/store.go. A NULL column is the empty
-- string: `nullStr` writes one for the other, and every statement treats the two alike.
use hapudding.Base.{
  ◌≡◌, refl, ◌⊎◌, inl, inr, ℕ, ◌-◌, ◌*◌, ◌/◌, ◌^◌, List, Bool, false, ltb, if◌then◌else◌,
}
use hapudding.Base.Int.{ℤ, pos, pos_part, ltb_ℤ}
use hapudding.Text.{Bytes}

pub data BindingKind : Type 0 where
  no_kind kind_token kind_device kind_anon : BindingKind

pub record TokenRow : Type 0 where
  pub token_hash : Bytes
  pub backend : Bytes
  pub user_id : Bytes
  pub username : Bytes
  pub device_id : Bytes
  pub client : Bytes
  pub device : Bytes
  pub version : Bytes
  pub session_id : Bytes
  pub created_at : ℕ
  pub last_seen : ℕ
  pub last_method : Bytes
  pub last_path : Bytes
  pub last_status : ℕ

-- Rows of `device_bindings` and, with no client, of `anon_bindings`.
pub record SimpleBinding : Type 0 where
  pub key : Bytes
  pub backend : Bytes
  pub client : Bytes
  pub created_at : ℕ
  pub last_seen : ℕ

pub record FlagRow : Type 0 where
  pub name : Bytes
  pub disabled : ℕ
  pub updated_at : ℕ

pub record Counts : Type 0 where
  pub tokens : ℕ
  pub devices : ℕ
  pub anons : ℕ

pub data TableName : Type 0 where
  token_bindings device_bindings anon_bindings backend_flags : TableName

-- The statements that the store sends, with the key that they name.
pub data Stmt : Type 0 where
  selects inserts updates deletes : TableName → Bytes → Stmt
  lists groups : TableName → Stmt
  begins selects_pins selects_orphans deletes_pins commits pings : Stmt

-- The database fails at the statements that `fails` tells. `sha` is the hexadecimal SHA-256 of
-- package crypto. Times in rows are Unix seconds.
pub record Store : Type 0 where
  pub tokens : List TokenRow
  pub devices : List SimpleBinding
  pub anons : List SimpleBinding
  pub flags : List FlagRow
  pub token_ttl : ℤ
  pub device_ttl : ℤ
  pub anon_ttl : ℤ
  pub fails : Stmt → Bool
  pub sha : Bytes → Bytes

pub data Result {ℓ} (A : Type ℓ) : Type ℓ where
  ok : A → Result A
  err : Result A

pub Result-cases {ℓ} : {A : Type ℓ} (r : Result A) → ((a : A) × (r ≡ ok a)) ⊎ (r ≡ err)
Result-cases (ok a) = inl (a, refl)
Result-cases err = inr refl

abbrev pub second : ℕ
second = 10 ^ 9

-- time.Now().Unix(), of a time in nanoseconds
abbrev pub unix : ℕ → ℕ
unix now = now / second

-- `expired`: a duration that is not positive never expires.
unfoldable pub expired : ℕ → ℕ → ℤ → Bool
expired now last ttl = if ltb_ℤ (pos 0) ttl then ltb (pos_part ttl) (now - last * second) else false
