-- ===== src/Store/Frame.antt =====
-- What the operations of internal/store/store.go on single bindings leave as it was.
use hapudding.Base.{ℕ, ◌≡◌, ◌∙◌, arith}
use hapudding.Text.{Bytes}
use hapudding.Store.Types.{TokenRow, Store}
use hapudding.Store.Tokens.{lookup_token, bind_token, drop_token_row, delete_token}
use hapudding.Store.Bindings.{
  lookup_device, lookup_anon, drop_device_row, drop_anon_row, bind_device, bind_anon, delete_device,
  delete_client,
}

-- The part of a store that no statement changes.
abbrev pub SameEnv : Store → Store → Type 0
SameEnv s' s = (s'.token_ttl ≡ s.token_ttl) × (s'.fails ≡ s.fails) × (s'.sha ≡ s.sha)

pub trans : (a b c : Store) → SameEnv a b → SameEnv b c → SameEnv a c
trans a b c (p, q, r) (p', q', r') = (p ∙ p', q ∙ q', r ∙ r')

pub lookup_token-SameEnv :
    (s : Store) (now : ℕ) (token : Bytes) → SameEnv (lookup_token s now token).1 s
unfolding lookup_token drop_token_row
lookup_token-SameEnv s now token = ground arith

pub lookup_device-SameEnv :
    (s : Store) (now : ℕ) (device_id : Bytes) → SameEnv (lookup_device s now device_id).1 s
unfolding lookup_device drop_device_row
lookup_device-SameEnv s now device_id = ground arith

pub lookup_anon-SameEnv : (s : Store) (now : ℕ) (k : Bytes) → SameEnv (lookup_anon s now k).1 s
unfolding lookup_anon drop_anon_row
lookup_anon-SameEnv s now k = ground arith

pub delete_client-SameEnv :
    (s : Store) (token device_id : Bytes) → SameEnv (delete_client s token device_id).1 s
unfolding delete_client delete_token delete_device drop_token_row drop_device_row
delete_client-SameEnv s token device_id = ground arith

pub bind_device-SameEnv :
    (s : Store) (now : ℕ) (k backend client : Bytes)
    → SameEnv (bind_device s now k backend client).1 s
unfolding bind_device
bind_device-SameEnv s now k backend client = ground arith

pub bind_anon-SameEnv :
    (s : Store) (now : ℕ) (k backend : Bytes) → SameEnv (bind_anon s now k backend).1 s
unfolding bind_anon
bind_anon-SameEnv s now k backend = ground arith

pub bind_token-SameEnv :
    (s : Store) (now : ℕ) (token backend : Bytes) (meta : TokenRow)
    → SameEnv (bind_token s now token backend meta).1 s
unfolding bind_token
bind_token-SameEnv s now token backend meta = ground arith

-- A binding of another kind leaves the token rows.
pub tokens-bind_anon :
    (s : Store) (now : ℕ) (k backend : Bytes) → (bind_anon s now k backend).1.tokens ≡ s.tokens
unfolding bind_anon
tokens-bind_anon s now k backend = ground arith

tokens-bind_device :
    (s : Store) (now : ℕ) (k backend client : Bytes)
    → (bind_device s now k backend client).1.tokens ≡ s.tokens
unfolding bind_device
tokens-bind_device s now k backend client = ground arith
