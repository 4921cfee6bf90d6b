-- ===== src/Store/Table.antt =====
-- A table as its rows, with what the SQL statements of internal/store/store.go do to one: SELECT by
-- the primary key, INSERT ... ON CONFLICT DO UPDATE, UPDATE ... WHERE and DELETE ... WHERE.
use hapudding.Base.{ℕ, suc, List, [], ◌∷◌, Bool, Option, none, some, if◌then◌else◌}
use hapudding.Text.{Bytes, str_eq}

module _ {ℓ} {R : Type ℓ} (key : R → Bytes) where
  unfoldable pub find : Bytes → List R → Option R
  find k [] = none
  find k (r ∷ rs) = if str_eq (key r) k then some r else find k rs

  unfoldable pub upsert : Bytes → R → (R → R) → List R → List R
  upsert k new merge [] = new ∷ []
  upsert k new merge (r ∷ rs) = if str_eq (key r) k then merge r ∷ rs else r ∷ upsert k new merge rs

  unfoldable pub update : Bytes → (R → R) → List R → List R
  update k f [] = []
  update k f (r ∷ rs) = if str_eq (key r) k then f r ∷ update k f rs else r ∷ update k f rs

module _ {ℓ} {R : Type ℓ} where
  unfoldable pub delete_where : (R → Bool) → List R → List R
  delete_where p [] = []
  delete_where p (r ∷ rs) = if p r then delete_where p rs else r ∷ delete_where p rs

  unfoldable pub count_where : (R → Bool) → List R → ℕ
  count_where p [] = 0
  count_where p (r ∷ rs) = if p r then suc (count_where p rs) else count_where p rs
