-- ===== src/Store/Laws.antt =====
-- Laws of a table: what SELECT finds behind each of the other statements.
use mathlib.Core.Option
use hapudding.Base.{
  ◌+◌, ◌≡◌, ◌≢◌, refl, List, [], ◌∷◌, Bool, Option, none, some, if◌then◌else◌, length, arith,
  Bool-cases, inl, inr,
}
use hapudding.Text.{Bytes, str_eq}
use hapudding.Text.Equality.{str_eq_iff}
use hapudding.Store.Table.{find, upsert, update, delete_where, count_where}

module _ {R : Type 0} (key : R → Bytes) where
  find-key : (k : Bytes) (rs : List R) (r : R) → find key k rs ≡ some r → key r ≡ k
  unfolding find
  find-key k [] r h = cc
  find-key k (x ∷ rs) r h = ground (arith, str_eq_iff (key x) k, find-key k rs r)

  -- The row that an upsert leaves for its key.
  abbrev pub merged : R → (R → R) → Option R → R
  merged new merge none = new
  merged new merge (some old) = merge old

  pub find-upsert :
      (j k : Bytes) (new : R) (merge : R → R) (rs : List R)
      → key new ≡ j
      → ((r : R) → key (merge r) ≡ key r)
      → find key k (upsert key j new merge rs)
        ≡ (if str_eq j k then some (merged new merge (find key j rs)) else find key k rs)
  unfolding find upsert
  find-upsert j k new merge [] e keep = ground arith
  find-upsert j k new merge (r ∷ rs) e keep = ground (
    arith,
    find-upsert j k new merge rs e keep,
    keep r,
    str_eq_iff (key r) j,
    str_eq_iff (key r) k,
    str_eq_iff j k,
  )

  pub find-update :
      (j k : Bytes) (f : R → R) (rs : List R)
      → ((r : R) → key (f r) ≡ key r)
      → find key k (update key j f rs)
        ≡ (if str_eq j k then Option.map f (find key k rs) else find key k rs)
  unfolding find update
  find-update j k f [] keep = ground arith
  find-update j k f (r ∷ rs) keep = ground (
    arith,
    find-update j k f rs keep,
    keep r,
    str_eq_iff (key r) j,
    str_eq_iff (key r) k,
    str_eq_iff j k,
  )

  pub find-delete_key :
      (j k : Bytes) (rs : List R)
      → find key k (delete_where (λ r. str_eq (key r) j) rs)
        ≡ (if str_eq j k then none else find key k rs)
  unfolding find delete_where
  find-delete_key j k [] = ground arith
  find-delete_key j k (r ∷ rs) =
      ground
        (arith, find-delete_key j k rs, str_eq_iff (key r) j, str_eq_iff (key r) k, str_eq_iff j k)

  -- The primary key: no key stands in two rows.
  abbrev Unique : List R → Type 0
  Unique [] = Unit
  Unique (r ∷ rs) = (find key (key r) rs ≡ none) × Unique rs

  absent_in-upsert :
      (j k : Bytes) (new : R) (merge : R → R) (rs : List R)
      → key new ≡ j
      → ((r : R) → key (merge r) ≡ key r)
      → j ≢ k
      → find key k rs ≡ none
      → find key k (upsert key j new merge rs) ≡ none
  absent_in-upsert j k new merge rs e keep ne h =
      ground (arith, find-upsert j k new merge rs e keep, str_eq_iff j k)

  upsert-Unique :
      (j : Bytes) (new : R) (merge : R → R) (rs : List R)
      → key new ≡ j
      → ((r : R) → key (merge r) ≡ key r)
      → Unique rs
      → Unique (upsert key j new merge rs)
  unfolding upsert find
  upsert-Unique j new merge [] e keep u = (refl, tt)
  upsert-Unique j new merge (r ∷ rs) e keep u = elim (Bool-cases (str_eq (key r) j)) [
    | inl h ↦ rw h (rw (keep r) (u.0), u.1)
    | inr h ↦ rw h (
      absent_in-upsert j (key r) new merge rs e keep (ground (arith, str_eq_iff (key r) j)) u.0,
      upsert-Unique j new merge rs e keep u.1,
    )
  ]

  absent_in-update :
      (j k : Bytes) (f : R → R) (rs : List R)
      → ((r : R) → key (f r) ≡ key r)
      → find key k rs ≡ none
      → find key k (update key j f rs) ≡ none
  unfolding find update
  absent_in-update j k f [] keep h = refl
  absent_in-update j k f (r ∷ rs) keep h = ground (arith, absent_in-update j k f rs keep, keep r)

  update-Unique :
      (j : Bytes) (f : R → R) (rs : List R)
      → ((r : R) → key (f r) ≡ key r)
      → Unique rs
      → Unique (update key j f rs)
  unfolding update
  update-Unique j f [] keep u = tt
  update-Unique j f (r ∷ rs) keep u = elim (Bool-cases (str_eq (key r) j)) [
    | inl h ↦
        rw (h, keep r) (absent_in-update j (key r) f rs keep u.0, update-Unique j f rs keep u.1)
    | inr h ↦ rw h (absent_in-update j (key r) f rs keep u.0, update-Unique j f rs keep u.1)
  ]

  absent_in-delete :
      (k : Bytes) (p : R → Bool) (rs : List R)
      → find key k rs ≡ none
      → find key k (delete_where p rs) ≡ none
  unfolding find delete_where
  absent_in-delete k p [] h = refl
  absent_in-delete k p (r ∷ rs) h = ground (arith, absent_in-delete k p rs)

  delete_where-Unique : (p : R → Bool) (rs : List R) → Unique rs → Unique (delete_where p rs)
  unfolding delete_where
  delete_where-Unique p [] u = tt
  delete_where-Unique p (r ∷ rs) u = elim (Bool-cases (p r)) [
    | inl h ↦ rw h (delete_where-Unique p rs u.1)
    | inr h ↦ rw h (absent_in-delete (key r) p rs u.0, delete_where-Unique p rs u.1)
  ]

module _ {R : Type 0} (p : R → Bool) where
  -- A deletion takes as many rows as it counts, and none is left that it would take.
  pub count-delete_where : (rs : List R) → count_where p rs + length (delete_where p rs) ≡ length rs
  unfolding count_where delete_where
  count-delete_where [] = refl
  count-delete_where (r ∷ rs) = ground (arith, count-delete_where rs)

  pub none_left : (rs : List R) → count_where p (delete_where p rs) ≡ 0
  unfolding count_where delete_where
  none_left [] = refl
  none_left (r ∷ rs) = ground (arith, none_left rs)
