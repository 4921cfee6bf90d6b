-- ===== src/Status/Groups.antt =====
-- The maps `grouped` of internal/status/status.go: rows under their key, in the order in which they came.
use hapudding.Base.{
  ◌≡◌, refl, List, [], ◌∷◌, ◌++◌, Bool, if◌then◌else◌, Bool-cases, inl, inr, All, false, true, ◌||◌,
  arith, sym, ◌∙◌, append-nil, append_assoc,
}
use mathlib.Core.List.{Perm, perm_middle}
use mathlib.Core.List.Perm

-- A list that is in the map is never empty.
pub record Group (K R : Type 0) : Type 0 where
  pub key : K
  pub first : R
  pub others : List R

module _ {K R : Type 0} (same : K → K → Bool) where
  -- grouped[k] = append(grouped[k], r)
  unfoldable add_to : K → R → List (Group K R) → List (Group K R)
  add_to k r [] = record { key = k; first = r; others = [] } ∷ []
  add_to k r (g ∷ gs) =
      if same g.key k then record g { others = g.others ++ r ∷ [] } ∷ gs else g ∷ add_to k r gs

  unfoldable pub group_from : (R → K) → List (Group K R) → List R → List (Group K R)
  unfolding add_to
  group_from key_of gs [] = gs
  group_from key_of gs (r ∷ rs) = group_from key_of (add_to (key_of r) r gs) rs

abbrev pub members : {K R : Type 0} → List (Group K R) → List R
members [] = []
members (g ∷ gs) = g.first ∷ (g.others ++ members gs)

module _ {K R : Type 0} (same : K → K → Bool) where
  members-add_to :
      (k : K) (r : R) (gs : List (Group K R))
      → Perm (members (add_to same k r gs)) (members gs ++ r ∷ [])
  unfolding add_to
  members-add_to k r [] = Perm.rfl
  members-add_to k r (g ∷ gs) = elim (Bool-cases (same g.key k)) [
    | inl e ↦ rw e (Perm.cons g.first (later g.others gs))
    | inr e ↦ rw e (
        Perm.cons g.first (
          rw (append_assoc g.others (members gs) (r ∷ []))
            (Perm.append_left g.others (members-add_to k r gs))))
  ]
    where
      later :
          (os : List R) (gs : List (Group K R))
          → Perm ((os ++ r ∷ []) ++ members gs) ((os ++ members gs) ++ r ∷ [])
      later os gs =
          Perm.trans {l₂ = r ∷ (os ++ members gs)}
            (rw (append_assoc os (r ∷ []) (members gs)) (perm_middle os (members gs)))
            (Perm.symm
              (rw (append-nil (os ++ members gs)) at (perm_middle {a = r} (os ++ members gs) [])))

  -- Each row stands in one group, and only rows that were given do.
  pub group_from-perm :
      (key_of : R → K) (gs : List (Group K R)) (rs : List R)
      → Perm (members (group_from same key_of gs rs)) (members gs ++ rs)
  unfolding group_from
  group_from-perm key_of gs [] = rw (append-nil (members gs)) Perm.rfl
  group_from-perm key_of gs (r ∷ rs) =
      Perm.trans (group_from-perm key_of (add_to same (key_of r) r gs) rs) (
        Perm.trans (Perm.append_right rs (members-add_to (key_of r) r gs))
          (rw (append_assoc (members gs) (r ∷ []) rs) Perm.rfl))

-- The rows of a group are those of its key.
abbrev pub Keyed : {K R : Type 0} → (R → K) → Group K R → Type 0
Keyed key_of g = (key_of g.first ≡ g.key) × All (λ r. key_of r ≡ g.key) g.others

abbrev has_key : {K R : Type 0} → (K → K → Bool) → K → List (Group K R) → Bool
has_key same k [] = false
has_key same k (g ∷ gs) = same g.key k || has_key same k gs

abbrev pub KeysDiffer : {K R : Type 0} → (K → K → Bool) → List (Group K R) → Type 0
KeysDiffer same [] = Unit
KeysDiffer same (g ∷ gs) = (has_key same g.key gs ≡ false) × KeysDiffer same gs

module _ {K R : Type 0} (same : K → K → Bool) (same_eq : (k j : K) → same k j ≡ true → k ≡ j)
    (same_comm : (k j : K) → same k j ≡ same j k) (key_of : R → K) where
  has_key-add_to :
      (j k : K) (r : R) (gs : List (Group K R))
      → same k j ≡ false
      → has_key same j gs ≡ false
      → has_key same j (add_to same k r gs) ≡ false
  unfolding add_to
  has_key-add_to j k r [] a b = rw a
  has_key-add_to j k r (g ∷ gs) a b = elim (Bool-cases (same g.key k)) [
    | inl e ↦ rw e b
    | inr e ↦ rw e (ground (arith, has_key-add_to j k r gs))
  ]

  All-snoc :
      (k : K) (r : R) (rs : List R)
      → All (λ s. key_of s ≡ k) rs
      → key_of r ≡ k
      → All (λ s. key_of s ≡ k) (rs ++ r ∷ [])
  All-snoc k r [] h e = (e, tt)
  All-snoc k r (s ∷ rs) h e = (h.0, All-snoc k r rs h.1 e)

  add_to_lem :
      (r : R) (gs : List (Group K R))
      → All (Keyed key_of) gs
      → KeysDiffer same gs
      → All (Keyed key_of) (add_to same (key_of r) r gs)
        × KeysDiffer same (add_to same (key_of r) r gs)
  unfolding add_to
  add_to_lem r [] h d = (((refl, tt), tt), (refl, tt))
  add_to_lem r (g ∷ gs) h d = elim (Bool-cases (same g.key (key_of r))) [
    | inl e ↦
        let same_as = same_eq g.key (key_of r) e in
        rw e (((h.0.0, All-snoc g.key r g.others h.0.1 (sym same_as)), h.1), d)
    | inr e ↦
        let (keyed, differ) = add_to_lem r gs h.1 d.1 in
        rw e (
          (h.0, keyed),
          (has_key-add_to g.key (key_of r) r gs (same_comm (key_of r) g.key ∙ e) d.0, differ),
        )
  ]

  pub group_from_lem :
      (gs : List (Group K R)) (rs : List R)
      → All (Keyed key_of) gs
      → KeysDiffer same gs
      → All (Keyed key_of) (group_from same key_of gs rs)
        × KeysDiffer same (group_from same key_of gs rs)
  unfolding group_from
  group_from_lem gs [] h d = (h, d)
  group_from_lem gs (r ∷ rs) h d =
      let (keyed, differ) = add_to_lem r gs h d in
      group_from_lem (add_to same (key_of r) r gs) rs keyed differ
