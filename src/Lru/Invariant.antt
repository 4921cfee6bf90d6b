-- ===== src/Lru/Invariant.antt =====
-- The list and the index agree, and the count is the number of bytes held.
use hapudding.Base.{
  ℕ, suc, ◌+◌, ◌≤◌, ◌<◌, ◌≡◌, ◌≢◌, refl, List, [], ◌∷◌, Option, none, some, ◌==◌, if◌then◌else◌,
  arith, Option-cases, inl, inr, Bool-cases, ◌⊎◌,
}
use hapudding.Text.{Bytes, str_eq}
use hapudding.Text.Equality.{str_eq_iff, str_eq_refl}
use hapudding.Lru.Elements.{value?, remove_el, find_key, total}
use hapudding.Lru.Defs.{Lru, empty, remove_locked, remove_key, push_front, move_to_front}

abbrev pub pointer {ℓ} : {I : Type ℓ} → Option (ℕ × I) → Option ℕ
pointer none = none
pointer (some e) = some e.0

remove_el_absent {ℓ} :
    {I : Type ℓ} (i : ℕ) (l : List (ℕ × I)) → value? i l ≡ none → remove_el i l ≡ l
unfolding value? remove_el
remove_el_absent i [] h = refl
remove_el_absent i ((m, x) ∷ l) h = ground (arith, remove_el_absent i l)

module _ {ℓ} {I : Type ℓ} (key : I → Bytes) where
  -- No pointer and no key stands twice, and every pointer is below `next`.
  abbrev pub Distinct : ℕ → List (ℕ × I) → Type ℓ
  Distinct next [] = Unit
  Distinct next ((j, x) ∷ l) =
      (j < next) × (value? j l ≡ none) × (find_key key (key x) l ≡ none) × Distinct next l

  value?_above : (next i : ℕ) (l : List (ℕ × I)) → Distinct next l → next ≤ i → value? i l ≡ none
  unfolding value?
  value?_above next i [] d h = refl
  value?_above next i ((j, x) ∷ l) d h = ground (arith, value?_above next i l d.3)

  value?-remove_el :
      (next i j : ℕ) (l : List (ℕ × I))
      → Distinct next l
      → value? j (remove_el i l) ≡ (if i == j then none else value? j l)
  unfolding value? remove_el
  value?-remove_el next i j [] d = ground arith
  value?-remove_el next i j ((m, x) ∷ l) d = ground (arith, value?-remove_el next i j l d.3)

  find_key_of_value? :
      (i : ℕ) (l : List (ℕ × I)) (it : I) → value? i l ≡ some it → find_key key (key it) l ≢ none
  unfolding value? find_key
  find_key_of_value? i [] it h = cc
  find_key_of_value? i ((m, x) ∷ l) it h =
      ground (arith, find_key_of_value? i l it, str_eq_refl (key it))

  -- Without an element, its key is gone and the other keys are where they were.
  find_key-remove_el :
      (next i : ℕ) (k : Bytes) (l : List (ℕ × I)) (it : I)
      → Distinct next l
      → value? i l ≡ some it
      → find_key key k (remove_el i l) ≡ (if str_eq (key it) k then none else find_key key k l)
  unfolding value? remove_el find_key
  find_key-remove_el next i k [] it d h = cc
  find_key-remove_el next i k ((m, x) ∷ l) it d h = ground (
    arith,
    find_key-remove_el next i k l it d.3,
    str_eq_iff (key x) k,
    str_eq_iff (key it) k,
    find_key_of_value? i l it,
  )

  Distinct-remove_el :
      (next i : ℕ) (l : List (ℕ × I)) → Distinct next l → Distinct next (remove_el i l)
  unfolding value? remove_el find_key
  Distinct-remove_el next i [] d = tt
  Distinct-remove_el next i ((m, x) ∷ l) d = elim (Bool-cases (m == i)) [
    | inl e ↦ rw e (d.3)
    | inr e ↦ rw e (
      d.0,
      ground (arith, value?-remove_el next i m l d.3),
      absent next i x l d.2 d.3 (Option-cases (value? i l)),
      Distinct-remove_el next i l d.3,
    )
  ]
    where
      absent :
          (next i : ℕ) (x : I) (l : List (ℕ × I))
          → find_key key (key x) l ≡ none
          → Distinct next l
          → (value? i l ≡ none) ⊎ ((it : I) × (value? i l ≡ some it))
          → find_key key (key x) (remove_el i l) ≡ none
      absent next i x l a d (inl e) = rw (remove_el_absent i l e) a
      absent next i x l a d (inr (it, e)) =
          ground (arith, find_key-remove_el next i (key x) l it d e)

  below_of_value? :
      (next i : ℕ) (l : List (ℕ × I)) (it : I) → Distinct next l → value? i l ≡ some it → i < next
  unfolding value?
  below_of_value? next i [] it d h = cc
  below_of_value? next i ((m, x) ∷ l) it d h = ground (arith, below_of_value? next i l it d.3)

  -- An item is found by its key, at its own pointer.
  find_key_at :
      (next i : ℕ) (l : List (ℕ × I)) (it : I)
      → Distinct next l
      → value? i l ≡ some it
      → find_key key (key it) l ≡ some (i, it)
  unfolding value? find_key
  find_key_at next i [] it d h = cc
  find_key_at next i ((m, x) ∷ l) it d h =
      ground
        (arith, find_key_at next i l it d.3, str_eq_iff (key x) (key it), find_key_of_value? i l it)

  Distinct-suc : (next : ℕ) (l : List (ℕ × I)) → Distinct next l → Distinct (suc next) l
  Distinct-suc next [] d = tt
  Distinct-suc next ((j, x) ∷ l) d = (omega arith, d.1, d.2, Distinct-suc next l d.3)

module _ {ℓ} {I : Type ℓ} (size : I → ℕ) where
  pub total-remove_el :
      (i : ℕ) (l : List (ℕ × I)) (it : I)
      → value? i l ≡ some it
      → total size (remove_el i l) + size it ≡ total size l
  unfolding value? remove_el total
  total-remove_el i [] it h = cc
  total-remove_el i ((m, x) ∷ l) it h = ground (arith, total-remove_el i l it)

module _ {ℓ} {I : Type ℓ} (key : I → Bytes) (size : I → ℕ) where
  pub record IsValid (c : Lru I) : Type ℓ where
    pub distinct : Distinct key c.next c.ll
    pub indexed : (k : Bytes) → c.idx k ≡ pointer (find_key key k c.ll)
    pub counted : c.n ≡ total size c.ll

  pub empty-IsValid : IsValid empty
  unfolding find_key total
  empty-IsValid = record { distinct = tt; indexed = λ k. refl; counted = refl }

  module _ (c : Lru I) (v : IsValid c) where
    pub remove_locked-IsValid : (el : ℕ) → IsValid (remove_locked key size c el)
    unfolding remove_locked
    remove_locked-IsValid el = elim (Option-cases (value? el c.ll)) [
      | inl e ↦ rw (e, remove_locked) v
      | inr (it, e) ↦
          rw (e, remove_locked)
            (record {
              distinct = Distinct-remove_el key c.next el c.ll v.distinct;
              indexed = λ k.
                  ground
                    (arith, find_key-remove_el key c.next el k c.ll it v.distinct e, v.indexed k);
              counted = omega (arith, total-remove_el size el c.ll it e, v.counted);
            })
    ]

    pub remove_key-IsValid : (k : Bytes) → IsValid (remove_key key size c k)
    unfolding remove_key
    remove_key-IsValid k = elim (Option-cases (c.idx k)) [
      | inl e ↦ rw (e, remove_key) v
      | inr (el, e) ↦ rw (e, remove_key) (remove_locked-IsValid el)
    ]

    -- A new item may be put in front if its key has no element.
    pub push_front-IsValid :
        (it : I) → find_key key (key it) c.ll ≡ none → IsValid (push_front key size c it)
    unfolding push_front find_key total
    push_front-IsValid it h = record {
      distinct = (
        omega arith,
        value?_above key c.next c.next c.ll v.distinct (omega arith),
        h,
        Distinct-suc key c.next c.ll v.distinct,
      );
      indexed = λ k. ground (arith, v.indexed k);
      counted = omega (arith, v.counted);
    }

    pub move_to_front-IsValid : (el : ℕ) → IsValid (move_to_front key size c el)
    unfolding move_to_front find_key total
    move_to_front-IsValid el = elim (Option-cases (value? el c.ll)) [
      | inl e ↦ rw (e, move_to_front) v
      | inr (it, e) ↦
          rw (e, move_to_front)
            (record {
              distinct = (
                below_of_value? key c.next el c.ll it v.distinct e,
                ground (arith, value?-remove_el key c.next el el c.ll v.distinct),
                ground (
                  arith,
                  find_key-remove_el key c.next el (key it) c.ll it v.distinct e,
                  str_eq_refl (key it),
                ),
                Distinct-remove_el key c.next el c.ll v.distinct,
              );
              indexed = λ k. ground (
                arith,
                find_key-remove_el key c.next el k c.ll it v.distinct e,
                find_key_at key c.next el c.ll it v.distinct e,
                str_eq_iff (key it) k,
                v.indexed k,
              );
              counted = omega (arith, total-remove_el size el c.ll it e, v.counted);
            })
    ]
