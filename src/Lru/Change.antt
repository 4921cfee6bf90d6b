-- ===== src/Lru/Change.antt =====
-- A change of one item in place, such as its count of hits, keeps the invariant.
use hapudding.Base.{
  ℕ, ◌≤◌, ◌≡◌, Option-cases, refl, sym, ◌∙◌, List, [], ◌∷◌, none, ◌==◌, arith, Bool-cases, inl, inr,
}
use hapudding.Text.{Bytes}
use hapudding.Lru.Elements.{value?, set_value, find_key, total}
use hapudding.Lru.Defs.{Lru, remove_locked, remove_key, move_to_front}
use hapudding.Lru.Invariant.{pointer, Distinct, IsValid}

-- A change of one item that keeps its key and its size.
module _ {ℓ} {I : Type ℓ} (key : I → Bytes) (size : I → ℕ) (f : I → I)
    (same_key : (x : I) → key (f x) ≡ key x) (same_size : (x : I) → size (f x) ≡ size x) where
  value?-set_value :
      (i j : ℕ) (l : List (ℕ × I)) → value? j l ≡ none → value? j (set_value i f l) ≡ none
  unfolding value? set_value
  value?-set_value i j [] h = h
  value?-set_value i j ((m, x) ∷ l) h = ground (arith, value?-set_value i j l)

  pointer-set_value :
      (i : ℕ) (k : Bytes) (l : List (ℕ × I))
      → pointer (find_key key k (set_value i f l)) ≡ pointer (find_key key k l)
  unfolding find_key set_value
  pointer-set_value i k [] = refl
  pointer-set_value i k ((m, x) ∷ l) = ground (arith, pointer-set_value i k l, same_key x)

  find_key-set_value :
      (i : ℕ) (k : Bytes) (l : List (ℕ × I))
      → find_key key k l ≡ none
      → find_key key k (set_value i f l) ≡ none
  unfolding find_key set_value
  find_key-set_value i k [] h = h
  find_key-set_value i k ((m, x) ∷ l) h = ground (arith, find_key-set_value i k l, same_key x)

  total-set_value : (i : ℕ) (l : List (ℕ × I)) → total size (set_value i f l) ≡ total size l
  unfolding total set_value
  total-set_value i [] = refl
  total-set_value i ((m, x) ∷ l) = ground (arith, total-set_value i l, same_size x)

  Distinct-set_value :
      (next i : ℕ) (l : List (ℕ × I)) → Distinct key next l → Distinct key next (set_value i f l)
  unfolding set_value
  Distinct-set_value next i [] d = tt
  Distinct-set_value next i ((m, x) ∷ l) d = elim (Bool-cases (m == i)) [
    | inl e ↦ rw e (d.0, d.1, rw (same_key x) (d.2), d.3)
    | inr e ↦ rw e (
      d.0,
      value?-set_value i m l d.1,
      find_key-set_value i (key x) l d.2,
      Distinct-set_value next i l d.3,
    )
  ]

  pub set_value-IsValid :
      (c : Lru I) (i : ℕ)
      → IsValid key size c
      → IsValid key size (record c { ll = set_value i f c.ll })
  set_value-IsValid c i v = record {
    distinct = Distinct-set_value c.next i c.ll v.distinct;
    indexed = λ k. v.indexed k ∙ sym (pointer-set_value i k c.ll);
    counted = v.counted ∙ sym (total-set_value i c.ll);
  }

module _ {I : Type 0} (key : I → Bytes) (size : I → ℕ) where
  pub n-remove_locked-le : (l : Lru I) (el : ℕ) → (remove_locked key size l el).n ≤ l.n
  unfolding remove_locked
  n-remove_locked-le l el = elim (Option-cases (value? el l.ll)) [
    | inl e ↦ rw (e, remove_locked) (omega arith)
    | inr (it, e) ↦ rw (e, remove_locked) (omega arith)
  ]

  pub n-remove_key-le : (l : Lru I) (k : Bytes) → (remove_key key size l k).n ≤ l.n
  unfolding remove_key
  n-remove_key-le l k = elim (Option-cases (l.idx k)) [
    | inl e ↦ rw (e, remove_key) (omega arith)
    | inr (el, e) ↦ rw (e, remove_key) (n-remove_locked-le l el)
  ]

  pub n-move_to_front : (l : Lru I) (el : ℕ) → (move_to_front key size l el).n ≡ l.n
  unfolding move_to_front
  n-move_to_front l el = elim (Option-cases (value? el l.ll)) [
    | inl e ↦ rw (e, move_to_front)
    | inr (it, e) ↦ rw (e, move_to_front)
  ]
