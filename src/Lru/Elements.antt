-- ===== src/Lru/Elements.antt =====
-- The elements of a container/list: a pointer, which is a number, and the value.
use hapudding.Base.{ℕ, ◌+◌, List, [], ◌∷◌, Option, none, some, ◌==◌, if◌then◌else◌}
use hapudding.Text.{Bytes, str_eq}

module _ {ℓ} {I : Type ℓ} where
  -- `el.Value`
  unfoldable pub value? : ℕ → List (ℕ × I) → Option I
  value? i [] = none
  value? i ((j, x) ∷ l) = if j == i then some x else value? i l

  -- `ll.Remove(el)`
  unfoldable pub remove_el : ℕ → List (ℕ × I) → List (ℕ × I)
  remove_el i [] = []
  remove_el i ((j, x) ∷ l) = if j == i then l else (j, x) ∷ remove_el i l

  -- `ll.Back()`
  unfoldable pub back : List (ℕ × I) → Option (ℕ × I)
  back [] = none
  back (e ∷ []) = some e
  back (e ∷ f ∷ l) = back (f ∷ l)

  -- A change of the item behind a pointer.
  unfoldable pub set_value : ℕ → (I → I) → List (ℕ × I) → List (ℕ × I)
  set_value i f [] = []
  set_value i f ((j, x) ∷ l) = if j == i then (j, f x) ∷ l else (j, x) ∷ set_value i f l

  -- The element whose item has the key.
  unfoldable pub find_key : (I → Bytes) → Bytes → List (ℕ × I) → Option (ℕ × I)
  find_key key k [] = none
  find_key key k ((j, x) ∷ l) = if str_eq (key x) k then some (j, x) else find_key key k l

  unfoldable pub total : (I → ℕ) → List (ℕ × I) → ℕ
  total size [] = 0
  total size ((j, x) ∷ l) = size x + total size l
