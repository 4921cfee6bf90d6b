-- ===== src/Lru/Fit.antt =====
-- The abstract cache: the items alone, most recently used first. `fit` is what a budget of bytes
-- leaves of them, `erase` the items without a key, `get` the item of a key.
use hapudding.Base.{
  ℕ, ◌+◌, ◌-◌, ◌≤◌, ◌<◌, ◌≡◌, refl, List, [], ◌∷◌, Option, none, some, arith, leb, map,
  if◌then◌else◌,
}
use hapudding.Text.{Bytes, str_eq}
use hapudding.Text.Equality.{str_eq_iff}
use hapudding.Lru.Elements.{value?, remove_el, find_key, total}
use hapudding.Lru.Invariant.{Distinct}

abbrev pub items {ℓ} : {I : Type ℓ} → List (ℕ × I) → List I
items = map (λ e. e.1)

unfoldable pub drop_last {ℓ} : {A : Type ℓ} → List A → List A
drop_last [] = []
drop_last (x ∷ []) = []
drop_last (x ∷ y ∷ l) = x ∷ drop_last (y ∷ l)

module _ {ℓ} {I : Type ℓ} (key : I → Bytes) where
  unfoldable pub erase : Bytes → List I → List I
  erase k [] = []
  erase k (x ∷ l) = if str_eq (key x) k then erase k l else x ∷ erase k l

  unfoldable pub get : Bytes → List I → Option I
  get k [] = none
  get k (x ∷ l) = if str_eq (key x) k then some x else get k l

  -- The item that the index leads to is the item of the key.
  pub get-items :
      (k : Bytes) (l : List (ℕ × I)) {i : ℕ} {it : I}
      → find_key key k l ≡ some (i, it)
      → get k (items l) ≡ some it
  unfolding get find_key
  get-items k [] h = cc
  get-items k ((m, x) ∷ l) {i} {it} h = ground (arith, get-items k l {i = i} {it = it})

  pub get-items-none :
      (k : Bytes) (l : List (ℕ × I)) → find_key key k l ≡ none → get k (items l) ≡ none
  unfolding get find_key
  get-items-none k [] h = refl
  get-items-none k ((m, x) ∷ l) h = ground (arith, get-items-none k l)

  pub erase_absent :
      (k : Bytes) (l : List (ℕ × I)) → find_key key k l ≡ none → erase k (items l) ≡ items l
  unfolding erase find_key
  erase_absent k [] h = refl
  erase_absent k ((m, x) ∷ l) h = ground (arith, erase_absent k l)

  pub value?_of_find_key :
      (next i : ℕ) (k : Bytes) (it : I) (l : List (ℕ × I))
      → Distinct key next l
      → find_key key k l ≡ some (i, it)
      → value? i l ≡ some it
  unfolding find_key value?
  value?_of_find_key next i k it [] d h = cc
  value?_of_find_key next i k it ((m, x) ∷ l) d h =
      ground (arith, value?_of_find_key next i k it l d.3)

  -- To remove the element of a key is to erase the key.
  pub erase-items :
      (next i : ℕ) (k : Bytes) (it : I) (l : List (ℕ × I))
      → Distinct key next l
      → find_key key k l ≡ some (i, it)
      → items (remove_el i l) ≡ erase k (items l)
  unfolding erase find_key remove_el value?
  erase-items next i k it [] d h = cc
  erase-items next i k it ((m, x) ∷ l) d h = ground (
    arith,
    erase-items next i k it l d.3,
    erase_absent k l,
    str_eq_iff (key x) k,
    value?_of_find_key next i k it l d.3,
  )

module _ {ℓ} {I : Type ℓ} (size : I → ℕ) where
  unfoldable pub sum_sizes : List I → ℕ
  sum_sizes [] = 0
  sum_sizes (x ∷ l) = size x + sum_sizes l

  -- The items, from the most recent on, until the next one does not fit.
  unfoldable pub fit : ℕ → List I → List I
  fit b [] = []
  fit b (x ∷ l) = if leb (size x) b then x ∷ fit (b - size x) l else []

  pub total-items : (l : List (ℕ × I)) → total size l ≡ sum_sizes (items l)
  unfolding total sum_sizes
  total-items [] = refl
  total-items ((m, x) ∷ l) = omega (arith, total-items l)

  pub fit_all : (b : ℕ) (l : List I) → sum_sizes l ≤ b → fit b l ≡ l
  unfolding fit sum_sizes
  fit_all b [] h = refl
  fit_all b (x ∷ l) h = ground (arith, fit_all (b - size x) l)

  pub fit-drop_last : (b : ℕ) (l : List I) → b < sum_sizes l → fit b (drop_last l) ≡ fit b l
  unfolding fit sum_sizes drop_last
  fit-drop_last b [] h = refl
  fit-drop_last b (x ∷ []) h = ground arith
  fit-drop_last b (x ∷ y ∷ l) h = ground (arith, fit-drop_last (b - size x) (y ∷ l))

  -- What is kept fits, and it is a part from the front that no longer one exceeds.
  pub sum_sizes-fit-le : (b : ℕ) (l : List I) → sum_sizes (fit b l) ≤ b
  unfolding fit sum_sizes
  sum_sizes-fit-le b [] = omega arith
  sum_sizes-fit-le b (x ∷ l) = ground (arith, sum_sizes-fit-le (b - size x) l)
