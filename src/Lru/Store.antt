-- ===== src/Lru/Store.antt =====
-- What the caches' `Put` comes to on the items alone.
use hapudding.Base.{
  ℕ, ◌+◌, ◌-◌, ◌≤◌, ◌≡◌, refl, sym, ap, ◌∙◌, List, [], ◌∷◌, true, false, none, some, arith,
  if◌then◌else◌, length, Option-cases, inl, inr,
}
use hapudding.Base.Int.{ℤ, pos, pos_part, neg_part, ltb_ℤ}
use hapudding.Text.{Bytes, str_eq}
use hapudding.Text.Equality.{str_eq_iff, str_eq_refl}
use hapudding.Lru.Elements.{find_key}
use hapudding.Lru.Defs.{Lru, remove_locked, remove_key, push_front, evict, evict_loop, store_item}
use hapudding.Lru.Invariant.{IsValid, pointer, remove_key-IsValid, push_front-IsValid}
use hapudding.Lru.Fit.{
  items, erase, get, erase_absent, erase-items, sum_sizes, fit, total-items, sum_sizes-fit-le,
  value?_of_find_key,
}
use hapudding.Lru.Refinement.{room, evict_loop_lem}

find_key-none_of_get {ℓ} :
    {I : Type ℓ} (key : I → Bytes) (k : Bytes) (l : List (ℕ × I))
    → get key k (items l) ≡ none
    → find_key key k l ≡ none
unfolding get find_key
find_key-none_of_get key k [] h = refl
find_key-none_of_get key k ((m, x) ∷ l) h = ground (arith, find_key-none_of_get key k l)

module _ {I : Type 0} (key : I → Bytes) where
  pub get-erase :
      (k j : Bytes) (l : List I)
      → get key j (erase key k l) ≡ (if str_eq k j then none else get key j l)
  unfolding get erase
  get-erase k j [] = ground arith
  get-erase k j (x ∷ l) =
      ground (arith, get-erase k j l, str_eq_iff (key x) k, str_eq_iff (key x) j, str_eq_iff k j)

module _ {I : Type 0} (key : I → Bytes) (size : I → ℕ) where
  get-fit-none :
      (k : Bytes) (b : ℕ) (l : List I) → get key k l ≡ none → get key k (fit size b l) ≡ none
  unfolding get fit
  get-fit-none k b [] h = refl
  get-fit-none k b (x ∷ l) h = ground (arith, get-fit-none k (b - size x) l)

  -- An item that the budget keeps is the item that was there.
  pub get-fit :
      (k : Bytes) (b : ℕ) (l : List I) (it : I)
      → get key k (fit size b l) ≡ some it
      → get key k l ≡ some it
  unfolding get fit
  get-fit k b [] it h = h
  get-fit k b (x ∷ l) it h = ground (arith, get-fit k (b - size x) l it)

  module _ (c : Lru I) (v : IsValid key size c) where
    -- To remove by the index is to erase the key.
    remove_key-items : (k : Bytes) → items (remove_key key size c k).ll ≡ erase key k (items c.ll)
    unfolding remove_key remove_locked
    remove_key-items k = elim (Option-cases (find_key key k c.ll)) [
      | inl e ↦
          let absent : c.idx k ≡ none = v.indexed k ∙ ap pointer e in
          rw (absent, remove_key) (sym (erase_absent key k c.ll e))
      | inr ((i, it), e) ↦
          let present : c.idx k ≡ some i = v.indexed k ∙ ap pointer e in
          rw
            (
              present,
              value?_of_find_key key c.next i k it c.ll v.distinct e,
              remove_key,
              remove_locked,
            )
            (erase-items key c.next i k it c.ll v.distinct e)
    ]

    -- What was removed by its key is gone.
    pub find_key-remove_key : (k : Bytes) → find_key key k (remove_key key size c k).ll ≡ none
    find_key-remove_key k =
        find_key-none_of_get key k (remove_key key size c k).ll
          (rw (remove_key-items k) (get-erase key k k (items c.ll) ∙ rw str_eq_refl))

    -- After the eviction the item fits, and its key is nowhere.
    evicted :
        (it : I) (max : ℤ)
        → size it + neg_part max ≤ pos_part max
        → let c' = (evict key size (remove_key key size c (key it)) (size it) max).0 in
          IsValid key size c'
          × (items c'.ll ≡ fit size (room max (size it)) (erase key (key it) (items c.ll)))
          × (find_key key (key it) c'.ll ≡ none)
          × (c'.n + size it + neg_part max ≤ pos_part max)
    unfolding evict
    evicted it max fits =
        let before = remove_key key size c (key it) in
        let v' = remove_key-IsValid key size c v (key it) in
        let b = room max (size it) in
        let l = erase key (key it) (items c.ll) in
        let (valid, kept, _) =
          evict_loop_lem key size (length before.ll) before (size it) max v' fits (omega arith) in
        let after = (evict_loop key size (length before.ll) before (size it) max).0 in
        let shown : items after.ll ≡ fit size b l =
          kept ∙ ap (fit size b) (remove_key-items (key it)) in
        let gone : get key (key it) l ≡ none =
          get-erase key (key it) (key it) (items c.ll) ∙ rw str_eq_refl in
        let absent : get key (key it) (items after.ll) ≡ none =
          rw shown (get-fit-none (key it) b l gone) in
        (
          valid,
          shown,
          find_key-none_of_get key (key it) after.ll absent,
          omega (
            arith,
            valid.counted,
            total-items size after.ll,
            ap (sum_sizes size) shown,
            sum_sizes-fit-le size b l,
          ),
        )

    -- In a valid cache an item that fits alone is stored: in front of what fits beside it, from the
    -- front, of the items of other keys; the cache stays valid.
    pub store_item_lem :
        (it : I) (max : ℤ)
        → size it + neg_part max ≤ pos_part max
        → let r = store_item key size c it max in
          IsValid key size r.0
          × (items r.0.ll ≡ it ∷ fit size (room max (size it)) (erase key (key it) (items c.ll)))
          × (r.2 ≡ true)
    unfolding store_item
    store_item_lem it max fits =
        let (valid, shown, absent, within) = evicted it max fits in
        let c' = (evict key size (remove_key key size c (key it)) (size it) max).0 in
        let under : ltb_ℤ max (pos (c'.n + size it)) ≡ false = ground arith in
        rw under (
          push_front-IsValid key size c' valid it absent,
          unfold push_front in ap (◌∷◌ it) shown,
          refl,
        )

module _ {I : Type 0} (key : I → Bytes) (size : I → ℕ) where
  -- What `store_item` leaves is within the limit.
  pub stored_n :
      (l : Lru I) (it : I) (rest : List I) (max : ℤ)
      → IsValid key size l
      → items l.ll ≡ it ∷ fit size (room max (size it)) rest
      → size it + neg_part max ≤ pos_part max
      → l.n ≤ pos_part max
  unfolding sum_sizes
  stored_n l it rest max v e fits = omega (
    arith,
    v.counted,
    total-items size l.ll,
    ap (sum_sizes size) e,
    sum_sizes-fit-le size (room max (size it)) rest,
  )
