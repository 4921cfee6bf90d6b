-- ===== src/Lru/Defs.antt =====
-- The state that the caches share and the steps on it.
use hapudding.Base.{
  ℕ, suc, ◌+◌, ◌-◌, List, [], ◌∷◌, Bool, Option, none, some, if◌then◌else◌, length,
}
use hapudding.Base.Int.{ℤ, pos, ltb_ℤ}
use hapudding.Text.{Bytes, str_eq}
use hapudding.Lru.Elements.{value?, remove_el, back}

-- `n` is the byte count; it never falls below 0, as the code resets it there. `next` is a pointer
-- that no element has had.
pub record Lru {ℓ} (I : Type ℓ) : Type ℓ where
  pub ll : List (ℕ × I)
  pub idx : Bytes → Option ℕ
  pub n : ℕ
  pub next : ℕ

abbrev pub empty {ℓ} : {I : Type ℓ} → Lru I
empty = record { ll = []; idx = λ _. none; n = 0; next = 0 }

module _ {ℓ} {I : Type ℓ} (key : I → Bytes) (size : I → ℕ) where
  -- `removeLocked` and `removeDiskIndexLocked`
  unfoldable pub remove_locked : Lru I → ℕ → Lru I
  remove_locked c el = elim (value? el c.ll) [
    | none ↦ c
    | some it ↦ record c {
      n = c.n - size it;
      idx = λ k. if str_eq (key it) k then none else c.idx k;
      ll = remove_el el c.ll;
    }
  ]

  -- if el, ok := idx[key]; ok { removeLocked(el) }
  unfoldable pub remove_key : Lru I → Bytes → Lru I
  unfolding remove_locked
  remove_key c k = elim (c.idx k) [ none ↦ c | some el ↦ remove_locked c el ]

  -- el := ll.PushFront(it); idx[key] = el; n += size
  unfoldable pub push_front : Lru I → I → Lru I
  push_front c it = record c {
    ll = (c.next, it) ∷ c.ll;
    idx = λ k. if str_eq (key it) k then some c.next else c.idx k;
    n = c.n + size it;
    next = suc c.next;
  }

  -- `ll.MoveToFront(el)`
  unfoldable pub move_to_front : Lru I → ℕ → Lru I
  move_to_front c el = elim (value? el c.ll) [
    | none ↦ c
    | some it ↦ record c { ll = (el, it) ∷ remove_el el c.ll }
  ]

  -- for n+size > max && ll.Len() > 0 { removeLocked(ll.Back()); ev++ }: the cache that is left and
  -- the number of rounds. Each round takes an element, so their number is fuel enough.
  unfoldable pub evict_loop : ℕ → Lru I → ℕ → ℤ → Lru I × ℕ
  evict_loop ℕ.zero c need max = (c, 0)
  evict_loop (suc fuel) c need max = elim (back c.ll) [
    | none ↦ (c, 0)
    | some last ↦ elim (ltb_ℤ max (pos (c.n + need))) [
      | Bool.false ↦ (c, 0)
      | Bool.true ↦
          let (c', rounds) = evict_loop fuel (remove_locked c last.0) need max in (c', suc rounds)
    ]
  ]

  unfoldable pub evict : Lru I → ℕ → ℤ → Lru I × ℕ
  unfolding evict_loop
  evict c need max = evict_loop (length c.ll) c need max

  -- What `Put` does behind its size test: the old item of the key goes, then items from the back
  -- until the new one fits, and the new one comes to the front. With the number of items taken from
  -- the back and whether the item was stored.
  unfoldable pub store_item : Lru I → I → ℤ → Lru I × ℕ × Bool
  store_item c it max =
      let (c', rounds) = evict (remove_key c (key it)) (size it) max in
      if ltb_ℤ max (pos (c'.n + size it))
      then (c', rounds, Bool.false)
      else (push_front c' it, rounds, Bool.true)
