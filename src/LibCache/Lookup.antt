-- ===== src/LibCache/Lookup.antt =====
-- What `Get` and `Put` of internal/libcache/cache.go mean for the entries, seen without the index.
use hapudding.Base.{
  ℕ, ◌≡◌, ◌≢◌, refl, ap, ◌∙◌, List, ◌∷◌, false, not, Option, none, some, if◌then◌else◌, length,
  arith, Bool-cases, Option-cases, inl, inr,
}
use hapudding.Text.{Bytes}
use hapudding.Text.Equality.{str_eq_iff, str_eq_refl}
use hapudding.Lru.Elements.{find_key}
use hapudding.Lru.Invariant.{pointer}
use hapudding.Lru.Fit.{
  items, fit, erase, get as get_item, get-items, get-items-none, value?_of_find_key,
}
use hapudding.Lru.Refinement.{room}
use hapudding.Lru.Store.{store_item_lem, get-fit, get-erase}
use hapudding.LibCache.Cache.{
  Entry, Item, key_of, size_of, Cache, has_expired, count_hit, get_at, get, stamped, refuses, put,
}
use hapudding.LibCache.Invariant.{IsValid, refuses_not, put-IsValid}

-- The item that the cache holds for a key.
unfoldable pub held : Cache → Bytes → Option Item
held c k = get_item key_of k (items c.lru.ll)

-- What a caller sees of a held item at a time.
unfoldable pub served : ℕ → Option Item → Option Entry
served now none = none
served now (some it) = if has_expired now it.ent.expires_at then none else some (count_hit it).ent

-- In a valid cache `Get` answers with the entry held for the key, with its hit counted, unless that
-- has run out.
pub get-served :
    (c : Cache) (now : ℕ) (k : Bytes) → IsValid c → (get c now k).0 ≡ served now (held c k)
unfolding get get_at held served
get-served c now k v = elim (Option-cases (find_key key_of k c.lru.ll)) [
  | inl e ↦
      let absent : c.lru.idx k ≡ none = v.agrees.indexed k ∙ ap pointer e in
      rw (absent, get-items-none key_of k c.lru.ll e, get, served)
  | inr ((i, it), e) ↦
      let present : c.lru.idx k ≡ some i = v.agrees.indexed k ∙ ap pointer e in
      rw
        (
          present,
          value?_of_find_key key_of c.lru.next i k it c.lru.ll v.agrees.distinct e,
          get-items key_of k c.lru.ll e,
          get,
          served,
        )
        (ground arith)
]

-- The item that `Put` stores.
abbrev pub kept_item : Cache → ℕ → Bytes → Entry → Item
kept_item c now k ent = record { key = k; ent = stamped c.cfg now ent }

-- On a valid cache `Put` refuses an entry that is empty or over a limit and then leaves the items;
-- any other entry it stores in front, before as many of the other items, the most recently used
-- first, as fit beside it within `max_bytes`.
pub put-items :
    (c : Cache) (now : ℕ) (k : Bytes) (ent : Entry)
    → IsValid c
    → let it = kept_item c now k ent in
      let r = put c now k ent in
      (r.0 ≡ not (refuses c.cfg (length ent.body)))
      × (items r.1.lru.ll ≡ (
          if refuses c.cfg (length ent.body)
          then items c.lru.ll
          else it
            ∷ fit size_of (room c.cfg.max_bytes (size_of it)) (erase key_of k (items c.lru.ll))))
unfolding put
put-items c now k ent v = elim (Bool-cases (refuses c.cfg (length ent.body))) [
  | inl e ↦ rw e (refl, refl)
  | inr e ↦
      let it = kept_item c now k ent in
      let fits = (refuses_not c.cfg (length ent.body) e).2 in
      let (valid, shown, done) =
        store_item_lem key_of size_of c.lru v.agrees it c.cfg.max_bytes fits in
      rw e (done, shown)
]

held_front :
    (c : Cache) (it : Item) (rest : List Item)
    → items c.lru.ll ≡ it ∷ rest
    → held c it.key ≡ some it
unfolding held get_item
held_front c it rest e = rw (e, str_eq_refl)

-- On a valid cache a `Get` behind a `Put` of the same key that was not refused returns the stored
-- copy with one more hit, as long as that has not run out.
pub get-put :
    (c : Cache) (now later : ℕ) (k : Bytes) (ent : Entry)
    → IsValid c
    → refuses c.cfg (length ent.body) ≡ false
    → has_expired later (stamped c.cfg now ent).expires_at ≡ false
    → (get (put c now k ent).1 later k).0 ≡ some (count_hit (kept_item c now k ent)).ent
unfolding served
get-put c now later k ent v taken fresh =
    let c' = (put c now k ent).1 in
    let it = kept_item c now k ent in
    let rest = fit size_of (room c.cfg.max_bytes (size_of it)) (erase key_of k (items c.lru.ll)) in
    let shown : items c'.lru.ll ≡ it ∷ rest = (put-items c now k ent v).1 ∙ rw taken in
    get-served c' later k (put-IsValid c now k ent v)
    ∙ ap (served later) (held_front c' it rest shown)
    ∙ rw fresh

-- What a valid cache holds for a key after a `Put` of another key it held before: the items of
-- other keys are evicted or left as they are.
pub held-put :
    (c : Cache) (now : ℕ) (k j : Bytes) (ent : Entry) (it : Item)
    → IsValid c
    → k ≢ j
    → held (put c now k ent).1 j ≡ some it
    → held c j ≡ some it
unfolding held get_item
held-put c now k j ent it v other h =
    let rest = erase key_of k (items c.lru.ll) in
    let b = room c.cfg.max_bytes (length ent.body) in
    ground (
      arith,
      put-items c now k ent v,
      str_eq_iff k j,
      get-fit key_of size_of j b rest it,
      get-erase key_of k j (items c.lru.ll),
      ap (get_item key_of j) (put-items c now k ent v).1,
    )
