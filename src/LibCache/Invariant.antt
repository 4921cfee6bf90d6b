-- ===== src/LibCache/Invariant.antt =====
-- The cache of internal/libcache/cache.go stays within its limits, whatever calls it serves.
use hapudding.Base.{
  ℕ, suc, ◌+◌, ◌≤◌, ◌≡◌, ◌≢◌, refl, List, [], ◌∷◌, false, ◌||◌, length, arith, Bool-cases,
  Option-cases, inl, inr,
}
use hapudding.Base.Int.{pos_part, neg_part}
use hapudding.Text.{Bytes, is_empty}
use hapudding.Config.{LibraryCache}
use hapudding.Lru.Elements.{value?}
use hapudding.Lru.Defs.{Lru, remove_locked, move_to_front}
use hapudding.Lru.Invariant
use hapudding.Lru.Invariant.{
  remove_locked-IsValid, move_to_front-IsValid, empty-IsValid, total-remove_el,
}
use hapudding.Lru.Change.{set_value-IsValid, n-remove_locked-le, n-move_to_front}
use hapudding.Lru.Store.{store_item_lem, stored_n}
use hapudding.LibCache.Cache.{
  Entry, Item, key_of, size_of, Cache, new, has_expired, count_hit, get_at, get, stamped, refuses,
  put, token_prefix, with_prefix, remove_each, drop_token,
}

-- The list, the index and the count agree, and the count is within the limit.
pub record IsValid (c : Cache) : Type 0 where
  pub agrees : Invariant.IsValid key_of size_of c.lru
  pub bounded : c.lru.n ≤ pos_part c.cfg.max_bytes

pub new-IsValid : (cfg : LibraryCache) → IsValid (new cfg)
new-IsValid cfg = record { agrees = empty-IsValid key_of size_of; bounded = omega arith }

get_at-IsValid : (c : Cache) (now el : ℕ) (it : Item) → IsValid c → IsValid (get_at c now el it).1
unfolding get_at
get_at-IsValid c now el it v = elim (Bool-cases (has_expired now it.ent.expires_at)) [
  | inl e ↦ rw e (record {
    agrees = remove_locked-IsValid key_of size_of c.lru v.agrees el;
    bounded = omega (arith, n-remove_locked-le key_of size_of c.lru el, v.bounded);
  })
  | inr e ↦ rw e (record {
    agrees =
        set_value-IsValid key_of size_of count_hit (λ x. refl) (λ x. refl)
          (move_to_front key_of size_of c.lru el) el
          (move_to_front-IsValid key_of size_of c.lru v.agrees el);
    bounded = omega (arith, n-move_to_front key_of size_of c.lru el, v.bounded);
  })
]

miss-IsValid : (c : Cache) → IsValid c → IsValid (record c { mis = suc c.mis })
miss-IsValid c v = record { agrees = v.agrees; bounded = v.bounded }

pub get-IsValid : (c : Cache) (now : ℕ) (k : Bytes) → IsValid c → IsValid (get c now k).1
unfolding get
get-IsValid c now k v = elim (Option-cases (c.lru.idx k)) [
  | inl e ↦ rw (e, get) (miss-IsValid c v)
  | inr (el, e) ↦ elim (Option-cases (value? el c.lru.ll)) [
    | inl f ↦ rw (e, f, get) (miss-IsValid c v)
    | inr (it, f) ↦ rw (e, f, get) (get_at-IsValid c now el it v)
  ]
]

-- What the limits say of an entry that is not refused.
pub refuses_not :
    (cfg : LibraryCache) (size : ℕ)
    → refuses cfg size ≡ false
    → (size ≢ 0)
      × (size + neg_part cfg.max_object ≤ pos_part cfg.max_object)
      × (size + neg_part cfg.max_bytes ≤ pos_part cfg.max_bytes)
refuses_not cfg size h = ground arith

pub put-IsValid :
    (c : Cache) (now : ℕ) (k : Bytes) (ent : Entry) → IsValid c → IsValid (put c now k ent).1
unfolding put
put-IsValid c now k ent v = elim (Bool-cases (refuses c.cfg (length ent.body))) [
  | inl e ↦ rw e v
  | inr e ↦
      let it : Item = record { key = k; ent = stamped c.cfg now ent } in
      let fits = (refuses_not c.cfg (length ent.body) e).2 in
      let (valid, shown, _) =
        store_item_lem key_of size_of c.lru v.agrees it c.cfg.max_bytes fits in
      rw e (record {
        agrees = valid;
        bounded = stored_n key_of size_of _ it _ c.cfg.max_bytes valid shown fits;
      })
]

remove_each-IsValid :
    (l : Lru Item) (els : List ℕ)
    → Invariant.IsValid key_of size_of l
    → Invariant.IsValid key_of size_of (remove_each l els) × ((remove_each l els).n ≤ l.n)
unfolding remove_each
remove_each-IsValid l [] v = (v, omega arith)
remove_each-IsValid l (el ∷ els) v =
    let (valid, less) =
      remove_each-IsValid (remove_locked key_of size_of l el) els
        (remove_locked-IsValid key_of size_of l v el) in
    (valid, omega (arith, less, n-remove_locked-le key_of size_of l el))

drop_token-IsValid :
    (c : Cache) (backend token_hash : Bytes) → IsValid c → IsValid (drop_token c backend token_hash)
unfolding drop_token
drop_token-IsValid c backend token_hash v =
    elim (Bool-cases (is_empty backend || is_empty token_hash)) [
      | inl e ↦ rw e v
      | inr e ↦
          let (valid, less) =
            remove_each-IsValid c.lru (with_prefix (token_prefix backend token_hash) c.lru.ll)
              v.agrees in
          rw e (record { agrees = valid; bounded = omega (arith, less, v.bounded) })
    ]

-- The calls that a cache serves, with the time of each.
pub data Call : Type 0 where
  gets : ℕ → Bytes → Call
  puts : ℕ → Bytes → Entry → Call
  drops : Bytes → Bytes → Call

abbrev pub step : Cache → Call → Cache
step c (gets now k) = (get c now k).1
step c (puts now k ent) = (put c now k ent).1
step c (drops backend token_hash) = drop_token c backend token_hash

unfoldable pub run : Cache → List Call → Cache
run c [] = c
run c (call ∷ calls) = run (step c call) calls

step-IsValid : (c : Cache) (call : Call) → IsValid c → IsValid (step c call)
step-IsValid c (gets now k) v = get-IsValid c now k v
step-IsValid c (puts now k ent) v = put-IsValid c now k ent v
step-IsValid c (drops backend token_hash) v = drop_token-IsValid c backend token_hash v

run_from-IsValid : (c : Cache) (calls : List Call) → IsValid c → IsValid (run c calls)
unfolding run
run_from-IsValid c [] v = v
run_from-IsValid c (call ∷ calls) v = run_from-IsValid (step c call) calls (step-IsValid c call v)

-- After any calls on a new cache the index finds exactly the elements of the list, the byte count
-- is the sum of the lengths of the bodies held, and it is at most `max_bytes` (0 if that is
-- negative).
pub run-IsValid : (cfg : LibraryCache) (calls : List Call) → IsValid (run (new cfg) calls)
run-IsValid cfg calls = run_from-IsValid (new cfg) calls (new-IsValid cfg)
