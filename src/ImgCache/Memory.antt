-- ===== src/ImgCache/Memory.antt =====
-- The memory side of internal/imgcache/cache.go, with `putMemoryLocked` of disk.go.
use hapudding.Base.{ℕ, suc, ◌+◌, Bool, ◌||◌, Option, none, some, ◌==◌, if◌then◌else◌, length}
use hapudding.Base.Int.{pos, ltb_ℤ}
use hapudding.Text.{Bytes}
use hapudding.Config.{Cache as CacheConfig}
use hapudding.Lru.Elements.{value?, set_value}
use hapudding.Lru.Defs.{remove_locked, move_to_front, store_item}
use hapudding.ImgCache.Types.{Entry, Item, key_of, size_of, Cache, has_expired}

abbrev pub count_hit : Item → Item
count_hit it = record it { ent = record (it.ent) { hits = suc it.ent.hits } }

-- size == 0 || size > MaxObject || size > MaxBytes
abbrev pub refuses : CacheConfig → ℕ → Bool
refuses cfg size = size == 0 || (ltb_ℤ cfg.max_object (pos size) || ltb_ℤ cfg.max_bytes (pos size))

-- The first part of `Get`: a fresh item is returned and comes to the front, an expired one goes.
unfoldable pub get_memory : Cache → ℕ → Bytes → Option Entry × Cache
get_memory c now k = elim (c.lru.idx k) [
  | none ↦ (none, c)
  | some el ↦ elim (value? el c.lru.ll) [
    | none ↦ (none, c)
    | some it ↦
        let front = move_to_front key_of size_of c.lru el in
        if has_expired now it.ent.expires_at
        then (none, record c { lru = remove_locked key_of size_of c.lru el })
        else (
          some (count_hit it).ent,
          record c { lru = record front { ll = set_value el count_hit front.ll }; hit = suc c.hit },
        )
  ]
]

-- The items of `Put` and of `putMemoryLocked` go in the same way: whether the item was stored.
unfoldable pub store_memory : Cache → Item → Bool × Cache
store_memory c it =
    let (lru, rounds, done) = store_item key_of size_of c.lru it c.cfg.max_bytes in
    (done, record c { lru = lru; ev = c.ev + rounds })

unfoldable pub put_memory : Cache → Bytes → Entry → Cache
put_memory c k ent =
    if refuses c.cfg (length ent.body)
    then c
    else (store_memory c (record { key = k; ent = ent })).1
