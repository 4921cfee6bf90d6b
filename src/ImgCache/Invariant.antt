-- ===== src/ImgCache/Invariant.antt =====
-- The steps of `Get` of internal/imgcache, in memory and on disk, keep the cache valid.
use hapudding.Base.{
  ℕ, suc, ◌+◌, ◌≤◌, ◌≡◌, refl, Bool, true, false, Option, length, arith, Bool-cases, Option-cases,
  inl, inr,
}
use hapudding.Base.Int.{pos_part, neg_part}
use hapudding.Text.{Bytes}
use hapudding.Config.{Cache as CacheConfig}
use hapudding.Lru.Elements.{value?}
use hapudding.Lru.Defs.{move_to_front}
use hapudding.Lru.Invariant.{remove_locked-IsValid, move_to_front-IsValid, empty-IsValid}
use hapudding.Lru.Change.{set_value-IsValid, n-remove_locked-le, n-move_to_front}
use hapudding.Lru.Store.{store_item_lem, stored_n}
use hapudding.ImgCache.Types.{
  Entry, Item, key_of, size_of, DiskMeta, DiskItem, disk_key_of, disk_size_of, FileOp, Cache,
  has_expired, disk_enabled,
}
use hapudding.ImgCache.Memory.{count_hit, refuses, get_memory, store_memory, put_memory}
use hapudding.ImgCache.Disk.{drop_disk_key, read_files, serve_disk, entry_of, get_disk_at, get_disk}
use hapudding.ImgCache.Frame.{IsValid, of_Same, remove_disk_files-Same, remove_disk_index-IsValid}
use hapudding.ImgCache.Cache.{blank}

pub blank-IsValid :
    (cfg : CacheConfig) (metas : Bytes → Option DiskMeta) (bins : Bytes → Option Bytes)
    (fails : FileOp → Bool) (sha : Bytes → Bytes)
    → IsValid (blank cfg metas bins fails sha)
blank-IsValid cfg metas bins fails sha = record {
  agrees = empty-IsValid key_of size_of;
  bounded = omega arith;
  disk_agrees = empty-IsValid disk_key_of disk_size_of;
  disk_bounded = omega arith;
}

pub get_memory-IsValid :
    (c : Cache) (now : ℕ) (k : Bytes) → IsValid c → IsValid (get_memory c now k).1
unfolding get_memory
get_memory-IsValid c now k v = elim (Option-cases (c.lru.idx k)) [
  | inl e ↦ rw (e, get_memory) v
  | inr (el, e) ↦ elim (Option-cases (value? el c.lru.ll)) [
    | inl f ↦ rw (e, f, get_memory) v
    | inr (it, f) ↦ elim (Bool-cases (has_expired now it.ent.expires_at)) [
      | inl g ↦
          rw (e, f, g, get_memory)
            (record {
              agrees = remove_locked-IsValid key_of size_of c.lru v.agrees el;
              bounded = omega (arith, n-remove_locked-le key_of size_of c.lru el, v.bounded);
              disk_agrees = v.disk_agrees;
              disk_bounded = v.disk_bounded;
            })
      | inr g ↦
          rw (e, f, g, get_memory)
            (record {
              agrees =
                  set_value-IsValid key_of size_of count_hit (λ x. refl) (λ x. refl)
                    (move_to_front key_of size_of c.lru el) el
                    (move_to_front-IsValid key_of size_of c.lru v.agrees el);
              bounded = omega (arith, n-move_to_front key_of size_of c.lru el, v.bounded);
              disk_agrees = v.disk_agrees;
              disk_bounded = v.disk_bounded;
            })
    ]
  ]
]

-- What the limits say of a body that is not refused.
pub refuses_not :
    (cfg : CacheConfig) (size : ℕ)
    → refuses cfg size ≡ false
    → size + neg_part cfg.max_bytes ≤ pos_part cfg.max_bytes
refuses_not cfg size h = ground arith

pub store_memory-IsValid :
    (c : Cache) (it : Item)
    → size_of it + neg_part c.cfg.max_bytes ≤ pos_part c.cfg.max_bytes
    → IsValid c
    → IsValid (store_memory c it).1
unfolding store_memory
store_memory-IsValid c it fits v =
    let (valid, shown, _) = store_item_lem key_of size_of c.lru v.agrees it c.cfg.max_bytes fits in
    record {
      agrees = valid;
      bounded = stored_n key_of size_of _ it _ c.cfg.max_bytes valid shown fits;
      disk_agrees = v.disk_agrees;
      disk_bounded = v.disk_bounded;
    }

put_memory-IsValid :
    (c : Cache) (k : Bytes) (ent : Entry) → IsValid c → IsValid (put_memory c k ent)
unfolding put_memory
put_memory-IsValid c k ent v = elim (Bool-cases (refuses c.cfg (length ent.body))) [
  | inl e ↦ rw (e, put_memory) v
  | inr e ↦
      rw (e, put_memory)
        (store_memory-IsValid c (record { key = k; ent = ent })
          (refuses_not c.cfg (length ent.body) e) v)
]

drop_disk_key-IsValid : (c : Cache) (k hash : Bytes) → IsValid c → IsValid (drop_disk_key c k hash)
unfolding drop_disk_key
drop_disk_key-IsValid c k hash v = elim (Option-cases (c.disk.idx k)) [
  | inl e ↦
      rw (e, drop_disk_key)
        (of_Same c _ c.disk (remove_disk_files-Same c hash) v.disk_agrees v.disk_bounded v)
  | inr (el, e) ↦ rw (e, drop_disk_key) (remove_disk_index-IsValid c el true v)
]

serve_disk-IsValid :
    (c : Cache) (k : Bytes) (ent : Entry) → IsValid c → IsValid (serve_disk c k ent).1
unfolding serve_disk
serve_disk-IsValid c k ent v = elim (Option-cases (c.disk.idx k)) [
  | inl e ↦
      rw (e, serve_disk)
        (put_memory-IsValid (record c { disk = c.disk; dhit = suc c.dhit }) k ent
          (record {
            agrees = v.agrees;
            bounded = v.bounded;
            disk_agrees = v.disk_agrees;
            disk_bounded = v.disk_bounded;
          }))
  | inr (el, e) ↦
      let l = move_to_front disk_key_of disk_size_of c.disk el in
      rw (e, serve_disk)
        (put_memory-IsValid (record c { disk = l; dhit = suc c.dhit }) k ent
          (record {
            agrees = v.agrees;
            bounded = v.bounded;
            disk_agrees = move_to_front-IsValid disk_key_of disk_size_of c.disk v.disk_agrees el;
            disk_bounded =
                omega (arith, n-move_to_front disk_key_of disk_size_of c.disk el, v.disk_bounded);
          }))
]

get_disk_at-IsValid :
    (c : Cache) (now : ℕ) (k : Bytes) (el : ℕ) (it : DiskItem)
    → IsValid c
    → IsValid (get_disk_at c now k el it).1
unfolding get_disk_at
get_disk_at-IsValid c now k el it v = elim (Bool-cases (has_expired now it.expires)) [
  | inl e ↦ rw (e, get_disk_at) (remove_disk_index-IsValid c el true v)
  | inr e ↦ elim (Option-cases (read_files c now it.hash)) [
    | inl f ↦ rw (e, f, get_disk_at) (drop_disk_key-IsValid c k it.hash v)
    | inr ((info, body), f) ↦ rw (e, f, get_disk_at) (serve_disk-IsValid c k (entry_of info body) v)
  ]
]

pub get_disk-IsValid : (c : Cache) (now : ℕ) (k : Bytes) → IsValid c → IsValid (get_disk c now k).1
unfolding get_disk
get_disk-IsValid c now k v = elim (Bool-cases (disk_enabled c.cfg)) [
  | inr e ↦ rw (e, get_disk) v
  | inl e ↦ elim (Option-cases (c.disk.idx k)) [
    | inl f ↦ rw (e, f, get_disk) v
    | inr (el, f) ↦ elim (Option-cases (value? el c.disk.ll)) [
      | inl g ↦ rw (e, f, g, get_disk) v
      | inr (it, g) ↦ rw (e, f, g, get_disk) (get_disk_at-IsValid c now k el it v)
    ]
  ]
]
