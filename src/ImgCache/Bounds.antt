-- ===== src/ImgCache/Bounds.antt =====
-- `Put` and `Get`: the cache of internal/imgcache stays within its limits, in memory and on disk, whatever calls it
-- serves and whatever files it finds.
use hapudding.Base.{
  ℕ, ◌+◌, ◌≤◌, refl, ap, List, [], ◌∷◌, Bool, false, not, ◌||◌, Option, length, arith, Bool-cases,
  Option-cases, inl, inr,
}
use hapudding.Base.Int.{pos, pos_part, neg_part, ltb_ℤ}
use hapudding.Text.{Bytes}
use hapudding.Config.{Cache as CacheConfig}
use hapudding.Lru.Defs.{remove_key, push_front}
use hapudding.Lru.Invariant.{remove_key-IsValid, push_front-IsValid}
use hapudding.Lru.Change.{n-remove_key-le}
use hapudding.Lru.Store.{find_key-remove_key}
use hapudding.ImgCache.Types.{
  Entry, Item, DiskMeta, DiskItem, disk_key_of, disk_size_of, FileOp, makes_dir, writes_bin,
  writes_meta, moves_bin, moves_meta, Cache, disk_enabled,
}
use hapudding.ImgCache.Memory.{refuses, get_memory, store_memory}
use hapudding.ImgCache.Disk.{
  remove_disk_key, add_disk_index, write_disk_files, refuses_disk, store_disk, put_disk, get_disk,
  meta_of,
}
use hapudding.ImgCache.Invariant.{
  get_memory-IsValid, refuses_not, store_memory-IsValid, get_disk-IsValid,
}
use hapudding.ImgCache.Load.{HasRoom, new-IsValid}
use hapudding.ImgCache.Frame.{
  IsValid, Same, of_Same, remove_disk_key-Same, remove_disk_key-IsValid, disk_evict_lem,
}
use hapudding.ImgCache.Cache.{new, get, put}

-- What storing on the disk changes of the state.
store_files-Same :
    (c : Cache) (hash : Bytes) (info : DiskMeta) (body : Bytes)
    → Same c (write_disk_files c hash info body).1 c.disk
unfolding write_disk_files
store_files-Same c hash info body =
    elim (Bool-cases (
      c.fails makes_dir
      || (c.fails (writes_bin hash) || (c.fails (writes_meta hash) || c.fails (moves_bin hash))))) [
        | inl e ↦ rw (e, write_disk_files) (refl, refl, refl)
        | inr e ↦ elim (Bool-cases (c.fails (moves_meta hash))) [
          | inl f ↦ rw (e, f, write_disk_files) (refl, refl, refl)
          | inr f ↦ rw (e, f, write_disk_files) (refl, refl, refl)
        ]
      ]

add_disk_index-IsValid :
    (c : Cache) (k hash : Bytes) (size expires : ℕ)
    → c.disk.n + size ≤ pos_part c.cfg.disk.max_bytes
    → IsValid c
    → IsValid (add_disk_index c k hash size expires)
unfolding add_disk_index push_front
add_disk_index-IsValid c k hash size expires within v =
    let (a, b, d) = remove_disk_key-Same c k false in
    let l = remove_key disk_key_of disk_size_of c.disk k in
    let it : DiskItem = record { key = k; hash = hash; size = size; expires = expires } in
    of_Same c _ (push_front disk_key_of disk_size_of l it)
      (ap (λ l. push_front disk_key_of disk_size_of l it) a, b, d)
      (push_front-IsValid disk_key_of disk_size_of l
        (remove_key-IsValid disk_key_of disk_size_of c.disk v.disk_agrees k) it
        (find_key-remove_key disk_key_of disk_size_of c.disk v.disk_agrees k))
      (omega (arith, n-remove_key-le disk_key_of disk_size_of c.disk k, within)) v

store_disk-IsValid :
    (c : Cache) (k : Bytes) (ent : Entry) → IsValid c → IsValid (store_disk c k ent)
unfolding store_disk
store_disk-IsValid c k ent v =
    let size = length ent.body in
    let w = write_disk_files c (c.sha k) (meta_of k ent) ent.body in
    let same = store_files-Same c (c.sha k) (meta_of k ent) ent.body in
    let v' : IsValid w.1 = of_Same c w.1 c.disk same v.disk_agrees v.disk_bounded v in
    elim (Bool-cases (ltb_ℤ c.cfg.disk.max_bytes (pos (c.disk.n + size)))) [
      | inl e ↦ rw (e, store_disk) v
      | inr e ↦
          let within : c.disk.n + size ≤ pos_part c.cfg.disk.max_bytes = ground arith in
          elim (Bool-cases w.0) [
            | inl f ↦
                let added =
                  add_disk_index-IsValid w.1 k (c.sha k) size ent.expires_at
                    (rw (same.0, same.2) within) v' in
                rw (e, f, store_disk)
                  (record {
                    agrees = added.agrees;
                    bounded = added.bounded;
                    disk_agrees = added.disk_agrees;
                    disk_bounded = added.disk_bounded;
                  })
            | inr f ↦ rw (e, f, store_disk) v'
          ]
    ]

put_disk-IsValid : (c : Cache) (k : Bytes) (ent : Entry) → IsValid c → IsValid (put_disk c k ent)
unfolding put_disk
put_disk-IsValid c k ent v =
    let size = length ent.body in
    elim (Bool-cases (not (disk_enabled c.cfg) || refuses_disk c size)) [
      | inl e ↦ rw (e, put_disk) v
      | inr e ↦
          let c' : Cache = remove_disk_key c k false in
          let v' : IsValid c' = remove_disk_key-IsValid c k false v in
          let (_, _, kept) = remove_disk_key-Same c k false in
          let fits : size + neg_part c.cfg.disk.max_bytes ≤ pos_part c.cfg.disk.max_bytes =
            ground arith in
          let (valid, within, same_lru, same_cfg) =
            disk_evict_lem c' size v'.disk_agrees (rw kept fits) in
          rw (e, put_disk)
            (store_disk-IsValid _ k ent (record {
              agrees = rw same_lru v'.agrees;
              bounded = rw (same_lru, same_cfg) v'.bounded;
              disk_agrees = valid;
              disk_bounded = rw same_cfg (omega (arith, within));
            }))
    ]

get-IsValid : (c : Cache) (now : ℕ) (k : Bytes) → IsValid c → IsValid (get c now k).1
unfolding get
get-IsValid c now k v =
    let c' : Cache = (get_memory c now k).1 in
    let c'' : Cache = (get_disk c' now k).1 in
    let v'' : IsValid c'' = get_disk-IsValid c' now k (get_memory-IsValid c now k v) in
    elim (Option-cases (get_memory c now k).0) [
      | inr (ent, e) ↦ rw (e, get) (get_memory-IsValid c now k v)
      | inl e ↦ elim (Option-cases (get_disk c' now k).0) [
        | inr (ent, f) ↦ rw (e, f, get) v''
        | inl f ↦
            rw (e, f, get)
              (record {
                agrees = v''.agrees;
                bounded = v''.bounded;
                disk_agrees = v''.disk_agrees;
                disk_bounded = v''.disk_bounded;
              })
      ]
    ]

put-IsValid :
    (c : Cache) (now : ℕ) (k : Bytes) (ent : Entry) → IsValid c → IsValid (put c now k ent).1
unfolding put
put-IsValid c now k ent v =
    let stored : Entry = record ent { stored_at = now } in
    let it : Item = record { key = k; ent = stored } in
    elim (Bool-cases (refuses c.cfg (length ent.body))) [
      | inl e ↦ rw (e, put) v
      | inr e ↦
          let v' : IsValid (store_memory c it).1 =
            store_memory-IsValid c it (refuses_not c.cfg (length ent.body) e) v in
          elim (Bool-cases (store_memory c it).0) [
            | inr f ↦ rw (e, f, put) v'
            | inl f ↦
                rw (e, f, put)
                  (put_disk-IsValid _ k stored (record {
                    agrees = v'.agrees;
                    bounded = v'.bounded;
                    disk_agrees = v'.disk_agrees;
                    disk_bounded = v'.disk_bounded;
                  }))
          ]
    ]

-- The calls that a cache serves, with the time of each.
pub data Call : Type 0 where
  gets : ℕ → Bytes → Call
  puts : ℕ → Bytes → Entry → Call

abbrev step : Cache → Call → Cache
step c (gets now k) = (get c now k).1
step c (puts now k ent) = (put c now k ent).1

unfoldable pub run : Cache → List Call → Cache
run c [] = c
run c (call ∷ calls) = run (step c call) calls

run_from-IsValid : (c : Cache) (calls : List Call) → IsValid c → IsValid (run c calls)
unfolding run
run_from-IsValid c [] v = v
run_from-IsValid c (gets now k ∷ calls) v =
    run_from-IsValid (get c now k).1 calls (get-IsValid c now k v)
run_from-IsValid c (puts now k ent ∷ calls) v =
    run_from-IsValid (put c now k ent).1 calls (put-IsValid c now k ent v)

-- After any calls on the cache that `New` makes, whatever files it finds and loads, in memory and on disk
-- alike, the index finds exactly the elements of the list, the byte count is the sum of the sizes held, and it
-- is at most the limit of the configuration (0 if that is negative), whichever file operations fail. The limit
-- on the disk is positive if the disk is in use.
pub run_images-IsValid :
    (cfg : CacheConfig) (metas : Bytes → Option DiskMeta) (bins : Bytes → Option Bytes)
    (fails : FileOp → Bool) (sha : Bytes → Bytes) (now : ℕ) (hashes : List Bytes)
    (calls : List Call)
    → HasRoom cfg
    → IsValid (run (new cfg metas bins fails sha now hashes) calls)
run_images-IsValid cfg metas bins fails sha now hashes calls room =
    run_from-IsValid _ calls (new-IsValid cfg metas bins fails sha now hashes room)
