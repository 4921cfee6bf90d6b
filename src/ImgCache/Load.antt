-- ===== src/ImgCache/Load.antt =====
-- What `loadDisk` of internal/imgcache/disk.go makes of the files that it finds.
use hapudding.Base.{
  ℕ, ◌≡◌, refl, ◌∙◌, List, [], ◌∷◌, Bool, true, false, not, ◌||◌, Option, none, some, ◌==◌, length,
  arith, Bool-cases, Option-cases, inl, inr,
}
use hapudding.Base.Int.{pos, ltb_ℤ}
use hapudding.Text.{Bytes, is_empty}
use hapudding.Config.{Cache as CacheConfig}
use hapudding.Lru.Defs.{remove_key, push_front}
use hapudding.Lru.Invariant
use hapudding.Lru.Invariant.{remove_key-IsValid, push_front-IsValid}
use hapudding.Lru.Store.{find_key-remove_key}
use hapudding.ImgCache.Types.{
  DiskMeta, DiskItem, disk_key_of, disk_size_of, FileOp, makes_dir, reads_dir, reads_meta, Cache,
  has_expired, disk_enabled,
}
use hapudding.ImgCache.Disk.{remove_disk_files, add_disk_index, load_one, load_each, load_disk}
use hapudding.ImgCache.Invariant.{blank-IsValid}
use hapudding.ImgCache.Frame.{IsValid, remove_disk_files-Same, remove_disk_key-Same, disk_evict_lem}
use hapudding.ImgCache.Cache.{blank, new}

-- The disk's index is sound, and nothing else but the files has changed.
record Loads (c c' : Cache) : Type 0 where
  sound : Invariant.IsValid disk_key_of disk_size_of c'.disk
  memory : c'.lru ≡ c.lru
  limits : c'.cfg ≡ c.cfg

remove_disk_files-Loads :
    (c : Cache) (hash : Bytes)
    → Invariant.IsValid disk_key_of disk_size_of c.disk
    → Loads c (remove_disk_files c hash)
remove_disk_files-Loads c hash v =
    let (a, b, d) = remove_disk_files-Same c hash in
    record { sound = rw a v; memory = b; limits = d }

add_disk_index-Loads :
    (c : Cache) (k hash : Bytes) (size expires : ℕ)
    → Invariant.IsValid disk_key_of disk_size_of c.disk
    → Loads c (add_disk_index c k hash size expires)
unfolding add_disk_index push_front
add_disk_index-Loads c k hash size expires v =
    let (a, b, d) = remove_disk_key-Same c k false in
    let l = remove_key disk_key_of disk_size_of c.disk k in
    let it : DiskItem = record { key = k; hash = hash; size = size; expires = expires } in
    let pushed =
      push_front-IsValid disk_key_of disk_size_of l
        (remove_key-IsValid disk_key_of disk_size_of c.disk v k) it
        (find_key-remove_key disk_key_of disk_size_of c.disk v k) in
    record { sound = rw a pushed; memory = b; limits = d }

load_one-Loads :
    (c : Cache) (now : ℕ) (hash : Bytes)
    → Invariant.IsValid disk_key_of disk_size_of c.disk
    → Loads c (load_one c now hash)
unfolding load_one
load_one-Loads c now hash v = elim (Option-cases (c.metas hash)) [
  | inl e ↦ rw (e, load_one) (remove_disk_files-Loads c hash v)
  | inr (info, e) ↦
      let body_size : ℕ = elim (c.bins hash) [ none ↦ 0 | some body ↦ length body ] in
      elim (Bool-cases (
        c.fails (reads_meta hash)
        || (is_empty info.key
            || (info.size == 0
                || (has_expired now info.expires_at || not (body_size == info.size)))))) [
                  | inl f ↦ rw (e, f, load_one) (remove_disk_files-Loads c hash v)
                  | inr f ↦
                      rw (e, f, load_one)
                        (add_disk_index-Loads c info.key hash info.size info.expires_at v)
                ]
]

load_each-Loads :
    (c : Cache) (now : ℕ) (hashes : List Bytes)
    → Invariant.IsValid disk_key_of disk_size_of c.disk
    → Loads c (load_each c now hashes)
unfolding load_each
load_each-Loads c now [] v = record { sound = v; memory = refl; limits = refl }
load_each-Loads c now (hash ∷ hashes) v =
    let one = load_one-Loads c now hash v in
    let rest = load_each-Loads (load_one c now hash) now hashes one.sound in
    record {
      sound = rest.sound;
      memory = rest.memory ∙ one.memory;
      limits = rest.limits ∙ one.limits;
    }

-- A disk that is in use has a positive limit.
abbrev pub HasRoom : CacheConfig → Type 0
HasRoom cfg = disk_enabled cfg ≡ true → ltb_ℤ (pos 0) cfg.disk.max_bytes ≡ true

load_disk-IsValid :
    (c : Cache) (now : ℕ) (hashes : List Bytes)
    → HasRoom c.cfg
    → IsValid c
    → IsValid (load_disk c now hashes)
unfolding load_disk
load_disk-IsValid c now hashes room v =
    elim (Bool-cases (not (disk_enabled c.cfg) || (c.fails makes_dir || c.fails reads_dir))) [
      | inl e ↦ rw (e, load_disk) v
      | inr e ↦
          let c1 : Cache = load_each c now hashes in
          let loaded = load_each-Loads c now hashes v.disk_agrees in
          let limited : ltb_ℤ (pos 0) c.cfg.disk.max_bytes ≡ true = room (ground (arith, e)) in
          let limited' : ltb_ℤ (pos 0) c1.cfg.disk.max_bytes ≡ true = rw loaded.limits limited in
          let (valid, within, same_lru, same_cfg) =
            disk_evict_lem c1 0 loaded.sound (ground (arith, limited')) in
          rw (e, load_disk, limited)
            (record {
              agrees = rw (same_lru, loaded.memory) v.agrees;
              bounded = rw (same_lru, loaded.memory, same_cfg, loaded.limits) v.bounded;
              disk_agrees = valid;
              disk_bounded = rw same_cfg (omega (arith, within));
            })
    ]

pub new-IsValid :
    (cfg : CacheConfig) (metas : Bytes → Option DiskMeta) (bins : Bytes → Option Bytes)
    (fails : FileOp → Bool) (sha : Bytes → Bytes) (now : ℕ) (hashes : List Bytes)
    → HasRoom cfg
    → IsValid (new cfg metas bins fails sha now hashes)
unfolding new
new-IsValid cfg metas bins fails sha now hashes room =
    load_disk-IsValid (blank cfg metas bins fails sha) now hashes room
      (blank-IsValid cfg metas bins fails sha)
