-- ===== src/ImgCache/Frame.antt =====
-- What the steps of internal/imgcache/disk.go change, and that they keep the cache valid.
use hapudding.Base.{
  ℕ, zero, suc, ◌+◌, ◌≤◌, ◌≡◌, refl, ap, Bool, true, ◌||◌, length, arith, Bool-cases, Option-cases,
  inl, inr, ◌∙◌,
}
use hapudding.Base.Int.{pos, pos_part, neg_part, ltb_ℤ}
use hapudding.Text.{Bytes, is_empty}
use hapudding.Lru.Elements.{value?, back}
use hapudding.Lru.Defs.{Lru, remove_locked, remove_key, evict_loop}
use hapudding.Lru.Invariant
use hapudding.Lru.Invariant.{
  remove_locked-IsValid, remove_key-IsValid, push_front-IsValid, move_to_front-IsValid,
  empty-IsValid,
}
use hapudding.Lru.Change.{n-remove_locked-le, n-remove_key-le}
use hapudding.Lru.Fit.{items, sum_sizes, total-items, sum_sizes-fit-le}
use hapudding.Lru.Refinement.{room, evict_loop_lem}
use hapudding.ImgCache.Types.{key_of, size_of, DiskItem, disk_key_of, disk_size_of, Cache}
use hapudding.ImgCache.Disk.{remove_disk_files, remove_disk_index, remove_disk_key, disk_evict}

-- The list, the index and the count agree, and the count is within the limit; so for the disk.
pub record IsValid (c : Cache) : Type 0 where
  pub agrees : Invariant.IsValid key_of size_of c.lru
  pub bounded : c.lru.n ≤ pos_part c.cfg.max_bytes
  pub disk_agrees : Invariant.IsValid disk_key_of disk_size_of c.disk
  pub disk_bounded : c.disk.n ≤ pos_part c.cfg.disk.max_bytes

-- `c'` differs from `c` by the files, the counters and the disk's list `l`.
abbrev pub Same : Cache → Cache → Lru DiskItem → Type 0
Same c c' l = (c'.disk ≡ l) × (c'.lru ≡ c.lru) × (c'.cfg ≡ c.cfg)

pub of_Same :
    (c c' : Cache) (l : Lru DiskItem)
    → Same c c' l
    → Invariant.IsValid disk_key_of disk_size_of l
    → l.n ≤ pos_part c.cfg.disk.max_bytes
    → IsValid c
    → IsValid c'
of_Same c c' l (a, b, d) valid within v = record {
  agrees = rw b v.agrees;
  bounded = rw (b, d) v.bounded;
  disk_agrees = rw a valid;
  disk_bounded = rw (a, d) within;
}

pub remove_disk_files-Same : (c : Cache) (hash : Bytes) → Same c (remove_disk_files c hash) c.disk
unfolding remove_disk_files
remove_disk_files-Same c hash = elim (Bool-cases (is_empty hash || is_empty c.cfg.disk.path)) [
  | inl e ↦ rw e (refl, refl, refl)
  | inr e ↦ rw e (refl, refl, refl)
]

remove_disk_index-Same :
    (c : Cache) (el : ℕ) (b : Bool)
    → Same c (remove_disk_index c el b) (remove_locked disk_key_of disk_size_of c.disk el)
unfolding remove_disk_index remove_locked
remove_disk_index-Same c el b = elim (Option-cases (value? el c.disk.ll)) [
  | inl e ↦ rw (e, remove_disk_index, remove_locked) (refl, refl, refl)
  | inr (it, e) ↦
      let c' = record c { disk = remove_locked disk_key_of disk_size_of c.disk el } in
      elim (Bool-cases b) [
        | inl f ↦ rw (e, f, remove_disk_index) (remove_disk_files-Same c' it.hash)
        | inr f ↦ rw (e, f, remove_disk_index) (refl, refl, refl)
      ]
]

pub remove_disk_key-Same :
    (c : Cache) (k : Bytes) (b : Bool)
    → Same c (remove_disk_key c k b) (remove_key disk_key_of disk_size_of c.disk k)
unfolding remove_disk_key remove_key
remove_disk_key-Same c k b = elim (Option-cases (c.disk.idx k)) [
  | inl e ↦ rw (e, remove_disk_key, remove_key) (refl, refl, refl)
  | inr (el, e) ↦ rw (e, remove_disk_key, remove_key) (remove_disk_index-Same c el b)
]

pub remove_disk_index-IsValid :
    (c : Cache) (el : ℕ) (b : Bool) → IsValid c → IsValid (remove_disk_index c el b)
remove_disk_index-IsValid c el b v =
    of_Same c _ _ (remove_disk_index-Same c el b)
      (remove_locked-IsValid disk_key_of disk_size_of c.disk v.disk_agrees el)
      (omega (arith, n-remove_locked-le disk_key_of disk_size_of c.disk el, v.disk_bounded)) v

pub remove_disk_key-IsValid :
    (c : Cache) (k : Bytes) (b : Bool) → IsValid c → IsValid (remove_disk_key c k b)
remove_disk_key-IsValid c k b v =
    of_Same c _ _ (remove_disk_key-Same c k b)
      (remove_key-IsValid disk_key_of disk_size_of c.disk v.disk_agrees k)
      (omega (arith, n-remove_key-le disk_key_of disk_size_of c.disk k, v.disk_bounded)) v

-- Evicting from the disk is the loop that all caches share, with the files.
disk_evict-Same :
    (fuel : ℕ) (c : Cache) (need : ℕ)
    → Same c
        (disk_evict fuel c need)
        (evict_loop disk_key_of disk_size_of fuel c.disk need c.cfg.disk.max_bytes).0
unfolding disk_evict evict_loop
disk_evict-Same zero c need = (refl, refl, refl)
disk_evict-Same (suc fuel) c need = elim (Option-cases (back c.disk.ll)) [
  | inl e ↦ rw (e, disk_evict, evict_loop) (refl, refl, refl)
  | inr (last, e) ↦ elim (Bool-cases (ltb_ℤ c.cfg.disk.max_bytes (pos (c.disk.n + need)))) [
    | inl over ↦
        let c' : Cache = remove_disk_index c last.0 true in
        let (a, b, d) = remove_disk_index-Same c last.0 true in
        let (a', b', d') = disk_evict-Same fuel (record c' { dev = suc c'.dev }) need in
        rw (e, over, disk_evict, evict_loop) (a' ∙ rw (a, d), b' ∙ b, d' ∙ d)
    | inr under ↦ rw (e, under, disk_evict, evict_loop) (refl, refl, refl)
  ]
]

-- With fuel for every element the eviction keeps the cache valid, and what is left is within the
-- limit beside `need` bytes that fit alone.
pub disk_evict_lem :
    (c : Cache) (need : ℕ)
    → Invariant.IsValid disk_key_of disk_size_of c.disk
    → need + neg_part c.cfg.disk.max_bytes ≤ pos_part c.cfg.disk.max_bytes
    → let c' = disk_evict (length c.disk.ll) c need in
      Invariant.IsValid disk_key_of disk_size_of c'.disk
      × (c'.disk.n + need ≤ pos_part c.cfg.disk.max_bytes)
      × (c'.lru ≡ c.lru)
      × (c'.cfg ≡ c.cfg)
disk_evict_lem c need v fits =
    let max = c.cfg.disk.max_bytes in
    let (a, b, d) = disk_evict-Same (length c.disk.ll) c need in
    let (valid, kept, _) =
      evict_loop_lem disk_key_of disk_size_of (length c.disk.ll) c.disk need max v fits
        (omega arith) in
    let l = (evict_loop disk_key_of disk_size_of (length c.disk.ll) c.disk need max).0 in
    (
      rw a valid,
      rw a (
          omega (
            arith,
            fits,
            valid.counted,
            total-items disk_size_of l.ll,
            ap (sum_sizes disk_size_of) kept,
            sum_sizes-fit-le disk_size_of (room max need) (items c.disk.ll),
          )),
      b,
      d,
    )
