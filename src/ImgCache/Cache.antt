-- ===== src/ImgCache/Cache.antt =====
-- `New`, `Get` and `Put` of internal/imgcache/cache.go, over memory and disk.
use hapudding.Base.{ℕ, List, suc, Bool, true, false, Option, none, some, if◌then◌else◌, length}
use hapudding.Text.{Bytes}
use hapudding.Config.{Cache as CacheConfig}
use hapudding.Lru.Defs.{empty}
use hapudding.ImgCache.Types.{Entry, DiskMeta, FileOp, Cache}
use hapudding.ImgCache.Memory.{refuses, get_memory, store_memory}
use hapudding.ImgCache.Disk.{put_disk, get_disk, load_disk}

-- The cache that `New` makes in front of `loadDisk`, over the files of its directory.
abbrev pub blank :
    CacheConfig
    → (Bytes → Option DiskMeta)
    → (Bytes → Option Bytes)
    → (FileOp → Bool)
    → (Bytes → Bytes)
    → Cache
blank cfg metas bins fails sha = record {
  cfg = cfg;
  lru = empty;
  hit = 0;
  mis = 0;
  stores = 0;
  ev = 0;
  disk = empty;
  dhit = 0;
  dput = 0;
  dev = 0;
  metas = metas;
  bins = bins;
  fails = fails;
  sha = sha;
}

-- `New`, at the names that os.ReadDir lists.
unfoldable pub new :
    CacheConfig
    → (Bytes → Option DiskMeta)
    → (Bytes → Option Bytes)
    → (FileOp → Bool)
    → (Bytes → Bytes)
    → ℕ
    → List Bytes
    → Cache
new cfg metas bins fails sha now hashes = load_disk (blank cfg metas bins fails sha) now hashes

unfoldable pub get : Cache → ℕ → Bytes → Option Entry × Cache
get c now k =
    let (found, c') = get_memory c now k in
    elim found [
      | some ent ↦ (some ent, c')
      | none ↦
          let (read, c'') = get_disk c' now k in
          elim read [ some ent ↦ (some ent, c'') | none ↦ (none, record c'' { mis = suc c''.mis }) ]
    ]

unfoldable pub put : Cache → ℕ → Bytes → Entry → Bool × Cache
put c now k ent =
    if refuses c.cfg (length ent.body)
    then (false, c)
    else let stored = record ent { stored_at = now } in
      let (done, c') = store_memory c (record { key = k; ent = stored }) in
      if done then (true, put_disk (record c' { stores = suc c'.stores }) k stored) else (false, c')
