-- ===== src/ImgCache/Disk.antt =====
-- The disk side of internal/imgcache/disk.go.
use hapudding.Base.{
  ℕ, zero, suc, ◌+◌, List, [], ◌∷◌, Bool, true, false, not, ◌||◌, Option, none, some, ◌==◌,
  if◌then◌else◌, length,
}
use hapudding.Base.Int.{pos, ltb_ℤ}
use hapudding.Text.{Bytes, is_empty, str_eq}
use hapudding.Lru.Elements.{value?, back}
use hapudding.Lru.Defs.{Lru, remove_locked, move_to_front, push_front}
use hapudding.ImgCache.Types.{
  Entry, DiskMeta, DiskItem, disk_key_of, disk_size_of, makes_dir, reads_dir, reads_meta, reads_bin,
  writes_bin, writes_meta, moves_bin, moves_meta, Cache, has_expired, disk_enabled,
}
use hapudding.ImgCache.Memory.{put_memory}

-- `m[k] = v`, and the removal of a file
abbrev pub set {ℓ} : {V : Type ℓ} → (Bytes → V) → Bytes → V → Bytes → V
set m k v j = if str_eq k j then v else m j

unfoldable pub remove_disk_files : Cache → Bytes → Cache
remove_disk_files c hash =
    if is_empty hash || is_empty c.cfg.disk.path
    then c
    else record c { metas = set c.metas hash none; bins = set c.bins hash none }

-- `removeDiskIndexLocked`
unfoldable pub remove_disk_index : Cache → ℕ → Bool → Cache
remove_disk_index c el delete_files = elim (value? el c.disk.ll) [
  | none ↦ c
  | some it ↦
      let c' = record c { disk = remove_locked disk_key_of disk_size_of c.disk el } in
      if delete_files then remove_disk_files c' it.hash else c'
]

-- if el, ok := diskIdx[key]; ok { removeDiskIndexLocked(el, deleteFiles) }
unfoldable pub remove_disk_key : Cache → Bytes → Bool → Cache
remove_disk_key c k delete_files = elim (c.disk.idx k) [
  | none ↦ c
  | some el ↦ remove_disk_index c el delete_files
]

unfoldable pub add_disk_index : Cache → Bytes → Bytes → ℕ → ℕ → Cache
add_disk_index c k hash size expires =
    let c' = remove_disk_key c k false in
    let it : DiskItem = record { key = k; hash = hash; size = size; expires = expires } in
    record c' { disk = push_front disk_key_of disk_size_of c'.disk it }

-- The loops that evict from the disk, with the files, until `need` more bytes fit; fuel for every
-- element.
unfoldable pub disk_evict : ℕ → Cache → ℕ → Cache
disk_evict zero c need = c
disk_evict (suc fuel) c need = elim (back c.disk.ll) [
  | none ↦ c
  | some last ↦ elim (ltb_ℤ c.cfg.disk.max_bytes (pos (c.disk.n + need))) [
    | false ↦ c
    | true ↦
        let c' = remove_disk_index c last.0 true in
        disk_evict fuel (record c' { dev = suc c'.dev }) need
  ]
]

-- Whether the files were written, and what is left of them where a step fails.
unfoldable pub write_disk_files : Cache → Bytes → DiskMeta → Bytes → Bool × Cache
write_disk_files c hash info body =
    if c.fails makes_dir
      || (c.fails (writes_bin hash) || (c.fails (writes_meta hash) || c.fails (moves_bin hash)))
    then (false, c)
    else if c.fails (moves_meta hash)
    then (false, record c { bins = set c.bins hash none })
    else (
      true,
      record c { bins = set c.bins hash (some body); metas = set c.metas hash (some info) },
    )

unfoldable pub meta_of : Bytes → Entry → DiskMeta
meta_of k ent = record {
  key = k;
  backend = ent.backend;
  status = ent.status;
  header = ent.header;
  etag = ent.etag;
  last_modified = ent.last_modified;
  content_type = ent.content_type;
  stored_at = ent.stored_at;
  expires_at = ent.expires_at;
  size = length ent.body;
}

abbrev pub refuses_disk : Cache → ℕ → Bool
refuses_disk c size =
    size == 0 || (ltb_ℤ c.cfg.max_object (pos size) || ltb_ℤ c.cfg.disk.max_bytes (pos size))

-- `putDiskLocked` behind its eviction.
unfoldable pub store_disk : Cache → Bytes → Entry → Cache
store_disk c k ent =
    let hash = c.sha k in
    if ltb_ℤ c.cfg.disk.max_bytes (pos (c.disk.n + length ent.body))
    then c
    else let (written, c') = write_disk_files c hash (meta_of k ent) ent.body in
      if written
      then (let c'' = add_disk_index c' k hash (length ent.body) ent.expires_at in
          record c'' { dput = suc c''.dput })
      else c'

unfoldable pub put_disk : Cache → Bytes → Entry → Cache
put_disk c k ent =
    if not (disk_enabled c.cfg) || refuses_disk c (length ent.body)
    then c
    else let c' = remove_disk_key c k false in
      store_disk (disk_evict (length c'.disk.ll) c' (length ent.body)) k ent

unfoldable pub drop_disk_key : Cache → Bytes → Bytes → Cache
drop_disk_key c k hash = elim (c.disk.idx k) [
  | some el ↦ remove_disk_index c el true
  | none ↦ remove_disk_files c hash
]

-- The files of a hash, if both can be read and agree on the size and the metadata is fresh.
unfoldable pub read_files : Cache → ℕ → Bytes → Option (DiskMeta × Bytes)
read_files c now hash = if c.fails (reads_meta hash) then none else elim (c.metas hash) [
  | none ↦ none
  | some info ↦ if c.fails (reads_bin hash) then none else elim (c.bins hash) [
    | none ↦ none
    | some body ↦
        if not (length body == info.size) || has_expired now info.expires_at
        then none
        else some (info, body)
  ]
]

abbrev pub entry_of : DiskMeta → Bytes → Entry
entry_of info body = record {
  backend = info.backend;
  status = if info.status == 0 then 200 else info.status;
  header = info.header;
  body = body;
  etag = info.etag;
  last_modified = info.last_modified;
  content_type = info.content_type;
  hits = 0;
  stored_at = info.stored_at;
  expires_at = info.expires_at;
}

-- The end of `getDisk`: the element comes to the front and the entry into memory.
unfoldable pub serve_disk : Cache → Bytes → Entry → Option Entry × Cache
serve_disk c k ent =
    let disk : Lru DiskItem = elim (c.disk.idx k) [
      | none ↦ c.disk
      | some el ↦ move_to_front disk_key_of disk_size_of c.disk el
    ] in
    (some ent, put_memory (record c { disk = disk; dhit = suc c.dhit }) k ent)

unfoldable pub get_disk_at : Cache → ℕ → Bytes → ℕ → DiskItem → Option Entry × Cache
get_disk_at c now k el it =
    if has_expired now it.expires
    then (none, remove_disk_index c el true)
    else elim (read_files c now it.hash) [
      | none ↦ (none, drop_disk_key c k it.hash)
      | some (info, body) ↦ serve_disk c k (entry_of info body)
    ]

unfoldable pub get_disk : Cache → ℕ → Bytes → Option Entry × Cache
get_disk c now k =
    if disk_enabled c.cfg
    then elim (c.disk.idx k) [
      | none ↦ (none, c)
      | some el ↦ elim (value? el c.disk.ll) [
        | none ↦ (none, c)
        | some it ↦ get_disk_at c now k el it
      ]
    ]
    else (none, c)

-- One name of the directory in `loadDisk`, the hash of a metadata file.
unfoldable pub load_one : Cache → ℕ → Bytes → Cache
load_one c now hash = elim (c.metas hash) [
  | none ↦ remove_disk_files c hash
  | some info ↦
      let body_size : ℕ = elim (c.bins hash) [ none ↦ 0 | some body ↦ length body ] in
      if c.fails (reads_meta hash)
        || (is_empty info.key
            || (info.size == 0
                || (has_expired now info.expires_at || not (body_size == info.size))))
      then remove_disk_files c hash
      else add_disk_index c info.key hash info.size info.expires_at
]

unfoldable pub load_each : Cache → ℕ → List Bytes → Cache
load_each c now [] = c
load_each c now (hash ∷ hashes) = load_each (load_one c now hash) now hashes

-- `loadDisk`, at the names that os.ReadDir lists.
unfoldable pub load_disk : Cache → ℕ → List Bytes → Cache
unfolding load_each
load_disk c now hashes =
    if not (disk_enabled c.cfg) || (c.fails makes_dir || c.fails reads_dir)
    then c
    else let c' = load_each c now hashes in
      if ltb_ℤ (pos 0) c.cfg.disk.max_bytes then disk_evict (length c'.disk.ll) c' 0 else c'
