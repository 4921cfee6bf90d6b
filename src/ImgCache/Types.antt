-- ===== src/ImgCache/Types.antt =====
-- The state of internal/imgcache/cache.go and internal/imgcache/disk.go. The metrics are not
-- modelled. Times are nanoseconds and the zero time is 0.
use hapudding.Base.{ℕ, List, [], ◌∷◌, ◌++◌, Bool, not, ◌&&◌, Option, ltb, ◌==◌, length}
use hapudding.Text.{Bytes, is_empty}
use hapudding.Config.{Cache as CacheConfig, is_set}
use hapudding.Lru.Defs.{Lru}

pub record Entry : Type 0 where
  pub backend : Bytes
  pub status : ℕ
  pub header : List (Bytes × Bytes)
  pub body : Bytes
  pub etag : Bytes
  pub last_modified : Bytes
  pub content_type : Bytes
  pub hits : ℕ
  pub stored_at : ℕ
  pub expires_at : ℕ

pub record Item : Type 0 where
  pub key : Bytes
  pub ent : Entry

abbrev pub key_of : Item → Bytes
key_of it = it.key

abbrev pub size_of : Item → ℕ
size_of it = length it.ent.body

pub record DiskMeta : Type 0 where
  pub key : Bytes
  pub backend : Bytes
  pub status : ℕ
  pub header : List (Bytes × Bytes)
  pub etag : Bytes
  pub last_modified : Bytes
  pub content_type : Bytes
  pub stored_at : ℕ
  pub expires_at : ℕ
  pub size : ℕ

pub record DiskItem : Type 0 where
  pub key : Bytes
  pub hash : Bytes
  pub size : ℕ
  pub expires : ℕ

abbrev pub disk_key_of : DiskItem → Bytes
disk_key_of it = it.key

abbrev pub disk_size_of : DiskItem → ℕ
disk_size_of it = it.size

-- The calls of package os that can fail, at the hash that names the files.
pub data FileOp : Type 0 where
  makes_dir reads_dir : FileOp
  reads_meta reads_bin writes_bin writes_meta moves_bin moves_meta : Bytes → FileOp

-- `metas` and `bins` are the files of the directory: a metadata file that json.Unmarshal reads back
-- is its record, and any other counts as a read that fails. `sha` is the hexadecimal SHA-256.
pub record Cache : Type 0 where
  pub cfg : CacheConfig
  pub lru : Lru Item
  pub hit : ℕ
  pub mis : ℕ
  pub stores : ℕ
  pub ev : ℕ
  pub disk : Lru DiskItem
  pub dhit : ℕ
  pub dput : ℕ
  pub dev : ℕ
  pub metas : Bytes → Option DiskMeta
  pub bins : Bytes → Option Bytes
  pub fails : FileOp → Bool
  pub sha : Bytes → Bytes

-- !ExpiresAt.IsZero() && time.Now().After(ExpiresAt)
abbrev pub has_expired : ℕ → ℕ → Bool
has_expired now expires_at = not (expires_at == 0) && ltb expires_at now

abbrev pub disk_enabled : CacheConfig → Bool
disk_enabled cfg = is_set cfg.disk.enabled && not (is_empty cfg.disk.path)

abbrev newline : Bytes
newline = 10 ∷ []

-- `Key`
unfoldable pub cache_key : Bytes → Bytes → Bytes → Bytes → Bytes
cache_key backend path raw_query accept =
    backend ++ (newline ++ (path ++ (newline ++ (raw_query ++ (newline ++ accept)))))
