-- ===== src/ImgCache/Fresh.antt =====
-- `FreshFor` and `Stats` of internal/imgcache/cache.go. What http.ParseTime makes of a date is a parameter.
use mathlib.Core.List.{reverse}
use hapudding.Base.{
  ℕ, List, [], ◌∷◌, Bool, true, false, not, ◌&&◌, ◌||◌, Option, none, some, if◌then◌else◌, ◌==◌,
  length,
}
use hapudding.Base.Int.{ℤ, pos, ltb_ℤ}
use hapudding.Text.{Bytes, codes, is_empty, str_eq, trim_space, trim_right_byte, split}
use hapudding.ImgCache.Types.{Entry, Cache, disk_enabled}

-- strings.Trim(s, b) at a one-byte cutset
unfoldable trim_byte : Bytes → ℕ → Bytes
trim_byte s b = reverse (trim_right_byte (reverse (trim_right_byte s b)) b)

-- strings.TrimPrefix(s, "W/")
unfoldable trim_weak : Bytes → Bytes
trim_weak [] = []
trim_weak (c ∷ []) = c ∷ []
trim_weak (c ∷ d ∷ s) = if (c == b'W') && (d == b'/') then s else c ∷ d ∷ s

unfoldable any_part : Bytes → List Bytes → Bool
unfolding trim_byte trim_weak
any_part want [] = false
any_part want (p ∷ ps) = str_eq (trim_byte (trim_weak (trim_space p)) b'"') want || any_part want ps

unfoldable etag_match : Bytes → Bytes → Bool
unfolding any_part
etag_match if_none_match etag =
    let asked = trim_space if_none_match in
    if str_eq asked (codes "*")
    then true
    else any_part (trim_byte (trim_space etag) b'"') (split asked b',')

-- At the values of If-None-Match and If-Modified-Since.
unfoldable pub fresh_for : (Bytes → Option ℤ) → Entry → Bytes → Bytes → Bool
unfolding etag_match
fresh_for parse_time e if_none_match if_modified_since =
    if not (is_empty if_none_match) && not (is_empty e.etag)
    then etag_match if_none_match e.etag
    else if not (is_empty if_modified_since) && not (is_empty e.last_modified)
    then elim (parse_time if_modified_since) [
      | none ↦ false
      | some since ↦ elim (parse_time e.last_modified) [
        | none ↦ false
        | some modified ↦ not (ltb_ℤ since modified)
      ]
    ]
    else false

pub record DiskStats : Type 0 where
  pub enabled : Bool
  pub path : Bytes
  pub bytes : ℕ
  pub objects : ℕ
  pub hits : ℕ
  pub stores : ℕ
  pub evicts : ℕ
  pub max_bytes : ℤ

pub record Stats : Type 0 where
  pub enabled : Bool
  pub bytes : ℕ
  pub objects : ℕ
  pub hits : ℕ
  pub misses : ℕ
  pub stores : ℕ
  pub evicts : ℕ
  pub max_bytes : ℤ
  pub disk : DiskStats

-- `Stats`; a cache that is nil is none.
unfoldable pub stats : Option Cache → Stats
stats none = record {
  enabled = false;
  bytes = 0;
  objects = 0;
  hits = 0;
  misses = 0;
  stores = 0;
  evicts = 0;
  max_bytes = pos 0;
  disk = record {
    enabled = false;
    path = [];
    bytes = 0;
    objects = 0;
    hits = 0;
    stores = 0;
    evicts = 0;
    max_bytes = pos 0;
  };
}
stats (some c) = record {
  enabled = true;
  bytes = c.lru.n;
  objects = length c.lru.ll;
  hits = c.hit;
  misses = c.mis;
  stores = c.stores;
  evicts = c.ev;
  max_bytes = c.cfg.max_bytes;
  disk = record {
    enabled = disk_enabled c.cfg;
    path = c.cfg.disk.path;
    bytes = c.disk.n;
    objects = length c.disk.ll;
    hits = c.dhit;
    stores = c.dput;
    evicts = c.dev;
    max_bytes = c.cfg.disk.max_bytes;
  };
}
