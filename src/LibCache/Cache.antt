-- ===== src/LibCache/Cache.antt =====
-- The cache of internal/libcache/cache.go and its operations. The metrics are not modelled.
use hapudding.Base.{
  ℕ, suc, ◌+◌, List, [], ◌∷◌, ◌++◌, Bool, false, not, ◌&&◌, ◌||◌, Option, none, some, ltb, ◌==◌,
  if◌then◌else◌, length, true,
}
use hapudding.Base.Int.{ℤ, pos, pos_part, ltb_ℤ}
use hapudding.Text.{Bytes, is_empty, to_upper, has_prefix}
use hapudding.Config.{LibraryCache}
use hapudding.Lru.Elements.{value?, set_value}
use hapudding.Lru.Defs.{Lru, empty, remove_locked, move_to_front, store_item}

-- The zero time is 0.
pub record Entry : Type 0 where
  pub backend : Bytes
  pub status : ℕ
  pub header : List (Bytes × Bytes)
  pub body : Bytes
  pub content_type : Bytes
  pub hits : ℕ
  pub stored_at : ℕ
  pub expires_at : ℕ

pub record Item : Type 0 where
  pub key : Bytes
  pub ent : Entry

abbrev pub key_of : Item → Bytes
key_of it = it.key

abbrev pub size_of : Item → ℕ
size_of it = length it.ent.body

pub record Cache : Type 0 where
  pub cfg : LibraryCache
  pub lru : Lru Item
  pub hit : ℕ
  pub mis : ℕ
  pub stores : ℕ
  pub ev : ℕ

abbrev pub new : LibraryCache → Cache
new cfg = record { cfg = cfg; lru = empty; hit = 0; mis = 0; stores = 0; ev = 0 }

abbrev newline : Bytes
newline = 10 ∷ []

-- The part of a key that `DropToken` looks for: the backend and the hash of the token.
unfoldable pub token_prefix : Bytes → Bytes → Bytes
token_prefix backend token_hash = backend ++ (newline ++ (token_hash ++ newline))

-- `Key`
unfoldable pub cache_key : Bytes → Bytes → Bytes → Bytes → Bytes → Bytes
cache_key backend token_hash method path raw_query =
    backend
    ++ (newline
        ++ (token_hash
            ++ (newline ++ (to_upper method ++ (newline ++ (path ++ (newline ++ raw_query)))))))

-- !ExpiresAt.IsZero() && time.Now().After(ExpiresAt)
abbrev pub has_expired : ℕ → ℕ → Bool
has_expired now expires_at = not (expires_at == 0) && ltb expires_at now

abbrev pub count_hit : Item → Item
count_hit it = record it { ent = record (it.ent) { hits = suc it.ent.hits } }

-- `Get` behind the index, at the element and its item.
unfoldable pub get_at : Cache → ℕ → ℕ → Item → Option Entry × Cache
get_at c now el it =
    if has_expired now it.ent.expires_at
    then (none, record c { lru = remove_locked key_of size_of c.lru el; mis = suc c.mis })
    else let front = move_to_front key_of size_of c.lru el in
      (
        some (count_hit it).ent,
        record c { lru = record front { ll = set_value el count_hit front.ll }; hit = suc c.hit },
      )

unfoldable pub get : Cache → ℕ → Bytes → Option Entry × Cache
get c now k = elim (c.lru.idx k) [
  | none ↦ (none, record c { mis = suc c.mis })
  | some el ↦ elim (value? el c.lru.ll) [
    | none ↦ (none, record c { mis = suc c.mis })
    | some it ↦ get_at c now el it
  ]
]

-- The copy that `Put` keeps.
abbrev pub stamped : LibraryCache → ℕ → Entry → Entry
stamped cfg now ent = record ent {
  stored_at = now;
  expires_at =
      if ent.expires_at == 0 && ltb_ℤ (pos 0) cfg.ttl
      then now + pos_part cfg.ttl
      else ent.expires_at;
}

-- size == 0 || size > MaxObject || size > MaxBytes
abbrev pub refuses : LibraryCache → ℕ → Bool
refuses cfg size = size == 0 || (ltb_ℤ cfg.max_object (pos size) || ltb_ℤ cfg.max_bytes (pos size))

unfoldable pub put : Cache → ℕ → Bytes → Entry → Bool × Cache
put c now k ent =
    if refuses c.cfg (length ent.body)
    then (false, c)
    else let it : Item = record { key = k; ent = stamped c.cfg now ent } in
      let (lru, rounds, done) = store_item key_of size_of c.lru it c.cfg.max_bytes in
      (
        done,
        record c {
          lru = lru;
          ev = c.ev + rounds;
          stores = if done then suc c.stores else c.stores;
        },
      )

-- The elements whose keys have the prefix, from the front.
unfoldable pub with_prefix : Bytes → List (ℕ × Item) → List ℕ
with_prefix prefix [] = []
with_prefix prefix ((el, it) ∷ l) =
    if has_prefix it.key prefix then el ∷ with_prefix prefix l else with_prefix prefix l

unfoldable pub remove_each : Lru Item → List ℕ → Lru Item
remove_each lru [] = lru
remove_each lru (el ∷ els) = remove_each (remove_locked key_of size_of lru el) els

unfoldable pub drop_token : Cache → Bytes → Bytes → Cache
unfolding token_prefix with_prefix remove_each
drop_token c backend token_hash =
    if is_empty backend || is_empty token_hash
    then c
    else let drop = with_prefix (token_prefix backend token_hash) c.lru.ll in
      record c { lru = remove_each c.lru drop; ev = c.ev + length drop }

-- The time to live is printed where it is positive.
pub record Stats : Type 0 where
  pub enabled : Bool
  pub bytes : ℕ
  pub objects : ℕ
  pub hits : ℕ
  pub misses : ℕ
  pub stores : ℕ
  pub evicts : ℕ
  pub max_bytes : ℤ
  pub ttl : Option ℤ

-- `Stats`; a cache that is nil is none.
unfoldable pub stats : Option Cache → Stats
stats none = record {
  enabled = false;
  bytes = 0;
  objects = 0;
  hits = 0;
  misses = 0;
  stores = 0;
  evicts = 0;
  max_bytes = pos 0;
  ttl = none;
}
stats (some c) = record {
  enabled = true;
  bytes = c.lru.n;
  objects = length c.lru.ll;
  hits = c.hit;
  misses = c.mis;
  stores = c.stores;
  evicts = c.ev;
  max_bytes = c.cfg.max_bytes;
  ttl = if ltb_ℤ (pos 0) c.cfg.ttl then some c.cfg.ttl else none;
}
