-- ===== src/Config/Types.antt =====
-- The structs of internal/config/config.go. A `*bool` is an `Option Bool`, a duration is a signed
-- number of nanoseconds, a map is its list of entries in the order of an iteration.
use hapudding.Base.{List, Bool, Option}
use hapudding.Base.Int.{ℤ}
use hapudding.Text.{Bytes}

pub record StayOnOrigin : Type 0 where
  pub enabled : Option Bool
  pub rewrite_playlists : Option Bool

pub record TranslateServerId : Type 0 where
  pub enabled : Option Bool
  pub id : Bytes
  pub name : Bytes

pub record CacheDisk : Type 0 where
  pub enabled : Option Bool
  pub path : Bytes
  pub max_bytes : ℤ

pub record Cache : Type 0 where
  pub enabled : Option Bool
  pub max_bytes : ℤ
  pub max_object : ℤ
  pub default_ttl : ℤ
  pub max_ttl : ℤ
  pub disk : CacheDisk

pub record LibraryCache : Type 0 where
  pub enabled : Option Bool
  pub ttl : ℤ
  pub max_bytes : ℤ
  pub max_object : ℤ

pub record Toggle : Type 0 where
  pub enabled : Option Bool

pub record LibraryConcurrency : Type 0 where
  pub enabled : Option Bool
  pub max : ℤ

pub record Performance : Type 0 where
  pub auth_timeout : ℤ
  pub cache : Cache
  pub library : LibraryCache
  pub coalesce : Toggle
  pub warm_login : Toggle
  pub library_concurrency : LibraryConcurrency

-- The fields of TLS are read by the transport only.
pub record Backend : Type 0 where
  pub name : Bytes
  pub url : Bytes
  pub headers : List (Bytes × Bytes)
  pub host : Bytes
  pub timeout : ℤ
  pub health_url : Bytes
  pub disabled : Bool

pub record Graylist : Type 0 where
  pub policy : Bytes
  pub clients : Option (List Bytes)
  pub path_prefixes : List Bytes

pub record Affinity : Type 0 where
  pub policy : Bytes
  pub new_clients_require : Bytes
  pub graylist : Graylist
  pub store : Bytes
  pub sqlite_path : Bytes
  pub postgres_url : Bytes
  pub token_ttl : ℤ
  pub device_ttl : ℤ
  pub anon_ttl : ℤ
  pub user_affinity : List (List (Bytes × Bytes))

pub record PassiveAuthFailures : Type 0 where
  pub enabled : Option Bool
  pub threshold : ℤ
  pub window : ℤ

pub record AuthProbe : Type 0 where
  pub enabled : Bool
  pub username : Bytes
  pub password : Bytes

pub record Health : Type 0 where
  pub interval : ℤ
  pub public_info : Option Bool
  pub jellyfin_health : Option Bool
  pub passive_auth_failures : PassiveAuthFailures
  pub auth_probe : AuthProbe

pub record Config : Type 0 where
  pub listen : Bytes
  pub status_listen : Bytes
  pub backends : List Backend
  pub affinity : Affinity
  pub health : Health
  pub performance : Performance
  pub stay_on_origin : StayOnOrigin
  pub translate : TranslateServerId
