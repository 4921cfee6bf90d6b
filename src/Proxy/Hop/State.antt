-- ===== src/Proxy/Hop/State.antt =====
-- The state that a hop of internal/proxy/proxy.go reads and changes, and the request that it serves.
use hapudding.Base.{ℕ, Bool, ◌||◌, Option, none, some, if◌then◌else◌, ◌/◌}
use hapudding.Base.Int.{ℤ, pos, pos_part, ltb_ℤ}
use hapudding.Text.{Bytes, codes, str_eq, to_lower, equal_fold}
use hapudding.Config.{Config, cache_enabled, library_enabled, library_concurrency_enabled}
use hapudding.Health.Monitor.{Monitor}
use hapudding.Store.Types.{Store, second}
use hapudding.ImgCache.Types.{Cache as Images}
use hapudding.LibCache.Cache.{Cache as Library, new}
use hapudding.Proxy.Headers.{Headers, get}
use hapudding.Proxy.LibSem.{LibSem, new_lib_sem}
use hapudding.Proxy.Library.{Target}
use hapudding.Proxy.Origin.Urls.{Incoming}

-- Handler; a cache or a semaphore that is nil is none. The router is that of the configuration.
pub record Handler : Type 0 where
  pub cfg : Config
  pub st : Store
  pub mon : Monitor
  pub images : Option Images
  pub library : Option Library
  pub sem : Option LibSem
  pub solo : ℕ
  pub shared : ℕ

-- `New`, at the image cache that imgcache.New makes of the files of its directory.
unfoldable new_handler : Config → Store → Monitor → Images → Handler
new_handler cfg st mon images = record {
  cfg = cfg;
  st = st;
  mon = mon;
  images = if cache_enabled cfg.performance then some images else none;
  library = if library_enabled cfg.performance then some (new cfg.performance.library) else none;
  sem =
      if library_concurrency_enabled cfg.performance
      then some (new_lib_sem (pos_part cfg.performance.library_concurrency.max))
      else none;
  solo = 0;
  shared = 0;
}

-- The request of the client: `target` is its method, path and query.
pub record Asked : Type 0 where
  pub target : Target
  pub inbound : Incoming
  pub client_ip : Bytes

unfoldable pub skip_cached_header : Bytes → Bool
skip_cached_header k =
    let l = to_lower k in
    str_eq l (codes "set-cookie")
    || (str_eq l (codes "connection")
        || (str_eq l (codes "keep-alive")
            || (str_eq l (codes "transfer-encoding")
                || (str_eq l (codes "proxy-connection") || str_eq l (codes "age")))))

-- The cookie hap_backend; its path is /, it is for HTTP only and of the lax site mode.
pub record Cookie : Type 0 where
  pub value : Bytes
  pub max_age : ℕ
  pub is_secure : Bool

unfoldable pub backend_cookie : Incoming → Bytes → ℤ → Cookie
backend_cookie r backend ttl = record {
  value = backend;
  max_age = if ltb_ℤ (pos 0) ttl then pos_part ttl / second else 0;
  is_secure = r.is_tls || equal_fold (get r.header (codes "X-Forwarded-Proto")) (codes "https");
}

-- What is written to the client; `age` is the Age header of what comes from a cache.
pub record Written : Type 0 where
  pub status : ℕ
  pub header : Headers
  pub age : Option ℕ
  pub cookie : Option Cookie
  pub body : Bytes
