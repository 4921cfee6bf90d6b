-- ===== src/Proxy/Hop/Performance.antt =====
-- `PerfSnapshot` of internal/proxy/proxy_perf.go: what the proxy tells of its caches and hops.
use hapudding.Base.{ℕ, Bool, Option, none, some}
use hapudding.Base.Int.{ℤ}
use hapudding.Text.{Bytes}
use hapudding.Config.{coalesce_enabled, library_concurrency_enabled}
use hapudding.ImgCache.Fresh.{Stats as ImageStats, stats as image_stats}
use hapudding.LibCache.Cache.{Stats as LibraryStats, stats as library_stats}
use hapudding.Proxy.Hop.State.{Handler}

pub record CoalesceStats : Type 0 where
  pub enabled : Bool
  pub solo : ℕ
  pub shared : ℕ

-- The hops under way of each backend; none where there is no semaphore.
pub record ConcurrencySnap : Type 0 where
  pub enabled : Bool
  pub max : ℤ
  pub inflight : Option (Bytes → ℕ)

-- The time is that which is printed.
pub record PerfSnapshot : Type 0 where
  pub auth_timeout : ℤ
  pub images : ImageStats
  pub library : LibraryStats
  pub coalesce : CoalesceStats
  pub library_concurrency : ConcurrencySnap

unfoldable pub perf_snapshot : Handler → PerfSnapshot
perf_snapshot h =
    let p = h.cfg.performance in
    record {
      auth_timeout = p.auth_timeout;
      images = image_stats h.images;
      library = library_stats h.library;
      coalesce = record { enabled = coalesce_enabled p; solo = h.solo; shared = h.shared };
      library_concurrency = record {
        enabled = library_concurrency_enabled p;
        max = p.library_concurrency.max;
        inflight = elim h.sem [ none ↦ none | some s ↦ some s.held ];
      };
    }
