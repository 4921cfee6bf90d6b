-- ===== src/Status/Caches.antt =====
-- The handlers of internal/status/status.go that tell of the caches. The status is 200.
use hapudding.Base.{Option}
use hapudding.ImgCache.Types.{Cache as Images}
use hapudding.ImgCache.Fresh.{Stats as ImageStats, stats}
use hapudding.Proxy.Hop.State.{Handler}
use hapudding.Proxy.Hop.Performance.{PerfSnapshot, perf_snapshot}

unfoldable cache_status : Option Images → ImageStats
cache_status images = stats images

-- `performance`, where `perf` is the `PerfSnapshot` of the handler, as cmd/hapudding/main.go passes it.
unfoldable performance : Handler → PerfSnapshot
performance h = perf_snapshot h
