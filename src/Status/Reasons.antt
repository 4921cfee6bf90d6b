-- ===== src/Status/Reasons.antt =====
-- The reasons that internal/status/status.go shows against backends, and the choice of internal/router/router.go.
use hapudding.Router.Types.{Router}
