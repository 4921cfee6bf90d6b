-- ===== src/Lib.antt =====
-- hapudding, a proxy before several Jellyfin servers that keeps every client on its server.
--
-- The parts of the program and the files that model them, by the paths of the repository:
-- - internal/config: Config. The structs (Config/Types), their accessors (Config/Access), the
--   gray-list (Config/Graylist), server ids (Config/Guid), `applyDefaults` (Defaults), the settings
--   read from the environment (Env) and `validate` (Validate; Valid has its theorem).
-- - internal/authheader: AuthHeader. `Parse` reads a client's identifiers from a request
--   (AuthHeader/Parse; Quoted has its theorems).
-- - internal/store: Store. The state is a record of four tables as lists of rows; each method is one
--   function of the state (Tokens, Bindings, Pins, Reports) that returns an outcome and the next
--   state. Which statements the database fails at is a function in the state, and so is the hash.
--   Laws, RoundTrip, Unpin and Frame have the theorems.
-- - internal/health: Health. The monitor's snapshots and passive failures (Health/Monitor) and the
--   probe over what the network answers (Health/Probe; Verdict and Round have the theorems).
-- - internal/router: Router. `Decide` chooses a backend from the store's rows, the monitor's states
--   and the flags (Types, Flags, Pick, Decide); it returns the store too, since a lookup deletes a
--   row that has run out. Placement, Safety, Balance, Affinity and Frame have the theorems.
-- - internal/libcache and internal/imgcache: LibCache and ImgCache, over Lru, the list with pointers,
--   the index and the byte count that both packages keep. Lru/Defs has its steps, Lru/Invariant what
--   they keep, Lru/Refinement and Lru/Store what they come to on the items alone. ImgCache/Load has what `loadDisk`
--   keeps. ImgCache/Request
--   says which images may be kept and for how long, ImgCache/Fresh which conditional requests are
--   answered by 304.
-- - internal/proxy: Proxy. `ServeHTTP` (Serve) calls the router and binds what it decides;
--   `login` tries the candidates in turn (Login, Candidates); `libSem` caps the library hops
--   (LibSem); what a hop serves, stores and drops of the library cache (Library, Isolation); the
--   tests on paths (Paths). Sticky follows a token from one request to the next. Headers is
--   http.Header, and Values says what a header has behind its operations.
-- - internal/proxy/origin.go: Proxy/Origin rewrites the backend's own address in an answer to the
--   proxy's. Urls, Forward, Playlist and SystemInfo have the functions, Response the whole of
--   `rewriteProxiedResponse`; Texts, Info, Moved, Lines and Frame have the theorems.
-- - the hop to a backend: Proxy/Hop. The handler's state (State) has the two caches, the store,
--   the monitor and the semaphore; Send makes the requests that are sent, Cached answers from the
--   caches, Modify is what a backend's answer changes, Coalesced answers several requests by one
--   hop and has `proxy`; Performance is what the proxy tells of itself. Logout, Slots and Shared
--   have the theorems. Proxy/Warm is the warming of the library cache after a login (Proxy/Warming
--   has its theorems).
-- - internal/status: Status. The handlers of the status API over the store, the monitor and the
--   flags: backends, their switches and pins (Backends; Switch has the theorems), users over rows
--   that are grouped (Users, Groups; Listing has the theorem) and the numbers of the caches (Caches).
--   Reasons compares what is shown with the choice of the router.
-- Base and Text hold the shared helpers: tests, lists, integers, byte strings, and lines of a text
-- (Text/Lines). Tests holds the concrete inputs that the theorems are applied to.
--
-- Times are numbers of nanoseconds since the epoch, the zero time is 0; durations and limits are
-- signed and compared as the code does. Where a duration is multiplied, the wrap-around of an int64 is
-- written out. A pointer of container/list is a number that no other element has had.
--
-- Three loops run on fuel. The eviction loops take one element in each round, so the length of the
-- list is enough; the scanner of authheader takes at least one byte in each round, so the length of
-- the text is enough; a number is printed with a digit a round, so the number and one is enough.
--
-- What comes from packages outside the repository is a parameter: net.SplitHostPort and the parser
-- of net/url, the decoder and encoder of encoding/json, http.ParseTime, time.ParseDuration and the
-- environment. Requests that golang.org/x/sync/singleflight joins are given as a list.
--
-- Not modelled: the network, the reverse proxy and TLS (package net/http and httputil), the metrics
-- and the logs, SQL texts and migrations (a database/sql driver runs them), YAML decoding, the
-- routes, the pages and the JSON encoding of internal/status, the health monitor's transports and its
-- ticker, and cmd/hapudding. Each operation is one atomic step, as the code's mutexes and transactions
-- make it; but for two: `getDisk` of internal/imgcache gives up the mutex while it reads the files, and
-- a hop of internal/proxy is made of several steps of the caches, the store and the monitor. In the
-- model nothing comes between these, so interleavings with other requests there are not covered.
pub mod Base
pub mod Text
pub mod Config
pub mod Store
pub mod Health
pub mod Router
pub mod Lru
pub mod LibCache
pub mod ImgCache
pub mod Proxy
pub mod Status
pub mod AuthHeader
pub mod Tests
