-- ===== src/Tests/Data.antt =====
-- Two backends, a configuration and the states that the examples begin with.
use hapudding.Base.{[], ◌∷◌, ◌*◌, ◌^◌, true, false, none, some}
use hapudding.Base.Int.{pos}
use hapudding.Text.{Bytes, codes}
use hapudding.Config.{Config, Backend, Cache as CacheConfig, LibraryCache}
use hapudding.Store.Types.{Store, TokenRow, SimpleBinding}
use hapudding.Health.Monitor.{Monitor, healthy, blank}
use hapudding.Router.Types.{Router, Identifiers, Request}

abbrev backend_named : Bytes → Backend
backend_named name = record {
  name = name;
  url = codes "http://jellyfin";
  headers = [];
  host = [];
  timeout = pos (10 * 10 ^ 9);
  health_url = [];
  disabled = false;
}

abbrev pub alpha : Backend
alpha = backend_named (codes "alpha")

abbrev pub beta : Backend
beta = backend_named (codes "beta")

abbrev pub image_limits : CacheConfig
image_limits = record {
  enabled = some true;
  max_bytes = pos 10;
  max_object = pos 6;
  default_ttl = pos (10 ^ 9);
  max_ttl = pos (60 * 10 ^ 9);
  disk = record { enabled = some true; path = codes "/cache"; max_bytes = pos 8 };
}

abbrev pub library_limits : LibraryCache
library_limits = record {
  enabled = some true;
  ttl = pos (20 * 10 ^ 9);
  max_bytes = pos 10;
  max_object = pos 6;
}

abbrev pub two_backends : Config
two_backends = record {
  listen = codes ":8096";
  status_listen = [];
  backends = alpha ∷ beta ∷ [];
  affinity = record {
    policy = codes "force_reauth";
    new_clients_require = codes "healthy";
    graylist = record { policy = codes "fail_closed"; clients = none; path_prefixes = [] };
    store = codes "sqlite";
    sqlite_path = [];
    postgres_url = [];
    token_ttl = pos (3600 * 10 ^ 9);
    device_ttl = pos (3600 * 10 ^ 9);
    anon_ttl = pos (60 * 10 ^ 9);
    user_affinity = [];
  };
  health = record {
    interval = pos (10 * 10 ^ 9);
    public_info = none;
    jellyfin_health = none;
    passive_auth_failures = record {
      enabled = none;
      threshold = pos 3;
      window = pos (60 * 10 ^ 9);
    };
    auth_probe = record { enabled = false; username = []; password = [] };
  };
  performance = record {
    auth_timeout = pos (60 * 10 ^ 9);
    cache = image_limits;
    library = library_limits;
    coalesce = record { enabled = none };
    warm_login = record { enabled = none };
    library_concurrency = record { enabled = none; max = pos 2 };
  };
  stay_on_origin = record { enabled = none; rewrite_playlists = none };
  translate = record { enabled = none; id = []; name = [] };
}

-- A hash that is the text itself.
abbrev pub no_rows : Store
no_rows = record {
  tokens = [];
  devices = [];
  anons = [];
  flags = [];
  token_ttl = pos (3600 * 10 ^ 9);
  device_ttl = pos (3600 * 10 ^ 9);
  anon_ttl = pos (60 * 10 ^ 9);
  fails = λ _. false;
  sha = λ s. s;
}

abbrev pub all_healthy : Monitor
all_healthy = record {
  cfg = two_backends;
  snaps = λ name. some (blank name [] healthy);
  fails = λ _. [];
}

abbrev pub router_over : Store → Router
router_over st = record {
  cfg = two_backends;
  st = st;
  mon = all_healthy;
  flags = record { yaml = λ _. false; runtime = λ _. false };
}

abbrev pub phone : Identifiers
phone = record {
  token = codes "t";
  device_id = codes "d";
  client = codes "Web";
  device = [];
  version = [];
}

abbrev pub item_request : Request
item_request = record {
  method = codes "GET";
  path = codes "/Items";
  raw_query = [];
  header = λ _. [];
  cookie = λ _. none;
  user_agent = [];
  remote_addr = codes "::1";
  remote_host = some (codes "::1");
}

abbrev pub row_of : Bytes → Bytes → Bytes → TokenRow
row_of token backend username = record {
  token_hash = token;
  backend = backend;
  user_id = [];
  username = username;
  device_id = [];
  client = [];
  device = [];
  version = [];
  session_id = [];
  created_at = 0;
  last_seen = 0;
  last_method = [];
  last_path = [];
  last_status = 0;
}

abbrev pub simple_row_of : Bytes → Bytes → SimpleBinding
simple_row_of k backend = record {
  key = k;
  backend = backend;
  client = [];
  created_at = 0;
  last_seen = 0;
}
