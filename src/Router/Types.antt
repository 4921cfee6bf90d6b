-- ===== src/Router/Types.antt =====
-- The state, the requests and the decisions of internal/router.
use hapudding.Base.{ℕ, List, [], ◌∷◌, Bool, false, ◌||◌, Option, none, some, if◌then◌else◌}
use hapudding.Text.{Bytes, codes, is_empty, str_eq, to_lower, contains, split, trim_space}
use hapudding.Config.{Config, Backend}
use hapudding.Health.Monitor.{Monitor}
use hapudding.Store.Types.{Store, BindingKind, no_kind}

-- Identifiers of internal/authheader/parse.go
pub record Identifiers : Type 0 where
  pub token : Bytes
  pub device_id : Bytes
  pub client : Bytes
  pub device : Bytes
  pub version : Bytes

-- What the program reads of a request. `header` is Header.Get, `cookie` the value that req.Cookie
-- finds, `remote_host` the host that net.SplitHostPort finds in `remote_addr`, if any.
pub record Request : Type 0 where
  pub method : Bytes
  pub path : Bytes
  pub raw_query : Bytes
  pub header : Bytes → Bytes
  pub cookie : Bytes → Option Bytes
  pub user_agent : Bytes
  pub remote_addr : Bytes
  pub remote_host : Option Bytes

pub data HapError : Type 0 where
  no_error store_unavailable backend_disabled bound_backend_unavailable reauth_required
        no_eligible_backend :
      HapError

pub record Decision : Type 0 where
  pub backend : Option Backend
  pub kind : BindingKind
  pub is_bound : Bool
  pub drop_client : Bool
  pub refuse_token : Bool
  pub graylisted : Bool
  pub hap_error : HapError
  pub hap_status : ℕ

-- Decision{}
abbrev pub no_decision : Decision
no_decision = record {
  backend = none;
  kind = no_kind;
  is_bound = false;
  drop_client = false;
  refuse_token = false;
  graylisted = false;
  hap_error = no_error;
  hap_status = 0;
}

pub record Flags : Type 0 where
  pub yaml : Bytes → Bool
  pub runtime : Bytes → Bool

pub record Router : Type 0 where
  pub cfg : Config
  pub st : Store
  pub mon : Monitor
  pub flags : Flags

-- The map `by`: the last backend of a name.
unfoldable pub backend_in : List Backend → Bytes → Option Backend
backend_in [] name = none
backend_in (b ∷ bs) name = elim (backend_in bs name) [
  | some c ↦ some c
  | none ↦ if str_eq b.name name then some b else none
]

unfoldable pub by : Router → Bytes → Option Backend
by r name = backend_in r.cfg.backends name

unfoldable first_part : List Bytes → Bytes
first_part [] = []
first_part (p ∷ ps) = p

unfoldable pub client_ip : Request → Bytes
unfolding first_part
client_ip req =
    let xff = req.header (codes "X-Forwarded-For") in
    if is_empty xff
    then elim req.remote_host [ none ↦ req.remote_addr | some host ↦ host ]
    else trim_space (first_part (split xff b','))

unfoldable pub cookie_hint : Request → Bytes
cookie_hint req = elim (req.cookie (codes "hap_backend")) [ none ↦ [] | some v ↦ v ]

unfoldable pub is_session_media_path : Request → Bool
is_session_media_path req =
    let p = to_lower req.path in
    contains p (codes "/images")
    || (contains p (codes "/videos/")
        || (contains p (codes "/audio/")
            || (contains p (codes "/subtitles")
                || (contains p (codes "/attachments") || contains p (codes "/trickplay")))))
