-- ===== src/Status/Users.antt =====
-- The handlers about users of internal/status/status.go: rows and dumps made of the tokens that are live.
-- Times are left as Unix seconds; the source prints them.
use hapudding.Base.{
  ℕ, ◌-◌, ◌*◌, List, [], ◌∷◌, Bool, true, false, not, ◌&&◌, ◌||◌, Option, none, some, ltb,
  if◌then◌else◌, map, length, take, select,
}
use hapudding.Text.{Bytes, codes, is_empty, str_eq, str_lt, to_lower, has_prefix}
use hapudding.Config.Graylist.{matches_client}
use hapudding.Health.Monitor.{
  State, unknown, healthy, degraded, unhealthy, Snapshot, snapshot, state_of,
}
use hapudding.Store.Types.{TokenRow, Result, ok, err, second}
use hapudding.Store.Reports.{list_tokens}
use hapudding.Router.Types.{Router}
use hapudding.Status.Groups.{Group, group_from}

-- userRow; `user_id` is `none` where the source puts nil.
pub record UserRow : Type 0 where
  pub user_id : Option Bytes
  pub username : Bytes
  pub backend : Bytes
  pub affinity : Bytes
  pub created : ℕ
  pub last_active : ℕ
  pub status : Bytes
  pub session_id : Bytes
  pub graylisted : Bool

pub record SessionDump : Type 0 where
  pub device_id : Bytes
  pub client : Bytes
  pub device : Bytes
  pub version : Bytes
  pub token_prefix : Bytes
  pub created : ℕ
  pub last_active : ℕ
  pub last_method : Bytes
  pub last_path : Bytes
  pub last_status : ℕ

pub record UserDump : Type 0 where
  pub row : UserRow
  pub sessions : List SessionDump
  pub backend_health : Snapshot

unfoldable pub prefix : Bytes → Bytes
prefix h = if ltb 12 (length h) then take 12 h else h

abbrev is_unhealthy : State → Bool
is_unhealthy unhealthy = true
is_unhealthy healthy = false
is_unhealthy degraded = false
is_unhealthy unknown = false

abbrev idle_after : ℕ
idle_after = 30 * 60 * second

unfoldable user_status : ℕ → TokenRow → State → Bytes
user_status now t st =
    if is_empty t.user_id
    then codes "unknown_user"
    else if is_unhealthy st
    then codes "backend_unhealthy"
    else if ltb idle_after (now - t.last_seen * second)
    then codes "idle"
    else codes "active"

-- The loop of `rowFromTokens` over the tokens behind the first.
unfoldable pub latest : TokenRow → List TokenRow → TokenRow
latest t [] = t
latest t (x ∷ xs) = latest (if ltb t.last_seen x.last_seen then x else t) xs

unfoldable pub row_from_tokens : Router → ℕ → TokenRow → List TokenRow → State → UserRow
unfolding latest user_status
row_from_tokens r now first others st =
    let t = latest first others in
    record {
      user_id = if is_empty t.user_id then none else some t.user_id;
      username = t.username;
      backend = t.backend;
      affinity = codes "token";
      created = t.created_at;
      last_active = t.last_seen;
      status = user_status now t st;
      session_id = t.session_id;
      graylisted =
          matches_client r.cfg.affinity.graylist t.client
          || matches_client r.cfg.affinity.graylist t.client;
    }

-- userIDKey
abbrev pub user_id_key : Option Bytes → Bytes
user_id_key none = []
user_id_key (some id) = id

-- The comparison of `slices.SortFunc` is negative.
unfoldable pub row_before : UserRow → UserRow → Bool
row_before a b =
    str_lt (to_lower a.username) (to_lower b.username)
    || (str_eq (to_lower a.username) (to_lower b.username)
        && (str_lt (user_id_key a.user_id) (user_id_key b.user_id)
            || (str_eq (user_id_key a.user_id) (user_id_key b.user_id)
                && str_lt a.backend b.backend)))

-- slices.SortFunc
unfoldable pub insert_row : UserRow → List UserRow → List UserRow
unfolding row_before
insert_row x [] = x ∷ []
insert_row x (y ∷ ys) = if row_before y x then y ∷ insert_row x ys else x ∷ (y ∷ ys)

unfoldable pub sort_rows : List UserRow → List UserRow
unfolding insert_row
sort_rows [] = []
sort_rows (x ∷ xs) = insert_row x (sort_rows xs)

abbrev pub Key : Type 0
Key = Bytes × Bytes

abbrev pub same_key : Key → Key → Bool
same_key (b, u) (c, v) = str_eq b c && str_eq u v

abbrev pub key_of : TokenRow → Key
key_of t = (t.backend, if is_empty t.user_id then t.session_id else t.user_id)

abbrev pub row_of_group : Router → ℕ → Group Key TokenRow → UserRow
row_of_group r now g = row_from_tokens r now g.first g.others (state_of r.mon g.first.backend)

unfoldable pub list_users : Router → ℕ → Result (List UserRow)
unfolding group_from row_from_tokens sort_rows
list_users r now = elim (list_tokens r.st now) [
  | err ↦ err
  | ok tokens ↦ ok (sort_rows (map (row_of_group r now) (group_from same_key key_of [] tokens)))
]

unfoldable session_dump : TokenRow → SessionDump
unfolding prefix
session_dump t = record {
  device_id = t.device_id;
  client = t.client;
  device = t.device;
  version = t.version;
  token_prefix = prefix t.token_hash;
  created = t.created_at;
  last_active = t.last_seen;
  last_method = t.last_method;
  last_path = t.last_path;
  last_status = t.last_status;
}

-- The tokens that the loop of `user` keeps.
unfoldable is_of_user : Bytes → Bytes → TokenRow → Bool
is_of_user id backend_filter t =
    str_eq t.user_id id && (is_empty backend_filter || str_eq t.backend backend_filter)

unfoldable dump_of : Router → ℕ → Group Bytes TokenRow → UserDump
unfolding session_dump row_from_tokens
dump_of r now g = record {
  row = row_from_tokens r now g.first g.others (state_of r.mon g.key);
  sessions = map session_dump (g.first ∷ g.others);
  backend_health = snapshot r.mon g.key;
}

-- The answers of the two handlers; `failed` is a 500, `not_found` the JSON 404, `no_page` http.NotFound.
pub data UsersReply : Type 0 where
  no_page not_found failed : UsersReply
  rows : List UserRow → UsersReply
  dumps : List UserDump → UsersReply

-- `user` behind the path; `backend_filter` is the query's.
unfoldable pub user : Router → ℕ → Bytes → Bytes → UsersReply
unfolding group_from is_of_user dump_of
user r now id backend_filter = if is_empty id then no_page else elim (list_tokens r.st now) [
  | err ↦ failed
  | ok tokens ↦
      elim (group_from str_eq (λ (t : TokenRow). t.backend) []
        (select (is_of_user id backend_filter) tokens)) [
          | [] ↦ not_found
          | g ∷ gs ↦ dumps (map (dump_of r now) (g ∷ gs))
        ]
]

-- strings.TrimPrefix(path, p)
unfoldable trim_prefix : Bytes → Bytes → Bytes
unfolding has_prefix
trim_prefix s p = if has_prefix s p then drop_first s p else s
  where
    drop_first : Bytes → Bytes → Bytes
    drop_first s [] = s
    drop_first [] (d ∷ p) = []
    drop_first (c ∷ s) (d ∷ p) = drop_first s p

unfoldable pub users : Router → ℕ → Bytes → Bytes → UsersReply
unfolding user list_users trim_prefix
users r now path backend_filter =
    if not (str_eq path (codes "/hap/users"))
    then user r now (trim_prefix path (codes "/hap/users/")) backend_filter
    else elim (list_users r now) [ err ↦ failed | ok out ↦ rows out ]
