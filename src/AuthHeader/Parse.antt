-- ===== src/AuthHeader/Parse.antt =====
-- `Parse` of internal/authheader/parse.go. `unescape` is url.QueryUnescape of package net/url and
-- `query` the Get of the url.Values of the request's query, which are parameters.
use hapudding.Base.{
  ℕ, zero, suc, List, [], ◌∷◌, Bool, true, false, not, ◌&&◌, ◌||◌, Option, none, some, ◌==◌,
  if◌then◌else◌, length,
}
use hapudding.Text.{Bytes, codes, is_empty, str_eq, equal_fold, is_space, trim_space, cut}
use hapudding.Router.Types.{Identifiers, Request}

-- unicode.IsSpace(rune(c)) of a byte
unfoldable pub is_space_byte : ℕ → Bool
is_space_byte c = is_space c || ((c == 133) || (c == 160))

-- The bytes before the first `b`, and the rest from that on.
unfoldable pub until : ℕ → Bytes → Bytes × Bytes
until b [] = ([], [])
until b (c ∷ s) =
    let (before, rest) = until b s in if c == b then ([], c ∷ s) else (c ∷ before, rest)

unfoldable pub skip_commas : Bytes → Bytes
skip_commas [] = []
skip_commas (c ∷ s) = if (c == b',') || is_space_byte c then skip_commas s else c ∷ s

unfoldable pub skip_spaces : Bytes → Bytes
skip_spaces [] = []
skip_spaces (c ∷ s) = if is_space_byte c then skip_spaces s else c ∷ s

-- The value behind an opening quote, and what follows its end; the Boolean is `escaped`.
unfoldable pub quoted : Bool → Bytes → Bytes × Bytes
quoted escaped [] = ([], [])
quoted true (c ∷ s) = let (val, rest) = quoted false s in (c ∷ val, rest)
quoted false (c ∷ s) =
    let escape = quoted true s in
    let (val, rest) = quoted false s in
    if c == b'\\' then escape else if c == b'"' then ([], s) else (c ∷ val, rest)

unfoldable pub value_of : Bytes → Bytes × Bytes
value_of [] = ([], [])
value_of (c ∷ s) =
    if c == b'"'
    then quoted false s
    else let (val, rest) = until b',' (c ∷ s) in (trim_space val, rest)

-- The map `out`, latest entry first.
abbrev pub Values : Type 0
Values = List (Bytes × Bytes)

-- parts[key], the empty string if it is missing
unfoldable pub part : Values → Bytes → Bytes
part [] key = []
part ((k, v) ∷ out) key = let rest = part out key in if str_eq k key then v else rest

module _ (unescape : Bytes → Option Bytes) where
  abbrev pub decoded : Bytes → Bytes
  decoded val = elim (unescape val) [ none ↦ val | some dec ↦ dec ]

  -- One pair of a key, without the `=`, and what follows: the map and the rest.
  unfoldable pub take_pair : Values → Bytes → Bytes → Values × Bytes
  take_pair out key s =
      let (val, rest) = value_of (skip_spaces s) in
      let k = trim_space key in (if is_empty k then out else (k, decoded val) ∷ out, rest)

  -- The loop; each round takes an `=`, so the length is fuel enough.
  unfoldable pub named_values_from : ℕ → Values → Bytes → Values
  named_values_from zero out s = out
  named_values_from (suc fuel) out s =
      let (key, rest) = until b'=' (skip_commas s) in
      elim rest [
        | [] ↦ out
        | eq ∷ behind ↦
            let (out', rest') = take_pair out key behind in named_values_from fuel out' rest'
      ]

  -- `parseNamedValues`; the empty list for nil
  unfoldable pub parse_named_values : Bytes → Values
  parse_named_values s = let t = trim_space s in named_values_from (length t) [] t

  unfoldable pub parse_media_browser : Bytes → Values
  parse_media_browser header =
      let (scheme, rest, found) = cut (trim_space header) b' ' in
      if not found
        || (not (equal_fold scheme (codes "MediaBrowser"))
            && not (equal_fold scheme (codes "Emby")))
      then []
      else parse_named_values rest

abbrev or_else : Bytes → Bytes → Bytes
or_else first second = if is_empty first then second else first

-- `applyParts`, and the block for the second header: a field that has a value keeps it.
unfoldable pub apply_parts : Values → Identifiers
apply_parts parts = record {
  token = part parts (codes "Token");
  device_id = part parts (codes "DeviceId");
  client = part parts (codes "Client");
  device = part parts (codes "Device");
  version = part parts (codes "Version");
}

unfoldable pub fill_from : Identifiers → Identifiers → Identifiers
fill_from id other = record {
  token = or_else id.token other.token;
  device_id = or_else id.device_id other.device_id;
  client = or_else id.client other.client;
  device = or_else id.device other.device;
  version = or_else id.version other.version;
}

unfoldable pub parse : (Bytes → Option Bytes) → (Bytes → Bytes) → Request → Identifiers
parse unescape query req =
    let id = apply_parts (parse_media_browser unescape (req.header (codes "Authorization"))) in
    let other =
      apply_parts (parse_media_browser unescape (req.header (codes "X-Emby-Authorization"))) in
    let id' : Identifiers =
      if is_empty id.token || is_empty id.device_id then fill_from id other else id in
    record id' {
      token = or_else id'.token (
          or_else (req.header (codes "X-Emby-Token")) (
            or_else (req.header (codes "X-MediaBrowser-Token"))
              (or_else (query (codes "ApiKey")) (query (codes "api_key")))));
      device_id = or_else id'.device_id (
          or_else (query (codes "deviceId"))
            (or_else (query (codes "device_id")) (query (codes "DeviceId"))));
    }
