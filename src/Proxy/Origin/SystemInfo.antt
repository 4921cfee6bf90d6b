-- ===== src/Proxy/Origin/SystemInfo.antt =====
-- `rewriteSystemInfoJSON` of internal/proxy/origin.go.
use hapudding.Base.{
  List, [], ◌∷◌, Bool, true, false, not, ◌&&◌, ◌||◌, Option, none, some, if◌then◌else◌,
}
use hapudding.Text.{Bytes, codes, is_empty, str_eq, to_lower, has_suffix}
use hapudding.Proxy.Origin.Urls.{Urls}
use hapudding.Proxy.Origin.Playlist.{is_url}

unfoldable pub is_system_info_path : Bytes → Bool
is_system_info_path path =
    has_suffix (to_lower path) (codes "/system/info")
    || has_suffix (to_lower path) (codes "/system/info/public")

-- An element of an array, and a value of an object: `raw` is what the code does not look into.
pub data Item (R : Type 0) : Type 0 where
  text : Bytes → Item R
  raw : R → Item R

pub data Value (R : Type 0) : Type 0 where
  one : Item R → Value R
  items : List (Item R) → Value R

abbrev pub Object : Type 0 → Type 0
Object R = List (Bytes × Value R)

-- Package encoding/json: `decode` fails, or gives a nil map for null, or an object, whose keys differ.
pub record Json : Type 1 where
  pub Raw : Type 0
  pub decode : Bytes → Option (Option (Object Raw))
  pub encode : Object Raw → Option Bytes

module _ {R : Type 0} where
  unfoldable pub lookup : Bytes → Object R → Option (Value R)
  lookup k [] = none
  lookup k (f ∷ fs) = if str_eq f.0 k then some f.1 else lookup k fs

  -- m[k] = v
  unfoldable pub assign : Bytes → Value R → Object R → Object R
  assign k v [] = (k, v) ∷ []
  assign k v (f ∷ fs) = if str_eq f.0 k then (k, v) ∷ fs else f ∷ assign k v fs

  -- if _, ok := m[k]; ok { m[k] = v }
  unfoldable pub assign_if : Bytes → Value R → Object R → Object R
  assign_if k v m = elim (lookup k m) [ none ↦ m | some _ ↦ assign k v m ]

module _ (u : Urls) (inbound : Bytes) where
  -- The text with the origin of `inbound`, if it is an absolute URL.
  unfoldable pub rewrite_text : Bytes → Option Bytes
  rewrite_text t =
      if is_url t
      then elim (u.parse inbound) [
        | none ↦ none
        | some in_url ↦ if is_empty (u.host in_url) then none else elim (u.parse t) [
          | none ↦ none
          | some v ↦ if u.is_abs v then some (u.print (u.with_origin in_url v)) else none
        ]
      ]
      else none

module _ (u : Urls) (inbound : Bytes) {R : Type 0} where
  unfoldable pub rewrite_item : Item R → Option (Item R)
  unfolding rewrite_text
  rewrite_item (raw r) = none
  rewrite_item (text t) = elim (rewrite_text u inbound t) [ none ↦ none | some s ↦ some (text s) ]

  -- `rewriteURLArray`: none where nothing changed. If `inbound` is no URL with a host, no text is rewritten.
  unfoldable pub rewrite_url_array : List (Item R) → Option (List (Item R))
  unfolding rewrite_item
  rewrite_url_array [] = none
  rewrite_url_array (i ∷ is) =
      let rest = rewrite_url_array is in
      elim (rewrite_item i) [
        | some j ↦ some (j ∷ elim rest [ none ↦ is | some js ↦ js ])
        | none ↦ elim rest [ none ↦ none | some js ↦ some (i ∷ js) ]
      ]

  unfoldable pub rewrite_value : Value R → Option (Value R)
  unfolding rewrite_item rewrite_url_array
  rewrite_value (one i) = elim (rewrite_item i) [ none ↦ none | some j ↦ some (one j) ]
  rewrite_value (items is) = elim (rewrite_url_array is) [ none ↦ none | some js ↦ some (items js) ]

  -- The loop over the map, with `changed`.
  unfoldable pub rewrite_fields : Object R → Object R × Bool
  unfolding rewrite_value
  rewrite_fields [] = ([], false)
  rewrite_fields (f ∷ fs) =
      let (rest, changed) = rewrite_fields fs in
      elim (rewrite_value f.1) [ none ↦ (f ∷ rest, changed) | some v ↦ ((f.0, v) ∷ rest, true) ]

abbrev pub is_some : {A : Type 0} → Option A → Bool
is_some none = false
is_some (some a) = true

-- _, ok := m[k]
unfoldable pub is_present : {R : Type 0} → Bytes → Object R → Bool
is_present k m = is_some (lookup k m)

module _ {R : Type 0} where
  -- The assignment of the id, and those of the name.
  unfoldable pub with_id : Bytes → Object R → Object R
  unfolding assign_if
  with_id id m = if is_empty id then m else assign_if (codes "Id") (one (text id)) m

  unfoldable pub with_name : Bytes → Object R → Object R
  unfolding assign assign_if
  with_name name m =
      if is_empty name
      then m
      else assign_if (codes "Name") (one (text name))
          (assign (codes "ServerName") (one (text name)) m)

module _ (u : Urls) (j : Json) where
  -- What is made of an object, and whether it was changed.
  unfoldable pub rewrite_object : Bytes → Bytes → Bytes → Bool → Object j.Raw → Object j.Raw × Bool
  unfolding with_id with_name rewrite_fields is_present
  rewrite_object inbound id name rewrite_urls m =
      let named = with_name name (with_id id m) in
      let renamed = (not (is_empty id) && is_present (codes "Id") m) || not (is_empty name) in
      let (m', changed) = rewrite_fields u inbound named in
      if rewrite_urls && not (is_empty inbound) then (m', renamed || changed) else (named, renamed)

  -- The body, or none where the code assigns to a nil map, which panics.
  unfoldable pub rewrite_system_info : Bytes → Bytes → Bytes → Bool → Bytes → Option Bytes
  unfolding rewrite_object
  rewrite_system_info inbound id name rewrite_urls body = elim (j.decode body) [
    | none ↦ some body
    | some none ↦ if is_empty name then some body else none
    | some (some m) ↦
        let (m', changed) = rewrite_object inbound id name rewrite_urls m in
        if changed then elim (j.encode m') [ none ↦ some body | some out ↦ some out ] else some body
  ]
