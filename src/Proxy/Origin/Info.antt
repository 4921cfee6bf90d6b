-- ===== src/Proxy/Origin/Info.antt =====
-- What `rewriteSystemInfoJSON` of internal/proxy/origin.go makes of each field of an object.
use hapudding.Base.{
  ◌≡◌, refl, sym, ap, ◌∙◌, subst, [], ◌∷◌, Bool, true, false, not, ◌&&◌, ◌||◌, Option, some,
  if◌then◌else◌, arith, Bool-cases, Option-cases, inl, inr,
}
use hapudding.Text.{Bytes, codes, is_empty, str_eq}
use hapudding.Text.Equality.{str_eq_iff}
use hapudding.Proxy.Origin.Urls.{Urls}
use hapudding.Proxy.Origin.Texts.{
  rewritten, rewritten_field, MovedField, rewritten_field-MovedField,
}
use hapudding.Proxy.Origin.SystemInfo.{
  text, Value, one, Object, Json, is_some, lookup, assign, assign_if, rewrite_value, rewrite_fields,
  is_present, with_id, with_name, rewrite_object,
}

module _ {R : Type 0} where
  lookup-assign :
      (j k : Bytes) (v : Value R) (m : Object R)
      → lookup k (assign j v m) ≡ (if str_eq j k then some v else lookup k m)
  unfolding lookup assign
  lookup-assign j k v [] = refl
  lookup-assign j k v (f ∷ fs) =
      ground (arith, lookup-assign j k v fs, str_eq_iff f.0 j, str_eq_iff j k, str_eq_iff f.0 k)

  lookup-assign_if :
      (j k : Bytes) (v : Value R) (m : Object R)
      → lookup k (assign_if j v m) ≡ (if is_present j m && str_eq j k then some v else lookup k m)
  unfolding assign_if is_present
  lookup-assign_if j k v m = elim (Option-cases (lookup j m)) [
    | inl e ↦ rw (e, assign_if, is_present)
    | inr (w, e) ↦ rw (e, assign_if, is_present) (lookup-assign j k v m)
  ]

module _ (u : Urls) (inbound : Bytes) {R : Type 0} where
  on_field :
      (v w : Value R) (there here : Option (Value R)) (found : Bool)
      → rewritten u inbound w ≡ v
      → there ≡ rewritten_field u inbound here
      → (if found then some v else there)
        ≡ rewritten_field u inbound (if found then some w else here)
  on_field v w there here true e f = ap some (sym e)
  on_field v w there here false e f = f

  lookup-rewrite_fields :
      (m : Object R) (k : Bytes)
      → lookup k (rewrite_fields u inbound m).0 ≡ rewritten_field u inbound (lookup k m)
  unfolding lookup rewrite_fields
  lookup-rewrite_fields [] k = refl
  lookup-rewrite_fields (f ∷ fs) k = elim (Option-cases (rewrite_value u inbound f.1)) [
    | inl e ↦
        rw (e, rewrite_fields)
          (on_field f.1 f.1 _ _ (str_eq f.0 k) (rw (e, rewritten)) (lookup-rewrite_fields fs k))
    | inr (w, e) ↦
        rw (e, rewrite_fields)
          (on_field w f.1 _ _ (str_eq f.0 k) (rw (e, rewritten)) (lookup-rewrite_fields fs k))
  ]

  rewrite_fields-kept :
      (m : Object R) → (rewrite_fields u inbound m).1 ≡ false → (rewrite_fields u inbound m).0 ≡ m
  unfolding rewrite_fields
  rewrite_fields-kept [] h = refl
  rewrite_fields-kept (f ∷ fs) h = elim (Option-cases (rewrite_value u inbound f.1)) [
    | inl e ↦
        let quiet : (rewrite_fields u inbound fs).1 ≡ false = rw (e, rewrite_fields) at h in
        rw (e, rewrite_fields) (ap (λ gs. f ∷ gs) (rewrite_fields-kept fs quiet))
    | inr (w, e) ↦ let loud : true ≡ false = rw (e, rewrite_fields) at h in absurd (cc)
  ]

either :
    {A : Type 0} (a b : Bool) (x y : A)
    → (if b then x else if a then x else y) ≡ (if a || b then x else y)
either true true x y = refl
either true false x y = refl
either false true x y = refl
either false false x y = refl

-- The field that the names and the id give, in front of the loop over the URLs.
abbrev pub named_field : {R : Type 0} → Bytes → Bytes → Object R → Bytes → Option (Value R)
named_field id name m k =
    if not (is_empty name)
      && (str_eq (codes "ServerName") k || (is_present (codes "Name") m && str_eq (codes "Name") k))
    then some (one (text name))
    else if not (is_empty id) && (is_present (codes "Id") m && str_eq (codes "Id") k)
    then some (one (text id))
    else lookup k m

module _ {R : Type 0} where
  lookup-with_id :
      (id k : Bytes) (m : Object R)
      → lookup k (with_id id m) ≡ (
          if not (is_empty id) && (is_present (codes "Id") m && str_eq (codes "Id") k)
          then some (one (text id))
          else lookup k m)
  unfolding with_id
  lookup-with_id id k m = elim (Bool-cases (is_empty id)) [
    | inl e ↦ rw (e, with_id)
    | inr e ↦ rw (e, with_id) (lookup-assign_if (codes "Id") k (one (text id)) m)
  ]

  -- No key goes or comes with the assignment to a key that is there.
  is_present-with_id : (id k : Bytes) (m : Object R) → is_present k (with_id id m) ≡ is_present k m
  unfolding is_present
  is_present-with_id id k m =
      ap is_some (lookup-with_id id k m)
      ∙ elim (Bool-cases
          (not (is_empty id) && (is_present (codes "Id") m && str_eq (codes "Id") k))) [
            | inl e ↦
                let there : is_present (codes "Id") m ≡ true = ground (arith, e) in
                let same : str_eq (codes "Id") k ≡ true = ground (arith, e) in
                rw e (
                  sym
                    (subst (λ j. is_present j m ≡ true) ((str_eq_iff (codes "Id") k).0 same) there))
            | inr e ↦ rw e
          ]

  is_present-assign :
      (j k : Bytes) (v : Value R) (m : Object R)
      → str_eq j k ≡ false
      → is_present k (assign j v m) ≡ is_present k m
  unfolding is_present
  is_present-assign j k v m e = ap is_some (lookup-assign j k v m) ∙ rw e

  named_lem :
      (id name : Bytes) (m : Object R) (k : Bytes)
      → lookup k (with_name name (with_id id m)) ≡ named_field id name m k
  unfolding with_name str_eq
  named_lem id name m k = elim (Bool-cases (is_empty name)) [
    | inl e ↦ rw (e, with_name) (lookup-with_id id k m)
    | inr e ↦
        let v = one (text name) in
        let server = assign (codes "ServerName") v (with_id id m) in
        let there : is_present (codes "Name") server ≡ is_present (codes "Name") m =
          is_present-assign (codes "ServerName") (codes "Name") v (with_id id m) refl
          ∙ is_present-with_id id (codes "Name") m in
        rw (e, with_name)
          (lookup-assign_if (codes "Name") k v server
            ∙ rw
                (
                  there,
                  lookup-assign (codes "ServerName") k v (with_id id m),
                  lookup-with_id id k m,
                )
                (either (str_eq (codes "ServerName") k)
                  (is_present (codes "Name") m && str_eq (codes "Name") k) (some v) _))
  ]

-- The object behind the rewriting: each field is the id or the name where one is set and the field is there
-- (`ServerName` in any case), else what the backend sent. If that is asked for and the inbound origin is not empty,
-- each text, alone or in an array, that is a URL with http or https in front is moved to the inbound origin, where
-- that is a URL with a host; every other value stays as it is.
pub rewrite_object-lookup :
    (u : Urls) (j : Json) (inbound id name : Bytes) (rewrite_urls : Bool) (m : Object j.Raw)
    (k : Bytes)
    → let before = named_field id name m k in
      let out = lookup k (rewrite_object u j inbound id name rewrite_urls m).0 in
      ((rewrite_urls && not (is_empty inbound)) ≡ true → MovedField u inbound before out)
      × ((rewrite_urls && not (is_empty inbound)) ≡ false → out ≡ before)
unfolding rewrite_object
rewrite_object-lookup u j inbound id name rewrite_urls m k = (
  (λ e.
      rw
        (
          e,
          rewrite_object,
          lookup-rewrite_fields u inbound (with_name name (with_id id m)) k,
          named_lem id name m k,
        )
        (rewritten_field-MovedField u inbound (named_field id name m k))),
  (λ e. rw (e, rewrite_object) (named_lem id name m k)),
)
