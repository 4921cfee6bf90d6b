-- ===== src/Proxy/Values.antt =====
-- The values that http.Header has behind its operations.
use hapudding.Base.{
  ◌≡◌, refl, ap, ◌∙◌, List, [], ◌∷◌, ◌++◌, true, if◌then◌else◌, arith, append-nil, append_assoc,
}
use hapudding.Text.{Bytes, equal_fold, to_lower, str_eq}
use hapudding.Text.Equality.{str_eq_iff}
use hapudding.Proxy.Headers.{Headers, values, del, add, add_each, set}

pub values-del :
    (h : Headers) (k key : Bytes)
    → values (del h k) key ≡ (if equal_fold k key then [] else values h key)
unfolding values del equal_fold
values-del [] k key = ground arith
values-del (f ∷ fs) k key = ground (
  arith,
  values-del fs k key,
  str_eq_iff (to_lower f.0) (to_lower k),
  str_eq_iff (to_lower k) (to_lower key),
  str_eq_iff (to_lower f.0) (to_lower key),
)

values-add :
    (h : Headers) (k v key : Bytes)
    → values (add h k v) key ≡ (if equal_fold k key then values h key ++ v ∷ [] else values h key)
unfolding values add
values-add [] k v key = ground arith
values-add (f ∷ fs) k v key = ground (arith, values-add fs k v key)

pub values-add_each :
    (h : Headers) (k key : Bytes) (vs : List Bytes)
    → values (add_each h k vs) key ≡ (if equal_fold k key then values h key ++ vs else values h key)
unfolding add_each
values-add_each h k key [] = ground (arith, append-nil (values h key))
values-add_each h k key (v ∷ vs) =
    values-add_each (add h k v) k key vs
    ∙ ground (arith, values-add h k v key, append_assoc (values h key) (v ∷ []) vs)

pub values-fold :
    (h : Headers) (k key : Bytes) → equal_fold k key ≡ true → values h k ≡ values h key
unfolding values equal_fold
values-fold [] k key e = refl
values-fold (f ∷ fs) k key e =
    let lower : to_lower k ≡ to_lower key = (str_eq_iff (to_lower k) (to_lower key)).0 e in
    ground (arith, values-fold fs k key e, ap (λ s. str_eq (to_lower f.0) s) lower)

pub values-set :
    (h : Headers) (k v key : Bytes)
    → values (set h k v) key ≡ (if equal_fold k key then v ∷ [] else values h key)
unfolding set add
values-set h k v key = values-add (del h k) k v key ∙ ground (arith, values-del h k key)
