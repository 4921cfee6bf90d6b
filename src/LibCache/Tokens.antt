-- ===== src/LibCache/Tokens.antt =====
-- The invalidation of internal/libcache/cache.go: `DropToken` takes the entries of one token of one
-- backend, and no others.
use hapudding.Base.{
  ℕ, ◌≡◌, ◌≢◌, refl, sym, ap, subst, ◌∙◌, List, [], ◌∷◌, ◌++◌, append_assoc, false, none, some,
  ◌&&◌, if◌then◌else◌, arith, Bool-cases, All, inl, inr,
}
use hapudding.Text.{Bytes, is_empty, str_eq, has_prefix, to_upper}
use hapudding.Text.Equality.{str_eq_iff}
use hapudding.Lru.Elements.{value?, remove_el}
use hapudding.Lru.Defs.{Lru, remove_locked}
use hapudding.Lru.Invariant
use hapudding.Lru.Invariant.{Distinct, remove_locked-IsValid}
use hapudding.Lru.Fit.{items, get as get_item}
use hapudding.LibCache.Cache.{
  Item, key_of, size_of, Cache, token_prefix, cache_key, with_prefix, remove_each, drop_token,
}
use hapudding.LibCache.Invariant.{IsValid}
use hapudding.LibCache.Lookup.{held}

-- The elements that stay.
without_prefix : Bytes → List (ℕ × Item) → List (ℕ × Item)
without_prefix p [] = []
without_prefix p ((el, it) ∷ l) =
    if has_prefix it.key p then without_prefix p l else (el, it) ∷ without_prefix p l

split_at :
    (next el : ℕ) (it : Item) (kept l : List (ℕ × Item))
    → Distinct key_of next (kept ++ (el, it) ∷ l)
    → (value? el (kept ++ (el, it) ∷ l) ≡ some it)
      × (remove_el el (kept ++ (el, it) ∷ l) ≡ kept ++ l)
unfolding value? remove_el
split_at next el it [] l d = ground arith
split_at next el it ((m, x) ∷ kept) l d = ground (arith, split_at next el it kept l d.3)

remove_at :
    (c : Lru Item) (el : ℕ) (it : Item) (kept l : List (ℕ × Item))
    → Invariant.IsValid key_of size_of c
    → c.ll ≡ kept ++ (el, it) ∷ l
    → (remove_locked key_of size_of c el).ll ≡ kept ++ l
unfolding remove_locked
remove_at c el it kept l v e =
    let d = subst (Distinct key_of c.next) e v.distinct in
    let (found, rest) = split_at c.next el it kept l d in
    rw (ap (value? el) e ∙ found, remove_locked) (ap (remove_el el) e ∙ rest)

remove_each-prefix :
    (p : Bytes) (c : Lru Item) (kept l : List (ℕ × Item))
    → Invariant.IsValid key_of size_of c
    → c.ll ≡ kept ++ l
    → (remove_each c (with_prefix p l)).ll ≡ kept ++ without_prefix p l
unfolding remove_each with_prefix without_prefix
remove_each-prefix p c kept [] v e = e
remove_each-prefix p c kept ((el, it) ∷ l) v e = elim (Bool-cases (has_prefix it.key p)) [
  | inl h ↦ rw h (
      remove_each-prefix p (remove_locked key_of size_of c el) kept l
        (remove_locked-IsValid key_of size_of c v el) (remove_at c el it kept l v e))
  | inr h ↦ rw h (
      remove_each-prefix p c (kept ++ (el, it) ∷ []) l v
        (e ∙ sym (append_assoc kept ((el, it) ∷ []) l))
      ∙ append_assoc kept ((el, it) ∷ []) (without_prefix p l))
]

get-without_prefix :
    (p k : Bytes) (l : List (ℕ × Item))
    → get_item key_of k (items (without_prefix p l))
      ≡ (if has_prefix k p then none else get_item key_of k (items l))
unfolding without_prefix get_item
get-without_prefix p k [] = ground arith
get-without_prefix p k ((el, it) ∷ l) =
    ground (arith, get-without_prefix p k l, str_eq_iff it.key k)

-- No newline in a text: host names and hexadecimal digits have none.
abbrev pub IsLine : Bytes → Type 0
IsLine = All (λ c. c ≢ 10)

prefix_line :
    (s t rest p : Bytes)
    → IsLine s
    → IsLine t
    → has_prefix (t ++ 10 ∷ rest) (s ++ 10 ∷ p) ≡ (str_eq s t && has_prefix rest p)
unfolding has_prefix str_eq
prefix_line [] [] rest p hs ht = ground arith
prefix_line [] (d ∷ t) rest p hs ht = ground arith
prefix_line (c ∷ s) [] rest p hs ht = ground arith
prefix_line (c ∷ s) (d ∷ t) rest p hs ht = ground (arith, prefix_line s t rest p hs.1 ht.1)

-- A key belongs to a backend and a token exactly if it was made from them.
pub prefix_key :
    (b h b' h' m p q : Bytes)
    → IsLine b
    → IsLine h
    → IsLine b'
    → IsLine h'
    → has_prefix (cache_key b' h' m p q) (token_prefix b h) ≡ (str_eq b b' && str_eq h h')
unfolding cache_key token_prefix has_prefix
prefix_key b h b' h' m p q hb hh hb' hh' =
    let request = to_upper m ++ 10 ∷ (p ++ 10 ∷ q) in
    ground (
      arith,
      prefix_line b b' (h' ++ 10 ∷ request) (h ++ 10 ∷ []) hb hb',
      prefix_line h h' request [] hh hh',
    )

-- On a valid cache `DropToken` takes every entry of the token at the backend, whatever its request
-- was, and leaves the entries of the other tokens and backends as they are. The texts are not empty
-- where the code tests that, and hold no newline.
pub held-drop_token :
    (c : Cache) (b h b' h' m p q : Bytes)
    → IsValid c
    → is_empty b ≡ false
    → is_empty h ≡ false
    → IsLine b
    → IsLine h
    → IsLine b'
    → IsLine h'
    → held (drop_token c b h) (cache_key b' h' m p q)
      ≡ (if str_eq b b' && str_eq h h' then none else held c (cache_key b' h' m p q))
unfolding drop_token held
held-drop_token c b h b' h' m p q v eb eh hb hh hb' hh' =
    let k = cache_key b' h' m p q in
    let prefix = token_prefix b h in
    let dropped = remove_each-prefix prefix c.lru [] c.lru.ll v.agrees refl in
    rw (eb, eh, ap (λ l. get_item key_of k (items l)) dropped, get-without_prefix prefix k c.lru.ll)
      (rw (prefix_key b h b' h' m p q hb hh hb' hh'))
