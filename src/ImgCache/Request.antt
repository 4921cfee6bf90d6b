-- ===== src/ImgCache/Request.antt =====
-- The rules of internal/imgcache/cache.go on which requests and responses are cached and how long.
-- A time.Duration is an int64 of nanoseconds.
use hapudding.Base.{
  ◌<◌, ℕ, zero, suc, ◌+◌, ◌-◌, ◌*◌, ◌%◌, ◌^◌, ◌≡◌, List, [], ◌∷◌, Bool, true, false, not, ◌&&◌,
  ◌||◌, Option, none, some, ltb, leb, ◌==◌, if◌then◌else◌, ◌⊎◌,
}
use hapudding.Base.Int.{ℤ, pos, negsuc, ltb_ℤ}
use hapudding.Text.{
  Bytes, codes, str_eq, to_lower, equal_fold, contains, from_index, trim_space, cut, split,
}

unfoldable pub is_item_image_path : Bytes → Bool
is_item_image_path path =
    let p = to_lower path in
    if contains p (codes "/users/") then false else elim (from_index p (codes "/items/")) [
      | none ↦ false
      | some rest ↦ contains rest (codes "/images/")
    ]

unfoldable pub is_cacheable_request : Bytes → Bytes → Bool
is_cacheable_request method path =
    if not (equal_fold method (codes "GET")) && not (equal_fold method (codes "HEAD"))
    then false
    else is_item_image_path path

any_forbids : List Bytes → Bool
any_forbids [] = false
any_forbids (p ∷ ps) =
    let rest = any_forbids ps in
    let dir = trim_space (cut (trim_space p) b'=').0 in
    (str_eq dir (codes "no-store")
      || (str_eq dir (codes "private") || str_eq dir (codes "no-cache")))
    || rest

unfoldable pub cache_control_forbids : Bytes → Bool
unfolding any_forbids
cache_control_forbids cc = any_forbids (split (to_lower cc) b',')

digits_from : ℕ → Bytes → Option ℕ
digits_from n [] = some n
digits_from n (c ∷ s) =
    let rest = digits_from (n * 10 + (c - b'0')) s in
    if leb b'0' c && leb c b'9' then rest else none

digits : Bytes → Option ℕ
unfolding digits_from
digits [] = none
digits (c ∷ s) = digits_from 0 (c ∷ s)

to_positive : Option ℕ → Option ℤ
to_positive none = none
to_positive (some n) = if ltb n (2 ^ 63) then some (pos n) else none

to_negative : Option ℕ → Option ℤ
to_negative none = none
to_negative (some zero) = some (pos 0)
to_negative (some (suc n)) = if ltb n (2 ^ 63) then some (negsuc n) else none

-- strconv.ParseInt(s, 10, 64), `none` for an error
unfoldable pub parse_int : Bytes → Option ℤ
unfolding digits to_positive to_negative
parse_int [] = none
parse_int (c ∷ s) =
    if c == b'+'
    then to_positive (digits s)
    else if c == b'-'
    then to_negative (digits s)
    else to_positive (digits (c ∷ s))

first_max_age : List Bytes → Option ℤ
first_max_age [] = none
first_max_age (p ∷ ps) =
    let rest = first_max_age ps in
    let (dir, val, found) = cut (trim_space p) b'=' in
    if not found || not (str_eq (trim_space dir) (codes "max-age"))
    then rest
    else parse_int (trim_space val)

unfoldable pub cache_control_max_age : Bytes → Option ℤ
unfolding first_max_age
cache_control_max_age cc = first_max_age (split (to_lower cc) b',')

-- The int64 of a value modulo 2^64.
abbrev signed : ℕ → ℤ
signed m = if ltb m (2 ^ 63) then pos m else negsuc (2 ^ 64 - m - 1)

-- time.Duration(maxAge) * time.Second, which wraps around
unfoldable pub seconds : ℤ → ℤ
seconds (pos n) = signed (n * 10 ^ 9 % 2 ^ 64)
seconds (negsuc n) = signed ((2 ^ 64 - suc n * 10 ^ 9 % 2 ^ 64) % 2 ^ 64)

abbrev at_most : ℤ → ℤ → ℤ
at_most max ttl = if ltb_ℤ (pos 0) max && ltb_ℤ max ttl then max else ttl

abbrev if_positive : ℤ → Option ℤ
if_positive ttl = if ltb_ℤ (pos 0) ttl then some ttl else none

-- `StoreTTL`: `none` where it returns 0, false
unfoldable pub store_ttl : Bytes → ℤ → ℤ → Option ℤ
store_ttl cc default_ttl max_ttl =
    if cache_control_forbids cc then none else elim (cache_control_max_age cc) [
      | some age ↦ if_positive (at_most max_ttl (seconds age))
      | none ↦ if_positive default_ttl
    ]

-- The time that a max-age calls for: its seconds, or the maximum where there is one and it is less.
abbrev pub FollowsAge : ℤ → ℤ → ℤ → Type 0
FollowsAge max_ttl ttl (pos n) =
    n * 10 ^ 9 < 2 ^ 63
    → (0 < n)
      × ((ttl ≡ pos (n * 10 ^ 9))
          ⊎ ((ttl ≡ max_ttl)
              × (ltb_ℤ (pos 0) max_ttl ≡ true)
              × (ltb_ℤ max_ttl (pos (n * 10 ^ 9)) ≡ true)))
FollowsAge max_ttl ttl (negsuc n) = 2 ^ 63 < suc n * 10 ^ 9
