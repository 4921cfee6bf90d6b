-- ===== src/Status/Listing.antt =====
-- What GET /hap/users of internal/status/status.go lists.
use hapudding.Base.{
  none, some, if◌then◌else◌, List-cases, ℕ, ◌≤◌, ◌≡◌, refl, sym, ◌∙◌, subst, List, [], ◌∷◌, Bool,
  true, false, ◌&&◌, ◌||◌, ltb, arith, Bool-cases, inl, inr, map, All,
}
use mathlib.Core.List.{Perm, Memᴰ}
use mathlib.Core.List.Perm
use hapudding.Text.{Bytes, is_empty, str_eq, str_lt, to_lower}
use hapudding.Text.Equality.{str_eq_iff, str_eq_comm}
use hapudding.Store.Types.{TokenRow, ok}
use hapudding.Store.Reports.{list_tokens}
use hapudding.Router.Types.{Router}
use hapudding.Status.Groups.{
  Group, group_from, members, group_from-perm, Keyed, KeysDiffer, group_from_lem,
}
use hapudding.Status.Users.{
  UserRow, latest, row_from_tokens, user_id_key, row_before, insert_row, sort_rows, Key, same_key,
  key_of, row_of_group, list_users,
}

str_lt_asym : (s t : Bytes) → str_lt s t ≡ true → str_lt t s ≡ false
unfolding str_lt
str_lt_asym [] [] h = refl
str_lt_asym [] (d ∷ t) h = refl
str_lt_asym (c ∷ s) [] h = cc
str_lt_asym (c ∷ s) (d ∷ t) h = ground (arith, str_lt_asym s t)

str_lt_irrefl : (s t : Bytes) → str_eq s t ≡ true → str_lt s t ≡ false
unfolding str_lt str_eq
str_lt_irrefl [] [] h = refl
str_lt_irrefl [] (d ∷ t) h = cc
str_lt_irrefl (c ∷ s) [] h = cc
str_lt_irrefl (c ∷ s) (d ∷ t) h = ground (arith, str_lt_irrefl s t)

-- Two levels of a comparison.
lex_asym :
    (lt gt eq eq' less more : Bool)
    → (lt ≡ true → gt ≡ false)
    → (eq ≡ true → gt ≡ false)
    → (eq' ≡ true → lt ≡ false)
    → (less ≡ true → more ≡ false)
    → (lt || (eq && less)) ≡ true
    → (gt || (eq' && more)) ≡ false
lex_asym lt gt eq eq' less more a b c d h = ground arith

str_lex_asym :
    (s t : Bytes) (less more : Bool)
    → (less ≡ true → more ≡ false)
    → (str_lt s t || (str_eq s t && less)) ≡ true
    → (str_lt t s || (str_eq t s && more)) ≡ false
str_lex_asym s t less more h =
    lex_asym (str_lt s t) (str_lt t s) (str_eq s t) (str_eq t s) less more (str_lt_asym s t)
      (λ e. str_lt_irrefl t s (str_eq_comm t s ∙ e)) (λ e. str_lt_irrefl s t (str_eq_comm s t ∙ e))
      h

row_before_asym : (a b : UserRow) → row_before a b ≡ true → row_before b a ≡ false
unfolding row_before
row_before_asym a b = str_lex_asym (to_lower a.username) (to_lower b.username) _ _ (
    str_lex_asym (user_id_key a.user_id) (user_id_key b.user_id) _ _
      (str_lt_asym a.backend b.backend))

-- No row belongs in front of the one before it.
abbrev Ascending : List UserRow → Type 0
Ascending [] = Unit
Ascending (x ∷ []) = Unit
Ascending (x ∷ y ∷ ys) = (row_before y x ≡ false) × Ascending (y ∷ ys)

insert_row-Ascending :
    (x : UserRow) (ys : List UserRow) → Ascending ys → Ascending (insert_row x ys)
unfolding insert_row
insert_row-Ascending x [] h = tt
insert_row-Ascending x (y ∷ []) h = elim (Bool-cases (row_before y x)) [
  | inl e ↦ rw e (row_before_asym y x e, tt)
  | inr e ↦ rw e (e, tt)
]
insert_row-Ascending x (y ∷ z ∷ zs) (h, k) = elim (Bool-cases (row_before y x)) [
  | inl e ↦
      let rest = insert_row-Ascending x (z ∷ zs) k in
      elim (Bool-cases (row_before z x)) [
        | inl f ↦ rw e (rw f (h, rw f at rest))
        | inr f ↦ rw e (rw f (row_before_asym y x e, rw f at rest))
      ]
  | inr e ↦ rw e (e, (h, k))
]

sort_rows-Ascending : (xs : List UserRow) → Ascending (sort_rows xs)
unfolding sort_rows
sort_rows-Ascending [] = tt
sort_rows-Ascending (x ∷ xs) = insert_row-Ascending x (sort_rows xs) (sort_rows-Ascending xs)

insert_row-perm : (x : UserRow) (ys : List UserRow) → Perm (insert_row x ys) (x ∷ ys)
unfolding insert_row
insert_row-perm x [] = Perm.rfl
insert_row-perm x (y ∷ ys) = elim (Bool-cases (row_before y x)) [
  | inl e ↦ rw e (Perm.trans (Perm.cons y (insert_row-perm x ys)) (Perm.swap x y ys))
  | inr e ↦ rw e Perm.rfl
]

sort_rows-perm : (xs : List UserRow) → Perm (sort_rows xs) xs
unfolding sort_rows
sort_rows-perm [] = Perm.rfl
sort_rows-perm (x ∷ xs) =
    Perm.trans (insert_row-perm x (sort_rows xs)) (Perm.cons x (sort_rows-perm xs))

-- The latest is one of the tokens.
latest-among : (t : TokenRow) (xs : List TokenRow) → Memᴰ (latest t xs) (t ∷ xs)
unfolding latest
latest-among t [] = Memᴰ.head refl
latest-among t (x ∷ xs) = elim (Bool-cases (ltb t.last_seen x.last_seen)) [
  | inl e ↦ rw (e, latest) (Memᴰ.tail (latest-among x xs))
  | inr e ↦ rw (e, latest) (behind t x xs (latest-among t xs))
]
  where
    behind :
        {y : TokenRow} (t x : TokenRow) (xs : List TokenRow) → Memᴰ y (t ∷ xs) → Memᴰ y (t ∷ x ∷ xs)
    behind t x xs (Memᴰ.head e) = Memᴰ.head e
    behind t x xs (Memᴰ.tail m) = Memᴰ.tail (Memᴰ.tail m)

latest_lem :
    (t : TokenRow) (xs : List TokenRow) → All (λ x. x.last_seen ≤ (latest t xs).last_seen) (t ∷ xs)
unfolding latest
latest_lem t [] = (omega arith, tt)
latest_lem t (x ∷ xs) =
    let Above : TokenRow → Type 0 = λ u. All (λ y. y.last_seen ≤ u.last_seen) (t ∷ x ∷ xs) in
    elim (Bool-cases (ltb t.last_seen x.last_seen)) [
      | inl e ↦
          let (low, all) = latest_lem x xs in
          let same : latest t (x ∷ xs) ≡ latest x xs = rw (e, latest) in
          subst Above (sym same) (ground arith, (low, all))
      | inr e ↦
          let (low, all) = latest_lem t xs in
          let same : latest t (x ∷ xs) ≡ latest t xs = rw (e, latest) in
          subst Above (sym same) (low, (ground arith, all))
    ]

same_key_iff : (k j : Key) → same_key k j ≡ true → k ≡ j
same_key_iff (b, u) (c, v) h =
    let first : str_eq b c ≡ true = ground arith in
    let second : str_eq u v ≡ true = ground arith in
    λ i. ((str_eq_iff b c).0 first i, (str_eq_iff u v).0 second i)

same_key_comm : (k j : Key) → same_key k j ≡ same_key j k
same_key_comm (b, u) (c, v) = rw (str_eq_comm b c, str_eq_comm u v)

-- A row that shows a token: whose it is, when it was made and was last active.
pub record Shows (row : UserRow) (t : TokenRow) : Type 0 where
  user : user_id_key row.user_id ≡ t.user_id
  username : row.username ≡ t.username
  backend : row.backend ≡ t.backend
  created : row.created ≡ t.created_at
  active : row.last_active ≡ t.last_seen
  session : row.session_id ≡ t.session_id

-- The row of a group shows one of its tokens, and none of them was seen later.
pub record Newest (row : UserRow) (g : Group Key TokenRow) : Type 0 where
  token : TokenRow
  among : Memᴰ token (g.first ∷ g.others)
  last : All (λ (t : TokenRow). t.last_seen ≤ token.last_seen) (g.first ∷ g.others)
  shown : Shows row token

pub record IsListing (r : Router) (now : ℕ) (tokens : List TokenRow) (rows : List UserRow)
    : Type 0 where
  pub groups : List (Group Key TokenRow)
  pub partition : Perm (members groups) tokens
  pub keyed : All (Keyed key_of) groups
  pub keys_differ : KeysDiffer same_key groups
  pub one_row_each : Perm rows (map (row_of_group r now) groups)
  pub newest : All (λ g. Newest (row_of_group r now g) g) groups
  pub ascending : Ascending rows

user_id-key :
    (t : TokenRow) → user_id_key (if is_empty t.user_id then none else some t.user_id) ≡ t.user_id
user_id-key t = elim (List-cases t.user_id) [ inl e ↦ rw e | inr (c, cs, e) ↦ rw e ]

newest_lem :
    (r : Router) (now : ℕ) (gs : List (Group Key TokenRow))
    → All (λ g. Newest (row_of_group r now g) g) gs
unfolding row_from_tokens
newest_lem r now [] = tt
newest_lem r now (g ∷ gs) = (
  record {
    token = latest g.first g.others;
    among = latest-among g.first g.others;
    last = latest_lem g.first g.others;
    shown = record {
      user = user_id-key (latest g.first g.others);
      username = refl;
      backend = refl;
      created = refl;
      active = refl;
      session = refl;
    };
  },
  newest_lem r now gs,
)

-- The listing of the users is sorted, and has one row for each pair of a backend and a user (or a session,
-- where the user is not known) of the live tokens: each token counts for one row, and the row shows the user,
-- the backend, the session, the creation and the last activity of one of its tokens, none of which was seen later.
pub list_users-IsListing :
    (r : Router) (now : ℕ) (tokens : List TokenRow)
    → list_tokens r.st now ≡ ok tokens
    → (rows : List UserRow) × (list_users r now ≡ ok rows) × IsListing r now tokens rows
unfolding list_users
list_users-IsListing r now tokens h =
    let groups = group_from same_key key_of [] tokens in
    let rows = sort_rows (map (row_of_group r now) groups) in
    let (keyed, differ) =
      group_from_lem same_key same_key_iff same_key_comm key_of [] tokens tt tt in
    (
      rows,
      rw (h, list_users),
      record {
        groups = groups;
        partition = group_from-perm same_key key_of [] tokens;
        keyed = keyed;
        keys_differ = differ;
        one_row_each = sort_rows-perm (map (row_of_group r now) groups);
        newest = newest_lem r now groups;
        ascending = sort_rows-Ascending (map (row_of_group r now) groups);
      },
    )
