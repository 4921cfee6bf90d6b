-- ===== src/Router/Placement.antt =====
-- Where internal/router/router.go places a client that has no binding: on an eligible backend.
use hapudding.Base.{
  ℕ, zero, suc, ◌<◌, ◌%◌, ◌≡◌, refl, subst, ◌∙◌, List, [], ◌∷◌, Bool, true, false, Option, none,
  some, ltb, ◌==◌, if◌then◌else◌, arith, Bool-cases, Option-cases, inl, inr, ◌||◌, ◌&&◌, ◌⊎◌, All,
  All-map, length, select, List-cases,
}
use hapudding.Text.{Bytes, str_eq, str_lt, is_empty}
use hapudding.Text.Equality.{str_eq_iff, str_eq_refl}
use hapudding.Config.{Backend}
use hapudding.Store.Types.{Counts}
use hapudding.Store.Reports.{counts_by_backend}
use hapudding.Router.Types.{
  Identifiers, Decision, no_error, no_eligible_backend, Router, backend_in, by,
}
use hapudding.Router.Pick.{
  insert, sort_strings, names_of, hash_name, nth, fnv32a, is_eligible, eligible, load_of,
  least_loaded, least_loaded_of, find_named, counts_or_zero, pick_among, pick_eligible_from,
  pick_eligible,
}

module _ {A : Type 0} (P : A → Type 0) (p : A → Bool) where
  All-select : (xs : List A) → All P xs → All (λ a. P a × (p a ≡ true)) (select p xs)
  All-select [] h = tt
  All-select (x ∷ xs) h = elim (Bool-cases (p x)) [
    | inl e ↦ rw e ((h.0, e), All-select xs h.1)
    | inr e ↦ rw e (All-select xs h.1)
  ]

module _ (P : Bytes → Type 0) where
  insert-All : (x : Bytes) (ys : List Bytes) → P x → All P ys → All P (insert x ys)
  unfolding insert
  insert-All x [] h k = (h, tt)
  insert-All x (y ∷ ys) h k = elim (Bool-cases (str_lt y x)) [
    | inl e ↦ rw e (k.0, insert-All x ys h k.1)
    | inr e ↦ rw e (h, k)
  ]

  sort_strings-All : (xs : List Bytes) → All P xs → All P (sort_strings xs)
  unfolding sort_strings
  sort_strings-All [] h = tt
  sort_strings-All (x ∷ xs) h = insert-All x (sort_strings xs) h.0 (sort_strings-All xs h.1)

  nth-All : (xs : List Bytes) (i : ℕ) → i < length xs → All P xs → P (nth xs i)
  unfolding nth
  nth-All [] i lt h = absurd (omega arith)
  nth-All (x ∷ xs) zero lt h = h.0
  nth-All (x ∷ xs) (suc i) lt h = nth-All xs i (omega arith) h.1

length-insert : (x : Bytes) (ys : List Bytes) → length (insert x ys) ≡ suc (length ys)
unfolding insert
length-insert x [] = refl
length-insert x (y ∷ ys) = ground (arith, length-insert x ys)

length-sort_strings : (xs : List Bytes) → length (sort_strings xs) ≡ length xs
unfolding sort_strings
length-sort_strings [] = refl
length-sort_strings (x ∷ xs) =
    omega (arith, length-insert x (sort_strings xs), length-sort_strings xs)

suc_ne_zero : (n : ℕ) → (suc n == 0) ≡ false
suc_ne_zero n = ground arith

-- The hash picks one of the names.
hash_name-All :
    (P : Bytes → Type 0) (device_id anon_key n : Bytes) (ns : List Bytes)
    → All P (n ∷ ns)
    → P (hash_name device_id anon_key (n ∷ ns))
unfolding hash_name
hash_name-All P device_id anon_key n ns h =
    let sorted = sort_strings (n ∷ ns) in
    let i = fnv32a (if is_empty device_id then anon_key else device_id) % length sorted in
    let few : i < length sorted = omega (arith, length-sort_strings (n ∷ ns)) in
    rw (suc_ne_zero (length ns)) (nth-All P sorted i few (sort_strings-All P (n ∷ ns) h))

pub backend_in-name :
    (bs : List Backend) (name : Bytes) (b : Backend) → backend_in bs name ≡ some b → b.name ≡ name
unfolding backend_in
backend_in-name [] name b h = cc
backend_in-name (c ∷ bs) name b h =
    ground (arith, backend_in-name bs name b, str_eq_iff c.name name)

-- The map `by` knows the name of every backend.
abbrev Known : List Backend → Backend → Type 0
Known bs b = (c : Backend) × (backend_in bs b.name ≡ some c)

Known-cons : (b c : Backend) (bs : List Backend) → Known bs c → Known (b ∷ bs) c
unfolding backend_in
Known-cons b c bs (d, h) = (d, rw h)

Known-All : (bs : List Backend) → All (Known bs) bs
unfolding backend_in
Known-All [] = tt
Known-All (b ∷ bs) =
    (here, All-map (Known bs) (Known (b ∷ bs)) (λ c. Known-cons b c bs) bs (Known-All bs))
  where
    here : Known (b ∷ bs) b
    here = elim (Option-cases (backend_in bs b.name)) [
      | inl e ↦ (b, rw e (rw str_eq_refl))
      | inr (c, e) ↦ (c, rw e)
    ]

module _ (r : Router) where
  is_eligible-name : (b c : Backend) → b.name ≡ c.name → is_eligible r b ≡ is_eligible r c
  unfolding is_eligible
  is_eligible-name b c e = rw e

  -- A name at which `by` gives an eligible backend.
  abbrev EligibleName : Bytes → Type 0
  EligibleName name = (b : Backend) × (by r name ≡ some b) × (is_eligible r b ≡ true)

  eligible_names : All (λ b. EligibleName b.name × (is_eligible r b ≡ true)) (eligible r)
  unfolding eligible by
  eligible_names =
      All-map _ _ lift (eligible r) (
        All-select (Known r.cfg.backends) (is_eligible r) r.cfg.backends (Known-All r.cfg.backends))
    where
      lift :
          (b : Backend)
          → Known r.cfg.backends b × (is_eligible r b ≡ true)
          → EligibleName b.name × (is_eligible r b ≡ true)
      lift b ((c, found), e) =
          ((c, found, is_eligible-name c b (backend_in-name r.cfg.backends b.name c found) ∙ e), e)

names_of-All :
    (P : Bytes → Type 0) (bs : List Backend) → All (λ b. P b.name) bs → All P (names_of bs)
names_of-All P [] h = tt
names_of-All P (b ∷ bs) h = (h.0, names_of-All P bs h.1)

module _ (P : Backend → Type 0) where
  least_loaded-All :
      (counts : Bytes → Counts) (best : Backend) (n : ℕ) (bs : List Backend)
      → P best
      → All P bs
      → P (least_loaded counts best n bs)
  unfolding least_loaded
  least_loaded-All counts best n [] h k = h
  least_loaded-All counts best n (b ∷ bs) h k =
      elim (Bool-cases (
        ltb (load_of counts b.name) n || (load_of counts b.name == n && str_lt b.name best.name))) [
          | inl e ↦ rw e (least_loaded-All counts b (load_of counts b.name) bs k.0 k.1)
          | inr e ↦ rw e (least_loaded-All counts best n bs h k.1)
        ]

  find_named-All :
      (hint : Bytes) (bs : List Backend) (b : Backend)
      → All P bs
      → find_named hint bs ≡ some b
      → P b
  unfolding find_named
  find_named-All hint [] b h e = absurd (ground arith)
  find_named-All hint (c ∷ bs) b h e = elim (Bool-cases (str_eq c.name hint)) [
    | inl f ↦ let same : c ≡ b = ground arith in subst P same h.0
    | inr f ↦ find_named-All hint bs b h.1 (ground arith)
  ]

-- A new client goes to an eligible backend; only if there is none is it refused, by a 503.
pub record Placed (r : Router) (d : Decision) : Type 0 where
  pub target : Backend
  pub sent_to : d.backend ≡ some target
  pub target_eligible : is_eligible r target ≡ true
  pub no_hap_error : d.hap_error ≡ no_error

module _ (r : Router) where
  pick_among_lem :
      (device_id : Bytes) (first : Backend) (rest : List Backend)
      → All (λ b. EligibleName r b.name × (is_eligible r b ≡ true)) (first ∷ rest)
      → (b : Backend) × (pick_among r device_id first rest ≡ some b) × (is_eligible r b ≡ true)
  unfolding pick_among least_loaded_of
  pick_among_lem device_id first rest h = elim (Bool-cases (is_empty device_id)) [
    | inl e ↦
        let counts = counts_or_zero (counts_by_backend r.st) in
        (
          least_loaded counts first (load_of counts first.name) rest,
          rw e,
          least_loaded-All (λ b. is_eligible r b ≡ true) counts first (load_of counts first.name)
              rest h.0.1 (All-map _ (λ b. is_eligible r b ≡ true) (λ b k. k.1) rest h.1),
        )
    | inr e ↦
        let all_names =
          names_of-All (EligibleName r) (first ∷ rest)
            (All-map _ (λ b. EligibleName r b.name) (λ b k. k.0) (first ∷ rest) h) in
        let (b, found, good) =
          hash_name-All (EligibleName r) device_id [] first.name (names_of rest) all_names in
        (b, rw e found, good)
  ]

  pick_from_lem :
      (id : Identifiers) (hint : Bytes) (first : Backend) (rest : List Backend)
      → All (λ b. EligibleName r b.name × (is_eligible r b ≡ true)) (first ∷ rest)
      → Placed r (pick_eligible_from r id hint (first ∷ rest))
  unfolding pick_eligible_from
  pick_from_lem id hint first rest h =
      let hinted : Option Backend =
        if is_empty hint then none else find_named hint (first ∷ rest) in
      elim (Option-cases hinted) [
        | inl e ↦
            let (b, sent, good) = pick_among_lem id.device_id first rest h in
            rw (e, pick_eligible_from)
              (record { target = b; sent_to = sent; target_eligible = good; no_hap_error = refl })
        | inr (b, e) ↦
            let named : find_named hint (first ∷ rest) ≡ some b = ground arith in
            rw (e, pick_eligible_from)
              (record {
                target = b;
                sent_to = refl;
                target_eligible = (find_named-All _ hint (first ∷ rest) b h named).1;
                no_hap_error = refl;
              })
      ]

  -- `pickEligible` sends a client to an eligible backend, or refuses it as there is none.
  pub pick_eligible_lem :
      (id : Identifiers) (hint : Bytes)
      → ((eligible r ≡ []) × ((pick_eligible r id hint).hap_error ≡ no_eligible_backend))
        ⊎ Placed r (pick_eligible r id hint)
  unfolding pick_eligible pick_eligible_from
  pick_eligible_lem id hint = elim (List-cases (eligible r)) [
    | inl e ↦ inl (e, rw (e, pick_eligible_from))
    | inr (first, rest, e) ↦
        inr (rw e (pick_from_lem id hint first rest (subst (All _) e (eligible_names r))))
  ]
