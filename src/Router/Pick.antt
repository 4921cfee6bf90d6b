-- ===== src/Router/Pick.antt =====
-- The placement of a new client in internal/router/router.go: the eligible backends, the hash of
-- the device and the least-loaded backend.
use Prim.Native.Nat.{bit_xor}
use hapudding.Base.{
  ℕ, ◌+◌, ◌*◌, ◌%◌, ◌^◌, List, [], ◌∷◌, ◌++◌, Bool, true, false, ◌&&◌, ◌||◌, Option, none, some,
  ltb, ◌==◌, if◌then◌else◌, length, map, select,
}
use hapudding.Text.{Bytes, codes, is_empty, str_eq, str_lt}
use hapudding.Config.{Backend}
use hapudding.Health.Monitor.{State, unknown, healthy, degraded, unhealthy, state_of}
use hapudding.Store.Types.{Counts, Result, ok, err}
use hapudding.Store.Reports.{counts_by_backend}
use hapudding.Router.Types.{Identifiers, Decision, no_decision, no_eligible_backend, Router, by}
use hapudding.Router.Flags.{is_disabled}

-- sort.Strings
unfoldable pub insert : Bytes → List Bytes → List Bytes
insert x [] = x ∷ []
insert x (y ∷ ys) = if str_lt y x then y ∷ insert x ys else x ∷ (y ∷ ys)

unfoldable pub sort_strings : List Bytes → List Bytes
unfolding insert
sort_strings [] = []
sort_strings (x ∷ xs) = insert x (sort_strings xs)

abbrev pub names_of : List Backend → List Bytes
names_of = map (λ b. b.name)

-- Names
unfoldable pub names : Router → List Bytes
unfolding sort_strings
names r = sort_strings (names_of r.cfg.backends)

abbrev fnv_offset : ℕ
fnv_offset = 2166136261

abbrev fnv_prime : ℕ
fnv_prime = 16777619

-- The 32-bit FNV-1a hash of package hash/fnv.
fnv_from : ℕ → Bytes → ℕ
fnv_from h [] = h
fnv_from h (c ∷ s) = fnv_from ((bit_xor h c * fnv_prime) % 2 ^ 32) s

unfoldable pub fnv32a : Bytes → ℕ
unfolding fnv_from
fnv32a s = fnv_from fnv_offset s

unfoldable pub nth : List Bytes → ℕ → Bytes
nth [] i = []
nth (x ∷ xs) ℕ.zero = x
nth (x ∷ xs) (ℕ.suc i) = nth xs i

-- `names[int(h.Sum32())%len(names)]`, on a machine whose int has 64 bits
unfoldable pub hash_name : Bytes → Bytes → List Bytes → Bytes
unfolding sort_strings fnv32a nth
hash_name device_id anon_key names =
    if length names == 0
    then []
    else let key = if is_empty device_id then anon_key else device_id in
      nth (sort_strings names) (fnv32a key % length (sort_strings names))

-- The test of the loop in `eligible`, of a state and the setting `new_clients_require`.
unfoldable pub takes_new : State → Bytes → Bool
takes_new healthy require = true
takes_new unknown require = true
takes_new degraded require = str_eq require (codes "healthy_or_degraded")
takes_new unhealthy require = false

unfoldable pub is_eligible : Router → Backend → Bool
unfolding takes_new
is_eligible r b =
    if is_disabled r.flags b.name
    then false
    else takes_new (state_of r.mon b.name) r.cfg.affinity.new_clients_require

unfoldable pub eligible : Router → List Backend
eligible r = select (is_eligible r) r.cfg.backends

abbrev pub load_of : (Bytes → Counts) → Bytes → ℕ
load_of counts name = (counts name).tokens + (counts name).devices

-- The loop over the eligible backends behind the first.
unfoldable pub least_loaded : (Bytes → Counts) → Backend → ℕ → List Backend → Backend
least_loaded counts best best_n [] = best
least_loaded counts best best_n (b ∷ bs) =
    let n = load_of counts b.name in
    let better = ltb n best_n || (n == best_n && str_lt b.name best.name) in
    least_loaded counts (if better then b else best) (if better then n else best_n) bs

unfoldable pub find_named : Bytes → List Backend → Option Backend
find_named hint [] = none
find_named hint (b ∷ bs) = if str_eq b.name hint then some b else find_named hint bs

-- The counts that `counts, _ := ...` keeps: a nil map has the zero counts.
unfoldable pub counts_or_zero : Result (Bytes → Counts) → Bytes → Counts
counts_or_zero err name = record { tokens = 0; devices = 0; anons = 0 }
counts_or_zero (ok counts) name = counts name

unfoldable pub least_loaded_of : (Bytes → Counts) → Backend → List Backend → Backend
unfolding least_loaded
least_loaded_of counts first rest = least_loaded counts first (load_of counts first.name) rest

-- `pickEligible` behind the cookie: by the device, else the least loaded.
unfoldable pub pick_among : Router → Bytes → Backend → List Backend → Option Backend
pick_among r device_id first rest =
    if is_empty device_id
    then some (least_loaded_of (counts_or_zero (counts_by_backend r.st)) first rest)
    else by r (hash_name device_id [] (names_of (first ∷ rest)))

unfoldable pub pick_eligible_from : Router → Identifiers → Bytes → List Backend → Decision
pick_eligible_from r id hint [] = record no_decision {
  hap_error = no_eligible_backend;
  hap_status = 503;
}
pick_eligible_from r id hint (first ∷ rest) =
    let hinted : Option Backend = if is_empty hint then none else find_named hint (first ∷ rest) in
    elim hinted [
      | some b ↦ record no_decision { backend = some b }
      | none ↦ record no_decision { backend = pick_among r id.device_id first rest }
    ]

unfoldable pub pick_eligible : Router → Identifiers → Bytes → Decision
pick_eligible r id hint = pick_eligible_from r id hint (eligible r)

-- `LoginCandidates`
unfoldable put_first : Bytes → List Backend → Option Backend → List Backend → List Backend
put_first preferred [] none rest = rest
put_first preferred [] (some b) rest = b ∷ rest
put_first preferred (b ∷ bs) first rest =
    let is_it = str_eq b.name preferred in
    put_first preferred bs (if is_it then some b else first)
      (if is_it then rest else rest ++ b ∷ [])

unfoldable login_candidates : Router → Bytes → List Backend
login_candidates r preferred = put_first preferred (eligible r) none []
