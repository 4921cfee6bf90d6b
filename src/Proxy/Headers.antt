-- ===== src/Proxy/Headers.antt =====
-- http.Header as the list of its lines: the keys are compared without case, as their canonical forms are.
use hapudding.Base.{
  ℕ, zero, suc, ◌+◌, ◌/◌, ◌%◌, List, [], ◌∷◌, ◌++◌, Bool, not, if◌then◌else◌, ltb, select,
}
use hapudding.Text.{Bytes, equal_fold}

abbrev pub Headers : Type 0
Headers = List (Bytes × Bytes)

unfoldable pub values : Headers → Bytes → List Bytes
values [] key = []
values (f ∷ fs) key = if equal_fold f.0 key then f.1 ∷ values fs key else values fs key

-- Get: the first value, or the empty string
unfoldable pub get : Headers → Bytes → Bytes
get [] key = []
get (f ∷ fs) key = if equal_fold f.0 key then f.1 else get fs key

abbrev is_other : Bytes → Bytes × Bytes → Bool
is_other key f = not (equal_fold f.0 key)

unfoldable pub del : Headers → Bytes → Headers
del h key = select (is_other key) h

unfoldable pub add : Headers → Bytes → Bytes → Headers
add h key v = h ++ (key, v) ∷ []

unfoldable pub set : Headers → Bytes → Bytes → Headers
unfolding del
set h key v = del h key ++ (key, v) ∷ []

-- for _, v := range vals { h.Add(key, f(v)) }
unfoldable pub add_each : Headers → Bytes → List Bytes → Headers
unfolding add
add_each h key [] = h
add_each h key (v ∷ vs) = add_each (add h key v) key vs

-- for k, v := range m { h.Set(k, v) }
unfoldable pub set_each : Headers → List (Bytes × Bytes) → Headers
unfolding set
set_each h [] = h
set_each h (f ∷ fs) = set_each (set h f.0 f.1) fs

unfoldable pub del_each : Headers → List Bytes → Headers
unfolding del
del_each h [] = h
del_each h (k ∷ ks) = del_each (del h k) ks

-- The digits of a number, in front of `acc`; each round takes one off, so that n + 1 rounds are enough.
digits : ℕ → ℕ → Bytes → Bytes
digits zero n acc = acc
digits (suc fuel) n acc =
    let d = b'0' + n % 10 in
    let rest = digits fuel (n / 10) (d ∷ acc) in if ltb n 10 then d ∷ acc else rest

-- strconv.Itoa
unfoldable pub itoa : ℕ → Bytes
unfolding digits
itoa n = digits (suc n) n []
