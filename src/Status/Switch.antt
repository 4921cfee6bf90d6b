-- ===== src/Status/Switch.antt =====
-- What POST /hap/backends/{name}/disable and .../enable of internal/status/status.go bring about: for the
-- decisions of the router at once, and for the flags that a restart reads.
use hapudding.Base.{
  ℕ, ◌≡◌, ◌≢◌, refl, sym, ap, ◌∙◌, subst, List, [], ◌∷◌, Bool, true, false, not, ◌&&◌, ◌||◌, ◌==◌,
  none, some, if◌then◌else◌, arith, Bool-cases, inl, inr, ◌⊎◌, map,
}
use hapudding.Text.{Bytes, is_empty, str_eq}
use hapudding.Text.Equality.{str_eq_iff}
use hapudding.Config.{Config, Backend}
use hapudding.Store.Types.{
  Store, FlagRow, Result, ok, err, lists, inserts, deletes, backend_flags, unix, Stmt,
}
use hapudding.Store.Table.{upsert, delete_where}
use hapudding.Store.Reports.{list_backend_flags, clear_backend_flag}
use hapudding.Store.Reports
use hapudding.Router.Types.{Flags, Router, Request, Identifiers, no_error, by}
use hapudding.Router.Flags.{new_flags, runtime_of, load, is_disabled, set_runtime}
use hapudding.Router.Decide.{decide}
use hapudding.Status.Backends.{Reply, Body, set_backend_disabled}

-- A row of the table switches the backend off.
abbrev is_flagged : Bytes → List FlagRow → Bool
is_flagged name [] = false
is_flagged name (r ∷ rs) = (str_eq r.name name && not (r.disabled == 0)) || is_flagged name rs

runtime_of_lem :
    (rows : List FlagRow) (m : Bytes → Bool) (name : Bytes)
    → runtime_of (map (λ (r : FlagRow). (r.name, not (r.disabled == 0))) rows) m name
      ≡ (is_flagged name rows || m name)
unfolding runtime_of
runtime_of_lem [] m name = refl
runtime_of_lem (r ∷ rs) m name = elim (Bool-cases (r.disabled == 0)) [
  | inl e ↦ rw e (runtime_of_lem rs m name ∙ ground arith)
  | inr e ↦
      rw e (runtime_of_lem rs (λ n. if str_eq r.name n then true else m n) name ∙ ground arith)
]

is_flagged-upsert :
    (name other : Bytes) (now : ℕ) (rs : List FlagRow)
    → let new : FlagRow = record { name = name; disabled = 1; updated_at = now } in
      is_flagged other (
        upsert
          (λ (r : FlagRow). r.name)
          name
          new
          (λ r. record r { disabled = 1; updated_at = now })
          rs)
      ≡ (str_eq name other || is_flagged other rs)
unfolding upsert
is_flagged-upsert name other now [] = ground arith
is_flagged-upsert name other now (r ∷ rs) = ground (
  arith,
  is_flagged-upsert name other now rs,
  str_eq_iff r.name name,
  str_eq_iff r.name other,
  str_eq_iff name other,
)

is_flagged-delete_where :
    (name other : Bytes) (rs : List FlagRow)
    → is_flagged other (delete_where (λ (r : FlagRow). str_eq r.name name) rs)
      ≡ (if str_eq name other then false else is_flagged other rs)
unfolding delete_where
is_flagged-delete_where name other [] = ground arith
is_flagged-delete_where name other (r ∷ rs) = ground (
  arith,
  is_flagged-delete_where name other rs,
  str_eq_iff r.name name,
  str_eq_iff r.name other,
  str_eq_iff name other,
)

-- What a start of the program reads from the store is what the flags hold.
abbrev pub InSync : Config → Flags → Store → Type 0
InSync cfg f st = (name : Bytes) → (load (new_flags cfg) st).runtime name ≡ f.runtime name

-- The store answers the listing of the flags.
abbrev pub Lists : Store → Type 0
Lists st = st.fails (lists backend_flags) ≡ false

load_lem :
    (cfg : Config) (st : Store) (name : Bytes)
    → Lists st
    → (load (new_flags cfg) st).runtime name ≡ is_flagged name st.flags
unfolding load new_flags list_backend_flags
load_lem cfg st name h = rw (h, load) (runtime_of_lem st.flags (λ _. false) name ∙ ground arith)

-- The store after a switch that it takes.
abbrev switched : Store → ℕ → Bytes → Bool → Store
switched st now name true = record st {
  flags =
      upsert (λ (r : FlagRow). r.name) name
        (record { name = name; disabled = 1; updated_at = unix now })
        (λ r. record r { disabled = 1; updated_at = unix now }) st.flags;
}
switched st now name false = record st {
  flags = delete_where (λ (r : FlagRow). str_eq r.name name) st.flags;
}

abbrev flagged : Flags → Bytes → Bool → Flags
flagged f name disabled = record f {
  runtime = λ j. if str_eq name j then disabled else f.runtime j;
}

-- The statement that a switch sends.
abbrev statement : Bytes → Bool → Stmt
statement name true = inserts backend_flags name
statement name false = deletes backend_flags name

-- The two parts of what the store returns.
module _ {a b : Result (Unit {0}) × Store} where
  answer_of : a ≡ b → a.0 ≡ b.0
  answer_of e = ap (λ (c : Result (Unit {0}) × Store). c.0) e

  rest_of : a ≡ b → a.1 ≡ b.1
  rest_of e = ap (λ (c : Result (Unit {0}) × Store). c.1) e

set_runtime_lem :
    (f : Flags) (st : Store) (now : ℕ) (name : Bytes) (disabled : Bool)
    → is_empty name ≡ false
    → ((set_runtime f st now name disabled ≡ (err, f, st))
        × (st.fails (statement name disabled) ≡ true))
      ⊎ (set_runtime f st now name disabled
          ≡ (ok tt, flagged f name disabled, switched st now name disabled))
unfolding set_runtime Reports.set_backend_disabled clear_backend_flag
set_runtime_lem f st now name true filled =
    elim (Bool-cases (st.fails (inserts backend_flags name))) [
      | inl e ↦
          let kept : Reports.set_backend_disabled st now name true ≡ (err, st) =
            rw (filled, e, Reports.set_backend_disabled) in
          inl (rw (answer_of kept, rest_of kept, set_runtime), e)
      | inr e ↦
          let done : Reports.set_backend_disabled st now name true
              ≡ (ok tt, switched st now name true) =
            rw (filled, e, Reports.set_backend_disabled) in
          inr (rw (answer_of done, rest_of done, set_runtime))
    ]
set_runtime_lem f st now name false filled =
    elim (Bool-cases (st.fails (deletes backend_flags name))) [
      | inl e ↦
          let kept : clear_backend_flag st name ≡ (err, st) = rw (filled, e, clear_backend_flag) in
          inl (rw (answer_of kept, rest_of kept, set_runtime), e)
      | inr e ↦
          let done : clear_backend_flag st name ≡ (ok tt, switched st now name false) =
            rw (filled, e, clear_backend_flag) in
          inr (rw (answer_of done, rest_of done, set_runtime))
    ]

switched-InSync :
    (cfg : Config) (f : Flags) (st : Store) (now : ℕ) (name : Bytes) (disabled : Bool)
    → Lists st
    → InSync cfg f st
    → InSync cfg (flagged f name disabled) (switched st now name disabled)
switched-InSync cfg f st now name true answers h other =
    load_lem cfg (switched st now name true) other answers
    ∙ is_flagged-upsert name other (unix now) st.flags
    ∙ ground (arith, h other, load_lem cfg st other answers)
switched-InSync cfg f st now name false answers h other =
    load_lem cfg (switched st now name false) other answers
    ∙ is_flagged-delete_where name other st.flags
    ∙ ground (arith, h other, load_lem cfg st other answers)

-- The flags and the store stay in step: after a switch, done or failed, a restart reads what the
-- program holds, if the store answers the listing and the name is not empty.
pub set_runtime-InSync :
    (cfg : Config) (f : Flags) (st : Store) (now : ℕ) (name : Bytes) (disabled : Bool)
    → is_empty name ≡ false
    → Lists st
    → InSync cfg f st
    → let after = set_runtime f st now name disabled in InSync cfg after.1 after.2
set_runtime-InSync cfg f st now name disabled filled answers h =
    let Good : Result (Unit {0}) × Flags × Store → Type 0 = λ after. InSync cfg after.1 after.2 in
    elim (set_runtime_lem f st now name disabled filled) [
      | inl (e, _) ↦ subst Good (sym e) h
      | inr e ↦ subst Good (sym e) (switched-InSync cfg f st now name disabled answers h)
    ]

-- What a request to disable a backend has brought about when it is answered.
pub data Disabled (r : Router) (now : ℕ) (name : Bytes) : Reply × Router → Type 0 where
  missing :
      (body : Body)
      → by r name ≡ none
      → Disabled r now name (record { status = 404; body = body }, r)
  refused :
      (body : Body)
      → r.st.fails (inserts backend_flags name) ≡ true
      → Disabled r now name (record { status = 500; body = body }, r)
  done :
      (body : Body) (after : Router)
      → after.cfg ≡ r.cfg
      → after.mon ≡ r.mon
      → is_disabled after.flags name ≡ true
      → ((later : ℕ) (req : Request) (id : Identifiers) (b : Backend)
          → (decide after later req id).0.hap_error ≡ no_error
          → (decide after later req id).0.backend ≡ some b
          → b.name ≢ name)
      → Disabled r now name (record { status = 200; body = body }, after)
