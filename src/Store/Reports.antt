-- ===== src/Store/Reports.antt =====
-- ListTokens, CountsByBackend and the backend flags of internal/store/store.go.
use hapudding.Base.{ℕ, List, Bool, ◌||◌, not, ◌==◌, if◌then◌else◌, select, map}
use hapudding.Text.{Bytes, is_empty, str_eq}
use hapudding.Store.Table.{upsert, delete_where, count_where}
use hapudding.Store.Types.{
  Store, TokenRow, SimpleBinding, FlagRow, Counts, Result, ok, err, lists, groups, inserts, deletes,
  pings, token_bindings, device_bindings, anon_bindings, backend_flags, unix, expired,
}

unfoldable pub list_tokens : Store → ℕ → Result (List TokenRow)
list_tokens s now =
    if s.fails (lists token_bindings)
    then err
    else ok (select (λ (r : TokenRow). not (expired now r.last_seen s.token_ttl)) s.tokens)

-- The map that `CountsByBackend` fills; a name with no row has the zero counts, as in Go.
unfoldable counts_of : Store → Bytes → Counts
counts_of s name = record {
  tokens = count_where (λ (r : TokenRow). str_eq r.backend name) s.tokens;
  devices = count_where (λ (r : SimpleBinding). str_eq r.backend name) s.devices;
  anons = count_where (λ (r : SimpleBinding). str_eq r.backend name) s.anons;
}

unfoldable pub counts_by_backend : Store → Result (Bytes → Counts)
unfolding counts_of
counts_by_backend s =
    if s.fails (groups token_bindings)
      || (s.fails (groups device_bindings) || s.fails (groups anon_bindings))
    then err
    else ok (counts_of s)

unfoldable pub list_backend_flags : Store → Result (List (Bytes × Bool))
list_backend_flags s =
    if s.fails (lists backend_flags)
    then err
    else ok (map (λ (r : FlagRow). (r.name, not (r.disabled == 0))) s.flags)

unfoldable pub set_backend_disabled : Store → ℕ → Bytes → Bool → Result (Unit {0}) × Store
set_backend_disabled s now name disabled =
    if is_empty name
    then (ok tt, s)
    else if s.fails (inserts backend_flags name)
    then (err, s)
    else let flag : ℕ = if disabled then 1 else 0 in
      let new : FlagRow = record { name = name; disabled = flag; updated_at = unix now } in
      (
        ok tt,
        record s {
          flags =
              upsert (λ (r : FlagRow). r.name) name new
                (λ r. record r { disabled = flag; updated_at = unix now }) s.flags;
        },
      )

unfoldable pub clear_backend_flag : Store → Bytes → Result (Unit {0}) × Store
clear_backend_flag s name =
    if is_empty name
    then (ok tt, s)
    else if s.fails (deletes backend_flags name)
    then (err, s)
    else (ok tt, record s { flags = delete_where (λ (r : FlagRow). str_eq r.name name) s.flags })

unfoldable pub ping : Store → Result (Unit {0})
ping s = if s.fails pings then err else ok tt
