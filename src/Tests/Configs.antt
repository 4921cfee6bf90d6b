-- ===== src/Tests/Configs.antt =====
-- Examples on the configuration and on the interface that switches backends and lists users.
use hapudding.Base.{◌≡◌, refl, [], ◌∷◌, List, true, false}
use hapudding.Text.{codes, str_eq, to_lower, lower_byte}
use hapudding.Config.{user_affinity_entries, entries_of, entries_among}
use hapudding.Config.Validate.{
  valid, validate, check_affinity, check_performance, first_error, is_in, has_name, check_users,
  has_reserved, check_backends,
}
use hapudding.Config.Valid.{IsSane, validate-IsSane}
use hapudding.Store.Types.{Store, TokenRow, ok, expired}
use hapudding.Store.Reports.{list_tokens, list_backend_flags}
use hapudding.Router.Types.{Flags}
use hapudding.Router.Flags.{new_flags, load, runtime_of, set_runtime}
use hapudding.Status.Switch.{InSync, set_runtime-InSync}
use hapudding.Status.Users.{UserRow, list_users}
use hapudding.Status.Listing.{IsListing, list_users-IsListing}
use hapudding.Tests.Data.{two_backends, no_rows, router_over, row_of}

accepted : validate two_backends ≡ valid two_backends
unfolding validate check_affinity check_performance first_error is_in has_name check_users
    has_reserved check_backends str_eq to_lower lower_byte user_affinity_entries entries_of
    entries_among
accepted = refl

validate-IsSane_example : IsSane two_backends
validate-IsSane_example = validate-IsSane two_backends two_backends accepted

abbrev no_flags : Flags
no_flags = record { yaml = λ _. false; runtime = λ _. false }

in_sync : InSync two_backends no_flags no_rows
unfolding load new_flags runtime_of list_backend_flags
in_sync name = refl

set_runtime-InSync_example :
    InSync two_backends
      (set_runtime no_flags no_rows 5 (codes "alpha") true).1
      (set_runtime no_flags no_rows 5 (codes "alpha") true).2
set_runtime-InSync_example =
    set_runtime-InSync two_backends no_flags no_rows 5 (codes "alpha") true refl refl in_sync

abbrev live_rows : List TokenRow
live_rows =
    row_of (codes "t") (codes "beta") (codes "bob")
    ∷ row_of (codes "u") (codes "alpha") (codes "Ann")
    ∷ row_of (codes "v") (codes "beta") (codes "bob")
    ∷ []

abbrev with_rows : Store
with_rows = record no_rows { tokens = live_rows }

listed : list_tokens with_rows 5 ≡ ok live_rows
unfolding list_tokens expired
listed = refl

list_users-IsListing_example :
    (rows : List UserRow) × (list_users (router_over with_rows) 5 ≡ ok rows)
    × IsListing (router_over with_rows) 5 live_rows rows
list_users-IsListing_example = list_users-IsListing (router_over with_rows) 5 live_rows listed
