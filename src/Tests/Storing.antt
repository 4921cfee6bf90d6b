-- ===== src/Tests/Storing.antt =====
-- Examples on the store.
use hapudding.Base.{◌≡◌, refl, [], ◌∷◌, ◌*◌, ◌^◌, ◌&&◌, true, false, none, some, if◌then◌else◌}
use hapudding.Base.Int.{pos}
use hapudding.Text.{codes, str_eq, trim_space, trim_left, is_space}
use hapudding.Store.Types.{Store, TokenRow, ok, err, unix, expired}
use hapudding.Store.Tokens.{lookup_token, bind_token, hash_token, delete_token, drop_token_row}
use hapudding.Store.Bindings.{delete_client, delete_device, drop_device_row}
use hapudding.Store.Pins.{delete_pins_by_username}
use hapudding.Store.RoundTrip.{token_at, device_at, lookup_token-bind_token, delete_client_lem}
use hapudding.Store.Unpin.{delete_pins_by_username_err}
use hapudding.Tests.Data.{no_rows, row_of, simple_row_of}

done : (bind_token no_rows 0 (codes "t") (codes "alpha") (row_of [] [] [])).0 ≡ ok tt
unfolding bind_token
done = refl

fresh : expired (10 ^ 9) (unix 0) (pos (3600 * 10 ^ 9)) ≡ false
unfolding expired
fresh = refl

lookup_token-bind_token_example :
    (row : TokenRow) × ((lookup_token
        (bind_token no_rows 0 (codes "t") (codes "alpha") (row_of [] [] [])).1
        (10 ^ 9)
        (codes "t")).0
      ≡ ok (some row))
    × (row.backend ≡ codes "alpha")
lookup_token-bind_token_example =
    lookup_token-bind_token no_rows 0 (10 ^ 9) (codes "t") (codes "alpha") (row_of [] [] []) refl
      refl done refl fresh

abbrev some_rows : Store
some_rows = record no_rows {
  tokens =
      row_of (codes "t") (codes "alpha") (codes "ann")
      ∷ row_of (codes "u") (codes "beta") (codes "bob")
      ∷ [];
  devices = simple_row_of (codes "d") (codes "alpha") ∷ [];
}

dropped : (delete_client some_rows (codes "t") (codes "d")).0 ≡ ok tt
unfolding delete_client delete_token delete_device drop_token_row drop_device_row
dropped = refl

delete_client_lem_example :
    let s' = (delete_client some_rows (codes "t") (codes "d")).1 in
    (token_at s' (codes "u") ≡ (
      if true && str_eq (hash_token some_rows (codes "t")) (hash_token some_rows (codes "u"))
      then none
      else token_at some_rows (codes "u")))
    × (device_at s' (codes "d") ≡ (
        if true && str_eq (codes "d") (codes "d") then none else device_at some_rows (codes "d")))
delete_client_lem_example =
    delete_client_lem some_rows (codes "t") (codes "d") (codes "u") (codes "d") dropped

abbrev broken : Store
broken = record some_rows { fails = λ _. true }

refused : (delete_pins_by_username broken (codes "ann") []).0 ≡ err
unfolding delete_pins_by_username trim_space trim_left is_space
refused = refl

delete_pins_by_username_err_example : (delete_pins_by_username broken (codes "ann") []).1 ≡ broken
delete_pins_by_username_err_example = delete_pins_by_username_err broken (codes "ann") [] refused
