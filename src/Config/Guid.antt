-- ===== src/Config/Guid.antt =====
-- `isGUID` of internal/config/config.go, which internal/proxy/proxy.go repeats.
use hapudding.Base.{ℕ, suc, [], ◌∷◌, Bool, true, ◌&&◌, ◌||◌, leb, ◌==◌, if◌then◌else◌, length}
use hapudding.Text.{Bytes}

-- A byte at a place of a GUID: a dash at 8, 13, 18 and 23, else a hexadecimal digit.
unfoldable fits_guid : ℕ → ℕ → Bool
fits_guid i c =
    if (i == 8) || ((i == 13) || ((i == 18) || (i == 23)))
    then c == b'-'
    else (leb b'0' c && leb c b'9') || ((leb b'A' c && leb c b'F') || (leb b'a' c && leb c b'f'))

guid_from : ℕ → Bytes → Bool
unfolding fits_guid
guid_from i [] = true
guid_from i (c ∷ s) = fits_guid i c && guid_from (suc i) s

unfoldable pub is_guid : Bytes → Bool
unfolding guid_from
is_guid s = (length s == 36) && guid_from 0 s
