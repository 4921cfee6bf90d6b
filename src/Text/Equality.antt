-- ===== src/Text/Equality.antt =====
-- `==` on strings decides equality.
use hapudding.Base.{◌≡◌, refl, ◌↔◌, ◌≢◌, [], ◌∷◌, true, false, arith, subst}
use hapudding.Text.Defs.{Bytes, str_eq}

pub str_eq_refl : (s : Bytes) → str_eq s s ≡ true
unfolding str_eq
str_eq_refl [] = refl
str_eq_refl (c ∷ s) = ground (arith, str_eq_refl s)

eq_of_str_eq : (s t : Bytes) → str_eq s t ≡ true → s ≡ t
unfolding str_eq
eq_of_str_eq [] [] h = refl
eq_of_str_eq [] (d ∷ t) h = cc
eq_of_str_eq (c ∷ s) [] h = cc
eq_of_str_eq (c ∷ s) (d ∷ t) h = ground (arith, eq_of_str_eq s t)

-- The test holds exactly of equal strings.
pub str_eq_iff : (s t : Bytes) → (str_eq s t ≡ true) ↔ (s ≡ t)
str_eq_iff s t = (eq_of_str_eq s t, λ e. subst (λ u. str_eq s u ≡ true) e (str_eq_refl s))

str_eq_ne : (s t : Bytes) → s ≢ t → str_eq s t ≡ false
str_eq_ne s t h = ground (arith, str_eq_iff s t)

pub str_eq_comm : (s t : Bytes) → str_eq s t ≡ str_eq t s
str_eq_comm s t = ground (arith, str_eq_iff s t, str_eq_iff t s)
