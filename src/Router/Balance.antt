-- ===== src/Router/Balance.antt =====
-- How internal/router/router.go spreads new clients: the least loaded backend.
use mathlib.Core.List.{Memᴰ}
use hapudding.Base.{
  ◌+◌, ℕ, ◌≤◌, ◌≡◌, refl, sym, subst, List, [], ◌∷◌, ◌&&◌, ◌||◌, ltb, ◌==◌, arith, Bool-cases, inl,
  inr, All,
}
use hapudding.Text.{Bytes, str_lt}
use hapudding.Config.{Backend}
use hapudding.Store.Types.{Counts}
use hapudding.Router.Pick.{load_of, least_loaded, least_loaded_of}

module _ (counts : Bytes → Counts) where
  minimal_from :
      (best : Backend) (n : ℕ) (bs : List Backend)
      → load_of counts best.name ≡ n
      → let r = load_of counts (least_loaded counts best n bs).name in
        (r ≤ n) × All (λ b. r ≤ load_of counts b.name) bs
  unfolding least_loaded
  minimal_from best n [] h = (omega (arith, h), tt)
  minimal_from best n (b ∷ bs) h =
      let k = load_of counts b.name in
      let claim : Backend → Type 0 = λ r.
        (load_of counts r.name ≤ n)
        × All (λ c. load_of counts r.name ≤ load_of counts c.name) (b ∷ bs) in
      elim (Bool-cases (ltb k n || (k == n && str_lt b.name best.name))) [
        | inl e ↦
            let (low, all) = minimal_from b k bs refl in
            let same : least_loaded counts best n (b ∷ bs) ≡ least_loaded counts b k bs = rw e in
            subst claim (sym same) (ground arith, (low, all))
        | inr e ↦
            let (low, all) = minimal_from best n bs h in
            let same : least_loaded counts best n (b ∷ bs) ≡ least_loaded counts best n bs = rw e in
            subst claim (sym same) (low, (ground arith, all))
      ]

  chosen_from :
      (best : Backend) (n : ℕ) (bs : List Backend)
      → Memᴰ (least_loaded counts best n bs) (best ∷ bs)
  unfolding least_loaded
  chosen_from best n [] = Memᴰ.head refl
  chosen_from best n (b ∷ bs) =
      elim (Bool-cases (
        ltb (load_of counts b.name) n || (load_of counts b.name == n && str_lt b.name best.name))) [
          | inl e ↦ rw (e, least_loaded) (Memᴰ.tail (chosen_from b (load_of counts b.name) bs))
          | inr e ↦ rw (e, least_loaded) (weaken (chosen_from best n bs))
        ]
    where
      weaken : {x : Backend} → Memᴰ x (best ∷ bs) → Memᴰ x (best ∷ b ∷ bs)
      weaken (Memᴰ.head e) = Memᴰ.head e
      weaken (Memᴰ.tail m) = Memᴰ.tail (Memᴰ.tail m)

  -- The choice by load gives one of the candidates, and no candidate has fewer bindings of tokens and devices
  -- together than it has. Anonymous bindings do not count.
  pub least_loaded_of-minimal :
      (first : Backend) (rest : List Backend)
      → let r = least_loaded_of counts first rest in
        Memᴰ r (first ∷ rest)
        × All
            (λ b.
              (counts r.name).tokens + (counts r.name).devices
              ≤ (counts b.name).tokens + (counts b.name).devices)
            (first ∷ rest)
  unfolding least_loaded_of
  least_loaded_of-minimal first rest = (
    chosen_from first (load_of counts first.name) rest,
    minimal_from first (load_of counts first.name) rest refl,
  )
