-- ===== src/Lru/Refinement.antt =====
-- The steps on the list and the index, seen as steps on the items alone.
use hapudding.Base.{
  ℕ, zero, suc, ◌+◌, ◌-◌, ◌≤◌, ◌≡◌, refl, sym, ap, ◌∙◌, List, [], ◌∷◌, true, false, none, some,
  arith, length, Option-cases, Bool-cases, inl, inr,
}
use hapudding.Base.Int.{ℤ, pos, pos_part, neg_part, ltb_ℤ}
use hapudding.Text.{Bytes}
use hapudding.Lru.Elements.{value?, remove_el, back, total}
use hapudding.Lru.Defs.{Lru, remove_locked, evict_loop}
use hapudding.Lru.Invariant.{Distinct, IsValid, remove_locked-IsValid, total-remove_el}
use hapudding.Lru.Fit.{items, drop_last, fit, total-items, fit_all, fit-drop_last}

-- What a limit leaves beside an item of `need` bytes.
abbrev pub room : ℤ → ℕ → ℕ
room max need = pos_part max - neg_part max - need

module _ {I : Type 0} (key : I → Bytes) (size : I → ℕ) where
  -- The last element is found by its pointer, and is what `remove_el` takes.
  back_lem :
      (next : ℕ) (l : List (ℕ × I)) (e : ℕ × I)
      → Distinct key next l
      → back l ≡ some e
      → (value? e.0 l ≡ some e.1) × (remove_el e.0 l ≡ drop_last l)
  unfolding back value? remove_el drop_last
  back_lem next [] e d h = cc
  back_lem next ((m, x) ∷ []) e d h = ground arith
  back_lem next ((m, x) ∷ f ∷ l) e d h = ground (arith, back_lem next (f ∷ l) e d.3)

  back-none : (l : List (ℕ × I)) → back l ≡ none → l ≡ []
  unfolding back
  back-none [] h = refl
  back-none (e ∷ []) h = cc
  back-none (e ∷ f ∷ l) h = ground (arith, back-none (f ∷ l))

  items-drop_last : (l : List (ℕ × I)) → items (drop_last l) ≡ drop_last (items l)
  unfolding drop_last
  items-drop_last [] = refl
  items-drop_last (e ∷ []) = refl
  items-drop_last (e ∷ f ∷ l) = rw (items-drop_last (f ∷ l))

  length-drop_last : {A : Type 0} (x : A) (l : List A) → length (drop_last (x ∷ l)) ≡ length l
  unfolding drop_last
  length-drop_last x [] = refl
  length-drop_last x (y ∷ l) = omega (arith, length-drop_last y l)

  -- One round of the loop, at its last element.
  round_lem :
      (c : Lru I) (e : ℕ × I)
      → IsValid key size c
      → back c.ll ≡ some e
      → ((remove_locked key size c e.0).ll ≡ drop_last c.ll)
        × ((remove_locked key size c e.0).n + size e.1 ≡ c.n)
  unfolding remove_locked total
  round_lem c e v h =
      let (found, rest) = back_lem c.next c.ll e v.distinct h in
      rw (found, remove_locked)
        (rest, omega (arith, total-remove_el size e.0 c.ll e.1 found, v.counted))

  empty_of_length : (l : List (ℕ × I)) → length l ≤ 0 → l ≡ []
  empty_of_length [] h = refl
  empty_of_length (e ∷ l) h = absurd (omega arith)

  fit_nil : (b : ℕ) (l : List (ℕ × I)) → l ≡ [] → items l ≡ fit size b (items l)
  unfolding fit
  fit_nil b l e = rw e

  fit_under :
      (c : Lru I) (need : ℕ) (max : ℤ)
      → IsValid key size c
      → ltb_ℤ max (pos (c.n + need)) ≡ false
      → items c.ll ≡ fit size (room max need) (items c.ll)
  fit_under c need max v h =
      let sums = total-items size c.ll in
      sym (fit_all size (room max need) (items c.ll) (ground (arith, v.counted, sums)))

  fit_over :
      (c : Lru I) (need : ℕ) (max : ℤ)
      → IsValid key size c
      → need + neg_part max ≤ pos_part max
      → ltb_ℤ max (pos (c.n + need)) ≡ true
      → fit size (room max need) (items (drop_last c.ll)) ≡ fit size (room max need) (items c.ll)
  fit_over c need max v fits h =
      let sums = total-items size c.ll in
      rw (items-drop_last c.ll)
        (fit-drop_last size (room max need) (items c.ll) (ground (arith, v.counted, sums)))

  length_round :
      (l : List (ℕ × I)) (e : ℕ × I) → back l ≡ some e → length l ≡ suc (length (drop_last l))
  unfolding back
  length_round [] e h = cc
  length_round (x ∷ l) e h = omega (arith, length-drop_last x l)

  -- The loop on a valid cache, with fuel for every element and for `need` bytes that fit alone: it
  -- keeps the cache valid and leaves, of the items, those from the front that fit beside `need`
  -- bytes; it counts what it takes.
  pub evict_loop_lem :
      (fuel : ℕ) (c : Lru I) (need : ℕ) (max : ℤ)
      → IsValid key size c
      → need + neg_part max ≤ pos_part max
      → length c.ll ≤ fuel
      → let r = evict_loop key size fuel c need max in
        IsValid key size r.0
        × (items r.0.ll ≡ fit size (room max need) (items c.ll))
        × (r.1 + length r.0.ll ≡ length c.ll)
  unfolding evict_loop
  evict_loop_lem zero c need max v fits h =
      (v, fit_nil (room max need) c.ll (empty_of_length c.ll h), omega arith)
  evict_loop_lem (suc fuel) c need max v fits h = elim (Option-cases (back c.ll)) [
    | inl e ↦ rw (e, evict_loop) (v, fit_nil (room max need) c.ll (back-none c.ll e), omega arith)
    | inr (last, e) ↦ elim (Bool-cases (ltb_ℤ max (pos (c.n + need)))) [
      | inl over ↦
          let c' = remove_locked key size c last.0 in
          let (left, less) = round_lem c last v e in
          let fewer : length c'.ll + 1 ≡ length c.ll =
            rw left (omega (arith, length_round c.ll last e)) in
          let (v', kept, counted) =
            evict_loop_lem fuel c' need max (remove_locked-IsValid key size c v last.0) fits
              (omega (arith, fewer)) in
          rw (e, over, evict_loop)
            (
              v',
              kept
                  ∙ ap (λ l. fit size (room max need) (items l)) left
                  ∙ fit_over c need max v fits over,
              omega (arith, counted, fewer),
            )
      | inr under ↦ rw (e, under, evict_loop) (v, fit_under c need max v under, omega arith)
    ]
  ]
