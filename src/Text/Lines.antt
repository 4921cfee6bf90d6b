-- ===== src/Text/Lines.antt =====
-- Texts taken apart into lines, and put together again.
use hapudding.Base.{
  ℕ, ◌≡◌, refl, sym, ap, ◌∙◌, subst, List, [], ◌∷◌, ◌++◌, true, false, ◌==◌, arith, Bool-cases, inl,
  inr, All, append_assoc, append-nil,
}
use hapudding.Text.Defs.{Bytes, split_from, split}

-- strings.Join(lines, b) at a one-byte separator
unfoldable pub join : List Bytes → ℕ → Bytes
join [] b = []
join (s ∷ ss) b = elim ss [ [] ↦ s | t ∷ ts ↦ s ++ (b ∷ join ss b) ]

-- A text without the byte.
abbrev pub Lacks : ℕ → Bytes → Type 0
Lacks b s = All (λ c. (c == b) ≡ false) s

pub Lacks-append : (b : ℕ) (s t : Bytes) → Lacks b s → Lacks b t → Lacks b (s ++ t)
Lacks-append b [] t h k = k
Lacks-append b (c ∷ s) t h k = (h.0, Lacks-append b s t h.1 k)

split_at :
    (acc s : Bytes) (c b : ℕ) → (c == b) ≡ true → split_from acc (c ∷ s) b ≡ acc ∷ split_from [] s b
unfolding split_from
split_at acc s c b e = rw (e, split_from)

split_on :
    (acc s : Bytes) (c b : ℕ)
    → (c == b) ≡ false
    → split_from acc (c ∷ s) b ≡ split_from (acc ++ c ∷ []) s b
unfolding split_from
split_on acc s c b e = rw (e, split_from)

-- There is a first line.
split_from-cons :
    (acc s : Bytes) (b : ℕ) → (l : Bytes) × (ls : List Bytes) × (split_from acc s b ≡ l ∷ ls)
unfolding split_from
split_from-cons acc [] b = (acc, [], refl)
split_from-cons acc (c ∷ s) b = elim (Bool-cases (c == b)) [
  | inl e ↦ (acc, split_from [] s b, split_at acc s c b e)
  | inr e ↦
      let (l, ls, same) = split_from-cons (acc ++ c ∷ []) s b in
      (l, ls, split_on acc s c b e ∙ same)
]

join-cons :
    (s l : Bytes) (ls lines : List Bytes) (b : ℕ)
    → lines ≡ l ∷ ls
    → join (s ∷ lines) b ≡ s ++ (b ∷ join lines b)
unfolding join
join-cons s l ls lines b e = subst (λ m. join (s ∷ m) b ≡ s ++ (b ∷ join m b)) (sym e) refl

join-split_from : (acc s : Bytes) (b : ℕ) → join (split_from acc s b) b ≡ acc ++ s
unfolding split_from join
join-split_from acc [] b = sym (append-nil acc)
join-split_from acc (c ∷ s) b = elim (Bool-cases (c == b)) [
  | inl e ↦
      let (l, ls, some_line) = split_from-cons [] s b in
      let same : c ≡ b = ground (arith, e) in
      rw (split_at acc s c b e) (
        join-cons acc l ls (split_from [] s b) b some_line
        ∙ rw (join-split_from [] s b) (ap (λ d. acc ++ d ∷ s) (sym same)))
  | inr e ↦
      rw (split_on acc s c b e) (join-split_from (acc ++ c ∷ []) s b ∙ append_assoc acc (c ∷ []) s)
]

-- The lines of a text give the text.
join-split : (s : Bytes) (b : ℕ) → join (split s b) b ≡ s
unfolding split
join-split s b = join-split_from [] s b

split_from-line : (acc s : Bytes) (b : ℕ) → Lacks b s → split_from acc s b ≡ (acc ++ s) ∷ []
unfolding split_from
split_from-line acc [] b h = rw (append-nil acc)
split_from-line acc (c ∷ s) b h =
    split_on acc s c b h.0
    ∙ split_from-line (acc ++ c ∷ []) s b h.1
    ∙ rw (append_assoc acc (c ∷ []) s)

split_from-append :
    (acc s t : Bytes) (b : ℕ)
    → Lacks b s
    → split_from acc (s ++ (b ∷ t)) b ≡ (acc ++ s) ∷ split_from [] t b
split_from-append acc [] t b h = split_at acc t b b (ground arith) ∙ rw (append-nil acc)
split_from-append acc (c ∷ s) t b h =
    split_on acc (s ++ (b ∷ t)) c b h.0
    ∙ split_from-append (acc ++ c ∷ []) s t b h.1
    ∙ rw (append_assoc acc (c ∷ []) s)

-- Lines that are put together are found again.
pub split-join :
    (l : Bytes) (ls : List Bytes) (b : ℕ)
    → All (Lacks b) (l ∷ ls)
    → split (join (l ∷ ls) b) b ≡ l ∷ ls
unfolding split join
split-join l [] b h = split_from-line [] l b h.0
split-join l (k ∷ ls) b h =
    split_from-append [] l (join (k ∷ ls) b) b h.0 ∙ ap (λ rest. l ∷ rest) (split-join k ls b h.1)

split_from-Lacks : (acc s : Bytes) (b : ℕ) → Lacks b acc → All (Lacks b) (split_from acc s b)
unfolding split_from
split_from-Lacks acc [] b h = (h, tt)
split_from-Lacks acc (c ∷ s) b h = elim (Bool-cases (c == b)) [
  | inl e ↦ rw (split_at acc s c b e) (h, split_from-Lacks [] s b tt)
  | inr e ↦
      rw (split_on acc s c b e)
        (split_from-Lacks (acc ++ c ∷ []) s b (Lacks-append b acc (c ∷ []) h (e, tt)))
]

-- The lines lack the separator, and there is at least one.
pub split-Lacks : (s : Bytes) (b : ℕ) → All (Lacks b) (split s b)
unfolding split
split-Lacks s b = split_from-Lacks [] s b tt

pub split-cons : (s : Bytes) (b : ℕ) → (l : Bytes) × (ls : List Bytes) × (split s b ≡ l ∷ ls)
unfolding split
split-cons s b = split_from-cons [] s b
