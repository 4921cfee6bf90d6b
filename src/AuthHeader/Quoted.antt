-- ===== src/AuthHeader/Quoted.antt =====
-- The loop of internal/authheader/parse.go ends, and a quoted token is read back.
use mathlib.Core.List.{reverse}
use mathlib.Core.List.{reverse-append, reverse-reverse}
use hapudding.Base.{
  ℕ, zero, suc, ◌+◌, ◌≤◌, ◌≡◌, refl, sym, ap, ◌∙◌, [], ◌∷◌, ◌++◌, Bool, true, false, Option, ◌==◌,
  length, arith, List-cases, inl, inr, All,
}
use hapudding.Text.{
  Bytes, codes, is_space, trim_left, trim_space, cut, equal_fold, to_lower, str_eq,
}
use hapudding.AuthHeader.Parse.{
  is_space_byte, until, skip_commas, skip_spaces, quoted, value_of, Values, take_pair,
  named_values_from, parse_named_values, parse_media_browser, decoded, part, apply_parts,
}

length-until-le : (b : ℕ) (s : Bytes) → length (until b s).1 ≤ length s
unfolding until
length-until-le b [] = omega arith
length-until-le b (c ∷ s) = ground (arith, length-until-le b s)

length-skip_commas-le : (s : Bytes) → length (skip_commas s) ≤ length s
unfolding skip_commas
length-skip_commas-le [] = omega arith
length-skip_commas-le (c ∷ s) = ground (arith, length-skip_commas-le s)

length-skip_spaces-le : (s : Bytes) → length (skip_spaces s) ≤ length s
unfolding skip_spaces
length-skip_spaces-le [] = omega arith
length-skip_spaces-le (c ∷ s) = ground (arith, length-skip_spaces-le s)

length-quoted-le : (escaped : Bool) (s : Bytes) → length (quoted escaped s).1 ≤ length s
unfolding quoted
length-quoted-le escaped [] = omega arith
length-quoted-le true (c ∷ s) = omega (arith, length-quoted-le false s)
length-quoted-le false (c ∷ s) = ground (arith, length-quoted-le false s, length-quoted-le true s)

length-value_of-le : (s : Bytes) → length (value_of s).1 ≤ length s
unfolding value_of
length-value_of-le [] = omega arith
length-value_of-le (c ∷ s) = ground (arith, length-quoted-le false s, length-until-le b',' (c ∷ s))

module _ (unescape : Bytes → Option Bytes) where
  length-take_pair-le :
      (out : Values) (key s : Bytes) → length (take_pair unescape out key s).1 ≤ length s
  unfolding take_pair
  length-take_pair-le out key s =
      omega (arith, length-value_of-le (skip_spaces s), length-skip_spaces-le s)

  -- Any fuel that is at least the length gives the same values: the loop ends by itself.
  pub named_values_from-fuel :
      (f g : ℕ) (out : Values) (s : Bytes)
      → length s ≤ f
      → length s ≤ g
      → named_values_from unescape f out s ≡ named_values_from unescape g out s
  unfolding named_values_from
  named_values_from-fuel zero zero out s h k = refl
  named_values_from-fuel zero (suc g) out [] h k = unfold skip_commas in unfold until in refl
  named_values_from-fuel zero (suc g) out (c ∷ s) h k = absurd (omega arith)
  named_values_from-fuel (suc f) zero out [] h k = unfold skip_commas in unfold until in refl
  named_values_from-fuel (suc f) zero out (c ∷ s) h k = absurd (omega arith)
  named_values_from-fuel (suc f) (suc g) out s h k =
      let u = until b'=' (skip_commas s) in
      elim (List-cases u.1) [
        | inl e ↦ rw (e, named_values_from)
        | inr (eq, behind, e) ↦
            let less : length behind + 1 ≤ length s =
              omega (
                arith,
                ap length e,
                length-until-le b'=' (skip_commas s),
                length-skip_commas-le s,
              ) in
            let less' = length-take_pair-le out u.0 behind in
            rw (e, named_values_from)
              (named_values_from-fuel f g (take_pair unescape out u.0 behind).0
                (take_pair unescape out u.0 behind).1 (omega arith) (omega arith))
      ]

-- A byte that a quoted value holds as it is.
abbrev IsPlain : Bytes → Type 0
IsPlain t = All (λ c. ((c == b'"') ≡ false) × ((c == b'\\') ≡ false)) t

quoted-plain : (t rest : Bytes) → IsPlain t → quoted false (t ++ b'"' ∷ rest) ≡ (t, rest)
unfolding quoted
quoted-plain [] rest h = refl
quoted-plain (c ∷ t) rest ((p, q), h) = rw (p, q, quoted-plain t rest h)

-- What begins and ends with bytes that are no space keeps them.
trim_space-ends :
    (c d : ℕ) (s : Bytes)
    → is_space c ≡ false
    → is_space d ≡ false
    → trim_space (c ∷ (s ++ d ∷ [])) ≡ c ∷ (s ++ d ∷ [])
unfolding trim_space trim_left
trim_space-ends c d s h k =
    rw (h, reverse-append (c ∷ s) (d ∷ []), k)
      (ap reverse (sym (reverse-append (c ∷ s) (d ∷ []))) ∙ reverse-reverse (c ∷ (s ++ d ∷ [])))

-- The header that `warmOne` sends: MediaBrowser Token="…".
abbrev pub token_header : Bytes → Bytes
token_header t = codes "MediaBrowser Token=" ++ (b'"' ∷ (t ++ b'"' ∷ []))

read_rounds :
    (unescape : Bytes → Option Bytes) (t : Bytes) (n : ℕ)
    → IsPlain t
    → named_values_from unescape (suc (suc n)) [] (codes "Token=" ++ (b'"' ∷ (t ++ b'"' ∷ [])))
      ≡ (codes "Token", decoded unescape t) ∷ []
unfolding named_values_from until skip_commas take_pair value_of skip_spaces is_space_byte is_space
    trim_space trim_left
read_rounds unescape t n h =
    rw (quoted-plain t [] h, named_values_from, decoded)
      (ap (λ (p : Bytes × Bytes). (codes "Token", decoded unescape p.0) ∷ []) (quoted-plain t [] h))

read_quoted :
    (unescape : Bytes → Option Bytes) (t : Bytes)
    → IsPlain t
    → parse_named_values unescape (codes "Token=" ++ (b'"' ∷ (t ++ b'"' ∷ [])))
      ≡ (codes "Token", decoded unescape t) ∷ []
unfolding parse_named_values
read_quoted unescape t h =
    rw
      (trim_space-ends b'T' b'"' (codes "oken=" ++ (b'"' ∷ t)) (unfold is_space in refl)
        (unfold is_space in refl))
      (read_rounds unescape t (length (codes "ken=" ++ (b'"' ∷ (t ++ b'"' ∷ [])))) h)

-- The header that the proxy sends with a token gives, to a reader of this package, the token back as
-- url.QueryUnescape reads it and no other value, if no byte of it is a quote or a backslash.
pub parse-token_header :
    (unescape : Bytes → Option Bytes) (t : Bytes)
    → IsPlain t
    → apply_parts (parse_media_browser unescape (token_header t)) ≡ record {
      token = decoded unescape t;
      device_id = [];
      client = [];
      device = [];
      version = [];
    }
unfolding parse_media_browser
parse-token_header unescape t h =
    rw
      (trim_space-ends b'M' b'"' (codes "ediaBrowser Token=" ++ (b'"' ∷ t))
        (unfold is_space in refl) (unfold is_space in refl))
      (unfold cut in
        unfold equal_fold in
        unfold to_lower in
        unfold str_eq in unfold apply_parts in unfold part in rw (read_quoted unescape t h))
