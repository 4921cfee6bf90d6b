-- ===== src/Proxy/Origin/Lines.antt =====
-- `rewritePlaylistBody` of internal/proxy/origin.go, line by line.
use mathlib.Core.List.{reverse, reverse-cons}
use hapudding.Base.{
  ◌≡◌, refl, sym, ap, List, [], ◌∷◌, true, false, some, arith, Bool-cases, inl, inr, All, map,
}
use hapudding.Text.{Bytes, is_empty, has_prefix, is_space, trim_left, trim_space, split}
use hapudding.Text.Lines.{join, Lacks, Lacks-append, split-join, split-Lacks, split-cons}
use hapudding.Proxy.Origin.Urls.{Urls, rewrite_any_abs_url}
use hapudding.Proxy.Origin.Moved.{
  Moved, nothing, relative, nowhere, moved, rewrite_any_abs_url-Moved,
}
use hapudding.Proxy.Origin.Playlist.{
  drop_first, replace_first, is_kept, rewrite_line, rewrite_lines, rewrite_playlist_body,
}

abbrev IsLine : Bytes → Type 0
IsLine = Lacks b'\n'

IsLine-reverse : (s : Bytes) → IsLine s → IsLine (reverse s)
IsLine-reverse [] h = tt
IsLine-reverse (c ∷ s) h =
    rw (reverse-cons c s) (Lacks-append b'\n' (reverse s) (c ∷ []) (IsLine-reverse s h.1) (h.0, tt))

trim_left-IsLine : (s : Bytes) → IsLine s → IsLine (trim_left s)
unfolding trim_left
trim_left-IsLine [] h = tt
trim_left-IsLine (c ∷ s) h = elim (Bool-cases (is_space c)) [
  | inl e ↦ rw (e, trim_left) (trim_left-IsLine s h.1)
  | inr e ↦ rw (e, trim_left) h
]

trim_space-IsLine : (s : Bytes) → IsLine s → IsLine (trim_space s)
unfolding trim_space
trim_space-IsLine s h =
    IsLine-reverse _ (trim_left-IsLine _ (IsLine-reverse _ (trim_left-IsLine s h)))

drop_first-IsLine : (s p : Bytes) → IsLine s → IsLine (drop_first s p)
drop_first-IsLine s [] h = h
drop_first-IsLine [] (d ∷ p) h = tt
drop_first-IsLine (c ∷ s) (d ∷ p) h = drop_first-IsLine s p h.1

replace_first-IsLine :
    (s old new : Bytes) → IsLine s → IsLine new → IsLine (replace_first s old new)
unfolding replace_first
replace_first-IsLine [] old new h k = elim (Bool-cases (is_empty old)) [
  | inl e ↦ rw (e, replace_first) k
  | inr e ↦ rw (e, replace_first) tt
]
replace_first-IsLine (c ∷ s) old new h k = elim (Bool-cases (has_prefix (c ∷ s) old)) [
  | inl e ↦
      rw (e, replace_first)
        (Lacks-append b'\n' new (drop_first (c ∷ s) old) k (drop_first-IsLine (c ∷ s) old h))
  | inr e ↦ rw (e, replace_first) (h.0, replace_first-IsLine s old new h.1 k)
]

-- A URL that was parsed is printed as one line, also at another origin that was parsed.
abbrev PrintsLines : Urls → Type 0
PrintsLines u =
    (a b : Bytes) (v w : u.Url)
    → u.parse a ≡ some v
    → u.parse b ≡ some w
    → Lacks b'\n' (u.print (u.with_origin w v))

module _ (u : Urls) (lines : PrintsLines u) (inbound : Bytes) where
  moved-IsLine : (raw out : Bytes) → IsLine raw → Moved u raw inbound out → IsLine out
  moved-IsLine raw out h (nothing e) = trim_space-IsLine raw h
  moved-IsLine raw out h (relative e) = trim_space-IsLine raw h
  moved-IsLine raw out h (nowhere e) = trim_space-IsLine raw h
  moved-IsLine raw out h (moved v w e f g k) = lines (trim_space raw) inbound v w e g

  rewrite_any_abs_url-IsLine :
      (raw : Bytes) → IsLine raw → IsLine (rewrite_any_abs_url u raw inbound)
  rewrite_any_abs_url-IsLine raw h =
      moved-IsLine raw (rewrite_any_abs_url u raw inbound) h
        (rewrite_any_abs_url-Moved u raw inbound)

  rewrite_line-IsLine : (line : Bytes) → IsLine line → IsLine (rewrite_line u inbound line)
  unfolding rewrite_line
  rewrite_line-IsLine line h = elim (Bool-cases (is_kept u inbound line)) [
    | inl e ↦ rw (e, rewrite_line) h
    | inr e ↦
        let t = trim_space line in
        rw (e, rewrite_line)
          (replace_first-IsLine line t (rewrite_any_abs_url u t inbound) h
            (rewrite_any_abs_url-IsLine t (trim_space-IsLine line h)))
  ]

  line_kept :
      (l : Bytes) {ls : List Bytes}
      → is_kept u inbound l ≡ true
      → map (rewrite_line u inbound) ls ≡ ls
      → map (rewrite_line u inbound) (l ∷ ls) ≡ l ∷ ls
  unfolding rewrite_line
  line_kept l e same = rw (e, rewrite_line) (ap (λ rest. l ∷ rest) same)

  rewrite_lines_lem :
      (ls : List Bytes)
      → ((rewrite_lines u inbound ls).0 ≡ map (rewrite_line u inbound) ls)
        × ((rewrite_lines u inbound ls).1 ≡ false → map (rewrite_line u inbound) ls ≡ ls)
  unfolding rewrite_lines rewrite_line
  rewrite_lines_lem [] = (refl, λ h. refl)
  rewrite_lines_lem (l ∷ ls) =
      let (same, kept) = rewrite_lines_lem ls in
      (rw same, λ h. line_kept l (ground arith) (kept (ground arith)))

  lines-IsLine : (ls : List Bytes) → All IsLine ls → All IsLine (map (rewrite_line u inbound) ls)
  lines-IsLine [] h = tt
  lines-IsLine (l ∷ ls) h = (rewrite_line-IsLine l h.0, lines-IsLine ls h.1)

  split-join-lines :
      (body : Bytes)
      → split (join (map (rewrite_line u inbound) (split body b'\n')) b'\n') b'\n'
        ≡ map (rewrite_line u inbound) (split body b'\n')
  split-join-lines body =
      let (l, ls, e) = split-cons body b'\n' in
      let all_lines = lines-IsLine (split body b'\n') (split-Lacks body b'\n') in
      rw e (
        split-join (rewrite_line u inbound l) (map (rewrite_line u inbound) ls) b'\n'
          (rw e at all_lines))

-- A playlist that is rewritten has the lines that it had, each rewritten on its own: no line is lost, added or
-- moved. The URLs are printed without a newline.
pub rewrite_playlist_body-lines :
    (u : Urls) (inbound body : Bytes)
    → PrintsLines u
    → is_empty inbound ≡ false
    → split (rewrite_playlist_body u inbound body) b'\n'
      ≡ map (rewrite_line u inbound) (split body b'\n')
unfolding rewrite_playlist_body
rewrite_playlist_body-lines u inbound body printed filled =
    let ls = split body b'\n' in
    let (same, kept) = rewrite_lines_lem u printed inbound ls in
    elim (Bool-cases (rewrite_lines u inbound ls).1) [
      | inl e ↦
          rw (filled, e, rewrite_playlist_body) (rw same (split-join-lines u printed inbound body))
      | inr e ↦ rw (filled, e, rewrite_playlist_body) (sym (kept e))
    ]
