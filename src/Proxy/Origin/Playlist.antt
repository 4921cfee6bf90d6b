-- ===== src/Proxy/Origin/Playlist.antt =====
-- `isPlaylist` and `rewritePlaylistBody` of internal/proxy/origin.go.
use hapudding.Base.{List, [], ◌∷◌, ◌++◌, Bool, true, false, not, ◌||◌, if◌then◌else◌}
use hapudding.Text.{
  Bytes, codes, is_empty, str_eq, to_lower, has_prefix, has_suffix, contains, trim_space, split,
}
use hapudding.Text.Lines.{join}
use hapudding.Proxy.Origin.Urls.{Urls, rewrite_any_abs_url}

unfoldable pub is_playlist : Bytes → Bytes → Bool
is_playlist path content_type =
    let p = to_lower path in
    let ct = to_lower content_type in
    if has_suffix p (codes ".m3u8") || has_suffix p (codes ".mpd")
    then true
    else contains ct (codes "mpegurl") || contains ct (codes "dash+xml")

abbrev pub drop_first : Bytes → Bytes → Bytes
drop_first s [] = s
drop_first [] (d ∷ p) = []
drop_first (c ∷ s) (d ∷ p) = drop_first s p

-- strings.Replace(s, old, new, 1)
unfoldable pub replace_first : Bytes → Bytes → Bytes → Bytes
replace_first [] old new = if is_empty old then new else []
replace_first (c ∷ s) old new =
    let rest = replace_first s old new in
    if has_prefix (c ∷ s) old then new ++ drop_first (c ∷ s) old else c ∷ rest

abbrev pub is_url : Bytes → Bool
is_url s = has_prefix s (codes "http://") || has_prefix s (codes "https://")

module _ (u : Urls) (inbound : Bytes) where
  -- The loop leaves this line as it is.
  abbrev pub is_kept : Bytes → Bool
  is_kept line =
      let t = trim_space line in not (is_url t) || str_eq (rewrite_any_abs_url u t inbound) t

  unfoldable pub rewrite_line : Bytes → Bytes
  unfolding replace_first
  rewrite_line line =
      if is_kept line
      then line
      else replace_first line (trim_space line) (rewrite_any_abs_url u (trim_space line) inbound)

  -- The loop: the lines, and whether one was changed.
  unfoldable pub rewrite_lines : List Bytes → List Bytes × Bool
  unfolding rewrite_line
  rewrite_lines [] = ([], false)
  rewrite_lines (l ∷ ls) =
      let (rest, changed) = rewrite_lines ls in (rewrite_line l ∷ rest, not (is_kept l) || changed)

  unfoldable pub rewrite_playlist_body : Bytes → Bytes
  unfolding rewrite_lines join
  rewrite_playlist_body body =
      let (lines, changed) = rewrite_lines (split body b'\n') in
      if is_empty inbound then body else if changed then join lines b'\n' else body
