-- ===== src/Proxy/Origin/Frame.antt =====
-- What `rewriteProxiedResponse` of internal/proxy/origin.go leaves alone, and when it panics.
use hapudding.Base.{
  ℕ, ◌≡◌, refl, ◌∙◌, Bool, true, false, not, ◌&&◌, ◌||◌, Option, none, some, ◌==◌, ltb,
  if◌then◌else◌, length, arith, Bool-cases, Option-cases, inl, inr,
}
use hapudding.Text.{Bytes, codes, is_empty, str_eq, to_lower, contains, equal_fold}
use hapudding.Config.{
  Config, stay_on_origin_enabled, translate_server_id_enabled, rewrite_playlists_enabled,
  translate_server_name,
}
use hapudding.Proxy.Headers.{Headers, values, get, set, itoa}
use hapudding.Proxy.Origin.Urls.{
  Urls, Incoming, origin_string, inbound_origin_of, rewrite_location_headers,
}
use hapudding.Proxy.Origin.Playlist.{is_playlist, rewrite_playlist_body}
use hapudding.Proxy.Origin.SystemInfo.{
  Json, is_system_info_path, rewrite_object, rewrite_system_info,
}
use hapudding.Proxy.Origin.Moved.{rewrite_location_headers-values}
use hapudding.Proxy.Values.{values-del, values-set}
use hapudding.Proxy.Origin.Response.{
  Response, with_body, buffer_and_rewrite, playlist_limit, info_limit, rewrite_bodies,
  rewrite_proxied_response,
}

-- A header that the rewriting may change.
abbrev is_rewritten : Bytes → Bool
is_rewritten key =
    equal_fold (codes "Location") key
    || (equal_fold (codes "Content-Location") key
        || (equal_fold (codes "Content-Length") key || equal_fold (codes "Transfer-Encoding") key))

-- The response has the status and the other headers.
abbrev Frames : Response → Response → Type 0
Frames res out =
    (out.status ≡ res.status)
    × ((key : Bytes) → is_rewritten key ≡ false → values out.header key ≡ values res.header key)

-- What is passed on frames the response; where nothing is, P holds.
abbrev pub Answered : Response → Type 0 → Option Response → Type 0
Answered res P none = P
Answered res P (some out) = Frames res out

with_body-Frames : (res : Response) (out : Bytes) → Frames res (with_body res out)
unfolding with_body
with_body-Frames res out = (
  refl,
  λ key other.
      let length_kept : equal_fold (codes "Content-Length") key ≡ false = ground arith in
      let coding_kept : equal_fold (codes "Transfer-Encoding") key ≡ false = ground arith in
      let long = set res.header (codes "Content-Length") (itoa (length out)) in
      rw (values-del long (codes "Transfer-Encoding") key, coding_kept)
        (rw (values-set res.header (codes "Content-Length") (itoa (length out)) key, length_kept)
          refl),
)

buffer_and_rewrite-Answered :
    (res : Response) (max : ℕ) (fn : Bytes → Option Bytes) (P : Type 0)
    → ((raw : Bytes) → res.body ≡ some raw → fn raw ≡ none → P)
    → Answered res P (buffer_and_rewrite res max fn)
unfolding buffer_and_rewrite
buffer_and_rewrite-Answered res max fn P panics = elim (Option-cases res.body) [
  | inl e ↦ rw (e, buffer_and_rewrite) (refl, λ key other. refl)
  | inr (raw, e) ↦ elim (Bool-cases (ltb max (length raw))) [
    | inl f ↦ rw (e, f, buffer_and_rewrite) (refl, λ key other. refl)
    | inr f ↦ elim (Option-cases (fn raw)) [
      | inl g ↦ rw (e, f, g, buffer_and_rewrite) (panics raw e g)
      | inr (out, g) ↦ rw (e, f, g, buffer_and_rewrite) (with_body-Frames res out)
    ]
  ]
]

if_Answered :
    (res : Response) (P : Type 0) (t : Bool) (x y : Option Response)
    → (t ≡ true → Answered res P x)
    → (t ≡ false → Answered res P y)
    → Answered res P (if t then x else y)
if_Answered res P true x y f g = f refl
if_Answered res P false x y f g = g refl

never_none :
    (changed : Bool) (out : Option Bytes) (body : Bytes)
    → ¬ (
        (if changed
          then elim out as (λ _. Option Bytes) [ none ↦ some body | some s ↦ some s ]
          else some body)
        ≡ none)
never_none true none body h = cc
never_none true (some s) body h = cc
never_none false out body h = cc

rewrite_system_info-none :
    (u : Urls) (j : Json) (inbound id name : Bytes) (rewrite_urls : Bool) (body : Bytes)
    → rewrite_system_info u j inbound id name rewrite_urls body ≡ none
    → (is_empty name ≡ false) × (j.decode body ≡ some none)
unfolding rewrite_system_info
rewrite_system_info-none u j inbound id name rewrite_urls body h =
    elim (Option-cases (j.decode body)) [
      | inl e ↦ let k : some body ≡ none = rw (e, rewrite_system_info) at h in absurd (cc)
      | inr (none, e) ↦ elim (Bool-cases (is_empty name)) [
        | inl f ↦ let k : some body ≡ none = rw (e, f, rewrite_system_info) at h in absurd (cc)
        | inr f ↦ (f, e)
      ]
      | inr (some m, e) ↦
          let (m', changed) = rewrite_object u j inbound id name rewrite_urls m in
          absurd (never_none changed (j.encode m') body (rw (e, rewrite_system_info) at h))
    ]

unmoved :
    (u : Urls) (h : Headers) (inbound : Bytes)
    → is_empty inbound ≡ true
    → rewrite_location_headers u h inbound ≡ h
unfolding rewrite_location_headers
unmoved u h inbound e = rw (e, rewrite_location_headers)

-- A choice between two responses that are rewritten further.
chosen_Answered :
    (res : Response) (P : Type 0) (next : Response → Option Response) (t : Bool) (x y : Response)
    → Answered res P (next x)
    → Answered res P (next y)
    → Answered res P (next (if t then x else y))
chosen_Answered res P next true x y f g = f
chosen_Answered res P next false x y f g = g

module _ (u : Urls) (j : Json) (cfg : Config) where
  -- The system information of a server whose name is to be shown is the JSON null.
  abbrev pub NamesNull : Response → Bytes → Bytes → Type 0
  NamesNull res method path =
      (translate_server_id_enabled cfg ≡ true)
      × (is_empty (translate_server_name cfg) ≡ false)
      × (is_system_info_path path ≡ true)
      × (raw : Bytes) × (res.body ≡ some raw)
      × (j.decode raw ≡ some none)

  rewrite_bodies-Answered :
      (res : Response) (method path inbound : Bytes)
      → Answered res (NamesNull res method path) (rewrite_bodies u j cfg res method path inbound)
  unfolding rewrite_bodies
  rewrite_bodies-Answered res method path inbound =
      let P = NamesNull res method path in
      let ct = get res.header (codes "Content-Type") in
      if_Answered res P
        (stay_on_origin_enabled cfg && (rewrite_playlists_enabled cfg && is_playlist path ct)) _ _
        (λ _.
          buffer_and_rewrite-Answered res playlist_limit
            (λ body. some (rewrite_playlist_body u inbound body)) P (λ raw e f. absurd (cc)))
        (λ _.
          if_Answered res P
            (str_eq method (codes "GET") && (is_system_info_path path && res.status == 200)) _ _
            (λ asked.
              if_Answered res P
                (not (is_empty (to_lower ct)) && not (contains (to_lower ct) (codes "json"))) _ _
                (λ _. (refl, λ key other. refl))
                (λ _. buffer_and_rewrite-Answered res info_limit _ P (λ raw e f.
                  let (named, null) = rewrite_system_info-none u j inbound _ _ _ raw f in
                  (ground arith, ground arith, ground arith, raw, e, null))))
            (λ _. (refl, λ key other. refl)))

  Frames-trans :
      (res mid : Response) (P : Type 0) (out : Option Response)
      → Frames res mid
      → Answered mid P out
      → Answered res P out
  Frames-trans res mid P none f h = h
  Frames-trans res mid P (some out) f h = (h.0 ∙ f.0, λ key other. h.1 key other ∙ f.1 key other)

  located-Frames :
      (res : Response) (inbound : Bytes)
      → Frames res (record res { header = rewrite_location_headers u res.header inbound })
  located-Frames res inbound = (
    refl,
    λ key other. elim (Bool-cases (is_empty inbound)) [
      | inl e ↦ rw (unmoved u res.header inbound e) refl
      | inr e ↦
          let kept : (equal_fold (codes "Location") key
                || equal_fold (codes "Content-Location") key)
              ≡ false =
            ground arith in
          rw (rewrite_location_headers-values u inbound res.header key e, kept) refl
    ],
  )

  -- The rewriting of an answer changes no status, and no header but the two locations, the length of the body
  -- and its transfer coding. It panics only where the name of the server is to be shown in a system
  -- information that is the JSON null.
  pub rewrite_proxied_response-Answered :
      (res : Response) (r : Incoming) (method path : Bytes)
      → Answered res
          (NamesNull res method path)
          (rewrite_proxied_response u j cfg res r method path)
  unfolding rewrite_proxied_response
  rewrite_proxied_response-Answered res r method path =
      let inbound = origin_string (inbound_origin_of u r) in
      let P = NamesNull res method path in
      let located : Response = record res {
        header = rewrite_location_headers u res.header inbound;
      } in
      if_Answered res P (not (stay_on_origin_enabled cfg) && not (translate_server_id_enabled cfg))
        _ _ (λ _. (refl, λ key other. refl))
        (λ _.
          chosen_Answered res P (λ m. rewrite_bodies u j cfg m method path inbound)
            (stay_on_origin_enabled cfg) located res
            (Frames-trans res located P (rewrite_bodies u j cfg located method path inbound)
              (located-Frames res inbound) (rewrite_bodies-Answered located method path inbound))
            (rewrite_bodies-Answered res method path inbound))
