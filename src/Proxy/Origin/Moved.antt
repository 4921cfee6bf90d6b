-- ===== src/Proxy/Origin/Moved.antt =====
-- What `rewriteAnyAbsURL` and `rewriteLocationHeaders` of internal/proxy/origin.go make of a URL.
use hapudding.Base.{
  ◌≡◌, refl, sym, ap, ◌∙◌, subst, List, [], ◌∷◌, Bool, true, false, not, ◌&&◌, ◌||◌, some,
  if◌then◌else◌, arith, Bool-cases, Option-cases, List-cases, inl, inr, ◌⊎◌, All, map,
}
use hapudding.Text.{Bytes, codes, is_empty, trim_space, equal_fold, to_lower, str_eq}
use hapudding.Text.Equality.{str_eq_iff}
use hapudding.Proxy.Headers.{Headers, values, del}
use hapudding.Proxy.Values.{values-del, values-add_each, values-fold}
use hapudding.Proxy.Origin.Urls.{
  Urls, rewrite_any_abs_url, rewrite_header, rewrite_location_headers,
}

empty_nil : (s : Bytes) → is_empty s ≡ true → s ≡ []
empty_nil [] h = refl
empty_nil (c ∷ s) h = cc

module _ (u : Urls) where
  -- An absolute URL that names a host.
  abbrev names_host : u.Url → Bool
  names_host v = u.is_abs v && not (is_empty (u.host v))

  -- What a value becomes: itself without its outer spaces, where it is no absolute URL with a host, or where
  -- the inbound origin is not one to move to; else the URL at the inbound origin.
  pub data Moved (raw inbound : Bytes) : Bytes → Type 0 where
    nothing : is_empty (trim_space raw) ≡ true → Moved raw inbound (trim_space raw)
    relative :
        ((v : u.Url) → u.parse (trim_space raw) ≡ some v → names_host v ≡ false)
        → Moved raw inbound (trim_space raw)
    nowhere :
        (is_empty inbound ≡ true)
          ⊎ ((w : u.Url) → u.parse inbound ≡ some w → is_empty (u.host w) ≡ true)
        → Moved raw inbound (trim_space raw)
    moved :
        (v w : u.Url)
        → u.parse (trim_space raw) ≡ some v
        → names_host v ≡ true
        → u.parse inbound ≡ some w
        → is_empty (u.host w) ≡ false
        → Moved raw inbound (u.print (u.with_origin w v))

  some-inj : {A : Type 0} (a b : A) → some a ≡ some b → a ≡ b
  some-inj a b h = cc

  pub rewrite_any_abs_url-Moved :
      (raw inbound : Bytes) → Moved raw inbound (rewrite_any_abs_url u raw inbound)
  unfolding rewrite_any_abs_url
  rewrite_any_abs_url-Moved raw inbound =
      let t = trim_space raw in
      let Goal : Bytes → Type 0 = Moved raw inbound in
      elim (Bool-cases (is_empty t)) [
        | inl e ↦ rw (e, rewrite_any_abs_url) (nothing e)
        | inr e ↦ elim (Bool-cases (is_empty inbound)) [
          | inl f ↦ rw (e, f, rewrite_any_abs_url) (nowhere (inl f))
          | inr f ↦ elim (Option-cases (u.parse t)) [
            | inl g ↦ rw (e, f, g, rewrite_any_abs_url) (relative (λ v h. absurd (cc)))
            | inr (v, g) ↦ elim (Bool-cases (not (u.is_abs v) || is_empty (u.host v))) [
              | inl k ↦
                  rw (e, f, g, k, rewrite_any_abs_url)
                    (relative (λ v' h.
                      subst (λ x. names_host x ≡ false) (some-inj v v' (sym g ∙ h))
                        (ground (arith, k))))
              | inr k ↦ elim (Option-cases (u.parse inbound)) [
                | inl l ↦
                    rw (e, f, g, k, l, rewrite_any_abs_url) (nowhere (inr (λ w h. absurd (cc))))
                | inr (w, l) ↦ elim (Bool-cases (is_empty (u.host w))) [
                  | inl m ↦
                      rw (e, f, g, k, l, m, rewrite_any_abs_url)
                        (nowhere (
                          inr (λ w' h.
                            subst (λ x. is_empty (u.host x) ≡ true) (some-inj w w' (sym l ∙ h)) m)))
                  | inr m ↦
                      rw (e, f, g, k, l, m, rewrite_any_abs_url)
                        (moved v w g (ground (arith, k)) l m)
                ]
              ]
            ]
          ]
        ]
      ]

  -- What package net/url says of URLs that name hosts and were parsed, and of the empty text: such a URL, moved
  -- to the origin of another, takes that host, and what is printed of it is a URL that names it.
  pub record NetUrl : Type 0 where
    pub reads_back :
        (s t : Bytes) (v w : u.Url)
        → u.parse s ≡ some v
        → names_host v ≡ true
        → u.parse t ≡ some w
        → is_empty (u.host w) ≡ false
        → (v' : u.Url) × (u.parse (u.print (u.with_origin w v)) ≡ some v')
          × (u.host v' ≡ u.host (u.with_origin w v))
    pub takes_host : (v w : u.Url) → u.host (u.with_origin w v) ≡ u.host w
    pub empty_is_relative : (v : u.Url) → u.parse [] ≡ some v → u.is_abs v ≡ false

  -- A value that is an absolute URL with a host names this host.
  abbrev pub StaysAt : Bytes → Bytes → Type 0
  StaysAt host value = (v : u.Url) → u.parse value ≡ some v → names_host v ≡ true → u.host v ≡ host

  module _ (net : NetUrl) (inbound : Bytes) (w : u.Url) (filled : is_empty inbound ≡ false)
      (origin : u.parse inbound ≡ some w) (hosted : is_empty (u.host w) ≡ false) where
    moved-StaysAt : (raw out : Bytes) → Moved raw inbound out → StaysAt (u.host w) out
    moved-StaysAt raw out (nothing e) v h k = absurd (
        ground (
          arith,
          net.empty_is_relative v
              (subst (λ s. u.parse s ≡ some v) (empty_nil (trim_space raw) e) h),
          k,
        ))
    moved-StaysAt raw out (relative never) v h k = absurd (ground (arith, never v h, k))
    moved-StaysAt raw out (nowhere (inl e)) v h k = absurd (ground (arith, e, filled))
    moved-StaysAt raw out (nowhere (inr never)) v h k =
        absurd (ground (arith, never w origin, hosted))
    moved-StaysAt raw out (moved v' w' e f g l) v h k =
        let (read, again, there) = net.reads_back (trim_space raw) inbound v' w' e f g l in
        let same : read ≡ v = some-inj _ _ (sym again ∙ h) in
        let home : w' ≡ w = some-inj _ _ (sym g ∙ origin) in
        ap u.host (sym same) ∙ there ∙ net.takes_host v' w' ∙ ap u.host home

    rewritten-StaysAt :
        (vs : List Bytes) → All (StaysAt (u.host w)) (map (λ s. rewrite_any_abs_url u s inbound) vs)
    rewritten-StaysAt [] = tt
    rewritten-StaysAt (v ∷ vs) = (
      moved-StaysAt v (rewrite_any_abs_url u v inbound) (rewrite_any_abs_url-Moved v inbound),
      rewritten-StaysAt vs,
    )

differ :
    (key : Bytes)
    → equal_fold (codes "Location") key ≡ true
    → equal_fold (codes "Content-Location") key ≡ false
unfolding equal_fold to_lower str_eq
differ key h =
    let lower = (str_eq_iff (to_lower (codes "Location")) (to_lower key)).0 h in
    subst (λ s. str_eq (to_lower (codes "Content-Location")) s ≡ false) lower refl

module _ (u : Urls) (inbound : Bytes) where
  abbrev rewrite_value : Bytes → Bytes
  rewrite_value s = rewrite_any_abs_url u s inbound

  rewrite_header-values :
      (h : Headers) (name key : Bytes)
      → values (rewrite_header u inbound h name) key
        ≡ (if equal_fold name key then map rewrite_value (values h key) else values h key)
  unfolding rewrite_header
  rewrite_header-values h name key = elim (Bool-cases (equal_fold name key)) [
    | inl f ↦
        let same = values-fold h name key f in
        elim (List-cases (values h name)) [
          | inl e ↦ rw (e, f, rewrite_header) (sym same ∙ e ∙ ap (map rewrite_value) (sym e ∙ same))
          | inr (v, vs, e) ↦
              rw (e, f, rewrite_header)
                (values-add_each (del h name) name key (map rewrite_value (v ∷ vs))
                  ∙ rw (values-del h name key, f) (ap (map rewrite_value) (sym e ∙ same)))
        ]
    | inr f ↦ elim (List-cases (values h name)) [
      | inl e ↦ rw (e, f, rewrite_header)
      | inr (v, vs, e) ↦
          rw (e, f, rewrite_header)
            (values-add_each (del h name) name key (map rewrite_value (v ∷ vs))
              ∙ rw (values-del h name key, f))
    ]
  ]

  -- The location headers are moved to the inbound origin one by one, and no other header is changed.
  pub rewrite_location_headers-values :
      (h : Headers) (key : Bytes)
      → is_empty inbound ≡ false
      → values (rewrite_location_headers u h inbound) key ≡ (
          if equal_fold (codes "Location") key || equal_fold (codes "Content-Location") key
          then map rewrite_value (values h key)
          else values h key)
  unfolding rewrite_location_headers
  rewrite_location_headers-values h key filled =
      let first = rewrite_header u inbound h (codes "Location") in
      rw (filled, rewrite_location_headers)
        (rewrite_header-values first (codes "Content-Location") key
          ∙ rw (rewrite_header-values h (codes "Location") key)
              (elim (Bool-cases (equal_fold (codes "Location") key)) [
                | inl e ↦ rw (e, differ key e)
                | inr e ↦ rw e
              ]))

-- Where the clients stay on the proxy's own origin: no Location and no Content-Location that is an absolute URL
-- leads to another host than the inbound one. The inbound origin is a URL with a host; package net/url reads what
-- it prints of a URL with a host as a URL with that host, and an empty text as no absolute URL.
pub rewrite_location_headers-StaysAt :
    (u : Urls) (inbound : Bytes) (w : u.Url) (h : Headers) (key : Bytes)
    → NetUrl u
    → is_empty inbound ≡ false
    → u.parse inbound ≡ some w
    → is_empty (u.host w) ≡ false
    → (equal_fold (codes "Location") key || equal_fold (codes "Content-Location") key) ≡ true
    → All (StaysAt u (u.host w)) (values (rewrite_location_headers u h inbound) key)
rewrite_location_headers-StaysAt u inbound w h key net filled origin hosted named =
    rw (rewrite_location_headers-values u inbound h key filled, named)
      (rewritten-StaysAt u net inbound w filled origin hosted (values h key))
