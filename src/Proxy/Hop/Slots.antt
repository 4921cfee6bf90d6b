-- ===== src/Proxy/Hop/Slots.antt =====
-- The slots of the semaphore that the requests of internal/proxy hold: each is given back.
use hapudding.Base.{
  ℕ, ◌≡◌, refl, sym, ap, ◌∙◌, List, [], ◌∷◌, Bool, true, false, ◌&&◌, Option, none, some, arith,
  Bool-cases, Option-cases, inl, inr,
}
use hapudding.Base.Int.{ℤ}
use hapudding.Text.{Bytes}
use hapudding.Config.{Backend}
use hapudding.Router.Types.{Identifiers}
use hapudding.ImgCache.Cache.{get}
use hapudding.ImgCache.Request.{is_cacheable_request}
use hapudding.LibCache.Paths.{is_library_request}
use hapudding.Proxy.LibSem.{LibSem, acquire, release, release-acquire}
use hapudding.Proxy.Login.{LoginJson, is_success}
use hapudding.Proxy.Paths.{is_login_path}
use hapudding.Proxy.Library.{Target, serve_library_cached}
use hapudding.Proxy.Origin.Urls.{Urls}
use hapudding.Proxy.Origin.SystemInfo.{Json}
use hapudding.Proxy.Origin.Response.{Response, rewrite_proxied_response}
use hapudding.Proxy.Hop.State.{Handler, Asked, Cookie}
use hapudding.Proxy.Hop.Cached.{image_key, serve_cached, serve_library}
use hapudding.Proxy.Hop.Modify.{
  store_answer, settle_answer, peek_answer, finish_answer, modify_response,
}
use hapudding.Proxy.Hop.Coalesced.{
  should_coalesce, acquire_library, release_library, HopBuf, Served, serves, unreachable, panics,
  hop_once, buffer_hop, land, fly, write_hop, count_call, write_each, count_each, write_result,
  is_shared, proxy_coalesced, pass_on, backend_url, proxy,
}

-- The slots of a backend that are taken, and the limit; none where there is no semaphore.
abbrev pub slots : Option LibSem → Bytes → Option (ℕ × ℕ)
slots none name = none
slots (some s) name = some (s.held name, s.max)

abbrev no_answer : Option (Response × Cookie × Handler)
no_answer = none

abbrev nothing : Option Handler
nothing = none

abbrev counts : ℕ → ℕ → Option (ℕ × ℕ)
counts a b = some (a, b)

max-acquire : (s s' : LibSem) (name : Bytes) → acquire s name ≡ some s' → s'.max ≡ s.max
unfolding acquire
max-acquire s s' name e = ground arith

release_off :
    (h : Handler) (t : Target) (b : Bytes) → h.sem ≡ none → (release_library h t b).sem ≡ h.sem
unfolding release_library
release_off h t b e = rw (e, release_library) e

release_other :
    (h : Handler) (t : Target) (b : Bytes)
    → is_library_request t.method t.path ≡ false
    → (release_library h t b).sem ≡ h.sem
unfolding release_library
release_other h t b e = elim (Option-cases h.sem) [
  | inl f ↦ rw (f, release_library) f
  | inr (s, f) ↦ rw (f, e, release_library) f
]

release_on :
    (h : Handler) (s : LibSem) (t : Target) (b : Bytes)
    → h.sem ≡ some s
    → is_library_request t.method t.path ≡ true
    → (release_library h t b).sem ≡ some (release s b)
unfolding release_library
release_on h s t b e f = rw (e, f, release_library)

some-inj : {A : Type 0} (a b : A) → some a ≡ some b → a ≡ b
some-inj a b e = cc

max-release : (s : LibSem) (name : Bytes) → (release s name).max ≡ s.max
unfolding release
max-release s name = refl

counted : {a b c d : ℕ} → a ≡ b → c ≡ d → counts a c ≡ counts b d
counted p q = λ i. counts (p i) (q i)

-- What was taken by `acquireLibrary` is given back by `releaseLibrary`, whatever came between.
released :
    (h h1 h2 : Handler) (t : Target) (b name : Bytes)
    → acquire_library h t b ≡ some h1
    → h2.sem ≡ h1.sem
    → slots (release_library h2 t b).sem name ≡ slots h.sem name
unfolding acquire_library
released h h1 h2 t b name e same = elim (Option-cases h.sem) [
  | inl f ↦
      let kept : h ≡ h1 = some-inj _ _ (rw (f, acquire_library) at e) in
      let off : h2.sem ≡ none = same ∙ ap (λ (x : Handler). x.sem) (sym kept) ∙ f in
      ap (λ o. slots o name) (release_off h2 t b off ∙ off ∙ sym f)
  | inr (s, f) ↦ elim (Bool-cases (is_library_request t.method t.path)) [
    | inl g ↦ elim (Option-cases (acquire s b)) [
      | inl k ↦ let never : nothing ≡ some h1 = rw (f, g, k, acquire_library) at e in absurd (cc)
      | inr (s', k) ↦
          let taken : record h { sem = some s' } ≡ h1 =
            some-inj _ _ (rw (f, g, k, acquire_library) at e) in
          let on : h2.sem ≡ some s' = same ∙ ap (λ (x : Handler). x.sem) (sym taken) in
          rw (release_on h2 s' t b on g, f)
            (counted (release-acquire s s' b name k) (max-release s' b ∙ max-acquire s s' b k))
    ]
    | inr g ↦
        let kept : h ≡ h1 = some-inj _ _ (rw (f, g, acquire_library) at e) in
        ap (λ o. slots o name)
          (release_other h2 t b g ∙ same ∙ ap (λ (x : Handler). x.sem) (sym kept))
  ]
]

-- A step that leaves the semaphore alone.
abbrev Keeps : Handler → Handler → Type 0
Keeps h h' = h'.sem ≡ h.sem

module _ (u : Urls) (j : Json) (send : Backend → Asked → Bool → Option Response) (now : ℕ) where
  buffer_hop-Keeps :
      (h : Handler) (b : Backend) (id : Identifiers) (r : Asked) (sent : Target) (res : Response)
      → Keeps h (buffer_hop u j send now h b id r sent res).1
  unfolding buffer_hop store_answer
  buffer_hop-Keeps h b id r sent res = elim (Option-cases res.body) [
    | inl e ↦ rw (e, buffer_hop)
    | inr (raw, e) ↦ rw (e, buffer_hop)
  ]

  write_each-Keeps :
      (shared : Bool) (h : Handler) (backend : Bytes) (cs : List (Identifiers × Asked))
      (buf : HopBuf)
      → Keeps h (write_each u j send now shared h backend cs buf).1
  unfolding write_each write_hop
  write_each-Keeps shared h backend [] buf = refl
  write_each-Keeps shared h backend (c ∷ cs) buf =
      write_each-Keeps shared (write_hop u j send now shared h backend c.0 c.1 buf).1 backend cs buf

  count_each-Keeps :
      (shared : Bool) (h : Handler) (cs : List (Identifiers × Asked))
      → Keeps h (count_each u j send now shared h cs)
  unfolding count_each count_call
  count_each-Keeps shared h [] = refl
  count_each-Keeps true h (c ∷ cs) = count_each-Keeps true (count_call u j send now true h) cs
  count_each-Keeps false h (c ∷ cs) = count_each-Keeps false (count_call u j send now false h) cs

  -- The three outcomes of a hop.
  land-slots :
      (h1 : Handler) (b : Backend) (id : Identifiers) (r : Asked) (sent : Target) (name : Bytes)
      (held : Option (ℕ × ℕ)) (out : Served Response)
      → ((h2 : Handler)
          → h2.sem ≡ h1.sem
          → slots (release_library h2 r.target b.name).sem name ≡ held)
      → slots (land u j send now h1 b id r sent out).1.sem name ≡ held
  unfolding land
  land-slots h1 b id r sent name held unreachable back = back h1 refl
  land-slots h1 b id r sent name held panics back = back h1 refl
  land-slots h1 b id r sent name held (serves res) back =
      back (buffer_hop u j send now h1 b id r sent res).1 (buffer_hop-Keeps h1 b id r sent res)

  fly-slots :
      (h : Handler) (b : Backend) (id : Identifiers) (r : Asked) (sent : Target) (graylisted : Bool)
      (name : Bytes)
      → slots (fly u j send now h b id r sent graylisted).1.sem name ≡ slots h.sem name
  unfolding fly
  fly-slots h b id r sent graylisted name =
      elim (Option-cases (acquire_library h r.target b.name)) [
        | inl e ↦ rw (e, fly)
        | inr (h1, e) ↦
            let back : (h2 : Handler)
                → h2.sem ≡ h1.sem
                → slots (release_library h2 r.target b.name).sem name ≡ slots h.sem name =
              λ h2 same. released h h1 h2 r.target b.name name e same in
            rw (e, fly)
              (land-slots h1 b id r sent name (slots h.sem name)
                (hop_once u j send now h1.cfg b r sent graylisted) back)
      ]

  write_result-Keeps :
      (shared : Bool) (backend : Bytes) (cs : List (Identifiers × Asked)) (out : Served HopBuf)
      (h : Handler)
      → Keeps h (write_result u j send now shared backend cs out h).1
  unfolding write_result
  write_result-Keeps shared backend cs (serves buf) h = write_each-Keeps shared h backend cs buf
  write_result-Keeps shared backend cs unreachable h = count_each-Keeps shared h cs
  write_result-Keeps shared backend cs panics h = refl

  proxy_coalesced-slots :
      (h : Handler) (b : Backend) (sent : Target) (graylisted : Bool) (leader : Identifiers × Asked)
      (others : List (Identifiers × Asked)) (name : Bytes)
      → slots (proxy_coalesced u j send now h b sent graylisted leader others).1.sem name
        ≡ slots h.sem name
  unfolding proxy_coalesced
  proxy_coalesced-slots h b sent graylisted leader others name =
      let flown = fly u j send now h b leader.0 leader.1 sent graylisted in
      ap (λ o. slots o name)
        (write_result-Keeps (is_shared u j send now others) b.name (leader ∷ others) flown.0
          flown.1)
      ∙ fly-slots h b leader.0 leader.1 sent graylisted name

  module _ (parse : Bytes → Option LoginJson) where
    finish_answer-Keeps :
        (h h' : Handler) (backend : Bytes) (id : Identifiers) (r : Asked) (sent : Target)
        (res out : Response) (cookie : Cookie)
        → finish_answer u j parse now h backend id r sent res ≡ some (out, cookie, h')
        → Keeps h h'
    unfolding finish_answer settle_answer store_answer
    finish_answer-Keeps h h' backend id r sent res out cookie e =
        elim (Option-cases
          (rewrite_proxied_response u j h.cfg res r.inbound r.target.method sent.path)) [
            | inl f ↦
                let k : no_answer ≡ some (out, cookie, h') = rw (f, finish_answer) at e in
                absurd (cc)
            | inr (mid, f) ↦
                let settled = settle_answer u j parse now h backend id r sent mid in
                let same : (mid, settled.0, settled.1) ≡ (out, cookie, h') =
                  some-inj _ _ (rw (f, finish_answer) at e) in
                ap (λ (x : Response × Cookie × Handler). x.2.sem) (sym same)
          ]

    peek_answer-Keeps :
        (h : Handler) (backend : Bytes) (id : Identifiers) (r : Asked) (res : Response)
        → Keeps h (peek_answer u j parse now h backend id r res).1
    unfolding peek_answer
    peek_answer-Keeps h backend id r res =
        elim (Bool-cases (is_login_path r.target.method r.target.path && is_success res.status)) [
          | inl e ↦ rw (e, peek_answer)
          | inr e ↦ rw (e, peek_answer)
        ]

    pass_on-Keeps :
        (h : Handler) (b : Backend) (id : Identifiers) (r : Asked) (sent : Target)
        (graylisted : Bool)
        → Keeps h (pass_on u j send now parse h b id r sent graylisted).1
    unfolding pass_on modify_response
    pass_on-Keeps h b id r sent graylisted = elim (Option-cases (send b r graylisted)) [
      | inl e ↦ rw (e, pass_on)
      | inr (res, e) ↦
          let (seen, h1) = peek_answer u j parse now h b.name id r res in
          elim (Option-cases (modify_response u j parse now h b.name id r sent res)) [
            | inl f ↦ rw (e, f, pass_on)
            | inr ((out, cookie, h'), f) ↦
                rw (e, f, pass_on)
                  (finish_answer-Keeps h1 h' b.name id r sent seen out cookie f
                    ∙ peek_answer-Keeps h b.name id r res)
          ]
    ]

serve_cached-Keeps :
    (parse_time : Bytes → Option ℤ) (h : Handler) (now : ℕ) (backend : Bytes) (id : Identifiers)
    (r : Asked)
    → Keeps h (serve_cached parse_time h now backend id r).1
unfolding serve_cached
serve_cached-Keeps parse_time h now backend id r = elim (Option-cases h.images) [
  | inl e ↦ rw (e, serve_cached)
  | inr (c, e) ↦ elim (Bool-cases (is_cacheable_request r.target.method r.target.path)) [
    | inr f ↦ rw (e, f, serve_cached)
    | inl f ↦ elim (Option-cases (get c now (image_key backend r.target r.inbound.header)).0) [
      | inl g ↦ rw (e, f, g, serve_cached)
      | inr (ent, g) ↦ rw (e, f, g, serve_cached)
    ]
  ]
]

serve_library-Keeps :
    (h : Handler) (now : ℕ) (backend : Bytes) (id : Identifiers) (r : Asked)
    → Keeps h (serve_library h now backend id r).1
unfolding serve_library
serve_library-Keeps h now backend id r = elim (Option-cases h.library) [
  | inl e ↦ rw (e, serve_library)
  | inr (c, e) ↦ elim (Option-cases (serve_library_cached c h.st now backend id r.target).0) [
    | inl f ↦ rw (e, f, serve_library)
    | inr (ent, f) ↦ rw (e, f, serve_library)
  ]
]

module _ (u : Urls) (j : Json) (send : Backend → Asked → Bool → Option Response)
    (parse_time : Bytes → Option ℤ) (parse : Bytes → Option LoginJson) (now : ℕ) where
  -- Whatever comes of a request, be it served from a cache, answered by a backend, failed or broken off by a
  -- panic, it has given back its slot of the semaphore when it ends: of each backend as many slots are taken as
  -- before, so that the requests that wait are let in as if it had not been.
  pub proxy-slots :
      (h : Handler) (b : Backend) (id : Identifiers) (r : Asked) (sent : Target) (graylisted : Bool)
      (name : Bytes)
      → slots (proxy u j send parse_time parse now h b id r sent graylisted).1.sem name
        ≡ slots h.sem name
  unfolding proxy
  proxy-slots h b id r sent graylisted name =
      let h1 = (serve_cached parse_time h now b.name id r).1 in
      let h2 = (serve_library h1 now b.name id r).1 in
      let kept1 : h1.sem ≡ h.sem = serve_cached-Keeps parse_time h now b.name id r in
      let kept2 : h2.sem ≡ h.sem = serve_library-Keeps h1 now b.name id r ∙ kept1 in
      elim (Option-cases (serve_cached parse_time h now b.name id r).0) [
        | inr (w, e) ↦ rw (e, proxy) (ap (λ o. slots o name) kept1)
        | inl e ↦ elim (Option-cases (serve_library h1 now b.name id r).0) [
          | inr (w, f) ↦ rw (e, f, proxy) (ap (λ o. slots o name) kept2)
          | inl f ↦ elim (Bool-cases (should_coalesce h2 r.target)) [
            | inl g ↦
                rw (e, f, g, proxy)
                  (proxy_coalesced-slots u j send now h2 b sent graylisted (id, r) [] name
                    ∙ ap (λ o. slots o name) kept2)
            | inr g ↦ elim (Option-cases (acquire_library h2 r.target b.name)) [
              | inl k ↦ rw (e, f, g, k, proxy) (ap (λ o. slots o name) kept2)
              | inr (h3, k) ↦
                  let done : (h4 : Handler) → Keeps h3 h4 → _ = λ h4 kept.
                    released h2 h3 h4 r.target b.name name k kept ∙ ap (λ o. slots o name) kept2 in
                  elim (Option-cases (u.parse (backend_url b))) [
                    | inl l ↦ rw (e, f, g, k, l, proxy) (done h3 refl)
                    | inr (target, l) ↦
                        let h4 = (pass_on u j send now parse h3 b id r sent graylisted).1 in
                        rw (e, f, g, k, l, proxy)
                          (done h4 (pass_on-Keeps u j send now parse h3 b id r sent graylisted))
                  ]
            ]
          ]
        ]
      ]
