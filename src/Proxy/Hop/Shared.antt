-- ===== src/Proxy/Hop/Shared.antt =====
-- What the requests that share a hop of internal/proxy/proxy_perf.go are answered, and what they hold meanwhile.
use hapudding.Base.{
  ℕ, ◌≡◌, ◌≢◌, refl, sym, ap, ◌∙◌, subst, List, [], ◌∷◌, Bool, true, Option, none, some,
  if◌then◌else◌, arith, Bool-cases, Option-cases, inl, inr, ◌⊎◌, map, take,
}
use hapudding.Text.{Bytes, equal_fold, str_eq}
use hapudding.Text.Equality.{str_eq_iff}
use hapudding.Config.{Config, Backend}
use hapudding.Store.Types.{Store}
use hapudding.Store.Tokens.{hash_token}
use hapudding.Router.Types.{Identifiers}
use hapudding.LibCache.Paths.{is_library_request, method_head}
use hapudding.LibCache.Tokens.{IsLine}
use hapudding.Proxy.LibSem.{acquire}
use hapudding.Proxy.Library.{Target, library_key, cache_key-ne}
use hapudding.Proxy.Origin.Urls.{Urls}
use hapudding.Proxy.Origin.SystemInfo.{Json}
use hapudding.Proxy.Origin.Response.{Response}
use hapudding.Proxy.Hop.State.{Handler, Asked, Written, backend_cookie}
use hapudding.Proxy.Hop.Cached.{kept_headers}
use hapudding.Proxy.Hop.Modify.{store_answer}
use hapudding.Proxy.Hop.Coalesced.{
  coalesce_key, coalesce_read_limit, acquire_library, release_library, HopBuf, Served, serves,
  unreachable, panics, hop_once, buffer_hop, land, fly, write_hop, write_each, write_result,
  is_shared, proxy_coalesced,
}

-- Two library requests share a hop only where they go to the same backend with tokens of the same hash, so that
-- no client is answered what was fetched with another's token. Backend names and hashes hold no newline.
pub coalesce_key-same :
    (st : Store) (b b' : Bytes) (id id' : Identifiers) (r r' : Asked)
    → IsLine b
    → IsLine (hash_token st id.token)
    → IsLine b'
    → IsLine (hash_token st id'.token)
    → is_library_request r.target.method r.target.path ≡ true
    → is_library_request r'.target.method r'.target.path ≡ true
    → coalesce_key st b' id' r' ≡ coalesce_key st b id r
    → (b ≡ b') × (hash_token st id.token ≡ hash_token st id'.token)
unfolding coalesce_key
coalesce_key-same st b b' id id' r r' lb lh lb' lh' first second e =
    let h = hash_token st id.token in
    let h' = hash_token st id'.token in
    let same : library_key st b' id' r'.target ≡ library_key st b id r.target =
      rw (first, second, coalesce_key) at e in
    (
      stable b b' (λ ne. cache_key-ne b h b' h' r.target r'.target lb lh lb' lh' (inl ne) same),
      stable h h' (λ ne. cache_key-ne b h b' h' r.target r'.target lb lh lb' lh' (inr ne) same),
    )
  where
    stable : (s t : Bytes) → ¬ (s ≢ t) → s ≡ t
    stable s t never = elim (Bool-cases (str_eq s t)) [
      | inl e ↦ (str_eq_iff s t).0 e
      | inr e ↦ absurd (never (λ k. ground (arith, e, str_eq_iff s t, k)))
    ]

abbrev nothing : Option Handler
nothing = none

abbrev failed : Served HopBuf
failed = unreachable

abbrev torn : Served HopBuf
torn = panics

lost : {buf : HopBuf} → ¬ (serves buf ≡ failed)
lost e = cc

broken : {buf : HopBuf} → ¬ (serves buf ≡ torn)
broken e = cc

Served-cases :
    (o : Served HopBuf) → ((buf : HopBuf) × (o ≡ serves buf)) ⊎ ((o ≡ failed) ⊎ (o ≡ torn))
Served-cases (serves buf) = inl (buf, refl)
Served-cases unreachable = inr (inl refl)
Served-cases panics = inr (inr refl)

abbrev no_writes : Served (List Written)
no_writes = unreachable

abbrev torn_writes : Served (List Written)
torn_writes = panics

unwritten : {ws : List Written} → ¬ (serves ws ≡ no_writes)
unwritten e = cc

untold : {ws : List Written} → ¬ (serves ws ≡ torn_writes)
untold e = cc

writes-inj : (ws ws' : List Written) → serves ws ≡ serves ws' → ws ≡ ws'
writes-inj ws ws' e = cc

map_ext : {A B : Type 0} (f g : A → B) → ((a : A) → f a ≡ g a) → (xs : List A) → map f xs ≡ map g xs
map_ext f g e [] = refl
map_ext f g e (x ∷ xs) = λ i. e x i ∷ map_ext f g e xs i

serves-inj : (buf buf' : HopBuf) → serves buf ≡ serves buf' → buf ≡ buf'
serves-inj buf buf' e = cc

some-inj : (h h' : Handler) → some h ≡ some h' → h ≡ h'
some-inj h h' e = cc

module _ (u : Urls) (j : Json) (send : Backend → Asked → Bool → Option Response) (now : ℕ) where
  -- What a call that shares the buffer is written; of the handler it reads the configuration only.
  abbrev written : Bool → Handler → Bytes → HopBuf → Identifiers × Asked → Written
  written shared h backend buf c = (write_hop u j send now shared h backend c.0 c.1 buf).0

  write_each_lem :
      (shared : Bool) (h : Handler) (backend : Bytes) (cs : List (Identifiers × Asked))
      (buf : HopBuf)
      → (write_each u j send now shared h backend cs buf).0 ≡ map (written shared h backend buf) cs
  unfolding write_each write_hop
  write_each_lem shared h backend [] buf = refl
  write_each_lem shared h backend (c ∷ cs) buf =
      ap (λ ws. written shared h backend buf c ∷ ws)
        (write_each_lem shared (write_hop u j send now shared h backend c.0 c.1 buf).1 backend cs
          buf)

  -- The limit that a hop of the handler is read to, and its configuration: what the semaphore does not touch.
  abbrev sight : Handler → Target → ℕ × Config
  sight h t = (coalesce_read_limit h t, h.cfg)

  sight-acquire_library :
      (h h1 : Handler) (t : Target) (b : Bytes)
      → acquire_library h t b ≡ some h1
      → sight h1 t ≡ sight h t
  unfolding acquire_library coalesce_read_limit
  sight-acquire_library h h1 t b e = elim (Option-cases h.sem) [
    | inl f ↦ ap (λ x. sight x t) (sym (some-inj h h1 (rw (f, acquire_library) at e)))
    | inr (s, f) ↦ elim (Bool-cases (is_library_request t.method t.path)) [
      | inl g ↦ elim (Option-cases (acquire s b)) [
        | inl k ↦ let never : nothing ≡ some h1 = rw (f, g, k, acquire_library) at e in absurd (cc)
        | inr (s', k) ↦
            ap (λ x. sight x t)
              (sym (some-inj (record h { sem = some s' }) h1 (rw (f, g, k, acquire_library) at e)))
      ]
      | inr g ↦ ap (λ x. sight x t) (sym (some-inj h h1 (rw (f, g, acquire_library) at e)))
    ]
  ]

  -- What a backend has answered to the first call of a flight, and how it was buffered.
  record Flown (h : Handler) (r : Asked) (out : Served Response) (buf : HopBuf) (after : Handler)
      : Type 0 where
    pub answer : Response
    pub raw : Bytes
    hopped : out ≡ serves answer
    pub whole : answer.body ≡ some raw
    same_status : buf.status ≡ answer.status
    same_header : buf.header ≡ answer.header
    cut_body : buf.body ≡ take (coalesce_read_limit h r.target) raw
    pub same_cfg : after.cfg ≡ h.cfg

  cfg-release_library : (h : Handler) (t : Target) (b : Bytes) → (release_library h t b).cfg ≡ h.cfg
  unfolding release_library
  cfg-release_library h t b = elim (Option-cases h.sem) [
    | inl e ↦ rw (e, release_library)
    | inr (s, e) ↦ elim (Bool-cases (is_library_request t.method t.path)) [
      | inl f ↦ rw (e, f, release_library)
      | inr f ↦ rw (e, f, release_library)
    ]
  ]

  cfg-buffer_hop :
      (h : Handler) (b : Backend) (id : Identifiers) (r : Asked) (sent : Target) (res : Response)
      → (buffer_hop u j send now h b id r sent res).1.cfg ≡ h.cfg
  unfolding buffer_hop store_answer
  cfg-buffer_hop h b id r sent res = elim (Option-cases res.body) [
    | inl e ↦ rw (e, buffer_hop)
    | inr (raw, e) ↦ rw (e, buffer_hop)
  ]

  land-Flown :
      (h : Handler) (b : Backend) (id : Identifiers) (r : Asked) (sent : Target)
      (out : Served Response) (buf : HopBuf)
      → (land u j send now h b id r sent out).0 ≡ serves buf
      → Flown h r out buf (land u j send now h b id r sent out).1
  unfolding land buffer_hop store_answer
  land-Flown h b id r sent unreachable buf e = absurd (lost (sym e))
  land-Flown h b id r sent panics buf e = absurd (broken (sym e))
  land-Flown h b id r sent (serves res) buf e = elim (Option-cases res.body) [
    | inl f ↦ absurd (lost (sym (rw (f, land, buffer_hop) at e)))
    | inr (raw, f) ↦
        let whole_buf : HopBuf = record {
          status = res.status;
          header = res.header;
          body = take (coalesce_read_limit h r.target) raw;
        } in
        let same : whole_buf ≡ buf = serves-inj _ _ (rw (f, land, buffer_hop) at e) in
        record {
          answer = res;
          raw = raw;
          hopped = refl;
          whole = f;
          same_status = ap (λ (x : HopBuf). x.status) (sym same);
          same_header = ap (λ (x : HopBuf). x.header) (sym same);
          cut_body = ap (λ (x : HopBuf). x.body) (sym same);
          same_cfg =
              cfg-release_library (buffer_hop u j send now h b id r sent res).1 r.target b.name
              ∙ cfg-buffer_hop h b id r sent res;
        }
  ]

  fly-Flown :
      (h : Handler) (b : Backend) (id : Identifiers) (r : Asked) (sent : Target) (graylisted : Bool)
      (buf : HopBuf)
      → (fly u j send now h b id r sent graylisted).0 ≡ serves buf
      → Flown h r
          (hop_once u j send now h.cfg b r sent graylisted)
          buf
          (fly u j send now h b id r sent graylisted).1
  unfolding fly
  fly-Flown h b id r sent graylisted buf e =
      elim (Option-cases (acquire_library h r.target b.name)) [
        | inl f ↦ absurd (lost (sym (rw (f, fly) at e)))
        | inr (h1, f) ↦
            let seen = sight-acquire_library h h1 r.target b.name f in
            let same_cfg : h1.cfg ≡ h.cfg = ap (λ (x : ℕ × Config). x.1) seen in
            let out = hop_once u j send now h1.cfg b r sent graylisted in
            let landed = land-Flown h1 b id r sent out buf (rw (f, fly) at e) in
            rw (f, fly)
              (record {
                answer = landed.answer;
                raw = landed.raw;
                hopped =
                    ap (λ (c : Config). hop_once u j send now c b r sent graylisted) (sym same_cfg)
                    ∙ landed.hopped;
                whole = landed.whole;
                same_status = landed.same_status;
                same_header = landed.same_header;
                cut_body = landed.cut_body ∙ ap (λ (x : ℕ × Config). take x.0 landed.raw) seen;
                same_cfg = landed.same_cfg ∙ same_cfg;
              })
      ]

  -- What a call of a flight is written of the answer of the backend.
  abbrev pub shared_answer : Handler → Bytes → Response → Bytes → Identifiers × Asked → Written
  shared_answer h backend answer seen c = record {
    status = answer.status;
    header = kept_headers answer.header;
    age = none;
    cookie = some (backend_cookie c.1.inbound backend h.cfg.affinity.device_ttl);
    body = if equal_fold c.1.target.method method_head then [] else seen;
  }

  written-shared_answer :
      (shared : Bool) (h after : Handler) (b : Backend) (r : Asked) (out : Served Response)
      (buf : HopBuf) (flown : Flown h r out buf after) (c : Identifiers × Asked)
      → written shared after b.name buf c
        ≡ shared_answer h b.name flown.answer (take (coalesce_read_limit h r.target) flown.raw) c
  unfolding write_hop
  written-shared_answer shared h after b r out buf flown c = λ i. record {
    status = flown.same_status i;
    header = kept_headers (flown.same_header i);
    age = none;
    cookie = some (backend_cookie c.1.inbound b.name (flown.same_cfg i).affinity.device_ttl);
    body = if equal_fold c.1.target.method method_head then [] else flown.cut_body i;
  }

  -- The calls of a flight that is answered are all written the one answer of the backend to the first of them,
  -- in the order in which they are written to, with a cookie of each one's own: its status, its headers but for those
  -- that are skipped, and of its body the bytes up to the limit of the cache, or none where the method is HEAD.
  pub proxy_coalesced-answers :
      (h : Handler) (b : Backend) (sent : Target) (graylisted : Bool) (leader : Identifiers × Asked)
      (others : List (Identifiers × Asked)) (ws : List Written)
      → (proxy_coalesced u j send now h b sent graylisted leader others).0 ≡ serves ws
      → (answer : Response) × (raw : Bytes) × (hop_once u j send now h.cfg b leader.1 sent
            graylisted
          ≡ serves answer)
        × (answer.body ≡ some raw)
        × (ws
            ≡ map
                (shared_answer h b.name answer (take (coalesce_read_limit h leader.1.target) raw))
                (leader ∷ others))
  unfolding proxy_coalesced write_result
  proxy_coalesced-answers h b sent graylisted leader others ws e =
      let calls = leader ∷ others in
      let result = fly u j send now h b leader.0 leader.1 sent graylisted in
      let shared = is_shared u j send now others in
      elim (Served-cases result.0) [
        | inl (buf, f) ↦
            let flown = fly-Flown h b leader.0 leader.1 sent graylisted buf f in
            let wrote : serves (write_each u j send now shared result.1 b.name calls buf).0
                ≡ serves ws =
              subst (λ o. (write_result u j send now shared b.name calls o result.1).0 ≡ serves ws)
                f e in
            let seen = take (coalesce_read_limit h leader.1.target) flown.raw in
            (
              flown.answer,
              flown.raw,
              flown.hopped,
              flown.whole,
              sym (writes-inj _ _ wrote)
                  ∙ write_each_lem shared result.1 b.name calls buf
                  ∙ map_ext (written shared result.1 b.name buf)
                      (shared_answer h b.name flown.answer seen)
                      (written-shared_answer shared h result.1 b leader.1 _ buf flown) calls,
            )
        | inr (inl f) ↦ absurd (
            unwritten (
              sym (
                subst
                  (λ o. (write_result u j send now shared b.name calls o result.1).0 ≡ serves ws) f
                  e)))
        | inr (inr f) ↦ absurd (
            untold (
              sym (
                subst
                  (λ o. (write_result u j send now shared b.name calls o result.1).0 ≡ serves ws) f
                  e)))
      ]
