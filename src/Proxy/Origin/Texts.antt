-- ===== src/Proxy/Origin/Texts.antt =====
-- Which texts `rewriteSystemInfoJSON` of internal/proxy/origin.go moves to the inbound origin.
use hapudding.Base.{
  ◌≡◌, refl, sym, subst, List, [], ◌∷◌, true, false, Option, none, some, arith, Bool-cases,
  Option-cases, inl, inr,
}
use hapudding.Text.{Bytes, is_empty}
use hapudding.Proxy.Origin.Urls.{Urls}
use hapudding.Proxy.Origin.Playlist.{is_url}
use hapudding.Proxy.Origin.SystemInfo.{
  Item, text, raw, Value, one, items, rewrite_text, rewrite_item, rewrite_url_array, rewrite_value,
}

-- The text is an absolute URL that starts with http or https, and the inbound origin is a URL with a host.
pub record Addresses (u : Urls) (inbound t : Bytes) (v w : u.Url) : Type 0 where
  is_web : is_url t ≡ true
  origin : u.parse inbound ≡ some w
  hosted : is_empty (u.host w) ≡ false
  parsed : u.parse t ≡ some v
  absolute : u.is_abs v ≡ true

-- Such a text is moved to the inbound origin, and every other stays.
pub data MovedText (u : Urls) (inbound t : Bytes) : Bytes → Type 0 where
  moved :
      (v w : u.Url)
      → Addresses u inbound t v w
      → MovedText u inbound t (u.print (u.with_origin w v))
  kept : ((v w : u.Url) → ¬ (Addresses u inbound t v w)) → MovedText u inbound t t

abbrev pub MovedItem : (u : Urls) (inbound : Bytes) {R : Type 0} → Item R → Item R → Type 0
MovedItem u inbound (text t) (text s) = MovedText u inbound t s
MovedItem u inbound (text t) (raw r) = ⊥
MovedItem u inbound (raw r) j = j ≡ raw r

abbrev pub MovedItems :
    (u : Urls) (inbound : Bytes) {R : Type 0} → List (Item R) → List (Item R) → Type 0
MovedItems u inbound [] js = js ≡ []
MovedItems u inbound (i ∷ is) [] = ⊥
MovedItems u inbound (i ∷ is) (j ∷ js) = MovedItem u inbound i j × MovedItems u inbound is js

abbrev pub MovedValue : (u : Urls) (inbound : Bytes) {R : Type 0} → Value R → Value R → Type 0
MovedValue u inbound (one i) (one j) = MovedItem u inbound i j
MovedValue u inbound (one i) (items js) = ⊥
MovedValue u inbound (items is) (items js) = MovedItems u inbound is js
MovedValue u inbound (items is) (one j) = ⊥

-- No field goes or comes.
abbrev pub MovedField :
    (u : Urls) (inbound : Bytes) {R : Type 0} → Option (Value R) → Option (Value R) → Type 0
MovedField u inbound none out = out ≡ none
MovedField u inbound (some v) none = ⊥
MovedField u inbound (some v) (some w) = MovedValue u inbound v w

-- A value behind the loop, and a field.
abbrev pub rewritten : (u : Urls) (inbound : Bytes) {R : Type 0} → Value R → Value R
rewritten u inbound v = elim (rewrite_value u inbound v) [ none ↦ v | some w ↦ w ]

abbrev pub rewritten_field :
    (u : Urls) (inbound : Bytes) {R : Type 0} → Option (Value R) → Option (Value R)
rewritten_field u inbound none = none
rewritten_field u inbound (some v) = some (rewritten u inbound v)

abbrev or_else : {A : Type 0} → A → Option A → A
or_else a none = a
or_else a (some b) = b

module _ (u : Urls) (inbound : Bytes) where
  rewrite_text-MovedText :
      (t : Bytes) → MovedText u inbound t (or_else t (rewrite_text u inbound t))
  unfolding rewrite_text
  rewrite_text-MovedText t = elim (Bool-cases (is_url t)) [
    | inr e ↦ rw (e, rewrite_text) (kept (λ v w a. absurd (ground (arith, a.is_web, e))))
    | inl e ↦ elim (Option-cases (u.parse inbound)) [
      | inl f ↦ rw (e, f, rewrite_text) (kept (λ v w a. absurd (let o = a.origin in cc)))
      | inr (w, f) ↦ elim (Bool-cases (is_empty (u.host w))) [
        | inl g ↦
            rw (e, f, g, rewrite_text)
              (kept (λ v w' a. absurd (let o = a.origin in let h = a.hosted in cc)))
        | inr g ↦ elim (Option-cases (u.parse t)) [
          | inl k ↦ rw (e, f, g, k, rewrite_text) (kept (λ v w a. absurd (let o = a.parsed in cc)))
          | inr (v, k) ↦ elim (Bool-cases (u.is_abs v)) [
            | inl l ↦
                rw (e, f, g, k, l, rewrite_text)
                  (moved v w
                    (record { is_web = e; origin = f; hosted = g; parsed = k; absolute = l }))
            | inr l ↦
                rw (e, f, g, k, l, rewrite_text)
                  (kept (λ v' w' a. absurd (let o = a.parsed in let h = a.absolute in cc)))
          ]
        ]
      ]
    ]
  ]

  module _ {R : Type 0} where
    rewrite_item-MovedItem :
        (i : Item R) → MovedItem u inbound i (or_else i (rewrite_item u inbound i))
    unfolding rewrite_item
    rewrite_item-MovedItem (raw r) = refl
    rewrite_item-MovedItem (text t) =
        let h = rewrite_text-MovedText t in
        elim (Option-cases (rewrite_text u inbound t)) [
          | inl e ↦ rw (e, rewrite_item) (rw e at h)
          | inr (s, e) ↦ rw (e, rewrite_item) (rw e at h)
        ]

    or_else-rewrite_url_array :
        (i : Item R) (is : List (Item R))
        → or_else (i ∷ is) (rewrite_url_array u inbound (i ∷ is))
          ≡ or_else i (rewrite_item u inbound i) ∷ or_else is (rewrite_url_array u inbound is)
    unfolding rewrite_url_array
    or_else-rewrite_url_array i is = elim (Option-cases (rewrite_item u inbound i)) [
      | inl e ↦ elim (Option-cases (rewrite_url_array u inbound is)) [
        | inl f ↦ rw (e, f, rewrite_url_array)
        | inr (js, f) ↦ rw (e, f, rewrite_url_array)
      ]
      | inr (j, e) ↦ elim (Option-cases (rewrite_url_array u inbound is)) [
        | inl f ↦ rw (e, f, rewrite_url_array)
        | inr (js, f) ↦ rw (e, f, rewrite_url_array)
      ]
    ]

    rewrite_url_array-MovedItems :
        (is : List (Item R)) → MovedItems u inbound is (or_else is (rewrite_url_array u inbound is))
    unfolding rewrite_url_array
    rewrite_url_array-MovedItems [] = refl
    rewrite_url_array-MovedItems (i ∷ is) =
        subst (MovedItems u inbound (i ∷ is)) (sym (or_else-rewrite_url_array i is))
          (rewrite_item-MovedItem i, rewrite_url_array-MovedItems is)

    rewritten-one :
        (i : Item R) → rewritten u inbound (one i) ≡ one (or_else i (rewrite_item u inbound i))
    unfolding rewrite_value
    rewritten-one i = elim (Option-cases (rewrite_item u inbound i)) [
      | inl e ↦ rw (e, rewritten, rewrite_value)
      | inr (j, e) ↦ rw (e, rewritten, rewrite_value)
    ]

    rewritten-items :
        (is : List (Item R))
        → rewritten u inbound (items is) ≡ items (or_else is (rewrite_url_array u inbound is))
    unfolding rewrite_value
    rewritten-items is = elim (Option-cases (rewrite_url_array u inbound is)) [
      | inl e ↦ rw (e, rewritten, rewrite_value)
      | inr (js, e) ↦ rw (e, rewritten, rewrite_value)
    ]

    rewritten-MovedValue : (v : Value R) → MovedValue u inbound v (rewritten u inbound v)
    rewritten-MovedValue (one i) =
        subst (MovedValue u inbound (one i)) (sym (rewritten-one i)) (rewrite_item-MovedItem i)
    rewritten-MovedValue (items is) =
        subst (MovedValue u inbound (items is)) (sym (rewritten-items is))
          (rewrite_url_array-MovedItems is)

    pub rewritten_field-MovedField :
        (f : Option (Value R)) → MovedField u inbound f (rewritten_field u inbound f)
    rewritten_field-MovedField none = refl
    rewritten_field-MovedField (some v) = rewritten-MovedValue v
