-- ===== src/Filter/Sorted.antt =====
-- Where v99/filter/source_quality.py puts the items of a stream.
use v91_core_system.Prelude.{
  String, ◌≡◌, refl, ap, ◌∙◌, Bool, true, false, not, ◌&&◌, ◌||◌, Option, none, some, List, [], ◌∷◌,
  map,
}
use v91_core_system.Prelude.Dict.{Dict}
use v91_core_system.Prelude.Float.{Floats}
use v91_core_system.Prelude.Value.{Value, truthy}
use v91_core_system.Filter.Sources.{
  Trust, trusted, unverified, blocked_local, Source, judge, trust_of, entries_of, is_some_valid,
  classify, Entry, Buckets, place, source_of, sort_item, filter_stream,
}

abbrev add_if {ℓ} : {A : Type ℓ} → Bool → A → List A → List A
add_if true x l = x ∷ l
add_if false x l = l

-- The elements that pass a test, in order.
abbrev pub keep {ℓ} : {A : Type ℓ} → (A → Bool) → List A → List A
keep p [] = []
keep p (x ∷ l) = add_if (p x) x (keep p l)

abbrev pub is_trusted : Trust → Bool
is_trusted trusted = true
is_trusted _ = false

abbrev pub is_blocked : Trust → Bool
is_blocked blocked_local = true
is_blocked _ = false

module _ ⦃fl : Floats⦄ (lower : String → String) (g : Dict (Source fl.Carrier))
    (validate : Bool) where
  -- A trusted source with evidence, which refers to something wherever it is validated.
  abbrev accepts : Option (Value fl.Carrier × Value fl.Carrier) → Bool
  accepts none = false
  accepts (some (source, evidence)) =
      is_trusted (trust_of lower g source)
      && truthy evidence
      && (not validate || is_some_valid lower (entries_of lower evidence))

  abbrev blocks : Option (Value fl.Carrier × Value fl.Carrier) → Bool
  blocks none = false
  blocks (some (source, evidence)) = is_blocked (trust_of lower g source)

  abbrev pub acceptable : Value fl.Carrier → Bool
  acceptable item = accepts (source_of lower item)

  abbrev pub blocked : Value fl.Carrier → Bool
  blocked item = blocks (source_of lower item)

  abbrev pub items_in : List (Entry lower) → List (Value fl.Carrier)
  items_in = map (λ e. e.item)

  -- What one entry adds to the buckets.
  Adds : Bool → Bool → Value fl.Carrier → Buckets lower → Buckets lower → Type 0
  Adds a q item b c =
      (items_in c.accepted_local ≡ add_if a item (items_in b.accepted_local))
      × (items_in c.quarantined_local ≡ add_if q item (items_in b.quarantined_local))
      × (items_in c.review ≡ add_if (not a && not q) item (items_in b.review))

  place-Adds :
      (t : Trust) (v supplied valid : Bool) (e : Entry lower) (b : Buckets lower)
      → Adds
          (is_trusted t && supplied && (not v || valid))
          (is_blocked t)
          e.item
          b
          (place lower (judge t v supplied (v && supplied && valid)).0 e b)
  unfolding judge Adds
  place-Adds unverified v s o e b = (refl, refl, refl)
  place-Adds blocked_local v s o e b = (refl, refl, refl)
  place-Adds trusted true true true e b = (refl, refl, refl)
  place-Adds trusted true true false e b = (refl, refl, refl)
  place-Adds trusted true false o e b = (refl, refl, refl)
  place-Adds trusted false true o e b = (refl, refl, refl)
  place-Adds trusted false false o e b = (refl, refl, refl)

  sort_item-Adds :
      (item : Value fl.Carrier) (s : Option (Value fl.Carrier × Value fl.Carrier))
      (b : Buckets lower)
      → Adds (accepts s) (blocks s) item b (sort_item lower g validate item s b)
  unfolding sort_item classify Adds
  sort_item-Adds item none b = (refl, refl, refl)
  sort_item-Adds item (some (source, evidence)) b =
      place-Adds (trust_of lower g source) validate (truthy evidence)
        (is_some_valid lower (entries_of lower evidence))
        (record { item = item; verdict = some (classify lower g source evidence validate) }) b

  -- Items are accepted exactly if their source is trusted and has evidence, which refers to something
  -- if it is validated; those of blocked sources are quarantined, all others stay for review, and the
  -- order is kept.
  pub filter_stream_exact :
      (items : List (Value fl.Carrier))
      → (items_in (filter_stream lower g validate items).accepted_local ≡ keep acceptable items)
        × (items_in (filter_stream lower g validate items).quarantined_local ≡ keep blocked items)
        × (items_in (filter_stream lower g validate items).review
            ≡ keep (λ i. not (acceptable i) && not (blocked i)) items)
  unfolding filter_stream Adds
  filter_stream_exact [] = (refl, refl, refl)
  filter_stream_exact (item ∷ items) =
      let (a, q, r) = filter_stream_exact items in
      let rest = filter_stream lower g validate items in
      let (a1, q1, r1) = sort_item-Adds item (source_of lower item) rest in
      (
        a1 ∙ ap (λ l. add_if (acceptable item) item l) a,
        q1 ∙ ap (λ l. add_if (blocked item) item l) q,
        r1 ∙ ap (λ l. add_if (not (acceptable item) && not (blocked item)) item l) r,
      )
