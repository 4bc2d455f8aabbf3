-- ===== src/Filter/Tests.antt =====
-- Concrete streams for v99/filter/source_quality.py, and the theorem at inputs.
use v91_core_system.Prelude.{String, ◌≡◌, refl, true, false, not, ◌&&◌, List, [], ◌∷◌}
use v91_core_system.Prelude.Dict.{Dict, lookup, insert}
use v91_core_system.Prelude.Float.{whole}
use v91_core_system.Prelude.Int.{ℤ}
use v91_core_system.Prelude.Result.{ok, err}
use v91_core_system.Prelude.Text.{lower, is_blank, is_space}
use v91_core_system.Prelude.Value.{Value, str, list, dict, nil, end, field}
use v91_core_system.Filter.Sorted.{keep, acceptable, blocked, items_in, filter_stream_exact}
use v91_core_system.Filter.Sources.{
  Source, trusted, blocked_local, unhashable, is_reference_text, is_valid_reference, judge,
  load_source, load_sources, trust_registry, trust_of, classify, sort_item, filter_stream,
}

abbrev config : Value ℤ
config = dict (
    field "sources"
      (dict (
        field "Weather " (dict (field "trust" (str "TRUSTED") end))
          (field "spam" (dict (field "trust" (str "BLOCKED_LOCAL") end)) end)))
      end)

abbrev sources : Dict (Source ℤ)
sources =
    ("weather", record { trust = trusted; note = str "" })
    ∷ ("spam", record { trust = blocked_local; note = str "" })
    ∷ []

loaded : trust_registry lower config ≡ ok sources
unfolding trust_registry load_sources load_source insert is_blank is_space
loaded = refl

list_as_trust :
    trust_registry {F = ℤ} lower
      (dict (field "sources" (dict (field "a" (dict (field "trust" (list nil) end)) end)) end))
    ≡ err unhashable
unfolding trust_registry load_sources load_source is_blank is_space
list_as_trust = refl

reference : is_valid_reference {F = ℤ} lower (str " https://example.org ") ≡ true
unfolding is_valid_reference is_reference_text is_space
reference = refl

no_reference : is_valid_reference {F = ℤ} lower (str "trust me") ≡ false
unfolding is_valid_reference is_reference_text is_space
no_reference = refl

abbrev item : String → String → Value ℤ
item source evidence = dict (field "source" (str source) (field "evidence" (str evidence) end))

abbrev stream : List (Value ℤ)
stream = item "WEATHER" "ledger::7" ∷ item "spam" "/a" ∷ item "weather" "trust me" ∷ str "x" ∷ []

stream_lem :
    items_in ⦃fl = whole⦄ lower sources true
      (filter_stream ⦃fl = whole⦄ lower sources true stream).accepted_local
    ≡ item "WEATHER" "ledger::7" ∷ []
unfolding filter_stream sort_item classify judge trust_of lookup is_valid_reference
    is_reference_text is_space is_blank
stream_lem = refl

filter_stream_exact_example :
    (items_in ⦃fl = whole⦄ lower sources true
        (filter_stream ⦃fl = whole⦄ lower sources true stream).accepted_local
      ≡ keep (acceptable ⦃fl = whole⦄ lower sources true) stream)
    × (items_in ⦃fl = whole⦄ lower sources true
          (filter_stream ⦃fl = whole⦄ lower sources true stream).quarantined_local
        ≡ keep (blocked ⦃fl = whole⦄ lower sources true) stream)
    × (items_in ⦃fl = whole⦄ lower sources true
          (filter_stream ⦃fl = whole⦄ lower sources true stream).review
        ≡ keep
            (λ i.
              not (acceptable ⦃fl = whole⦄ lower sources true i)
              && not (blocked ⦃fl = whole⦄ lower sources true i))
            stream)
filter_stream_exact_example = filter_stream_exact ⦃fl = whole⦄ lower sources true stream
