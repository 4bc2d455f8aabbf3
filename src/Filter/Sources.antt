-- ===== src/Filter/Sources.antt =====
-- v99/filter/source_quality.py: references, the trust configuration, `classify` and `filter_stream`.
-- `str.lower`, which knows all of Unicode, is a parameter.
use v91_core_system.Prelude.{
  leb, eqb, ◌==◌, String, Bool, true, false, not, ◌&&◌, ◌||◌, Option, none, some, List, [], ◌∷◌,
  any, all, if◌then◌else◌,
}
use v91_core_system.Prelude.Dict.{Dict, lookup, insert}
use v91_core_system.Prelude.Float.{Floats}
use v91_core_system.Prelude.Result.{Result, ok, err, raise_if, or_raise, ◌>>=◌, ◌>>◌}
use v91_core_system.Prelude.Text.{codes, count_chars, is_blank, strip, one_of}
use v91_core_system.Prelude.Value.{
  Value, str, list, dict, Fields, end, field, elements, get, get_value, truthy, as_dict, as_str,
  as_text,
}
use Prim.Native.Nat.{ℕ}

pub data Trust : Type 0 where
  trusted unverified blocked_local : Trust

pub data StreamVerdict : Type 0 where
  accept_local quarantine_local review_required : StreamVerdict

-- The texts of `reason`.
pub data Reason : Type 0 where
  source_blocked reference_valid evidence_invalid legacy_evidence no_evidence not_classified :
      Reason

pub data ConfigError : Type 0 where
  no_sources empty_name bad_trust unhashable : ConfigError

pub record Source (F : Type 0) : Type 0 where
  pub trust : Trust
  pub note : Value F

pub record SourceVerdict (F : Type 0) : Type 0 where
  pub source : Value F
  pub trust : Trust
  pub verdict : StreamVerdict
  pub reason : Reason
  pub evidence_supplied : Bool
  pub evidence_reference_valid : Bool

abbrev pub reference_kinds : List String
reference_kinds = "url" ∷ "doi" ∷ "sha256" ∷ "path" ∷ "citation" ∷ "ledger_id" ∷ []

-- `s.startswith(t)` and `t in s`, of code points.
abbrev starts : List ℕ → List ℕ → Bool
starts [] s = true
starts (a ∷ t) [] = false
starts (a ∷ t) (b ∷ s) = eqb a b && starts t s

abbrev occurs : List ℕ → List ℕ → Bool
occurs t [] = starts t []
occurs t (b ∷ s) = starts t (b ∷ s) || occurs t s

-- `[0-9a-f]{64}`, of a text without white space at its end.
abbrev is_digest : String → Bool
is_digest s =
    eqb (count_chars s) 64 && all (λ c. (leb 48 c && leb c 57) || (leb 97 c && leb c 102)) (codes s)

-- A text without white space around it that refers to something.
unfoldable pub is_reference_text : String → Bool
is_reference_text s =
    if s == ""
    then false
    else any (λ t. starts (codes t) (codes s)) ("http://" ∷ "https://" ∷ "doi:" ∷ "DOI:" ∷ "/" ∷ [])
      || is_digest s
      || occurs (codes "::") (codes s)

abbrev as_trust : String → Option Trust
as_trust s =
    if s == "TRUSTED"
    then some trusted
    else if s == "UNVERIFIED"
    then some unverified
    else if s == "BLOCKED_LOCAL"
    then some blocked_local
    else none

-- The verdict and its reason, from the trust, whether evidence is validated, supplied and valid.
unfoldable pub judge : Trust → Bool → Bool → Bool → StreamVerdict × Reason
judge blocked_local validate supplied valid = (quarantine_local, source_blocked)
judge trusted validate supplied valid =
    if validate && valid
    then (accept_local, reference_valid)
    else if validate && supplied && not valid
    then (review_required, evidence_invalid)
    else if not validate && supplied
    then (accept_local, legacy_evidence)
    else (review_required, no_evidence)
judge unverified validate supplied valid = (review_required, not_classified)

module _ {F : Type 0} (lower : String → String) where
  abbrev is_kind : Value F → Bool
  is_kind (str s) = one_of (lower (strip s)) reference_kinds
  is_kind _ = false

  abbrev pub is_text : Value F → Bool
  is_text v = elim (as_text v) [ none ↦ false | some s ↦ true ]

  -- `_is_valid_reference`
  unfoldable pub is_valid_reference : Value F → Bool
  unfolding is_reference_text
  is_valid_reference (dict d) = is_kind (get_value "kind" d) && is_text (get_value "value" d)
  is_valid_reference (str s) = is_reference_text (strip s)
  is_valid_reference _ = false

  -- `entry.get("trust") not in VALID_TRUST_LEVELS`, which raises a TypeError for a list or an object.
  abbrev trust_level : Value F → Result ConfigError Trust
  trust_level (str s) = or_raise (as_trust s) bad_trust
  trust_level (list l) = err unhashable
  trust_level (dict d) = err unhashable
  trust_level _ = err bad_trust

  -- `entry.get("note", "")`
  abbrev note_in : Fields F → Value F
  note_in d = elim (get "note" d) [ none ↦ str "" | some v ↦ v ]

  unfoldable pub load_source : String → Value F → Result ConfigError (Source F)
  load_source name v = do
    raise_if (is_blank name) empty_name
    entry ← or_raise (as_dict v) bad_trust
    trust ← trust_level (get_value "trust" entry)
    ok (record { trust = trust; note = note_in entry })

  -- The loop over the sources, from those that are loaded on.
  unfoldable pub load_sources : Fields F → Dict (Source F) → Result ConfigError (Dict (Source F))
  unfolding load_source
  load_sources end loaded = ok loaded
  load_sources (field name v fs) loaded = do
    source ← load_source name v
    load_sources fs (insert (lower (strip name)) source loaded)

  -- `SourceTrustRegistry(config)`
  unfoldable pub trust_registry : Value F → Result ConfigError (Dict (Source F))
  unfolding load_sources
  trust_registry config = do
    fields ← or_raise (as_dict config) no_sources
    sources ← or_raise (as_dict (get_value "sources" fields)) no_sources
    load_sources sources []

  abbrev pub trust_or_unverified : Option (Source F) → Trust
  trust_or_unverified none = unverified
  trust_or_unverified (some s) = s.trust

  unfoldable pub trust_of : Dict (Source F) → Value F → Trust
  trust_of g v = elim (as_text v) [
    | none ↦ unverified
    | some s ↦ trust_or_unverified (lookup (lower (strip s)) g)
  ]

  unfoldable pub note_of : Dict (Source F) → Value F → Value F
  note_of g v = elim (as_str v) [
    | none ↦ str ""
    | some s ↦ elim (lookup (lower (strip s)) g) [ none ↦ str "" | some x ↦ x.note ]
  ]

  -- The pieces of evidence: those of a list, or one.
  abbrev pub entries_of : Value F → List (Value F)
  entries_of (list l) = elements l
  entries_of v = v ∷ []

  abbrev pub is_some_valid : List (Value F) → Bool
  is_some_valid [] = false
  is_some_valid (e ∷ es) = all is_valid_reference (e ∷ es)

module _ ⦃fl : Floats⦄ (lower : String → String) where
  -- `classify` of a source with its evidence, which is `None` if there is none.
  unfoldable pub classify :
      Dict (Source fl.Carrier)
      → Value fl.Carrier
      → Value fl.Carrier
      → Bool
      → SourceVerdict fl.Carrier
  unfolding trust_of judge is_valid_reference
  classify g source evidence validate =
      let supplied = truthy evidence in
      let valid = validate && supplied && is_some_valid lower (entries_of lower evidence) in
      let judged = judge (trust_of lower g source) validate supplied valid in
      record {
        source = source;
        trust = trust_of lower g source;
        verdict = judged.0;
        reason = judged.1;
        evidence_supplied = supplied;
        evidence_reference_valid = valid;
      }

  -- An item with its verdict, or `None` for an item without a source.
  pub record Entry : Type 0 where
    pub item : Value fl.Carrier
    pub verdict : Option (SourceVerdict fl.Carrier)

  pub record Buckets : Type 0 where
    pub accepted_local : List Entry
    pub quarantined_local : List Entry
    pub review : List Entry

  abbrev pub place : StreamVerdict → Entry → Buckets → Buckets
  place accept_local e b = record b { accepted_local = e ∷ b.accepted_local }
  place quarantine_local e b = record b { quarantined_local = e ∷ b.quarantined_local }
  place review_required e b = record b { review = e ∷ b.review }

  -- The source of an item, and its evidence.
  abbrev pub source_of : Value fl.Carrier → Option (Value fl.Carrier × Value fl.Carrier)
  source_of (dict d) = elim (as_str (get_value "source" d)) [
    | none ↦ none
    | some s ↦ some (str s, get_value "evidence" d)
  ]
  source_of _ = none

  -- One round of the loop, before the items that follow.
  unfoldable pub sort_item :
      Dict (Source fl.Carrier)
      → Bool
      → Value fl.Carrier
      → Option (Value fl.Carrier × Value fl.Carrier)
      → Buckets
      → Buckets
  unfolding classify
  sort_item g validate item none b =
      place review_required (record { item = item; verdict = none }) b
  sort_item g validate item (some (source, evidence)) b =
      let v = classify g source evidence validate in
      place v.verdict (record { item = item; verdict = some v }) b

  unfoldable pub filter_stream : Dict (Source fl.Carrier) → Bool → List (Value fl.Carrier) → Buckets
  unfolding sort_item
  filter_stream g validate [] = record { accepted_local = []; quarantined_local = []; review = [] }
  filter_stream g validate (item ∷ items) =
      sort_item g validate item (source_of item) (filter_stream g validate items)
