-- ===== src/Guardrail/Decisions.antt =====
-- What the policy of addons/v91_guardrail/core.py allows.
use v91_core_system.Prelude.{
  String, ◌≡◌, ◌↔◌, refl, ap, ◌∙◌, inl, inr, Bool, true, false, not, ◌&&◌, Option, none, some, List,
  [], ◌∷◌, ◌++◌, map, length, any, arith, Bool-cases,
}
use v91_core_system.Prelude.Sorting.{sorted, length-sorted}
use v91_core_system.Prelude.Text.{is_blank, join}
use v91_core_system.Guardrail.Policy.{
  PolicyContext, allow_local_review, topic_patterns, high_risk_patterns, context_reasons, decide,
  found, evaluate_text, context_or_default, evaluate,
}

-- What a context asks for is granted, and a local analysis is allowed.
pub record IsHarmless (c : PolicyContext) : Type 0 where
  pub analysis : c.allow_read_only_analysis ≡ true
  pub private : c.private_data_requested ≡ false
  pub network : c.network_requested && not c.source_is_authorized ≡ false
  pub destructive : c.destructive_action_requested && not c.human_approved ≡ false
  pub privilege : c.privilege_change_requested ≡ false
  pub execution : c.execute_code_requested && not c.human_approved ≡ false

append_none {ℓ} : {A : Type ℓ} (l m : List A) → l ++ m ≡ [] → (l ≡ []) × (m ≡ [])
append_none [] m h = (refl, h)
append_none (x ∷ l) m h = cc

context_reasons-IsHarmless :
    (c : PolicyContext) → context_reasons c ≡ [] → c.allow_read_only_analysis ≡ true → IsHarmless c
unfolding context_reasons
context_reasons-IsHarmless c h analysis = record {
  analysis = analysis;
  private = ground arith;
  network = ground arith;
  destructive = ground arith;
  privilege = ground arith;
  execution = ground arith;
}

IsHarmless-context_reasons : (c : PolicyContext) → IsHarmless c → context_reasons c ≡ []
unfolding context_reasons
IsHarmless-context_reasons c h =
    rw (h.private, h.network, h.destructive, h.privilege, h.execution) (refl)

module _ (search : String → String → Bool) where
  -- A text that is not blank and has none of the patterns.
  pub record IsPlain (proposal : Option String) : Type 0 where
    pub text : String
    pub given : proposal ≡ some text
    pub not_blank : is_blank text ≡ false
    pub no_topic : any (λ p. search p.1 text) topic_patterns ≡ false
    pub no_cue : any (λ p. search p.1 text) high_risk_patterns ≡ false

  found_none :
      (text : String) (ps : List (String × String))
      → (any (λ p. search p.1 text) ps ≡ false) ↔ (found search text ps ≡ [])
  unfolding found
  found_none text [] = (λ h. refl, λ h. refl)
  found_none text ((name, pattern) ∷ ps) =
      let (down, up) = found_none text ps in (λ h. ground (arith, down), λ h. ground (arith, up))

  sorted_none : (l : List String) → (sorted l ≡ []) ↔ (l ≡ [])
  unfolding sorted
  sorted_none [] = (λ h. h, λ h. h)
  sorted_none (s ∷ l) =
      (λ h. absurd (omega (arith, length-sorted (s ∷ l), ap (λ m. length m) h)), λ h. cc)

  cues_none : (l : List String) → (map (λ cue. join "HIGH_RISK_CUE:" cue) l ≡ []) ↔ (l ≡ [])
  cues_none [] = (λ h. refl, λ h. refl)
  cues_none (s ∷ l) = (λ h. cc, λ h. cc)

  decide_allow :
      (reasons flags : List String) (c : PolicyContext)
      → ((decide reasons flags c).status ≡ allow_local_review)
        ↔ ((reasons ≡ []) × (flags ≡ []) × (c.allow_read_only_analysis ≡ true))
  unfolding decide
  decide_allow (r ∷ reasons) flags c = (λ h. cc, λ h. absurd (cc (h.0)))
  decide_allow [] (f ∷ flags) c = (λ h. cc, λ h. absurd (cc (h.1)))
  decide_allow [] [] c = (λ h. (refl, refl, ground arith), λ h. ground arith)

  evaluate_text_allow :
      (text : String) (c : PolicyContext)
      → ((evaluate_text search text c).status ≡ allow_local_review) ↔ (
          (any (λ p. search p.1 text) topic_patterns ≡ false)
          × (any (λ p. search p.1 text) high_risk_patterns ≡ false)
          × IsHarmless c)
  unfolding evaluate_text
  evaluate_text_allow text c =
      let cues = found search text high_risk_patterns in
      let topics = found search text topic_patterns in
      let marked = map (λ cue. join "HIGH_RISK_CUE:" cue) (sorted cues) in
      let (split, build) = decide_allow (context_reasons c ++ marked) (sorted topics) c in
      (
        λ h.
            let (reasons, flags, analysis) = split h in
            let (harmless, no_cues) = append_none (context_reasons c) marked reasons in
            (
              (found_none text topic_patterns).1 ((sorted_none topics).0 flags),
              (found_none text high_risk_patterns).1
                  ((sorted_none cues).0 ((cues_none (sorted cues)).0 no_cues)),
              context_reasons-IsHarmless c harmless analysis,
            ),
        λ x.
            let (no_topic, no_cue, harmless) = x in
            let e1 = (sorted_none topics).1 ((found_none text topic_patterns).0 no_topic) in
            let e2 =
              (cues_none (sorted cues)).1
                ((sorted_none cues).1 ((found_none text high_risk_patterns).0 no_cue)) in
            build (
              ap (λ l. l ++ marked) (IsHarmless-context_reasons c harmless) ∙ e2,
              e1,
              harmless.analysis,
            ),
      )

  -- A proposal is allowed exactly if it is a text that is not blank and has none of the patterns,
  -- and its context is harmless.
  pub allow_exact :
      (proposal : Option String) (c : Option PolicyContext)
      → ((evaluate search proposal c).status ≡ allow_local_review)
        ↔ (IsPlain proposal × IsHarmless (context_or_default search c))
  unfolding evaluate
  allow_exact none c = (λ h. cc, λ x. absurd (let e = x.0.given in cc))
  allow_exact (some text) c =
      let (split, build) = evaluate_text_allow text (context_or_default search c) in
      elim (Bool-cases (is_blank text)) [
        | inl blank ↦ (
          λ h. absurd (ground (arith, blank)),
          λ x. absurd (let e = x.0.given in let f = x.0.not_blank in ground (arith, blank)),
        )
        | inr full ↦ (
          λ h.
              let (no_topic, no_cue, harmless) = split (ground (arith, full)) in
              (
                record {
                  text = text;
                  given = refl;
                  not_blank = full;
                  no_topic = no_topic;
                  no_cue = no_cue;
                },
                harmless,
              ),
          λ x.
              let same : text ≡ x.0.text = (let e = x.0.given in cc) in
              rw full (build (rw same (x.0.no_topic), rw same (x.0.no_cue), x.1)),
        )
      ]
