-- ===== src/Guardrail/Policy.antt =====
-- addons/v91_guardrail/core.py: `evaluate` and `evaluate_batch`. The search of a regular expression in
-- a text without regard to case is an argument.
use v91_core_system.Prelude.{
  String, Bool, true, false, not, ◌&&◌, Option, none, some, List, [], ◌∷◌, ◌++◌, map, if◌then◌else◌,
}
use v91_core_system.Prelude.Sorting.{sorted}
use v91_core_system.Prelude.Text.{is_blank, join}

pub record PolicyContext : Type 0 where
  pub source_is_authorized : Bool
  pub human_approved : Bool
  pub allow_read_only_analysis : Bool
  pub network_requested : Bool
  pub destructive_action_requested : Bool
  pub privilege_change_requested : Bool
  pub execute_code_requested : Bool
  pub private_data_requested : Bool

abbrev pub default_context : PolicyContext
default_context = record {
  source_is_authorized = false;
  human_approved = false;
  allow_read_only_analysis = true;
  network_requested = false;
  destructive_action_requested = false;
  privilege_change_requested = false;
  execute_code_requested = false;
  private_data_requested = false;
}

pub data PolicyStatus : Type 0 where
  block review_required allow_local_review : PolicyStatus

pub data EvidenceState : Type 0 where
  no_data_available documented_input_only pending_witness : EvidenceState

pub record Decision : Type 0 where
  pub status : PolicyStatus
  pub reasons : List String
  pub topic_flags : List String
  pub evidence_state : EvidenceState

-- Names with their regular expressions.
abbrev pub topic_patterns : List (String × String)
topic_patterns =
    (
      "CONFLICT_OR_WAR",
      "\\b(krieg|bewaffnet(?:e|er|en)? konflikt|waffenhandel|militärangriff|munitionsproduktion|rüstungsindustrie|frontverlauf)\\b",
    )
    ∷ (
      "RESOURCE_OR_ENVIRONMENT",
      "\\b(entropie|energieverbrauch|co2|emissionen|ressourcenverbrauch|abfall|verschwendung|überproduktion|reparatur|recycling|lebenszyklus|wasserverbrauch)\\b",
    )
    ∷ (
      "LUXURY_OR_NONESSENTIAL_PRODUCTION",
      "\\b(luxusüberproduktion|luxusgüter|nicht notwendige überproduktion|geplante obsoleszenz|wegwerfprodukt|überflüssige produktion)\\b",
    )
    ∷ (
      "CYBER_OR_SYSTEM_ACTION",
      "\\b(exploit|schwachstelle ausnutzen|passwort stehlen|zugangsdaten abgreifen|malware|ransomware|fernsteuerung)\\b",
    )
    ∷ []

abbrev pub high_risk_patterns : List (String × String)
high_risk_patterns =
    ("DESTRUCTIVE_ACTION_CUE", "\\b(lösche|löschen|vernichte|wipe|purge|formatier(?:e|en))\\b")
    ∷ ("EXECUTION_CUE", "\\b(führe aus|execute|shell-befehl|powershell|cmd\\.exe)\\b")
    ∷ (
      "PRIVILEGE_ESCALATION_CUE",
      "\\b(adminrechte|rechteausweitung|privilegien erhöhen|root-zugriff)\\b",
    )
    ∷ (
      "UNAUTHORIZED_ACCESS_CUE",
      "\\b(hacke|unbefugter zugriff|umgehe die anmeldung|zugriff umgehen)\\b",
    )
    ∷ []

abbrev pub reason_if : Bool → String → List String
reason_if true reason = reason ∷ []
reason_if false reason = []

-- The reasons that the context gives for a block.
unfoldable pub context_reasons : PolicyContext → List String
context_reasons c =
    reason_if c.private_data_requested "PRIVATE_DATA_REQUEST_BLOCKED"
    ++ reason_if (c.network_requested && not c.source_is_authorized) "NETWORK_ACCESS_NOT_AUTHORIZED"
    ++ reason_if (c.destructive_action_requested && not c.human_approved)
        "DESTRUCTIVE_ACTION_REQUIRES_SEPARATE_APPROVAL"
    ++ reason_if c.privilege_change_requested "PRIVILEGE_CHANGE_NOT_ALLOWED_BY_DEFAULT"
    ++ reason_if (c.execute_code_requested && not c.human_approved)
        "CODE_EXECUTION_REQUIRES_SEPARATE_APPROVAL"

abbrev blocked : List String → List String → EvidenceState → Decision
blocked reasons flags evidence = record {
  status = block;
  reasons = reasons;
  topic_flags = flags;
  evidence_state = evidence;
}

-- The end of `evaluate`, from the reasons and the flags on.
unfoldable pub decide : List String → List String → PolicyContext → Decision
decide (r ∷ reasons) flags c = blocked (r ∷ reasons) flags documented_input_only
decide [] (f ∷ flags) c = record {
  status = review_required;
  reasons = "TOPIC_FLAG_IS_NOT_A_FACT_FINDING" ∷ "NO_EXTERNAL_EVIDENCE_FETCHED" ∷ [];
  topic_flags = f ∷ flags;
  evidence_state = pending_witness;
}
decide [] [] c =
    if not c.allow_read_only_analysis
    then blocked ("READ_ONLY_ANALYSIS_NOT_ALLOWED" ∷ []) [] documented_input_only
    else record {
      status = allow_local_review;
      reasons = "NO_LOCAL_POLICY_BLOCK_FOUND" ∷ "ALLOW_IS_NOT_A_SECURITY_GUARANTEE" ∷ [];
      topic_flags = [];
      evidence_state = documented_input_only;
    }

module _ (search : String → String → Bool) where
  -- The names whose pattern is found in the text.
  unfoldable pub found : String → List (String × String) → List String
  found text [] = []
  found text ((name, pattern) ∷ ps) =
      let rest = found text ps in if search pattern text then name ∷ rest else rest

  unfoldable pub evaluate_text : String → PolicyContext → Decision
  evaluate_text text c =
      decide
        (context_reasons c
          ++ map (λ cue. join "HIGH_RISK_CUE:" cue) (sorted (found text high_risk_patterns)))
        (sorted (found text topic_patterns)) c

  abbrev pub context_or_default : Option PolicyContext → PolicyContext
  context_or_default none = default_context
  context_or_default (some c) = c

  -- A proposal is a text or an object of another type.
  unfoldable pub evaluate : Option String → Option PolicyContext → Decision
  evaluate none c = blocked ("EMPTY_OR_INVALID_REQUEST" ∷ []) [] no_data_available
  evaluate (some text) c =
      if is_blank text
      then blocked ("EMPTY_OR_INVALID_REQUEST" ∷ []) [] no_data_available
      else evaluate_text text (context_or_default c)

  unfoldable pub evaluate_batch : List (Option String) → Option PolicyContext → List Decision
  evaluate_batch proposals c = map (λ p. evaluate p c) proposals
