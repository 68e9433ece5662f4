-- ===== src/Policy.antt =====
-- Adjudication routing: src/kg_contracts/policy.py, with the scores of candidates.py and the
-- disposition of a resolution from curation.py. The code only compares its floats, and the
-- validators hold each to [0, 1]; a float there is a multiple of 2 ^ -1074, and the model counts
-- these units.
pub mod Routing
use agentic_kgis.Prelude.{
  ℕ, ◌^◌, Bool, true, false, not, ◌&&◌, ◌||◌, Option, none, some, List, [], ◌∷◌, Text, ltb, leb,
  all, is_some, if◌then◌else◌,
}

-- a score or threshold, in units of 2 ^ -1074
abbrev pub Score : Type 0
Score = ℕ

unfoldable pub one : Score
one = 2 ^ 1074

pub record CandidateScores : Type 0 where
  pub extraction_confidence : Score
  pub source_reliability : Score
  pub identity_confidence : Option Score
  pub assertion_confidence : Option Score
  pub corroboration_score : Option Score
  pub policy_risk : Score

abbrev within : Option Score → Bool
within none = true
within (some s) = leb s one

-- the `ge=0.0, le=1.0` bounds of the fields
unfoldable pub scores_accepted : CandidateScores → Bool
scores_accepted s =
    leb s.extraction_confidence one
    && (leb s.source_reliability one
        && (within s.identity_confidence
            && (within s.assertion_confidence
                && (within s.corroboration_score && leb s.policy_risk one))))

pub data AdjudicationRoute : Type 0 where
  auto llm_assess human : AdjudicationRoute

pub data IdentityDisposition : Type 0 where
  resolved_existing new_identity unresolved : IdentityDisposition

-- `_ROUTE_SEVERITY`
abbrev pub route_severity : AdjudicationRoute → ℕ
route_severity auto = 0
route_severity llm_assess = 1
route_severity human = 2

unfoldable pub more_conservative : AdjudicationRoute → AdjudicationRoute → AdjudicationRoute
more_conservative a b = if leb (route_severity b) (route_severity a) then a else b

pub record ConfidencePolicy : Type 0 where
  pub policy_version : Text
  pub auto_min_extraction : Score
  pub auto_min_source_reliability : Score
  pub auto_max_policy_risk : Score
  pub human_min_policy_risk : Score
  pub assess_min_extraction : Score
  pub require_identity_confidence_for_auto : Bool
  pub auto_min_identity_confidence : Score
  pub allow_auto_for_new_identity : Bool

pub data PolicyError : Type 0 where
  threshold_out_of_range extraction_misordered risk_misordered : PolicyError

-- the bounds of each threshold
unfoldable pub thresholds_in_range : ConfidencePolicy → Bool
thresholds_in_range p =
    all (λ t. leb t one)
      (p.auto_min_extraction ∷ p.auto_min_source_reliability ∷ p.auto_max_policy_risk
        ∷ p.human_min_policy_risk ∷ p.assess_min_extraction ∷ p.auto_min_identity_confidence ∷ [])

-- `_check_thresholds_ordered`, which runs once the fields are accepted
unfoldable pub policy_error : ConfidencePolicy → Option PolicyError
unfolding thresholds_in_range
policy_error p =
    if not (thresholds_in_range p)
    then some threshold_out_of_range
    else if ltb p.auto_min_extraction p.assess_min_extraction
    then some extraction_misordered
    else if ltb p.human_min_policy_risk p.auto_max_policy_risk
    then some risk_misordered
    else none

unfoldable pub risk_floor : ConfidencePolicy → CandidateScores → AdjudicationRoute
risk_floor p s =
    if ltb p.human_min_policy_risk s.policy_risk
    then human
    else if ltb p.auto_max_policy_risk s.policy_risk
    then llm_assess
    else auto

abbrev pub meets : Score → Option Score → Bool
meets threshold none = false
meets threshold (some c) = leb threshold c

unfoldable pub identity_confidence_meets_threshold : ConfidencePolicy → CandidateScores → Bool
identity_confidence_meets_threshold p s = meets p.auto_min_identity_confidence s.identity_confidence

-- the branches of `_identity_gate_ok` once the gate is on
unfoldable pub gate_for : ConfidencePolicy → CandidateScores → IdentityDisposition → Bool
unfolding identity_confidence_meets_threshold
gate_for p s unresolved = false
gate_for p s new_identity =
    if not p.allow_auto_for_new_identity
    then false
    else if not (is_some s.identity_confidence)
    then true
    else identity_confidence_meets_threshold p s
gate_for p s resolved_existing = identity_confidence_meets_threshold p s

unfoldable pub identity_gate_ok : ConfidencePolicy → CandidateScores → IdentityDisposition → Bool
unfolding gate_for
identity_gate_ok p s d = if not p.require_identity_confidence_for_auto then true else gate_for p s d

unfoldable pub extraction_route :
    ConfidencePolicy → CandidateScores → IdentityDisposition → AdjudicationRoute
unfolding identity_gate_ok
extraction_route p s d =
    if leb p.auto_min_extraction s.extraction_confidence
      && (leb p.auto_min_source_reliability s.source_reliability && identity_gate_ok p s d)
    then auto
    else if leb p.assess_min_extraction s.extraction_confidence
    then llm_assess
    else human

unfoldable pub route : ConfidencePolicy → CandidateScores → IdentityDisposition → AdjudicationRoute
unfolding more_conservative risk_floor extraction_route
route p s d = more_conservative (risk_floor p s) (extraction_route p s d)

-- `ResolutionDecision`, less the fields that only log the decision
pub record ResolutionDecision : Type 0 where
  pub candidate_id : Text
  pub resolved_identity : Option Text
  pub create_new_identity : Bool

unfoldable pub identity_disposition : ResolutionDecision → IdentityDisposition
identity_disposition r =
    if r.create_new_identity
    then new_identity
    else if not (is_some r.resolved_identity)
    then unresolved
    else resolved_existing
