-- ===== src/Examples/Routes.antt =====
-- Runs of the routing policy and of the lifecycle.
use agentic_kgis.Prelude.{◌≡◌, refl, ◌↔◌, true, false, none, codes, arith}
use agentic_kgis.Policy.{
  ConfidencePolicy, CandidateScores, route, auto, llm_assess, resolved_existing, new_identity,
  policy_error, one, ResolutionDecision,
}
use agentic_kgis.Policy.Routing.{MayBeAuto, NoWorse, route_auto_iff}
use agentic_kgis.Lifecycle.{
  received, validated, accepted, blocked, rejected, can_transition, is_terminal,
}
use agentic_kgis.Lifecycle.Paths.{PathTo, here, step, open-reaches_accepted}
use agentic_kgis.Examples.{scores}

abbrev policy : ConfidencePolicy
policy = record {
  policy_version = codes "v1";
  auto_min_extraction = 85;
  auto_min_source_reliability = 70;
  auto_max_policy_risk = 20;
  human_min_policy_risk = 70;
  assess_min_extraction = 50;
  require_identity_confidence_for_auto = true;
  auto_min_identity_confidence = 60;
  allow_auto_for_new_identity = false;
}

abbrev lower : CandidateScores
lower = record scores { extraction_confidence = 60; policy_risk = 30 }

abbrev abstained : ResolutionDecision
abstained = record {
  candidate_id = codes "a";
  resolved_identity = none;
  create_new_identity = false;
}

policy_accepted : policy_error policy ≡ none
unfolding policy_error one
policy_accepted = ground arith

resolved_goes_auto : route policy scores resolved_existing ≡ auto
unfolding route
resolved_goes_auto = refl

new_goes_to_assessment : route policy scores new_identity ≡ llm_assess
unfolding route
new_goes_to_assessment = refl

route_auto_iff_example :
    (route policy scores resolved_existing ≡ auto) ↔ MayBeAuto policy scores resolved_existing
route_auto_iff_example = route_auto_iff policy scores resolved_existing policy_accepted

better : NoWorse lower scores
better = record {
  extraction = omega arith;
  reliability = omega arith;
  identity = omega arith;
  risk = omega arith;
}

terminal : is_terminal rejected ≡ true
unfolding is_terminal
terminal = refl

open_state : is_terminal blocked ≡ false
unfolding is_terminal
open_state = refl

direct : PathTo received accepted
unfolding can_transition
direct = step {t = validated} refl (step refl here)

open-reaches_accepted_example : PathTo blocked accepted
open-reaches_accepted_example = open-reaches_accepted blocked open_state
