-- ===== src/Policy/Routing.antt =====
-- What the route of a candidate says of its scores, and how it moves with them.
use agentic_kgis.Prelude.{
  ◌≤◌, ◌<◌, ◌≡◌, ◌≢◌, refl, inl, inr, ◌↔◌, ◌⊎◌, true, false, not, Option, none, some, arith,
  is_some, if◌then◌else◌,
}
use agentic_kgis.Policy.{
  Score, CandidateScores, auto, human, IdentityDisposition, resolved_existing, new_identity,
  unresolved, ConfidencePolicy, route_severity, policy_error, gate_for, meets, route,
  ResolutionDecision, identity_disposition,
}

-- When the identity dimension lets a candidate through, in the words of the policy.
abbrev pub Stated : Score → Option Score → Type 0
Stated threshold none = ⊥
Stated threshold (some c) = threshold ≤ c

abbrev pub NotLow : Score → Option Score → Type 0
NotLow threshold none = Unit
NotLow threshold (some c) = threshold ≤ c

abbrev pub IdentityPermits : ConfidencePolicy → CandidateScores → IdentityDisposition → Type 0
IdentityPermits p s resolved_existing = Stated p.auto_min_identity_confidence s.identity_confidence
IdentityPermits p s new_identity =
    (p.allow_auto_for_new_identity ≡ true)
    × NotLow p.auto_min_identity_confidence s.identity_confidence
IdentityPermits p s unresolved = ⊥

Stated-iff : (t : Score) (c : Option Score) → (meets t c ≡ true) ↔ Stated t c
Stated-iff t none = ground arith
Stated-iff t (some c) = ground arith

NotLow-iff :
    (t : Score) (c : Option Score)
    → ((if not (is_some c) then true else meets t c) ≡ true) ↔ NotLow t c
NotLow-iff t none = ground arith
NotLow-iff t (some c) = ground arith

-- With the gate on, it passes exactly the candidates that the policy's text permits.
pub gate_for_iff :
    (p : ConfidencePolicy) (s : CandidateScores) (d : IdentityDisposition)
    → (gate_for p s d ≡ true) ↔ IdentityPermits p s d
unfolding gate_for
gate_for_iff p s resolved_existing = Stated-iff p.auto_min_identity_confidence s.identity_confidence
gate_for_iff p s new_identity =
    ground (arith, NotLow-iff p.auto_min_identity_confidence s.identity_confidence)
gate_for_iff p s unresolved = ground arith

-- the whole condition for AUTO
pub record MayBeAuto (p : ConfidencePolicy) (s : CandidateScores) (d : IdentityDisposition)
    : Type 0 where
  pub low_risk : s.policy_risk ≤ p.auto_max_policy_risk
  pub extracted : p.auto_min_extraction ≤ s.extraction_confidence
  pub reliable : p.auto_min_source_reliability ≤ s.source_reliability
  pub identified : (p.require_identity_confidence_for_auto ≡ false) ⊎ IdentityPermits p s d

-- A policy that was accepted has its thresholds in order.
accepted_ordered :
    (p : ConfidencePolicy)
    → policy_error p ≡ none
    → (p.assess_min_extraction ≤ p.auto_min_extraction)
      × (p.auto_max_policy_risk ≤ p.human_min_policy_risk)
unfolding policy_error
accepted_ordered p h = ground arith

auto_needs :
    (p : ConfidencePolicy) (s : CandidateScores) (d : IdentityDisposition)
    → route p s d ≡ auto
    → MayBeAuto p s d
unfolding route
auto_needs p s d h = record {
  low_risk = ground arith;
  extracted = ground arith;
  reliable = ground arith;
  identified = ground (arith, (gate_for_iff p s d).0);
}

auto_suffices :
    (p : ConfidencePolicy) (s : CandidateScores) (d : IdentityDisposition)
    → policy_error p ≡ none
    → MayBeAuto p s d
    → route p s d ≡ auto
unfolding route
auto_suffices p s d ok m = elim m.identified [
  | inl off ↦ ground (arith, accepted_ordered p ok)
  | inr permits ↦ ground (arith, accepted_ordered p ok, (gate_for_iff p s d).1 permits)
]

-- Under an accepted policy a candidate routes AUTO exactly when its risk is at most the AUTO
-- ceiling, its extraction confidence and source reliability reach their thresholds, and, if the
-- identity gate is on, its identity permits it: a stated confidence that reaches the threshold
-- for a resolved identity; leave for new identities and no stated confidence below the threshold
-- for a new one; never for an unresolved one.
pub route_auto_iff :
    (p : ConfidencePolicy) (s : CandidateScores) (d : IdentityDisposition)
    → policy_error p ≡ none
    → (route p s d ≡ auto) ↔ MayBeAuto p s d
route_auto_iff p s d ok = (auto_needs p s d, auto_suffices p s d ok)

-- Under an accepted policy a candidate routes HUMAN exactly when its risk is above the HUMAN
-- threshold or its extraction confidence is below the assessment threshold, whatever its identity.
pub route_human_iff :
    (p : ConfidencePolicy) (s : CandidateScores) (d : IdentityDisposition)
    → policy_error p ≡ none
    → (route p s d ≡ human) ↔ (
        (p.human_min_policy_risk < s.policy_risk)
        ⊎ (s.extraction_confidence < p.assess_min_extraction))
unfolding route
route_human_iff p s d ok = ground (arith, accepted_ordered p ok)

-- an identity score that is stated as before, and is no lower
abbrev pub NoLower : Option Score → Option Score → Type 0
NoLower none none = Unit
NoLower (some a) (some b) = a ≤ b
NoLower _ _ = ⊥

pub record NoWorse (s t : CandidateScores) : Type 0 where
  pub extraction : s.extraction_confidence ≤ t.extraction_confidence
  pub reliability : s.source_reliability ≤ t.source_reliability
  pub identity : NoLower s.identity_confidence t.identity_confidence
  pub risk : t.policy_risk ≤ s.policy_risk

meets_mono : (m : Score) (a b : Option Score) → NoLower a b → meets m a ≡ true → meets m b ≡ true
meets_mono m none none l h = h
meets_mono m (some a) (some b) l h = ground arith
meets_mono m none (some b) l h = elim l [ ]
meets_mono m (some a) none l h = elim l [ ]

NoLower-is_some : (a b : Option Score) → NoLower a b → is_some a ≡ is_some b
NoLower-is_some none none l = refl
NoLower-is_some (some a) (some b) l = refl
NoLower-is_some none (some b) l = elim l [ ]
NoLower-is_some (some a) none l = elim l [ ]

gate_for_mono :
    (p : ConfidencePolicy) (s t : CandidateScores) (d : IdentityDisposition)
    → NoWorse s t
    → gate_for p s d ≡ true
    → gate_for p t d ≡ true
unfolding gate_for
gate_for_mono p s t unresolved n h = h
gate_for_mono p s t resolved_existing n h = meets_mono _ _ _ n.identity h
gate_for_mono p s t new_identity n h = ground (
  arith,
  meets_mono p.auto_min_identity_confidence s.identity_confidence t.identity_confidence n.identity,
  NoLower-is_some s.identity_confidence t.identity_confidence n.identity,
)

-- Better scores never ask for more oversight: if no confidence falls, the identity score stays
-- stated or unstated and does not fall, and the risk does not grow, then the route of the better
-- scores is at most as severe, under every policy and disposition.
pub route_mono :
    (p : ConfidencePolicy) (s t : CandidateScores) (d : IdentityDisposition)
    → NoWorse s t
    → route_severity (route p t d) ≤ route_severity (route p s d)
unfolding route
route_mono p s t d n = ground (arith, gate_for_mono p s t d n, n.extraction, n.reliability, n.risk)

-- A candidate on which resolution abstained (no identity named, none to be minted) never routes
-- AUTO while the identity gate is on, whatever identity confidence its scores state.
pub abstained_not_auto :
    (p : ConfidencePolicy) (s : CandidateScores) (r : ResolutionDecision)
    → p.require_identity_confidence_for_auto ≡ true
    → r.create_new_identity ≡ false
    → r.resolved_identity ≡ none
    → route p s (identity_disposition r) ≢ auto
unfolding route identity_disposition
abstained_not_auto p s r on fresh named = ground arith
