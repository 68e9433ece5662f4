-- ===== src/Advisor/Scoring.antt =====
-- `GraphAdvisor` of src/kgis/registry/advisor.py: the scorers, the choice of a graph and the
-- recommendation.
use agentic_kgis.Prelude.{
  ℕ, Bool, true, false, not, ◌&&◌, Option, none, some, List, [], ◌∷◌, Text, codes, ◌==◌, text_eq,
  nat_beq, ltb, length, map, strip, has_text, Dict, lookup, values, if◌then◌else◌,
}
use agentic_kgis.Advisor.{
  Arithmetic, RegisteredGraph, IncomingDataProfile, AdvisorConfig, Outcome, extend_same_physical,
  shared_logical_separate_physical, separate_shared_identity, fully_isolated,
  insufficient_information, union, intersection, as_set, attribute_types,
}
use agentic_kgis.Advisor.Factors.{
  ScoredFactor, identity_value, ontology_compatibility, tenancy, lifecycle, computational_coupling,
  factor_name, automated_factors, ChecklistItem, checklist_items,
}

pub record ScoredGraph (F : Type 0) : Type 0 where
  pub graph_name : Text
  pub factor_scores : Dict F
  pub unscored_factors : List Text
  pub aggregate : Option F

-- the reasons of a recommendation, by what their texts say
pub data Reason (F : Type 0) : Type 0 where
  registry_is_empty : Reason F
  too_few_scored : ℕ → ℕ → List Text → Reason F
  best_match : Text → F → ℕ → Reason F
  above_extend_threshold : F → Reason F
  tenancy_below_floor : Reason F
  shared_identity : F → F → Reason F
  nothing_argues_for_joining : Reason F

pub record AdvisorRecommendation (F : Type 0) : Type 0 where
  pub outcome : Outcome
  pub target_graph : Option Text
  pub factor_scores : Dict F
  pub unscored_factors : List Text
  pub checklist : List ChecklistItem
  pub per_graph : List (ScoredGraph F)
  pub reasons : List (Reason F)

-- `value is True`
abbrev pub is_true : Option Bool → Bool
is_true (some true) = true
is_true _ = false

-- `max` by a key: the first element that none exceeds
abbrev pub best_of : {A : Type 0} → (A → A → Bool) → A → List A → A
best_of exceeds best [] = best
best_of exceeds best (x ∷ xs) = best_of exceeds (if exceeds x best then x else best) xs

-- `_neg_name(a) > _neg_name(b)`
unfoldable pub neg_name_above : Text → Text → Bool
neg_name_above [] b = false
neg_name_above (x ∷ a) [] = true
neg_name_above (x ∷ a) (y ∷ b) =
    let rest = neg_name_above a b in if nat_beq x y then rest else ltb x y

module _ {F : Type 0} (arith_of : Arithmetic F) where
  -- `_jaccard`
  unfoldable pub jaccard : List Text → List Text → Option F
  jaccard [] [] = none
  jaccard left right =
      some (arith_of.ratio (length (intersection left right)) (length (union left right)))

  -- `_bool_attr`
  unfoldable pub bool_attr : Option Text → Option Bool
  bool_attr none = none
  bool_attr (some value) =
      some (has_text (arith_of.lower (strip value)) (codes "1" ∷ codes "true" ∷ codes "yes" ∷ []))

  -- `_class_match`
  unfoldable pub class_match : Option Text → Option Text → Option F
  class_match (some a) (some b) = some (if a == b then arith_of.one_score else arith_of.zero_score)
  class_match _ _ = none

  unfoldable pub score_identity : IncomingDataProfile → RegisteredGraph → Option F
  score_identity p g =
      class_match p.identity_authority (lookup (codes "identity_authority") g.attributes)

  unfoldable pub score_ontology : IncomingDataProfile → RegisteredGraph → Option F
  score_ontology p g = jaccard (union (union p.node_types p.edge_types) p.attribute_types) (
      union (union (as_set g.descriptor.node_types) (as_set g.descriptor.edge_types))
        (attribute_types g))

  -- whether the graph is marked for minors' data, and for computed outputs
  abbrev pub graph_minors : RegisteredGraph → Option Bool
  graph_minors g = bool_attr (lookup (codes "contains_minors_data") g.attributes)

  abbrev pub graph_computed : RegisteredGraph → Option Bool
  graph_computed g = bool_attr (lookup (codes "is_computed_output") g.attributes)

  unfoldable pub score_tenancy : IncomingDataProfile → RegisteredGraph → Option F
  score_tenancy p g =
      if is_true p.contains_minors_data && not (is_true (graph_minors g))
      then some arith_of.zero_score
      else class_match p.tenancy_class (lookup (codes "tenancy_class") g.attributes)

  abbrev pub present_scores : List (Option F) → List F
  present_scores [] = []
  present_scores (none ∷ os) = present_scores os
  present_scores (some x ∷ os) = x ∷ present_scores os

  -- the mean of what there is
  unfoldable pub mean : List F → Option F
  mean [] = none
  mean (x ∷ xs) = some (arith_of.over (arith_of.sum (x ∷ xs)) (length (x ∷ xs)))

  unfoldable pub score_lifecycle : IncomingDataProfile → RegisteredGraph → Option F
  score_lifecycle p g = mean (
      present_scores (
        class_match p.lifecycle_class (lookup (codes "lifecycle_class") g.attributes)
        ∷ class_match p.retention_class (lookup (codes "retention_class") g.attributes)
        ∷ []))

  abbrev pub coupling_of : Bool → Option Bool → Option F
  coupling_of true (some true) = some arith_of.one_score
  coupling_of true _ = some arith_of.zero_score
  coupling_of false none = none
  coupling_of false (some true) = some arith_of.zero_score
  coupling_of false (some false) = some arith_of.one_score

  unfoldable pub score_coupling : IncomingDataProfile → RegisteredGraph → Option F
  score_coupling p g = elim p.is_computed_output [
    | none ↦ none
    | some computed ↦ coupling_of computed (graph_computed g)
  ]

  -- the scorers of `_score_graph`
  abbrev pub score_of : ScoredFactor → IncomingDataProfile → RegisteredGraph → Option F
  score_of identity_value p g = score_identity p g
  score_of ontology_compatibility p g = score_ontology p g
  score_of tenancy p g = score_tenancy p g
  score_of lifecycle p g = score_lifecycle p g
  score_of computational_coupling p g = score_coupling p g

  -- the loop of `_score_graph`: the scores, and the factors without one
  abbrev pub put_score : ScoredFactor → Option F → Dict F × List Text → Dict F × List Text
  put_score f none (scores, unscored) = (scores, factor_name f ∷ unscored)
  put_score f (some x) (scores, unscored) = ((factor_name f, x) ∷ scores, unscored)

  unfoldable pub score_factors :
      List ScoredFactor → IncomingDataProfile → RegisteredGraph → Dict F × List Text
  score_factors [] p g = ([], [])
  score_factors (f ∷ fs) p g = put_score f (score_of f p g) (score_factors fs p g)

  unfoldable pub score_graph : IncomingDataProfile → RegisteredGraph → ScoredGraph F
  score_graph p g =
      let (scores, unscored) = score_factors automated_factors p g in
      record {
        graph_name = g.descriptor.name;
        factor_scores = scores;
        unscored_factors = unscored;
        aggregate = mean (values scores);
      }

  abbrev pub aggregate_or : Option F → F
  aggregate_or none = arith_of.minus_one
  aggregate_or (some x) = x

  -- the key of `max`: the aggregate, then the name
  unfoldable pub exceeds : ScoredGraph F → ScoredGraph F → Bool
  exceeds s t =
      if arith_of.same (aggregate_or s.aggregate) (aggregate_or t.aggregate)
      then neg_name_above s.graph_name t.graph_name
      else arith_of.above (aggregate_or s.aggregate) (aggregate_or t.aggregate)

  -- a score that is unknown, or reaches the floor
  abbrev pub reaches : F → Option F → Bool
  reaches floor none = true
  reaches floor (some x) = arith_of.at_least x floor

  abbrev pub identity_reaches : F → Option F → Bool
  identity_reaches threshold none = false
  identity_reaches threshold (some x) = arith_of.at_least x threshold

  abbrev pub identity_reason : AdvisorConfig F → Option F → List (Reason F)
  identity_reason cfg none = []
  identity_reason cfg (some x) = shared_identity x cfg.shared_identity_threshold ∷ []

  -- `_classify`, for a graph with the aggregate
  unfoldable pub classify : AdvisorConfig F → ScoredGraph F → F → Outcome × List (Reason F)
  classify cfg best aggregate =
      let tenancy_ok = reaches cfg.tenancy_floor (lookup (codes "tenancy") best.factor_scores) in
      let coupling_ok =
        reaches cfg.coupling_floor (lookup (codes "computational_coupling") best.factor_scores) in
      let identity = lookup (codes "identity_value") best.factor_scores in
      let base = best_match best.graph_name aggregate (length best.factor_scores) in
      if arith_of.at_least aggregate cfg.extend_threshold && (tenancy_ok && coupling_ok)
      then (extend_same_physical, base ∷ above_extend_threshold cfg.extend_threshold ∷ [])
      else if arith_of.at_least aggregate cfg.shared_logical_threshold && not tenancy_ok
      then (shared_logical_separate_physical, base ∷ tenancy_below_floor ∷ [])
      else if identity_reaches cfg.shared_identity_threshold identity
      then (separate_shared_identity, base ∷ identity_reason cfg identity)
      else (fully_isolated, base ∷ nothing_argues_for_joining ∷ [])

  abbrev pub recommendation :
      ScoredGraph F → List (ScoredGraph F) → Outcome × List (Reason F) → AdvisorRecommendation F
  recommendation best scored (outcome, reasons) = record {
    outcome = outcome;
    target_graph = some best.graph_name;
    factor_scores = best.factor_scores;
    unscored_factors = best.unscored_factors;
    checklist = checklist_items;
    per_graph = scored;
    reasons = reasons;
  }

  abbrev pub unknown : AdvisorConfig F → ScoredGraph F → Outcome × List (Reason F)
  unknown cfg best = (
    insufficient_information,
    too_few_scored (length best.factor_scores) cfg.min_scored_factors best.unscored_factors ∷ [],
  )

  -- the end of `recommend`, for the best of the scored graphs
  abbrev pub settle :
      AdvisorConfig F → ScoredGraph F → List (ScoredGraph F) → Option F → AdvisorRecommendation F
  settle cfg best scored none = recommendation best scored (unknown cfg best)
  settle cfg best scored (some aggregate) = recommendation best scored (
      if ltb (length best.factor_scores) cfg.min_scored_factors
      then unknown cfg best
      else classify cfg best aggregate)

  -- `recommend`
  unfoldable pub recommend :
      AdvisorConfig F → IncomingDataProfile → List RegisteredGraph → AdvisorRecommendation F
  recommend cfg p [] = record {
    outcome = fully_isolated;
    target_graph = none;
    factor_scores = [];
    unscored_factors = [];
    checklist = checklist_items;
    per_graph = [];
    reasons = registry_is_empty ∷ [];
  }
  recommend cfg p (g ∷ gs) =
      let best = best_of exceeds (score_graph p g) (map (score_graph p) gs) in
      settle cfg best (score_graph p g ∷ map (score_graph p) gs) best.aggregate
