-- ===== src/Advisor/Contract.antt =====
-- The projection of a recommendation to the contract: AdvisorRecommendation.to_contract of
-- src/kgis/registry/models.py and Recommendation of src/kg_contracts/registry.py.
use agentic_kgis.Prelude.{
  ℕ, ◌≤◌, ◌<◌, Bool, true, false, not, ◌&&◌, ◌≡◌, refl, ap, ◌∙◌, arith, Option, none, some, List,
  [], ◌∷◌, Text, codes, all, keep, map, length, length-append, length-keep, is_some, has_text, Dict,
  lookup, if◌then◌else◌, ◌==◌, text_eq, text_beq,
}
use agentic_kgis.Advisor.{
  Arithmetic, RegisteredGraph, IncomingDataProfile, Outcome, extend_same_physical,
  shared_logical_separate_physical, insufficient_information, union, intersection,
}
use agentic_kgis.Advisor.Factors.{
  ScoredFactor, identity_value, ontology_compatibility, tenancy, lifecycle, computational_coupling,
  factor_name, scored_factors, render_item,
}
use agentic_kgis.Advisor.Scoring.{
  Reason, AdvisorRecommendation, jaccard, class_match, mean, present_scores, score_identity,
  score_ontology, score_tenancy, score_lifecycle, score_coupling, coupling_of, score_of, put_score,
  score_factors, is_true, graph_minors, graph_computed,
}

pub data Action : Type 0 where
  extend create : Action

pub record Recommendation (F : Type 0) : Type 0 where
  pub action : Action
  pub graph_name : Option Text
  pub factor_scores : Dict F
  pub checklist : List Text
  pub reasons : List (Reason F)

-- None, a recommendation, or the ValidationError of its constructor
pub data Projection (F : Type 0) : Type 0 where
  absent : Projection F
  projected : Recommendation F → Projection F
  rejected : Projection F

abbrev pub is_extend_outcome : Outcome → Bool
is_extend_outcome extend_same_physical = true
is_extend_outcome shared_logical_separate_physical = true
is_extend_outcome _ = false

abbrev pub is_insufficient : Outcome → Bool
is_insufficient insufficient_information = true
is_insufficient _ = false

abbrev pub has_reasons : {A : Type 0} → List A → Bool
has_reasons [] = false
has_reasons (r ∷ rs) = true

module _ {F : Type 0} (floats : Arithmetic F) where
  -- `0.0 <= score <= 1.0`
  abbrev pub in_unit : F → Bool
  in_unit x = floats.at_least x floats.zero_score && floats.at_least floats.one_score x

  -- `_check_factor_scores`
  abbrev pub scores_pass : Dict F → Bool
  scores_pass d = all (λ e. has_text e.0 scored_factors && in_unit e.1) d

  abbrev names_graph : Action → Option Text → Bool
  names_graph extend name = is_some name
  names_graph create name = true

  -- the constructor of `Recommendation`
  unfoldable pub new_recommendation : Recommendation F → Projection F
  new_recommendation r =
      if names_graph r.action r.graph_name && (scores_pass r.factor_scores && has_reasons r.reasons)
      then projected r
      else rejected

  unfoldable pub to_contract : AdvisorRecommendation F → Projection F
  to_contract r =
      if is_insufficient r.outcome
      then absent
      else new_recommendation (record {
        action = if is_extend_outcome r.outcome then extend else create;
        graph_name = if is_extend_outcome r.outcome then r.target_graph else none;
        factor_scores = r.factor_scores;
        checklist = map render_item r.checklist;
        reasons = r.reasons;
      })

  -- what the code relies on: the scores zero and one, a quotient of integers, and the mean of
  -- scores lie between zero and one
  pub record IsScoring : Type 0 where
    pub zero_fits : in_unit floats.zero_score ≡ true
    pub one_fits : in_unit floats.one_score ≡ true
    pub ratio_fits : (a b : ℕ) → a ≤ b → 0 < b → in_unit (floats.ratio a b) ≡ true
    pub mean_fits :
        (x : F) (xs : List F)
        → all in_unit (x ∷ xs) ≡ true
        → in_unit (floats.over (floats.sum (x ∷ xs)) (length (x ∷ xs))) ≡ true

  abbrev Fits : Option F → Type 0
  Fits none = Unit
  Fits (some x) = in_unit x ≡ true

module _ {F : Type 0} (floats : Arithmetic F) (laws : IsScoring floats) where
  class_match-Fits : (a b : Option Text) → Fits floats (class_match floats a b)
  unfolding class_match
  class_match-Fits none b = tt
  class_match-Fits (some a) none = tt
  class_match-Fits (some a) (some b) = go (a == b)
    where
      go : (c : Bool) → in_unit floats (if c then floats.one_score else floats.zero_score) ≡ true
      go true = laws.one_fits
      go false = laws.zero_fits

  overlap-fits :
      (left right : List Text)
      → 0 < length (union left right)
      → in_unit floats (floats.ratio (length (intersection left right)) (length (union left right)))
        ≡ true
  overlap-fits left right h =
      let both = length-append left (keep (λ x. not (has_text x left)) right) in
      laws.ratio_fits _ _ (omega (arith, both, length-keep (λ x. has_text x right) left)) h

  jaccard-Fits : (left right : List Text) → Fits floats (jaccard floats left right)
  unfolding jaccard
  jaccard-Fits [] [] = tt
  jaccard-Fits [] (y ∷ right) = overlap-fits [] (y ∷ right) (omega arith)
  jaccard-Fits (x ∷ left) right = overlap-fits (x ∷ left) right (omega arith)

  coupling_of-Fits : (c : Bool) (graph : Option Bool) → Fits floats (coupling_of floats c graph)
  coupling_of-Fits true none = laws.zero_fits
  coupling_of-Fits true (some true) = laws.one_fits
  coupling_of-Fits true (some false) = laws.zero_fits
  coupling_of-Fits false none = tt
  coupling_of-Fits false (some true) = laws.zero_fits
  coupling_of-Fits false (some false) = laws.one_fits

  mean-Fits :
      (a b : Option F)
      → Fits floats a
      → Fits floats b
      → Fits floats (mean floats (present_scores floats (a ∷ b ∷ [])))
  unfolding mean
  mean-Fits none none h k = tt
  mean-Fits (some x) none h k = laws.mean_fits x [] (ap (λ c. c && true) h)
  mean-Fits none (some y) h k = laws.mean_fits y [] (ap (λ c. c && true) k)
  mean-Fits (some x) (some y) h k =
      laws.mean_fits x (y ∷ [])
        (ap (λ c. c && (in_unit floats y && true)) h ∙ ap (λ c. c && true) k)

  score_of-Fits :
      (f : ScoredFactor) (p : IncomingDataProfile) (g : RegisteredGraph)
      → Fits floats (score_of floats f p g)
  unfolding score_identity score_ontology score_tenancy score_lifecycle score_coupling
  score_of-Fits identity_value p g =
      class_match-Fits p.identity_authority (lookup (codes "identity_authority") g.attributes)
  score_of-Fits ontology_compatibility p g = jaccard-Fits _ _
  score_of-Fits tenancy p g =
      go (is_true p.contains_minors_data && not (is_true (graph_minors floats g)))
        (class_match floats p.tenancy_class (lookup (codes "tenancy_class") g.attributes))
        (class_match-Fits p.tenancy_class (lookup (codes "tenancy_class") g.attributes))
    where
      go :
          (b : Bool) (o : Option F)
          → Fits floats o
          → Fits floats (if b then some floats.zero_score else o)
      go true o h = laws.zero_fits
      go false o h = h
  score_of-Fits lifecycle p g =
      mean-Fits _ _
        (class_match-Fits p.lifecycle_class (lookup (codes "lifecycle_class") g.attributes))
        (class_match-Fits p.retention_class (lookup (codes "retention_class") g.attributes))
  score_of-Fits computational_coupling p g = go p.is_computed_output
    where
      go :
          (c : Option Bool)
          → Fits floats (elim c [
            | none ↦ none
            | some computed ↦ coupling_of floats computed (graph_computed floats g)
          ])
      go none = tt
      go (some c) = coupling_of-Fits c (graph_computed floats g)

  factor_name_known : (f : ScoredFactor) → has_text (factor_name f) scored_factors ≡ true
  unfolding text_beq
  factor_name_known identity_value = refl
  factor_name_known ontology_compatibility = refl
  factor_name_known tenancy = refl
  factor_name_known lifecycle = refl
  factor_name_known computational_coupling = refl

  put_score-passes :
      (f : ScoredFactor) (o : Option F) (rest : Dict F × List Text)
      → Fits floats o
      → scores_pass floats rest.0 ≡ true
      → scores_pass floats (put_score floats f o rest).0 ≡ true
  put_score-passes f none rest h k = k
  put_score-passes f (some x) rest h k =
      ap (λ b. (b && in_unit floats x) && scores_pass floats rest.0) (factor_name_known f)
      ∙ ap (λ b. b && scores_pass floats rest.0) h
      ∙ k

  pub score_factors-passes :
      (fs : List ScoredFactor) (p : IncomingDataProfile) (g : RegisteredGraph)
      → scores_pass floats (score_factors floats fs p g).0 ≡ true
  unfolding score_factors
  score_factors-passes [] p g = refl
  score_factors-passes (f ∷ fs) p g =
      put_score-passes f (score_of floats f p g) (score_factors floats fs p g) (score_of-Fits f p g)
        (score_factors-passes fs p g)
