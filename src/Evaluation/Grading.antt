-- ===== src/Evaluation/Grading.antt =====
-- `evaluate_extraction` of src/kg_eval/metrics.py: the scorecard of an arm.
use agentic_kgis.Prelude.{ℕ, ◌+◌, Option, none, some, List, Text, codes}
use agentic_kgis.Evaluation.{CategoryMatch}
use agentic_kgis.Evaluation.Gold.{
  GoldSet, Category, entity_items, relation_items, attribute_items, match_category,
}
use agentic_kgis.Evaluation.Metrics.{MetricValue, OntologySpec, Prf, prf, rate, ontology_violations}
use agentic_kgis.Evaluation.Spans.{
  CostLatency, ArmOutput, EvidenceValidity, evidence_validity, unsupported_assertions,
  unverified_assertions,
}

pub record ExtractionMetrics (C : Type 0) : Type 0 where
  pub entity_prf : Prf C
  pub relation_prf : Prf C
  pub attribute_prf : Prf C
  pub evidence : EvidenceValidity C
  pub ontology_violations : Option ℕ
  pub hallucination_count : ℕ
  pub unsupported_assertion_count : ℕ
  pub unverified_assertion_count : ℕ
  pub abstention_rate : MetricValue C
  pub failure_rate : MetricValue C
  pub cost : Option CostLatency

-- `output.attempted if output.attempted is not None else gold.attempted`
abbrev pub attempted_by : Option ℕ → Option ℕ → Option ℕ
attempted_by (some n) given = some n
attempted_by none given = given

abbrev pub match_in : ArmOutput → GoldSet → Category → CategoryMatch
match_in output gold category = match_category category output.candidates gold

abbrev pub attempts : ArmOutput → GoldSet → Option ℕ
attempts output gold = attempted_by output.attempted gold.attempted

abbrev pub unknown_attempts : Text
unknown_attempts = codes "no attempted-input count known"

module _ {C : Type 0} (boot : Option (List ℕ → Option C)) where
  -- the scorecard, once the evidence is graded
  abbrev pub scorecard :
      ArmOutput → GoldSet → Option OntologySpec → EvidenceValidity C → ExtractionMetrics C
  scorecard output gold ontology evidence = record {
    entity_prf = prf (match_in output gold entity_items) (codes "entity") boot;
    relation_prf = prf (match_in output gold relation_items) (codes "relation") boot;
    attribute_prf = prf (match_in output gold attribute_items) (codes "attribute") boot;
    evidence = evidence;
    ontology_violations = ontology_violations output.candidates ontology;
    hallucination_count =
        (match_in output gold entity_items).fp
        + (match_in output gold relation_items).fp
        + (match_in output gold attribute_items).fp;
    unsupported_assertion_count = unsupported_assertions output;
    unverified_assertion_count = unverified_assertions output;
    abstention_rate = rate output.abstained (attempts output gold) unknown_attempts;
    failure_rate = rate output.failed (attempts output gold) unknown_attempts;
    cost = output.cost;
  }

  abbrev pub graded_card :
      ArmOutput
      → GoldSet
      → Option OntologySpec
      → Option (EvidenceValidity C)
      → Option (ExtractionMetrics C)
  graded_card output gold ontology none = none
  graded_card output gold ontology (some evidence) = some (scorecard output gold ontology evidence)

  unfoldable pub evaluate_extraction :
      ArmOutput → GoldSet → Option OntologySpec → Option (ExtractionMetrics C)
  evaluate_extraction output gold ontology =
      graded_card output gold ontology (evidence_validity output gold)
