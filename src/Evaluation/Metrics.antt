-- ===== src/Evaluation/Metrics.antt =====
-- The metrics of src/kg_eval/metrics.py that are computed from counts. A float is the exact ratio of
-- two natural numbers, so rounding is not modelled.
use agentic_kgis.Prelude.{
  ℕ, ◌+◌, ◌*◌, Bool, true, false, not, Option, none, some, List, [], ◌∷◌, ◌++◌, Text, codes,
  nat_beq, has_text, if◌then◌else◌,
}
use agentic_kgis.Candidates.{Variant, entity, relation, attribute_assertion, other, Candidate}
use agentic_kgis.Evaluation.{CategoryMatch}

pub record Ratio : Type 0 where
  pub numerator : ℕ
  pub denominator : ℕ

-- `a / b` of two counts; the code tests the second for zero first
abbrev pub divide : ℕ → ℕ → Ratio
divide a b = record { numerator = a; denominator = b }

abbrev pub zero_ratio : Ratio
zero_ratio = divide 0 1

-- A metric with the intervals `C` that the bootstrap returns.
pub record MetricValue (C : Type 0) : Type 0 where
  pub value : Option Ratio
  pub sufficient : Bool
  pub ci : Option C
  pub note : Option Text

pub record OntologySpec : Type 0 where
  pub entity_types : List Text
  pub relation_types : List Text
  pub attributes : List Text

pub record Prf (C : Type 0) : Type 0 where
  pub precision : MetricValue C
  pub recall : MetricValue C
  pub f1 : MetricValue C
  pub tp : ℕ
  pub fp : ℕ
  pub fn : ℕ

-- `2.0 * precision * recall / (precision + recall)`, with the denominators multiplied out
abbrev pub harmonic_mean : Ratio → Ratio → Ratio
harmonic_mean p r =
    divide (2 * p.numerator * r.numerator)
      (p.numerator * r.denominator + r.numerator * p.denominator)

-- `_f1`: the sum of two ratios is zero when its numerator is
unfoldable pub f1_score : Ratio → Ratio → Ratio
f1_score p r =
    if nat_beq (p.numerator * r.denominator + r.numerator * p.denominator) 0
    then zero_ratio
    else harmonic_mean p r

module _ {C : Type 0} where
  abbrev pub measured : Ratio → Option C → MetricValue C
  measured v ci = record { value = some v; sufficient = true; ci = ci; note = none }

  abbrev pub insufficient : Text → MetricValue C
  insufficient note = record { value = none; sufficient = false; ci = none; note = some note }

  -- `bootstrap_ci(hits, boot) if boot is not None else None`
  abbrev pub interval : Option (List ℕ → Option C) → List ℕ → Option C
  interval none hits = none
  interval (some bootstrap) hits = bootstrap hits

  abbrev pub f1_of : Text → Option Ratio → Option Ratio → MetricValue C
  f1_of category (some p) (some r) = measured (f1_score p r) none
  f1_of category _ _ = insufficient (category ++ codes " F1 needs both precision and recall")

  unfoldable pub prf : CategoryMatch → Text → Option (List ℕ → Option C) → Prf C
  prf m category boot =
      let n_candidates = m.tp + m.fp in
      let n_gold = m.tp + m.fn in
      let precision : MetricValue C =
        if nat_beq n_candidates 0
        then insufficient (codes "no " ++ category ++ codes " candidates produced")
        else measured (divide m.tp n_candidates) (interval boot m.candidate_hits) in
      let recall : MetricValue C =
        if nat_beq n_gold 0
        then insufficient (codes "no " ++ category ++ codes " gold items")
        else measured (divide m.tp n_gold) (interval boot m.gold_hits) in
      record {
        precision = precision;
        recall = recall;
        f1 = f1_of category precision.value recall.value;
        tp = m.tp;
        fp = m.fp;
        fn = m.fn;
      }

  -- a share of a total, or a note when the total is zero
  abbrev pub share : ℕ → ℕ → Text → MetricValue C
  share part whole note =
      if nat_beq whole 0 then insufficient note else measured (divide part whole) none

  -- `_rate`
  unfoldable pub rate : ℕ → Option ℕ → Text → MetricValue C
  rate numerator none note = insufficient note
  rate numerator (some denominator) note = share numerator denominator note

-- a vocabulary that is given and does not have the word
abbrev pub outside : List Text → Text → Bool
outside [] word = false
outside words word = not (has_text word words)

unfoldable pub violates : OntologySpec → Variant → Bool
violates ontology (entity t) = outside ontology.entity_types t
violates ontology (relation t _ _ _) = outside ontology.relation_types t
violates ontology (attribute_assertion _ a _ _) = outside ontology.attributes a
violates ontology (other _) = false

abbrev count_violations : OntologySpec → List Candidate → ℕ
count_violations ontology [] = 0
count_violations ontology (c ∷ cs) =
    let rest = count_violations ontology cs in
    if violates ontology c.variant then 1 + rest else rest

-- `_ontology_violations`
unfoldable pub ontology_violations : List Candidate → Option OntologySpec → Option ℕ
ontology_violations cs none = none
ontology_violations cs (some ontology) = some (count_violations ontology cs)
