-- ===== src/Validation/Terms.antt =====
-- The ontology's tests, src/kgis/ontology.py, and the candidate validator on them,
-- `OntologyCandidateValidator` of src/kgis/validate.py.
use agentic_kgis.Prelude.{
  Bool, true, false, not, ◌&&◌, Option, none, some, List, [], ◌∷◌, ◌++◌, Text, codes, has_text,
  if◌then◌else◌,
}
use agentic_kgis.Candidates.{Candidate, Variant, entity, relation, attribute_assertion, other}
use agentic_kgis.Validation.{unsupported_ontology, ValidationDecision}

pub record Ontology : Type 0 where
  pub version : Text
  pub entity_types : List Text
  pub relation_types : List Text
  pub attributes : List Text

-- an empty set of terms declares every term
abbrev pub declares : List Text → Text → Bool
declares [] term = true
declares (t ∷ ts) term = has_text term (t ∷ ts)

unfoldable pub declares_entity_type : Ontology → Text → Bool
declares_entity_type o term = declares o.entity_types term

unfoldable pub declares_relation_type : Ontology → Text → Bool
declares_relation_type o term = declares o.relation_types term

unfoldable pub declares_attribute : Ontology → Text → Bool
declares_attribute o term = declares o.attributes term

abbrev unknown_term : (Text → Text) → Text → Text → Bool → List Text
unknown_term repr what term true = []
unknown_term repr what term false = (what ++ repr term ++ codes " is not in the ontology") ∷ []

abbrev unknown_in : (Text → Text) → Ontology → Variant → List Text
unknown_in repr o (entity t) = unknown_term repr (codes "entity_type ") t (declares_entity_type o t)
unknown_in repr o (relation t _ _ _) =
    unknown_term repr (codes "relation_type ") t (declares_relation_type o t)
unknown_in repr o (attribute_assertion _ a _ _) =
    unknown_term repr (codes "attribute ") a (declares_attribute o a)
unknown_in repr o (other _) = []

-- `OntologyCandidateValidator._unknown_terms`
unfoldable pub unknown_terms : (Text → Text) → Option Ontology → Candidate → List Text
unknown_terms repr none c = []
unknown_terms repr (some o) c = unknown_in repr o c.variant

abbrev some_reason : List Text → Bool
some_reason [] = false
some_reason (r ∷ rs) = true

-- `OntologyCandidateValidator.validate`
unfoldable pub ontology_validate :
    (Text → Text) → Option Ontology → Bool → Text → Candidate → ValidationDecision
ontology_validate repr ontology strict version c =
    let reasons = unknown_terms repr ontology c in
    let is_rejected = some_reason reasons && strict in
    record {
      candidate_id = c.candidate_id;
      valid = not is_rejected;
      failure_kind = if is_rejected then some unsupported_ontology else none;
      reasons = reasons;
      policy_version = version;
      trace_id = c.trace_id;
    }
