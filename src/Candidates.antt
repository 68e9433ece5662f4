-- ===== src/Candidates.antt =====
-- The candidate envelope and its variants, as far as the stores and the pipeline read them:
-- src/kg_contracts/candidates.py and identity.py.
use agentic_kgis.Prelude.{Option, none, some, List, Text, codes}
use agentic_kgis.Evidence.{Time, ValidPeriod, EvidenceRef}
use agentic_kgis.Policy.{CandidateScores}

pub record EntityRef : Type 0 where
  pub entity_type : Text
  pub namespace : Text
  pub key : Text

-- A namespaced reference, or a bare identity id.
pub data SubjectRef : Type 0 where
  alias : EntityRef → SubjectRef
  identity : Text → SubjectRef

-- the six variants that no stage tells apart but by their kind
pub data OtherKind : Type 0 where
  observation derived_assertion artifact plan ontology identity_link : OtherKind

pub data Variant : Type 0 where
  entity : Text → Variant
  relation : Text → SubjectRef → SubjectRef → Option ValidPeriod → Variant
  attribute_assertion : SubjectRef → Text → Text → Option ValidPeriod → Variant
  other : OtherKind → Variant

pub record Candidate : Type 0 where
  pub candidate_id : Text
  pub graph_id : Text
  pub producer : Text
  pub semantic_key : Text
  pub evidence_refs : List EvidenceRef
  pub scores : CandidateScores
  pub trace_id : Text
  pub created_at : Time
  pub variant : Variant

-- `getattr(candidate, "valid_period", None)`
abbrev pub valid_period : Variant → Option ValidPeriod
valid_period (entity _) = none
valid_period (relation _ _ _ p) = p
valid_period (attribute_assertion _ _ _ p) = p
valid_period (other _) = none

-- `getattr(period, "valid_from", None)`, and the same of `valid_to`
abbrev pub period_from : Option ValidPeriod → Option Time
period_from none = none
period_from (some p) = p.valid_from

abbrev pub period_to : Option ValidPeriod → Option Time
period_to none = none
period_to (some p) = p.valid_to

-- the value of `candidate_kind`
unfoldable pub kind_name : Variant → Text
kind_name (entity _) = codes "entity"
kind_name (relation _ _ _ _) = codes "relation"
kind_name (attribute_assertion _ _ _ _) = codes "attribute_assertion"
kind_name (other observation) = codes "observation"
kind_name (other derived_assertion) = codes "derived_assertion"
kind_name (other artifact) = codes "artifact"
kind_name (other plan) = codes "plan"
kind_name (other ontology) = codes "ontology"
kind_name (other identity_link) = codes "identity_link"
