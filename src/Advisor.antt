-- ===== src/Advisor.antt =====
-- The advisor on new graphs: src/kgis/registry/models.py, src/kgis/registry/advisor.py and
-- src/kg_contracts/registry.py. `F` is the type of Python's floats. A set is the list of its
-- elements.
pub mod Factors
pub mod Scoring
pub mod Minors
pub mod Contract
pub mod Projections
use agentic_kgis.Prelude.{
  ℕ, zero, suc, ◌+◌, Bool, true, false, not, ◌&&◌, ◌||◌, Option, none, some, List, [], ◌∷◌, ◌++◌,
  Text, codes, ◌==◌, text_eq, nat_eq, ltb, length, keep, map, strip, has_text, Dict, lookup,
  if◌then◌else◌,
}

-- What the advisor asks of Python's floats and texts: `a / b` of two integers, the sum of a list
-- and a float over a count, the comparisons, and `str.lower`.
pub record Arithmetic (F : Type 0) : Type 0 where
  pub zero_score : F
  pub one_score : F
  pub minus_one : F
  pub ratio : ℕ → ℕ → F
  pub sum : List F → F
  pub over : F → ℕ → F
  pub at_least : F → F → Bool
  pub same : F → F → Bool
  pub above : F → F → Bool
  pub lower : Text → Text

pub data Backend : Type 0 where
  spanner neo4j memory : Backend

pub record GraphDescriptor : Type 0 where
  pub name : Text
  pub owner : Text
  pub domain : Text
  pub tags : List Text
  pub backend : Backend
  pub connection_ref : Option Text
  pub node_types : List Text
  pub edge_types : List Text
  pub ontology_version : Option Text
  pub policy_ref : Option Text
  pub created_by : Text
  pub decision_record : Option Text

pub record RegisteredGraph : Type 0 where
  pub descriptor : GraphDescriptor
  pub version : ℕ
  pub attributes : Dict Text

pub record IncomingDataProfile : Type 0 where
  pub domain : Option Text
  pub identity_authority : Option Text
  pub identity_keys : List Text
  pub node_types : List Text
  pub edge_types : List Text
  pub attribute_types : List Text
  pub tenancy_class : Option Text
  pub contains_minors_data : Option Bool
  pub lifecycle_class : Option Text
  pub retention_class : Option Text
  pub is_computed_output : Option Bool

pub record AdvisorConfig (F : Type 0) : Type 0 where
  pub extend_threshold : F
  pub shared_logical_threshold : F
  pub shared_identity_threshold : F
  pub tenancy_floor : F
  pub coupling_floor : F
  pub min_scored_factors : ℕ

pub data Outcome : Type 0 where
  extend_same_physical shared_logical_separate_physical separate_shared_identity fully_isolated
        insufficient_information :
      Outcome

-- `left | right` and `left & right` of sets, and `frozenset(xs)`
abbrev pub union : List Text → List Text → List Text
union left right = left ++ keep (λ x. not (has_text x left)) right

abbrev pub intersection : List Text → List Text → List Text
intersection left right = keep (λ x. has_text x right) left

abbrev pub as_set : List Text → List Text
as_set [] = []
as_set (x ∷ xs) = x ∷ keep (λ y. not (y == x)) (as_set xs)

-- `raw.split(",")`, where the text in front of the next comma is under way
abbrev pub split_comma : Text → List Text
split_comma [] = [] ∷ []
split_comma (c ∷ t) = elim (split_comma t) [
  | [] ↦ (c ∷ []) ∷ []
  | part ∷ parts ↦ if c == 44 then [] ∷ part ∷ parts else (c ∷ part) ∷ parts
]

-- `RegisteredGraph.attribute_types`
unfoldable pub attribute_types : RegisteredGraph → List Text
attribute_types g = elim (lookup (codes "attribute_types") g.attributes) [
  | none ↦ []
  | some raw ↦ as_set (keep (λ p. not (p == [])) (map strip (split_comma raw)))
]

abbrev pub backend_name : Backend → Text
backend_name spanner = codes "SPANNER"
backend_name neo4j = codes "NEO4J"
backend_name memory = codes "MEMORY"

-- `RegisteredGraph.resolved_backend`
unfoldable pub resolved_backend : RegisteredGraph → Text
resolved_backend g = elim (lookup (codes "backend.open_id") g.attributes) [
  | none ↦ backend_name g.descriptor.backend
  | some id ↦ id
]
