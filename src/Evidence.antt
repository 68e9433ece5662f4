-- ===== src/Evidence.antt =====
-- The evidence contract: src/kg_contracts/evidence.py. Instants are natural numbers: the code only
-- compares and stores them.
pub mod Builders
use agentic_kgis.Prelude.{
  ℕ, Bool, true, false, not, ◌&&◌, ◌||◌, Option, none, some, Text, leb, is_some,
}

abbrev pub Time : Type 0
Time = ℕ

pub record ValidPeriod : Type 0 where
  pub valid_from : Option Time
  pub valid_to : Option Time

-- `ValidPeriod._check_ordering`
unfoldable pub period_ordered : ValidPeriod → Bool
period_ordered p = elim p.valid_from [
  | none ↦ true
  | some a ↦ elim p.valid_to [ none ↦ true | some b ↦ leb a b ]
]

pub record TextSpan : Type 0 where
  pub start : ℕ
  pub end : ℕ
  pub quote : Option Text

pub data EvidenceAvailability : Type 0 where
  present absent error : EvidenceAvailability

abbrev pub is_present : EvidenceAvailability → Bool
is_present present = true
is_present absent = false
is_present error = false

pub data AbsenceReason : Type 0 where
  not_queried source_omitted source_unavailable sources_contradict source_states_unknown :
      AbsenceReason

-- `Evidence`, less its provenance, which no operation reads
pub record Evidence : Type 0 where
  pub evidence_id : Text
  pub source_type : Text
  pub source_locator : Text
  pub observed_at : Time
  pub valid_time : Option ValidPeriod
  pub availability : EvidenceAvailability
  pub absence_reason : Option AbsenceReason
  pub payload_hash : Option Text
  pub content : Option Text
  pub error_message : Option Text
  pub span : Option TextSpan

-- `_check_availability_shape`, by the availability
abbrev shape_of : EvidenceAvailability → Evidence → Bool
shape_of present e =
    (is_some e.content || is_some e.payload_hash)
    && (not (is_some e.absence_reason) && not (is_some e.error_message))
shape_of absent e =
    is_some e.absence_reason
    && (not (is_some e.content) && (not (is_some e.payload_hash) && not (is_some e.error_message)))
shape_of error e =
    is_some e.error_message
    && (not (is_some e.content) && (not (is_some e.payload_hash) && not (is_some e.absence_reason)))

unfoldable pub well_shaped : Evidence → Bool
well_shaped e = shape_of e.availability e

pub data EvidenceRelationship : Type 0 where
  supports contradicts derived_from contextualizes : EvidenceRelationship

-- the text that the enumeration's value is, as a number
abbrev pub relationship_code : EvidenceRelationship → ℕ
relationship_code supports = 0
relationship_code contradicts = 1
relationship_code derived_from = 2
relationship_code contextualizes = 3

pub record EvidenceRef : Type 0 where
  pub evidence_id : Text
  pub relationship : EvidenceRelationship
