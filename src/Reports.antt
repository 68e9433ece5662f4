-- ===== src/Reports.antt =====
-- The counters of a run: src/kgis/report.py, src/kg_contracts/ingestion.py and the coverage counter
-- of src/kgis/ontology.py.
use agentic_kgis.Prelude.{
  ℕ, ◌+◌, Bool, true, false, not, ◌&&◌, Option, none, some, List, [], ◌∷◌, ◌++◌, Text, codes, ◌==◌,
  text_eq, nat_eq, Dict, lookup, set,
}
use agentic_kgis.Candidates.{Candidate, Variant, entity, relation, attribute_assertion, other}
use agentic_kgis.Submission.{SubmissionStatus, received, duplicate, invalid}
use agentic_kgis.Validation.{RecordValidation, ValidationDecision}

pub record IngestWarning : Type 0 where
  pub code : Text
  pub message : Text
  pub record_index : Option ℕ
  pub locator : Option Text

-- the counters of `IngestReport` and of `IngestionReport`, and the details behind them
pub record Report : Type 0 where
  pub received_count : ℕ
  pub duplicates : ℕ
  pub invalid_count : ℕ
  pub incomplete : Bool
  pub failures : List Text
  pub records_read : ℕ
  pub records_valid : ℕ
  pub records_invalid : ℕ
  pub candidates_built : ℕ
  pub candidates_suppressed : ℕ
  pub candidates_rejected : ℕ
  pub candidates_submitted : ℕ
  pub validation_failures : List RecordValidation
  pub candidate_rejections : List ValidationDecision
  pub warnings : List IngestWarning

abbrev pub new_report : Report
new_report = record {
  received_count = 0;
  duplicates = 0;
  invalid_count = 0;
  incomplete = false;
  failures = [];
  records_read = 0;
  records_valid = 0;
  records_invalid = 0;
  candidates_built = 0;
  candidates_suppressed = 0;
  candidates_rejected = 0;
  candidates_submitted = 0;
  validation_failures = [];
  candidate_rejections = [];
  warnings = [];
}

-- `IngestReport.record`
unfoldable pub tally : SubmissionStatus → Report → Report
tally received r = record r { received_count = r.received_count + 1 }
tally duplicate r = record r { duplicates = r.duplicates + 1 }
tally invalid r = record r { invalid_count = r.invalid_count + 1 }

-- `IngestReport.fail`
abbrev pub fail : Text → Report → Report
fail message r = record r { incomplete = true; failures = r.failures ++ message ∷ [] }

abbrev pub read_failed : Text → Text
read_failed message = codes "source read failed: " ++ message

abbrev pub note_validation_failure : RecordValidation → Report → Report
note_validation_failure d r = record r {
  records_invalid = r.records_invalid + 1;
  validation_failures = r.validation_failures ++ d ∷ [];
}

abbrev pub note_candidate_rejection : ValidationDecision → Report → Report
note_candidate_rejection d r = record r {
  candidates_rejected = r.candidates_rejected + 1;
  candidate_rejections = r.candidate_rejections ++ d ∷ [];
}

abbrev pub read_more : Report → Report
read_more r = record r { records_read = r.records_read + 1 }

abbrev pub valid_more : Report → Report
valid_more r = record r { records_valid = r.records_valid + 1 }

abbrev pub built_more : Report → Report
built_more r = record r { candidates_built = r.candidates_built + 1 }

abbrev pub suppressed_more : Report → Report
suppressed_more r = record r { candidates_suppressed = r.candidates_suppressed + 1 }

-- `succeeded`
unfoldable pub succeeded : Report → Bool
succeeded r =
    not r.incomplete
    && (r.records_invalid == 0 && (r.candidates_rejected == 0 && r.invalid_count == 0))

-- `CoverageCounter`
pub record CoverageCounter : Type 0 where
  pub entity_types : Dict ℕ
  pub relation_types : Dict ℕ
  pub attributes : Dict ℕ

abbrev pub counted : Option ℕ → ℕ
counted none = 0
counted (some n) = n

-- `counter[term] += 1`
abbrev pub count_up : Text → Dict ℕ → Dict ℕ
count_up term d = set term (counted (lookup term d) + 1) d

abbrev observe_variant : Variant → CoverageCounter → CoverageCounter
observe_variant (entity t) c = record c { entity_types = count_up t c.entity_types }
observe_variant (relation t _ _ _) c = record c { relation_types = count_up t c.relation_types }
observe_variant (attribute_assertion _ a _ _) c = record c { attributes = count_up a c.attributes }
observe_variant (other _) c = c

unfoldable pub observe : Candidate → CoverageCounter → CoverageCounter
observe candidate c = observe_variant candidate.variant c
