-- ===== src/Pipeline.antt =====
-- The collection of the ingestion pipeline: src/kgis/pipeline.py. Reader, normalizer, validators
-- and builder are the stages that the constructor takes; `V` is the type of the values that are not
-- None.
pub mod Admission
pub mod Accounting
pub mod Runs
pub mod Prediction
pub mod Batches
use agentic_kgis.Prelude.{
  ℕ, zero, suc, ◌+◌, Bool, true, false, not, ◌&&◌, ◌||◌, Option, none, some, List, [], ◌∷◌, ◌++◌,
  Text, codes, ◌==◌, text_eq, nat_eq, any, length, Dict, lookup, set, has_text, if◌then◌else◌,
}
use agentic_kgis.Candidates.{
  Candidate, Variant, entity, relation, attribute_assertion, other, kind_name,
}
use agentic_kgis.Submission.{SubmissionStatus, received, duplicate, invalid, SubmissionOutcome}
use agentic_kgis.Reports.{
  IngestWarning, Report, new_report, tally, fail, read_failed, note_validation_failure,
  note_candidate_rejection, read_more, valid_more, built_more, suppressed_more, succeeded,
  CoverageCounter, counted, count_up, observe,
}
use agentic_kgis.Validation.{
  SourceCoordinates, SourceRecord, NormalizedRecord, RecordValidation, RecordValidator, bad_data,
  ValidationDecision,
}

-- What `list(builder.build(...))` comes to: the candidates, `RecordDataError` or a contract's
-- `ValidationError`, `SourceReadError`, or any other exception.
pub data Built : Type 0 where
  built : List Candidate → Built
  data_error : Text → Built
  unreadable : Text → Built
  bug : Built

-- How the reader's stream ends, after its records.
pub data Ending : Type 0 where
  exhausted : Ending
  broken : Text → Ending
  crashed : Ending

-- what `_collect` changes as it goes
pub record Progress : Type 0 where
  pub report : Report
  pub coverage : CoverageCounter
  pub seen_keys : List Text
  pub planned : List Candidate

abbrev pub on_report : (Report → Report) → Progress → Progress
on_report f p = record p { report = f p.report }

-- the next record, the `except SourceReadError` of the loop, or another exception out of it
pub data Round : Type 0 where
  go_on : Progress → Round
  stop : Progress → Round
  crash : Round

-- the stages that `_collect` calls; the builder with its context
pub record Stages (V : Type 0) : Type 0 where
  pub normalize : SourceRecord V → NormalizedRecord V
  pub record_validator : RecordValidator V
  pub build : NormalizedRecord V → Built
  pub validate_candidate : Candidate → ValidationDecision

-- `report.warn` for each warning of a decision; the contract refuses an empty text, which no
-- validator of the repository gives
abbrev pub warn_all : ℕ → Text → List Text → Report → Report
warn_all index locator [] r = r
warn_all index locator (w ∷ ws) r = warn_all index locator ws (record r {
  warnings =
      r.warnings
      ++ (record {
        code = codes "record_warning";
        message = w;
        record_index = some index;
        locator = some locator;
      })
        ∷ [];
})

module _ {V : Type 0} (stages : Stages V) where
  -- `_admit_candidate`, and the append of `_collect`
  unfoldable pub admit_candidate : Candidate → Progress → Progress
  admit_candidate c p =
      if has_text c.semantic_key p.seen_keys
      then on_report suppressed_more p
      else if not (stages.validate_candidate c).valid
      then on_report (note_candidate_rejection (stages.validate_candidate c)) p
      else record p {
        coverage = observe c p.coverage;
        seen_keys = c.semantic_key ∷ p.seen_keys;
        planned = p.planned ++ c ∷ [];
      }

  unfoldable pub admit_all : List Candidate → Progress → Progress
  admit_all [] p = p
  admit_all (c ∷ cs) p = admit_all cs (admit_candidate c (on_report built_more p))

  -- `_build_failure`
  abbrev pub build_failure : NormalizedRecord V → Text → RecordValidation
  build_failure n message = record {
    index = n.index;
    coordinates = n.coordinates;
    valid = false;
    failure_kind = some bad_data;
    reasons = (codes "candidate construction failed: " ++ message) ∷ [];
    warnings = [];
    policy_version = stages.record_validator.policy_version;
  }

  unfoldable pub take_built : NormalizedRecord V → Built → Progress → Round
  take_built n (built cs) p = go_on (admit_all cs (on_report valid_more p))
  take_built n (data_error message) p =
      go_on (on_report (note_validation_failure (build_failure n message)) p)
  take_built n (unreadable message) p = stop (on_report (fail (read_failed message)) p)
  take_built n bug p = crash

  unfoldable pub take_validated : NormalizedRecord V → RecordValidation → Progress → Round
  take_validated n decision p =
      let warned = on_report (warn_all n.index n.coordinates.locator decision.warnings) p in
      if not decision.valid
      then go_on (on_report (note_validation_failure decision) warned)
      else take_built n (stages.build n) warned

  -- one round of the loop of `_collect`
  unfoldable pub collect_one : SourceRecord V → Progress → Round
  collect_one s p =
      let n = stages.normalize s in
      take_validated n (stages.record_validator.validate n) (on_report read_more p)

  abbrev ended : Ending → Progress → Option Progress
  ended exhausted p = some p
  ended (broken message) p = some (on_report (fail (read_failed message)) p)
  ended crashed p = none

  -- `_collect`: `none` where an exception leaves it
  unfoldable pub collect : List (SourceRecord V) → Ending → Progress → Option Progress
  collect [] ending p = ended ending p
  collect (s ∷ ss) ending p = elim (collect_one s p) [
    | go_on p' ↦ collect ss ending p'
    | stop p' ↦ some p'
    | crash ↦ none
  ]

abbrev pub fresh : Progress
fresh = record {
  report = new_report;
  coverage = record { entity_types = []; relation_types = []; attributes = [] };
  seen_keys = [];
  planned = [];
}
