-- ===== src/Examples/Pipelines.antt =====
-- Runs of the ingestion pipeline on the in-memory ledger.
use agentic_kgis.Prelude.{
  ℕ, Bool, true, false, ◌≡◌, ◌≢◌, refl, Option, none, some, List, [], ◌∷◌, ◌++◌, sym, ap, Text,
  codes, text_beq, lookup,
}
use mathlib.Core.Bool.{true≢false}
use agentic_kgis.Candidates.{Candidate}
use agentic_kgis.Validation.{
  SourceCoordinates, SourceRecord, RecordIssue, RecordValidator, has_errors, missing_fields,
  issue_validator, required_values_validator, composite_record_validator, merge_all, merge_one,
}
use agentic_kgis.Validation.Terms.{unknown_terms, ontology_validate}
use agentic_kgis.Sink.{MemoryCandidateSink, memory_submit, memory_sink}
use agentic_kgis.Sink.Keys.{memory_sink-IsSequential}
use agentic_kgis.Pipeline.{
  Built, built, data_error, unreadable, bug, Ending, exhausted, broken, crashed, Progress, Stages,
  collect_one, take_validated, take_built, admit_all, admit_candidate, collect, fresh,
}
use agentic_kgis.Reports.{new_report}
use agentic_kgis.Pipeline.Admission.{Returns, IsPlan, collect-IsPlan}
use agentic_kgis.Pipeline.Accounting.{IsAccounted, collect-IsAccounted}
use agentic_kgis.Pipeline.Runs.{IngestPipeline, run, plan, submit_all, count_ledger_duplicates}
use agentic_kgis.Pipeline.Batches.{submit_plan, run-plan}
use agentic_kgis.Pipeline.Prediction.{
  view_of, memory_submit-IsLedger, count_ledger_duplicates-submit_all,
}
use agentic_kgis.Examples.{candidate}

abbrev pub coordinates : SourceCoordinates
coordinates = record {
  source_type = codes "csv";
  locator = codes "people.csv";
  fragment = none;
  source_version = none;
}

abbrev row_with : ℕ → Option Text → List RecordIssue → SourceRecord Text
row_with n key issues = record {
  index = n;
  coordinates = coordinates;
  data_ = (codes "key", key) ∷ [];
  issues = issues;
}

abbrev quoted : Text → Text
quoted t = codes "'" ++ t ++ codes "'"

abbrev validators : List (RecordValidator Text)
validators =
    issue_validator (codes "1")
    ∷ required_values_validator quoted (codes "key" ∷ []) (codes "2")
    ∷ []

abbrev validator : RecordValidator Text
validator = composite_record_validator validators none

abbrev build_found : Option (Option Text) → Built
build_found none = data_error (codes "no key")
build_found (some none) = data_error (codes "null key")
build_found (some (some key)) = built (candidate key key ∷ [])

abbrev is_bug : Built → Bool
is_bug (built cs) = false
is_bug (data_error m) = false
is_bug (unreadable m) = false
is_bug bug = true

build_found_has_no_bug : (o : Option (Option Text)) → build_found o ≢ bug
build_found_has_no_bug none e = true≢false (sym (ap is_bug e))
build_found_has_no_bug (some none) e = true≢false (sym (ap is_bug e))
build_found_has_no_bug (some (some key)) e = true≢false (sym (ap is_bug e))

abbrev is_crashed : Ending → Bool
is_crashed exhausted = false
is_crashed (broken m) = false
is_crashed crashed = true

abbrev stages : Stages Text
stages = record {
  normalize = λ s. record {
    index = s.index;
    coordinates = s.coordinates;
    values = s.data_;
    extras = [];
    issues = s.issues;
  };
  record_validator = validator;
  build = λ n. build_found (lookup (codes "key") n.values);
  validate_candidate = ontology_validate quoted none true (codes "1");
}

abbrev rows : List (SourceRecord Text)
rows =
    row_with 0 (some (codes "a")) []
    ∷ row_with 1 none []
    ∷ row_with 2 (some (codes "a")) []
    ∷ row_with 3 (some (codes "b")) []
    ∷ []

abbrev empty_sink : MemoryCandidateSink
empty_sink = record { seen_pairs = []; received_list = [] }

abbrev job : IngestPipeline Text
job = record {
  graph_id = codes "g";
  records = rows;
  ending = broken (codes "timeout");
  stages = stages;
  ledger_reader = some (view_of empty_sink);
  batch_size = 2;
}

abbrev after_one : MemoryCandidateSink
after_one = (memory_submit (candidate (codes "a") (codes "a") ∷ []) empty_sink).1

abbrev two : List Candidate
two = candidate (codes "a") (codes "a") ∷ candidate (codes "b") (codes "b") ∷ []

abbrev planned_of : Option Progress → List Candidate
planned_of none = []
planned_of (some p) = p.planned

two_are_planned : planned_of (collect stages rows exhausted fresh) ≡ two
unfolding collect collect_one take_validated take_built admit_all admit_candidate
    composite_record_validator merge_all merge_one issue_validator has_errors
    required_values_validator missing_fields ontology_validate unknown_terms text_beq
two_are_planned = refl

collect-IsAccounted_example :
    Returns IsAccounted (collect stages rows (broken (codes "timeout")) fresh)
collect-IsAccounted_example = collect-IsAccounted stages rows (broken (codes "timeout"))

collect-IsPlan_example : Returns (IsPlan stages) (collect stages rows exhausted fresh)
collect-IsPlan_example = collect-IsPlan stages rows exhausted

run-plan_example : run memory_sink job empty_sink ≡ submit_plan memory_sink empty_sink (plan job)
run-plan_example = run-plan memory_sink memory_sink-IsSequential job empty_sink refl

count_ledger_duplicates-submit_all_example :
    count_ledger_duplicates (codes "g") (some (view_of after_one)) two
    ≡ some (submit_all memory_sink 2 two new_report after_one).0.duplicates
unfolding text_beq
count_ledger_duplicates-submit_all_example =
    count_ledger_duplicates-submit_all (codes "g") 2 two new_report after_one refl
      (refl, (refl, tt)) (refl, (refl, tt))
      (memory_submit-IsLedger (candidate (codes "a") (codes "a") ∷ []) empty_sink (λ g k. refl))
      refl
