-- ===== src/Pipeline/Runs.antt =====
-- The two ways through a pipeline, `run` and `plan`: src/kgis/pipeline.py, with the dry-run plan
-- of src/kgis/report.py.
use agentic_kgis.Prelude.{
  ℕ, zero, suc, ◌+◌, Bool, false, ◌||◌, Option, none, some, List, [], ◌∷◌, map, Text, ◌==◌, text_eq,
  keep, length, take, drop, ltb, Dict, has_text, if◌then◌else◌,
}
use agentic_kgis.Candidates.{Candidate, kind_name}
use agentic_kgis.Submission.{SubmissionStatus, received, duplicate, invalid, SubmissionOutcome}
use agentic_kgis.Listing.{LedgerEntry, text_leb}
use agentic_kgis.Validation.{
  SourceRecord, RecordValidator, required_values_validator, composite_record_validator,
  default_policy_version,
}
use agentic_kgis.Sink.{CandidateSink}
use agentic_kgis.Pipeline.{Ending, Progress, Stages, collect, fresh}
use agentic_kgis.Reports.{Report, tally, CoverageCounter, count_up}

-- `_batched`: a list has at most as many batches as elements
unfoldable pub batched_from : ℕ → ℕ → List Candidate → List (List Candidate)
batched_from zero size items = []
batched_from (suc fuel) size [] = []
batched_from (suc fuel) size (c ∷ cs) =
    take size (c ∷ cs) ∷ batched_from fuel size (drop size (c ∷ cs))

unfoldable pub batched : ℕ → List Candidate → List (List Candidate)
batched size items = batched_from (length items) size items

abbrev submitted_more : SubmissionStatus → Report → Report
submitted_more received r = record r { candidates_submitted = r.candidates_submitted + 1 }
submitted_more duplicate r = r
submitted_more invalid r = r

-- what `_submit_all` notes of the outcomes of a batch
unfoldable pub record_all : List SubmissionOutcome → Report → Report
record_all [] r = r
record_all (o ∷ os) r = record_all os (submitted_more o.status (tally o.status r))

-- `_count_kinds`: a counter, in the order of its keys
abbrev pub count_each : List Candidate → Dict ℕ → Dict ℕ
count_each [] d = d
count_each (c ∷ cs) d = count_each cs (count_up (kind_name c.variant) d)

abbrev pub place_entry : Text × ℕ → Dict ℕ → Dict ℕ
place_entry e [] = e ∷ []
place_entry e (x ∷ xs) =
    let rest = place_entry e xs in if text_leb e.0 x.0 then e ∷ x ∷ xs else x ∷ rest

abbrev pub sort_entries : Dict ℕ → Dict ℕ
sort_entries [] = []
sort_entries (e ∷ d) = place_entry e (sort_entries d)

unfoldable pub count_kinds : List Candidate → Dict ℕ
count_kinds cs = sort_entries (count_each cs [])

-- a ledger as `plan` reads it: its entries, and the probe for ids where the reader has one
pub record LedgerView : Type 0 where
  pub entries : List LedgerEntry
  pub has_candidate_id : Option (Text → Bool)

abbrev probed : Option (Text → Bool) → Text → Bool
probed none id = false
probed (some probe) id = probe id

-- the set of semantic keys that `_count_ledger_duplicates` gathers
unfoldable pub existing_keys : Text → List LedgerEntry → List Text
existing_keys graph_id entries =
    map (λ e. e.candidate.semantic_key) (keep (λ e. e.candidate.graph_id == graph_id) entries)

unfoldable pub is_predicted : Text → LedgerView → Candidate → Bool
is_predicted graph_id view c =
    has_text c.semantic_key (existing_keys graph_id view.entries)
    || probed view.has_candidate_id c.candidate_id

unfoldable pub count_ledger_duplicates : Text → Option LedgerView → List Candidate → Option ℕ
count_ledger_duplicates graph_id none planned = none
count_ledger_duplicates graph_id (some view) planned =
    some (length (keep (is_predicted graph_id view) planned))

pub record DryRunPlan : Type 0 where
  pub would_submit : ℕ
  pub by_kind : Dict ℕ
  pub candidates : List Candidate
  pub truncated : Bool
  pub ledger_duplicates : Option ℕ

-- `_build_plan`
unfoldable pub build_plan : Text → Option LedgerView → List Candidate → DryRunPlan
build_plan graph_id reader planned = record {
  would_submit = length planned;
  by_kind = count_kinds planned;
  candidates = planned;
  truncated = false;
  ledger_duplicates = count_ledger_duplicates graph_id reader planned;
}

-- the record validator that `__init__` composes: the builder's required fields come after the base
unfoldable pub guarded_validator :
    {V : Type 0} → (Text → Text) → RecordValidator V → List Text → RecordValidator V
guarded_validator repr base [] = base
guarded_validator repr base (f ∷ fs) =
    composite_record_validator
      (base ∷ required_values_validator repr (f ∷ fs) default_policy_version ∷ []) none

-- a configured job: `__init__`, less what only names the run
pub record IngestPipeline (V : Type 0) : Type 0 where
  pub graph_id : Text
  pub records : List (SourceRecord V)
  pub ending : Ending
  pub stages : Stages V
  pub ledger_reader : Option LedgerView
  pub batch_size : ℕ

-- `__init__` refuses a batch size below 1
unfoldable pub new_pipeline : {V : Type 0} → IngestPipeline V → Option (IngestPipeline V)
new_pipeline p = if ltb p.batch_size 1 then none else some p

pub record IngestionReport : Type 0 where
  pub counters : Report
  pub coverage : CoverageCounter
  pub kind_counts : Dict ℕ
  pub plan_made : Option DryRunPlan

module _ {S : Type 0} (sink : CandidateSink S) where
  unfoldable pub submit_batches : List (List Candidate) → Report → S → Report × S
  submit_batches [] r s = (r, s)
  submit_batches (b ∷ bs) r s =
      let (os, t) = sink.submit_to b s in submit_batches bs (record_all os r) t

  -- `_submit_all`
  unfoldable pub submit_all : ℕ → List Candidate → Report → S → Report × S
  submit_all size planned r s = submit_batches (batched size planned) r s

  module _ {V : Type 0} (job : IngestPipeline V) where
    abbrev pub settle_run : Option Progress → S → Option (IngestionReport × S)
    settle_run none s = none
    settle_run (some p) s =
        let (r, t) = submit_all job.batch_size p.planned p.report s in
        some (
          record {
            counters = r;
            coverage = p.coverage;
            kind_counts = count_kinds p.planned;
            plan_made = none;
          },
          t,
        )

    -- `run`: `none` where an exception leaves it
    unfoldable pub run : S → Option (IngestionReport × S)
    run s = settle_run (collect job.stages job.records job.ending fresh) s

module _ {V : Type 0} (job : IngestPipeline V) where
  abbrev pub settle_plan : Option Progress → Option IngestionReport
  settle_plan none = none
  settle_plan (some p) = some (record {
    counters = p.report;
    coverage = p.coverage;
    kind_counts = count_kinds p.planned;
    plan_made = some (build_plan job.graph_id job.ledger_reader p.planned);
  })

  unfoldable pub plan : Option IngestionReport
  plan = settle_plan (collect job.stages job.records job.ending fresh)
