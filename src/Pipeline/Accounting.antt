-- ===== src/Pipeline/Accounting.antt =====
-- The counters of `IngestPipeline._collect`, src/kgis/pipeline.py: every record read and every
-- candidate built is accounted for.
use agentic_kgis.Prelude.{
  ℕ, ◌+◌, true, ◌≡◌, refl, ◌⊎◌, inl, inr, arith, List, [], ◌∷◌, Text, length, length-append,
  has_text, Bool-cases,
}
use agentic_kgis.Candidates.{Candidate}
use agentic_kgis.Validation.{SourceRecord, NormalizedRecord, RecordValidation}
use agentic_kgis.Pipeline.{
  Built, built, data_error, unreadable, bug, Ending, Progress, on_report, Stages, admit_candidate,
  admit_all, take_built, warn_all, take_validated, collect_one, collect, fresh, build_failure,
}
use agentic_kgis.Reports.{note_validation_failure, read_more, valid_more, built_more}
use agentic_kgis.Pipeline.Admission.{Rounds, Returns, if_cases, collect-Returns}

-- The counters agree, but for `open_` records that are read and not judged yet.
pub record IsTallied (open_ : ℕ) (p : Progress) : Type 0 where
  pub records : p.report.records_read ≡ p.report.records_valid + p.report.records_invalid + open_
  pub candidates :
      p.report.candidates_built
      ≡ p.report.candidates_suppressed + p.report.candidates_rejected + length p.planned
  pub failures : length p.report.validation_failures ≡ p.report.records_invalid
  pub rejections : length p.report.candidate_rejections ≡ p.report.candidates_rejected

-- At the end: one record may be left unjudged, and the report says that it is incomplete.
abbrev pub IsAccounted : Progress → Type 0
IsAccounted p = IsTallied 0 p ⊎ (IsTallied 1 p × (p.report.incomplete ≡ true))

module _ {V : Type 0} (stages : Stages V) where
  admit_candidate-IsTallied :
      (k : ℕ) (c : Candidate) (p : Progress)
      → IsTallied k p
      → IsTallied k (admit_candidate stages c (on_report built_more p))
  unfolding admit_candidate
  admit_candidate-IsTallied k c p h = elim (Bool-cases (has_text c.semantic_key p.seen_keys)) [
    | inl e ↦ rw e (record {
      records = h.records;
      candidates = omega (arith, h.candidates);
      failures = h.failures;
      rejections = h.rejections;
    })
    | inr e ↦ rw e (
        if_cases (IsTallied k) (stages.validate_candidate c).valid
          (record {
            records = h.records;
            candidates = omega (arith, h.candidates, length-append p.planned (c ∷ []));
            failures = h.failures;
            rejections = h.rejections;
          })
          (record {
            records = h.records;
            candidates = omega (arith, h.candidates);
            failures = h.failures;
            rejections = omega (
              arith,
              h.rejections,
              length-append p.report.candidate_rejections (stages.validate_candidate c ∷ []),
            );
          }))
  ]

  admit_all-IsTallied :
      (k : ℕ) (cs : List Candidate) (p : Progress)
      → IsTallied k p
      → IsTallied k (admit_all stages cs p)
  unfolding admit_all
  admit_all-IsTallied k [] p h = h
  admit_all-IsTallied k (c ∷ cs) p h =
      admit_all-IsTallied k cs (admit_candidate stages c (on_report built_more p))
        (admit_candidate-IsTallied k c p h)

  note_validation_failure-IsTallied :
      (d : RecordValidation) (p : Progress)
      → IsTallied 1 p
      → IsTallied 0 (on_report (note_validation_failure d) p)
  note_validation_failure-IsTallied d p h = record {
    records = omega (arith, h.records);
    candidates = h.candidates;
    failures = omega (arith, h.failures, length-append p.report.validation_failures (d ∷ []));
    rejections = h.rejections;
  }

  take_built-IsTallied :
      (n : NormalizedRecord V) (b : Built) (p : Progress)
      → IsTallied 1 p
      → Rounds (IsTallied 0) IsAccounted (take_built stages n b p)
  unfolding take_built
  take_built-IsTallied n (built cs) p h =
      admit_all-IsTallied 0 cs (on_report valid_more p) (record {
        records = omega (arith, h.records);
        candidates = h.candidates;
        failures = h.failures;
        rejections = h.rejections;
      })
  take_built-IsTallied n (data_error m) p h =
      note_validation_failure-IsTallied (build_failure stages n m) p h
  take_built-IsTallied n (unreadable m) p h = inr (
    record {
      records = h.records;
      candidates = h.candidates;
      failures = h.failures;
      rejections = h.rejections;
    },
    refl,
  )
  take_built-IsTallied n bug p h = tt

  warn_all-IsTallied :
      (index : ℕ) (locator : Text) (ws : List Text) (p : Progress)
      → IsTallied 1 p
      → IsTallied 1 (on_report (warn_all index locator ws) p)
  warn_all-IsTallied index locator [] p h = h
  warn_all-IsTallied index locator (w ∷ ws) p h =
      warn_all-IsTallied index locator ws (on_report (warn_all index locator (w ∷ [])) p) (record {
        records = h.records;
        candidates = h.candidates;
        failures = h.failures;
        rejections = h.rejections;
      })

  take_validated-IsTallied :
      (n : NormalizedRecord V) (d : RecordValidation) (p : Progress)
      → IsTallied 1 p
      → Rounds (IsTallied 0) IsAccounted (take_validated stages n d p)
  unfolding take_validated
  take_validated-IsTallied n d p h =
      let warned = on_report (warn_all n.index n.coordinates.locator d.warnings) p in
      let kept = warn_all-IsTallied n.index n.coordinates.locator d.warnings p h in
      if_cases (Rounds (IsTallied 0) IsAccounted) d.valid
        (take_built-IsTallied n (stages.build n) warned kept)
        (note_validation_failure-IsTallied d warned kept)

  collect_one-IsTallied :
      (s : SourceRecord V) (p : Progress)
      → IsTallied 0 p
      → Rounds (IsTallied 0) IsAccounted (collect_one stages s p)
  unfolding collect_one
  collect_one-IsTallied s p h =
      let n = stages.normalize s in
      take_validated-IsTallied n (stages.record_validator.validate n) (on_report read_more p)
        (record {
          records = omega (arith, h.records);
          candidates = h.candidates;
          failures = h.failures;
          rejections = h.rejections;
        })

  -- The report of a collection that returns accounts for everything: every record read is valid or
  -- invalid, but for one at which the source gave out, where the report is incomplete; every
  -- candidate built is suppressed, rejected or planned; every failure and rejection is kept.
  pub collect-IsAccounted :
      (ss : List (SourceRecord V)) (ending : Ending)
      → Returns IsAccounted (collect stages ss ending fresh)
  collect-IsAccounted ss ending =
      collect-Returns stages (IsTallied 0) IsAccounted collect_one-IsTallied (λ p h. inl h)
        (λ m p h. inl (record {
          records = h.records;
          candidates = h.candidates;
          failures = h.failures;
          rejections = h.rejections;
        }))
        ss ending fresh
        (record { records = refl; candidates = refl; failures = refl; rejections = refl })
