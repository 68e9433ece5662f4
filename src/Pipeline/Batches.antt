-- ===== src/Pipeline/Batches.antt =====
-- Batching in `IngestPipeline._submit_all`, src/kgis/pipeline.py: what it hands to the sink, and a
-- run against the plan.
use agentic_kgis.Prelude.{
  ℕ, zero, suc, ◌≤◌, false, ◌≡◌, refl, sym, ap, ◌∙◌, arith, Option, none, some, List, [], ◌∷◌, ◌++◌,
  length, take, drop, take-drop, length-take, length-drop, ltb, All,
}
use mathlib.Core.Bool.{true≢false}
use agentic_kgis.Candidates.{Candidate}
use agentic_kgis.Submission.{SubmissionOutcome}
use agentic_kgis.Sink.{CandidateSink, IsSequential}
use agentic_kgis.Pipeline.{Progress, collect, fresh}
use agentic_kgis.Reports.{Report}
use agentic_kgis.Pipeline.Runs.{
  batched_from, batched, record_all, submit_batches, submit_all, count_kinds, build_plan,
  IngestPipeline, IngestionReport, run, plan, settle_run, settle_plan,
}

abbrev pub join : {A : Type 0} → List (List A) → List A
join [] = []
join (xs ∷ xss) = xs ++ join xss

-- a batch that the sink may get
abbrev pub IsBatch : ℕ → List Candidate → Type 0
IsBatch size b = (1 ≤ length b) × (length b ≤ size)

batched_from_lem :
    (fuel k : ℕ) (items : List Candidate)
    → length items ≤ fuel
    → (join (batched_from fuel (suc k) items) ≡ items)
      × All (IsBatch (suc k)) (batched_from fuel (suc k) items)
unfolding batched_from
batched_from_lem zero k [] h = (refl, tt)
batched_from_lem zero k (c ∷ cs) h = absurd (omega (arith, h))
batched_from_lem (suc fuel) k [] h = (refl, tt)
batched_from_lem (suc fuel) k (c ∷ cs) h =
    let rest = batched_from_lem fuel k (drop k cs) (omega (arith, h, length-drop k cs)) in
    (
      ap (λ l. c ∷ (take k cs ++ l)) rest.0 ∙ ap (λ l. c ∷ l) (take-drop k cs),
      ((omega arith, omega (arith, length-take k cs)), rest.1),
    )

-- The batches of a size that the constructor takes hold the items, all of them and in their order,
-- and none is empty or longer than the size.
pub join-batched :
    (size : ℕ) (items : List Candidate)
    → ltb size 1 ≡ false
    → (join (batched size items) ≡ items) × All (IsBatch size) (batched size items)
unfolding batched
join-batched zero items h = absurd (true≢false h)
join-batched (suc k) items h = batched_from_lem (length items) k items (omega arith)

record_all-append :
    (os ps : List SubmissionOutcome) (r : Report)
    → record_all (os ++ ps) r ≡ record_all ps (record_all os r)
unfolding record_all
record_all-append [] ps r = refl
record_all-append (o ∷ os) ps r = record_all-append os ps _

module _ {S : Type 0} (sink : CandidateSink S) where
  -- what one submission does to the report and the sink
  abbrev pub submit_once : List Candidate → Report → S → Report × S
  submit_once cs r s = let (os, t) = sink.submit_to cs s in (record_all os r, t)

  -- the report and the sink after the candidates of a dry run are submitted at once
  abbrev pub submit_plan : S → Option IngestionReport → Option (IngestionReport × S)
  submit_plan s none = none
  submit_plan s (some rep) = elim rep.plan_made [
    | none ↦ none
    | some dry ↦
        (let (r, t) = submit_once dry.candidates rep.counters s in
          some (record rep { counters = r; plan_made = none }, t))
  ]

module _ {S : Type 0} (sink : CandidateSink S) (sequential : IsSequential sink) where
  submit_batches_lem :
      (bs : List (List Candidate)) (r : Report) (s : S)
      → submit_batches sink bs r s ≡ submit_once sink (join bs) r s
  unfolding submit_batches record_all
  submit_batches_lem [] r s = ap (λ o. (record_all o.0 r, o.1)) (sym (sequential.nothing s))
  submit_batches_lem (b ∷ bs) r s =
      submit_batches_lem bs (record_all (sink.submit_to b s).0 r) (sink.submit_to b s).1
      ∙ sym (
          ap (λ o. (record_all o.0 r, o.1)) (sequential.joins b (join bs) s)
          ∙ ap (λ rep. (rep, (sink.submit_to (join bs) (sink.submit_to b s).1).1))
              (record_all-append (sink.submit_to b s).0
                (sink.submit_to (join bs) (sink.submit_to b s).1).0 r))

  -- Batching is transport: for a sink that takes two batches as it takes one of both, and a size
  -- that the constructor takes, the report and the sink come out as from a single submission.
  pub submit_all-submit_once :
      (size : ℕ) (planned : List Candidate) (r : Report) (s : S)
      → ltb size 1 ≡ false
      → submit_all sink size planned r s ≡ submit_once sink planned r s
  unfolding submit_all
  submit_all-submit_once size planned r s h =
      submit_batches_lem (batched size planned) r s
      ∙ ap (λ cs. submit_once sink cs r s) (join-batched size planned h).0

  -- A real run is the dry run, and one submission of exactly the candidates of its plan: it raises
  -- where the dry run raises, and counts, coverage and kinds are the dry run's but for what the
  -- sink answers.
  pub run-plan :
      {V : Type 0} (job : IngestPipeline V) (s : S)
      → ltb job.batch_size 1 ≡ false
      → run sink job s ≡ submit_plan sink s (plan job)
  unfolding run plan build_plan
  run-plan job s h = go (collect job.stages job.records job.ending fresh)
    where
      go : (o : Option Progress) → settle_run sink job o s ≡ submit_plan sink s (settle_plan job o)
      go none = refl
      go (some p) =
          ap
            (λ out. some (
              record {
                counters = out.0;
                coverage = p.coverage;
                kind_counts = count_kinds p.planned;
                plan_made = none;
              },
              out.1,
            ))
            (submit_all-submit_once job.batch_size p.planned p.report s h)
