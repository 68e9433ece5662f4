-- ===== src/Examples/Ledgers.antt =====
-- Runs of the ledger.
use agentic_kgis.Prelude.{
  true, false, ◌≡◌, refl, ◌↔◌, none, some, List, [], ◌∷◌, codes, arith, All, text_beq, map,
}
use agentic_kgis.Candidates.{kind_name}
use agentic_kgis.Lifecycle.{ProcessingState, validated, can_transition, legal_transitions}
use agentic_kgis.Lifecycle.Paths.{PathTo}
use agentic_kgis.Tables.{LedgerRow, is_erased, stated, revoked, transition, revoke}
use agentic_kgis.Database.{ok, World, ◌>>=◌, statement, now, commit_ledger, on_error}
use agentic_kgis.Ledger.{
  dedup_key, row_for_candidate, row, insert_entry, append_transition, append_audit,
  insert_transition, in_transaction, update_entry, find_row,
}
use agentic_kgis.Ledger.Commit.{IsClean, Settled}
use agentic_kgis.Ledger.Log.{IsLog}
use agentic_kgis.Ledger.Valid.{IsValid}
use agentic_kgis.Submission.{
  SubmissionOutcome, received, duplicate, outcome, submit, submit_loop, submit_one, is_rejected,
  admit,
}
use agentic_kgis.Submission.Keys.{dedup_key_iff}
use agentic_kgis.Submission.Steps.{SubmitRun, submit_loop-Run}
use agentic_kgis.Submission.Atomicity.{submit-Settled}
use agentic_kgis.Submission.Results.{NotReceived, submit_again}
use agentic_kgis.Governance.{moved, withdrawn, transition_to, revoke_row}
use agentic_kgis.Governance.Effects.{Recorded, state_of}
use agentic_kgis.Governance.Operations.{MayMove, transition_to-Recorded, revoke_row-Recorded}
use agentic_kgis.Calls.{Call, call, Calls, start, then, Calls-IsValid, Calls-PathTo}
use agentic_kgis.Listing.{LedgerReadOptions, listed, ordered, place, row_leb, text_leb, is_selected}
use agentic_kgis.Examples.{
  ledger_row, candidate, batch, healthy, faulty, empty, world-IsClean, no_rows, no_evidence,
  populated, one_row, some_evidence,
}

abbrev first_outcomes : List SubmissionOutcome
first_outcomes =
    outcome received (candidate (codes "a") (codes "k"))
    ∷ outcome duplicate (candidate (codes "b") (codes "k"))
    ∷ outcome received (candidate (codes "c") (codes "l"))
    ∷ []

abbrev second_outcomes : List SubmissionOutcome
second_outcomes =
    outcome duplicate (candidate (codes "a") (codes "k"))
    ∷ outcome duplicate (candidate (codes "b") (codes "k"))
    ∷ outcome duplicate (candidate (codes "c") (codes "l"))
    ∷ []

empty-IsClean : IsClean empty
empty-IsClean = world-IsClean no_rows no_evidence

empty-IsValid : IsValid no_rows
empty-IsValid = record {
  distinct_ids = tt;
  distinct_keys = tt;
  is_log = IsLog.start;
  in_state = tt;
  known = λ id h. refl;
}

abbrev after : World
after = (submit healthy batch empty).1

first_submit : (submit healthy batch empty).0 ≡ ok first_outcomes
unfolding submit submit_loop submit_one is_rejected admit in_transaction insert_entry
    insert_transition append_transition append_audit row row_for_candidate dedup_key kind_name
    commit_ledger on_error now statement ◌>>=◌ text_beq
first_submit = refl

second_submit : (submit healthy batch after).0 ≡ ok second_outcomes
unfolding submit submit_loop submit_one is_rejected admit in_transaction insert_entry
    insert_transition append_transition append_audit row row_for_candidate dedup_key kind_name
    commit_ledger on_error now statement ◌>>=◌ text_beq
second_submit = refl

first_loop : (submit_loop healthy batch empty).0 ≡ ok first_outcomes
unfolding submit_loop submit_one is_rejected admit insert_entry insert_transition append_transition
    append_audit row row_for_candidate dedup_key kind_name now statement ◌>>=◌ text_beq
first_loop = refl

submit_again_example :
    ((submit healthy batch after).1.saved_ledger ≡ after.saved_ledger)
    × All NotReceived second_outcomes
submit_again_example =
    submit_again healthy batch empty first_outcomes second_outcomes empty-IsClean first_submit
      second_submit

submit-Settled_example :
    Settled
      (submit_loop faulty batch)
      empty
      (submit faulty batch empty).0
      (submit faulty batch empty).1
submit-Settled_example = submit-Settled faulty batch empty empty-IsClean

submit_loop-Run_example :
    SubmitRun healthy batch empty.ledger first_outcomes (submit_loop healthy batch empty).1.ledger
submit_loop-Run_example = submit_loop-Run healthy batch empty first_outcomes first_loop

dedup_key_iff_example :
    let c = candidate (codes "a") (codes "k") in
    let d = candidate (codes "b") (codes "l") in
    (dedup_key c ≡ dedup_key d) ↔ ((c.graph_id ≡ d.graph_id) × (c.semantic_key ≡ d.semantic_key))
dedup_key_iff_example =
    dedup_key_iff (candidate (codes "a") (codes "k")) (candidate (codes "b") (codes "l"))
      ((λ e. ground arith), tt) ((λ e. ground arith), tt)

-- a submission, then the first candidate's validation
abbrev moving : Call
moving = Call.transition (codes "a") validated (codes "v") none false none

after-IsClean : IsClean after
unfolding submit submit_loop submit_one is_rejected admit in_transaction insert_entry
    insert_transition append_transition append_audit row row_for_candidate dedup_key kind_name
    commit_ledger on_error now statement ◌>>=◌ text_beq
after-IsClean = record { ledger = refl; registry = refl }

history : Calls healthy empty (call healthy moving (call healthy (Call.submit batch) empty))
history = then (then start empty-IsClean (Call.submit batch)) after-IsClean moving

Calls-IsValid_example :
    IsValid (call healthy moving (call healthy (Call.submit batch) empty)).saved_ledger
Calls-IsValid_example =
    Calls-IsValid healthy empty (call healthy moving (call healthy (Call.submit batch) empty))
      history empty-IsValid

abbrev validated_row : LedgerRow
validated_row =
    let entered = row_for_candidate healthy (candidate (codes "a") (codes "k")) 1 in
    moved validated false none entered entered

row_is_validated :
    find_row
      (codes "a")
      (call healthy moving (call healthy (Call.submit batch) empty)).saved_ledger.entries
    ≡ some validated_row
unfolding transition_to update_entry legal_transitions can_transition submit submit_loop submit_one
    is_rejected admit in_transaction insert_entry insert_transition append_transition append_audit
    row row_for_candidate dedup_key kind_name commit_ledger on_error now statement ◌>>=◌ text_beq
row_is_validated = refl

Calls-PathTo_example : PathTo ProcessingState.received validated_row.processing_state
Calls-PathTo_example =
    Calls-PathTo healthy empty (call healthy moving (call healthy (Call.submit batch) empty))
      (codes "a") validated_row history empty-IsValid row_is_validated

populated-IsClean : IsClean populated
populated-IsClean = world-IsClean one_row some_evidence

transition_to-Recorded_example :
    let (r, w') =
      transition_to healthy (codes "a") validated (codes "v") none true none populated in
    Recorded
      (codes "a")
      (MayMove validated)
      (λ r _. moved validated true none r)
      (λ _. validated)
      (stated none)
      (codes "v")
      transition
      populated.saved_ledger
      r
      w'.saved_ledger
transition_to-Recorded_example =
    transition_to-Recorded healthy (codes "a") validated (codes "v") none true none populated
      populated-IsClean

revoke_row-Recorded_example :
    let (r, w') = revoke_row faulty (codes "a") (codes "stale") (codes "v") populated in
    Recorded
      (codes "a")
      (λ r. is_erased r ≡ false)
      (λ _ at. withdrawn at (codes "stale"))
      state_of
      (revoked (codes "stale"))
      (codes "v")
      revoke
      populated.saved_ledger
      r
      w'.saved_ledger
revoke_row-Recorded_example =
    revoke_row-Recorded faulty (codes "a") (codes "stale") (codes "v") populated populated-IsClean

abbrev all_received : LedgerReadOptions
all_received = record {
  graph_id = some (codes "g");
  processing_states = some (ProcessingState.received ∷ []);
}

abbrev three_rows : List LedgerRow
three_rows =
    record (ledger_row (codes "b") ProcessingState.received) { recorded_at = 9 }
    ∷ ledger_row (codes "c") ProcessingState.received
    ∷ ledger_row (codes "d") validated
    ∷ ledger_row (codes "a") ProcessingState.received
    ∷ []

by_time_then_id :
    map (λ r. r.candidate_id) (listed all_received three_rows)
    ≡ codes "a" ∷ codes "c" ∷ codes "b" ∷ []
unfolding listed ordered place row_leb text_leb is_selected text_beq
by_time_then_id = refl
