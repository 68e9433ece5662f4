-- ===== src/Submission.antt =====
-- `SqliteCandidateLedger.submit`: src/kgis/ledger/store.py.
pub mod Keys
pub mod Steps
pub mod Results
pub mod Atomicity
use agentic_kgis.Prelude.{
  Bool, true, false, not, ◌&&◌, Option, none, some, List, [], ◌∷◌, Text, if◌then◌else◌,
}
use agentic_kgis.Candidates.{Candidate}
use agentic_kgis.Lifecycle.{ProcessingState}
use agentic_kgis.Tables.{stated, transition}
use agentic_kgis.Database.{
  IdentityMode, auto_merge, reject_only, resolver_fault, World, Env, Action, pure, or_raise, ◌>>=◌,
  ◌>>◌, now, statement, query,
}
use agentic_kgis.Ledger.{
  dedup_key, has_live_key, row_for_candidate, insert_entry, insert_transition, in_transaction,
}

pub data SubmissionStatus : Type 0 where
  received duplicate invalid : SubmissionStatus

-- `SubmissionOutcome`, less the text of its reason
pub record SubmissionOutcome : Type 0 where
  pub candidate_id : Text
  pub status : SubmissionStatus
  pub trace_id : Text

abbrev pub outcome : SubmissionStatus → Candidate → SubmissionOutcome
outcome s c = record { candidate_id = c.candidate_id; status = s; trace_id = c.trace_id }

abbrev pub is_reject_only : IdentityMode → Bool
is_reject_only auto_merge = false
is_reject_only reject_only = true

abbrev pub verdict : Option (Candidate → Option Bool) → Candidate → Action Bool
verdict none c = pure false
verdict (some resolver) c = or_raise (resolver c) resolver_fault

module _ (env : Env) where
  -- the REJECT_ONLY test of `submit`
  unfoldable pub is_rejected : Candidate → Action Bool
  is_rejected c =
      if is_reject_only env.profile.identity_mode then verdict env.resolver c else pure false

  -- `submit` on a candidate that is neither a live duplicate nor rejected
  unfoldable pub admit : Candidate → Action SubmissionOutcome
  admit c = do
    at ← now env
    inserted ← insert_entry env (row_for_candidate env c at)
    if inserted
        then (do
          insert_transition env c.candidate_id none ProcessingState.received (stated none)
              c.producer transition
          pure (outcome SubmissionStatus.received c))
        else pure (outcome duplicate c)

  -- one round of the loop of `submit`
  unfoldable pub submit_one : Candidate → Action SubmissionOutcome
  submit_one c = do
    seen ← query env (λ w. has_live_key (dedup_key c) w.ledger.entries)
    if seen then pure (outcome duplicate c) else do
      rejected ← is_rejected c
      if rejected then pure (outcome SubmissionStatus.invalid c) else admit c

  unfoldable pub submit_loop : List Candidate → Action (List SubmissionOutcome)
  submit_loop [] = pure []
  submit_loop (c ∷ cs) = do o ← submit_one c; os ← submit_loop cs; pure (o ∷ os)

  unfoldable pub submit : List Candidate → Action (List SubmissionOutcome)
  submit cs = in_transaction env (submit_loop cs)
