-- ===== src/Governance.antt =====
-- The state changes of one ledger row: `transition`, `revoke`, `erase` and their readers in
-- src/kgis/ledger/store.py.
pub mod Effects
pub mod Operations
use agentic_kgis.Prelude.{
  ℕ, ◌+◌, Bool, true, false, not, ◌&&◌, ◌||◌, Option, none, some, Text, is_some, if◌then◌else◌,
}
use agentic_kgis.Evidence.{Time}
use agentic_kgis.Lifecycle.{ProcessingState, can_transition}
use agentic_kgis.Tables.{
  LedgerRow, is_revoked, is_erased, Reason, stated, revoked, erased, transition, revoke, erase,
  redact,
}
use agentic_kgis.Database.{
  key_error, permission_error, illegal_transition, Env, Action, pure, raise, or_raise, raise_if,
  ◌>>=◌, ◌>>◌, now, statement, query,
}
use agentic_kgis.Ledger.{row, has_id, update_entry, append_audit, insert_transition, in_transaction}

abbrev pub or_else : Option Text → Option Text → Option Text
or_else none old = old
or_else (some new) old = some new

-- the values that `transition` binds, from the row that it read
abbrev pub moved : ProcessingState → Bool → Option Text → LedgerRow → LedgerRow → LedgerRow
moved to increment_retry quarantine_reason r old = record old {
  processing_state = to;
  retry_count = r.retry_count + (if increment_retry then 1 else 0);
  quarantine_reason = or_else quarantine_reason r.quarantine_reason;
}

abbrev pub withdrawn : Time → Text → LedgerRow → LedgerRow
withdrawn at reason r = record r { revoked_at = some at; revocation_reason = some reason }

abbrev pub blanked : Time → Text → LedgerRow → LedgerRow
blanked at reason r = record r {
  payload_json = none;
  erased_at = some at;
  erasure_reason = some reason;
}

-- the row, if it is there and passes
abbrev pub live_row : (LedgerRow → Bool) → Option LedgerRow → Action LedgerRow
live_row test none = raise key_error
live_row test (some r) = if test r then raise key_error else pure r

module _ (env : Env) where
  -- The UPDATE binds the values that were computed from the row read before it.
  unfoldable pub transition_to :
      Text → ProcessingState → Text → Option Text → Bool → Option Text → Action (Option LedgerRow)
  transition_to id to actor reason increment_retry quarantine_reason = do
    r ← live_row (λ r. is_revoked r || is_erased r) (← row env id)
    raise_if (not (can_transition r.processing_state to)) illegal_transition
    in_transaction env (do
      update_entry env id (moved to increment_retry quarantine_reason r)
      insert_transition env id (some r.processing_state) to (stated reason) actor transition)
    row env id

  -- `SqliteCandidateLedger.revoke`
  unfoldable pub revoke_row : Text → Text → Text → Action ℕ
  revoke_row id reason actor = do
    r ← live_row is_erased (← row env id)
    in_transaction env (do
      at ← now env
      update_entry env id (withdrawn at reason)
      insert_transition env id (some r.processing_state) r.processing_state (revoked reason) actor
          revoke)

  -- `_apply_erase`, which does not commit; the assertion that the row is there fails as an error
  unfoldable pub apply_erase : Text → Text → Text → Action ℕ
  apply_erase id reason actor = do
    r ← live_row (λ _. false) (← row env id)
    at ← now env
    update_entry env id (blanked at reason)
    insert_transition env id (some r.processing_state) r.processing_state (erased reason) actor
        erase

  -- `record_redaction`, which does not commit
  unfoldable pub record_redaction : Text → Text → Text → Text → Text → Action (Unit {0})
  record_redaction id evidence_id evidence_payload_hash reason actor = do
    at ← now env
    append_audit env (record {
      candidate_id = id;
      transition_id = none;
      kind = redact;
      from_state = none;
      to_state = none;
      payload_hash = evidence_payload_hash;
      reason = stated (some reason);
      actor = actor;
      recorded_at = at;
      evidence_id = some evidence_id;
    })

  -- `SqliteCandidateLedger.erase`
  unfoldable pub erase_row : Text → Text → Text → Action ℕ
  erase_row id reason actor = do
    raise_if (not env.profile.erasure_enabled) permission_error
    live_row (λ _. false) (← row env id)
    in_transaction env (apply_erase id reason actor)

  -- `has_candidate_id`
  unfoldable pub has_candidate_id : Text → Action Bool
  has_candidate_id id = query env (λ w. has_id id w.ledger.entries)
