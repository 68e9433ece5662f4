-- ===== src/Tables.antt =====
-- The tables of the two SQLite stores: src/kgis/ledger/schema.py, row.py and
-- src/kgis/evidence/schema.py. A table is the list of its rows in the order of insertion.
use agentic_kgis.Prelude.{ℕ, Bool, not, ◌&&◌, Option, List, Text, is_some}
use agentic_kgis.Evidence.{Time, Evidence, EvidenceRelationship}
use agentic_kgis.Lifecycle.{ProcessingState}

-- a row of `ledger_entries`
pub record LedgerRow : Type 0 where
  pub candidate_id : Text
  pub graph_id : Text
  pub dedup_key : Text
  pub candidate_kind : Text
  pub processing_state : ProcessingState
  pub payload_json : Option Text
  pub payload_hash : Text
  pub retry_count : ℕ
  pub quarantine_reason : Option Text
  pub valid_from : Option Time
  pub valid_to : Option Time
  pub received_at : Time
  pub recorded_at : Time
  pub revoked_at : Option Time
  pub revocation_reason : Option Text
  pub erased_at : Option Time
  pub erasure_reason : Option Text

abbrev pub is_revoked : LedgerRow → Bool
is_revoked r = is_some r.revoked_at

abbrev pub is_erased : LedgerRow → Bool
is_erased r = is_some r.erased_at

-- `LIVE_ROW_PREDICATE`
abbrev pub is_live : LedgerRow → Bool
is_live r = not (is_revoked r) && not (is_erased r)

-- The reason column: what the caller said, under the prefix of a revoke or an erase.
pub data Reason : Type 0 where
  stated : Option Text → Reason
  revoked erased : Text → Reason

pub record TransitionRow : Type 0 where
  pub transition_id : ℕ
  pub candidate_id : Text
  pub from_state : Option ProcessingState
  pub to_state : ProcessingState
  pub reason : Reason
  pub actor : Text
  pub at : Time

pub data AuditKind : Type 0 where
  transition revoke erase redact : AuditKind

-- `detail_json` repeats the reason and the actor, and names the evidence of a redaction.
pub record AuditRow : Type 0 where
  pub candidate_id : Text
  pub transition_id : Option ℕ
  pub kind : AuditKind
  pub from_state : Option ProcessingState
  pub to_state : Option ProcessingState
  pub payload_hash : Text
  pub reason : Reason
  pub actor : Text
  pub recorded_at : Time
  pub evidence_id : Option Text

pub record LedgerTables : Type 0 where
  pub entries : List LedgerRow
  pub transitions : List TransitionRow
  pub audits : List AuditRow

-- A row of `evidence`: the columns that repeat fields of the stored evidence are left out.
pub record EvidenceRow : Type 0 where
  pub evidence : Evidence
  pub redacted_at : Option Time
  pub redaction_reason : Option Text

-- a row of `evidence_refs`
pub record RefRow : Type 0 where
  pub subject_id : Text
  pub evidence_id : Text
  pub relationship : EvidenceRelationship

pub record RegistryTables : Type 0 where
  pub items : List EvidenceRow
  pub refs : List RefRow
