-- ===== src/Ledger.antt =====
-- The statements of `SqliteCandidateLedger` on its tables: src/kgis/ledger/store.py, row.py and
-- audit.py.
pub mod Rows
pub mod Log
pub mod Commit
pub mod Valid
use agentic_kgis.Prelude.{
  ℕ, suc, ◌+◌, Bool, true, false, not, ◌&&◌, ◌||◌, Option, none, some, List, [], ◌∷◌, ◌++◌, map,
  Text, ◌==◌, text_eq, length, any, keep, first, codes, is_some, if◌then◌else◌,
}
use agentic_kgis.Evidence.{Time}
use agentic_kgis.Candidates.{Candidate, kind_name, valid_period, period_from, period_to}
use agentic_kgis.Lifecycle.{ProcessingState, can_transition}
use agentic_kgis.Tables.{
  LedgerRow, is_revoked, is_erased, is_live, Reason, stated, revoked, erased, TransitionRow,
  AuditKind, transition, revoke, erase, redact, AuditRow, LedgerTables,
}
use agentic_kgis.Database.{
  IdentityMode, auto_merge, reject_only, resolver_fault, key_error, permission_error,
  illegal_transition, World, Env, Action, pure, raise, or_raise, raise_if, ◌>>=◌, ◌>>◌, now,
  statement, query, commit_ledger, restore_ledger, on_error,
}

-- `dedup_key`, with the unit separator between its parts
unfoldable pub dedup_key : Candidate → Text
dedup_key c = c.graph_id ++ 31 ∷ c.semantic_key

-- `SELECT * FROM ledger_entries WHERE candidate_id = ?`
abbrev pub find_row : Text → List LedgerRow → Option LedgerRow
find_row id = first (λ r. r.candidate_id == id)

abbrev pub has_live_key : Text → List LedgerRow → Bool
has_live_key k = any (λ r. r.dedup_key == k && is_live r)

abbrev pub has_id : Text → List LedgerRow → Bool
has_id id = any (λ r. r.candidate_id == id)

-- `UPDATE ledger_entries SET ... WHERE candidate_id = ?`
abbrev pub update_row : Text → (LedgerRow → LedgerRow) → List LedgerRow → List LedgerRow
update_row id f = map (λ r. if r.candidate_id == id then f r else r)

-- the primary key and the partial unique index over the live rows
abbrev pub violates_unique : LedgerRow → List LedgerRow → Bool
violates_unique r rows = has_id r.candidate_id rows || (is_live r && has_live_key r.dedup_key rows)

abbrev pub on_entries : (List LedgerRow → List LedgerRow) → World → World
on_entries f w = record w { ledger = record w.ledger { entries = f w.ledger.entries } }

abbrev pub add_transition : TransitionRow → World → World
add_transition t w = record w {
  ledger = record w.ledger { transitions = w.ledger.transitions ++ t ∷ [] };
}

abbrev pub add_audit : AuditRow → World → World
add_audit a w = record w { ledger = record w.ledger { audits = w.ledger.audits ++ a ∷ [] } }

abbrev pub hash_of : Option LedgerRow → Text
hash_of none = []
hash_of (some r) = r.payload_hash

module _ (env : Env) where
  -- `LedgerRow.for_candidate`
  unfoldable pub row_for_candidate : Candidate → Time → LedgerRow
  row_for_candidate c at = record {
    candidate_id = c.candidate_id;
    graph_id = c.graph_id;
    dedup_key = dedup_key c;
    candidate_kind = kind_name c.variant;
    processing_state = ProcessingState.received;
    payload_json = some (env.dump c);
    payload_hash = env.digest (env.dump c);
    retry_count = 0;
    quarantine_reason = none;
    valid_from = period_from (valid_period c.variant);
    valid_to = period_to (valid_period c.variant);
    received_at = c.created_at;
    recorded_at = at;
    revoked_at = none;
    revocation_reason = none;
    erased_at = none;
    erasure_reason = none;
  }

  unfoldable pub row : Text → Action (Option LedgerRow)
  row id = query env (λ w. find_row id w.ledger.entries)

  -- `INSERT INTO ledger_entries`; false for an `IntegrityError`
  unfoldable pub insert_entry : LedgerRow → Action Bool
  insert_entry r =
      statement env (λ w. not (violates_unique r w.ledger.entries))
        (λ w. if violates_unique r w.ledger.entries then w else on_entries (λ rs. rs ++ r ∷ []) w)

  unfoldable pub update_entry : Text → (LedgerRow → LedgerRow) → Action (Unit {0})
  update_entry id f = statement env (λ _. tt) (on_entries (update_row id f))

  -- `SqliteAuditStream.append`
  unfoldable pub append_audit : AuditRow → Action (Unit {0})
  append_audit a = statement env (λ _. tt) (add_audit a)

  -- the INSERT of `_insert_transition`, which returns the id that AUTOINCREMENT gives
  unfoldable pub append_transition :
      Text → Option ProcessingState → ProcessingState → Reason → Text → Time → Action ℕ
  append_transition id from to reason actor at =
      statement env (λ w. suc (length w.ledger.transitions))
        (λ w.
          add_transition
            (record {
              transition_id = suc (length w.ledger.transitions);
              candidate_id = id;
              from_state = from;
              to_state = to;
              reason = reason;
              actor = actor;
              at = at;
            })
            w)

  unfoldable pub insert_transition :
      Text → Option ProcessingState → ProcessingState → Reason → Text → AuditKind → Action ℕ
  insert_transition id from to reason actor kind = do
    at ← now env
    transition_id ← append_transition id from to reason actor at
    found ← row id
    append_audit (record {
      candidate_id = id;
      transition_id = some transition_id;
      kind = kind;
      from_state = from;
      to_state = some to;
      payload_hash = hash_of found;
      reason = reason;
      actor = actor;
      recorded_at = at;
      evidence_id = none;
    })
    pure transition_id

  -- `try: body except Exception: rollback; raise`, then `commit`
  unfoldable pub in_transaction : {A : Type 0} → Action A → Action A
  in_transaction body = do
    result ← on_error body (restore_ledger env)
    commit_ledger env
    pure result
