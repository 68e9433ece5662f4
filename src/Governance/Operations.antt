-- ===== src/Governance/Operations.antt =====
-- `transition`, `revoke` and `erase`, each committed whole or not at all.
use agentic_kgis.Prelude.{
  ℕ, suc, Bool, true, false, not, ◌≡◌, refl, inl, inr, Option, none, some, arith, Text, ◌||◌, ◌∙◌,
  text_eq, ◌+◌, if◌then◌else◌,
}
use agentic_kgis.Evidence.{Time}
use agentic_kgis.Lifecycle.{ProcessingState, can_transition}
use agentic_kgis.Tables.{
  LedgerTables, LedgerRow, is_revoked, is_erased, Reason, stated, revoked, erased, AuditKind,
  transition, revoke, erase,
}
use agentic_kgis.Database.{
  illegal_transition, permission_error, Result, ok, err, World, Env, Action, raise_if, ◌>>=◌,
  statement, now, tick, continue,
}
use agentic_kgis.Database.Transactions.{Along}
use agentic_kgis.Ledger.{
  find_row, row, update_entry, insert_transition, append_transition, append_audit, in_transaction,
}
use agentic_kgis.Ledger.Commit.{Staged, staged_rules, IsClean, row-Staged}
use agentic_kgis.Governance.{
  or_else, live_row, moved, withdrawn, blanked, transition_to, revoke_row, apply_erase, erase_row,
}
use agentic_kgis.Governance.Effects.{
  changed_tables, Recorded, refused, changed, timed_change, timed_change-tables,
  timed_change-Staged, transaction-Recorded, on_row, on_row-cases, state_of, ticked-IsClean,
}

-- From a clean connection, whatever faults: `revoke` either raises and commits nothing, or commits
-- exactly this, for a row that is there and not erased, revoked before or not: the row's
-- revocation columns are set, and one transition row that keeps the state and one audit row of
-- kind `revoke` with its id are appended.
pub revoke_row-Recorded :
    (env : Env) (id reason actor : Text) (w : World)
    → IsClean w
    → let (r, w') = revoke_row env id reason actor w in
      Recorded id
        (λ r. is_erased r ≡ false)
        (λ _ at r. record r { revoked_at = some at; revocation_reason = some reason })
        state_of
        (revoked reason)
        actor
        revoke
        w.saved_ledger
        r
        w'.saved_ledger
unfolding revoke_row
revoke_row-Recorded env id reason actor w c =
    elim (on_row-cases env id is_erased
      (λ r. in_transaction env (
        timed_change env id (λ at. withdrawn at reason) r.processing_state r.processing_state
          (revoked reason) actor revoke))
      w) [
        | inl (e, q) ↦ rw q (refused e refl refl)
        | inr (r, found, live, q) ↦ rw q (
            transaction-Recorded env id (λ r. is_erased r ≡ false) (λ _ at. withdrawn at reason)
              (revoked reason) actor revoke r (tick w) _ _ _ state_of (ticked-IsClean w c) found
              live
              (timed_change-Staged env id (λ at. withdrawn at reason) r.processing_state
                r.processing_state (revoked reason) actor revoke)
              (timed_change-tables env id (λ at. withdrawn at reason) r.processing_state
                r.processing_state (revoked reason) actor revoke (tick w)))
      ]

module _ (env : Env) (id reason actor : Text) where
  live_row-Staged :
      (test : LedgerRow → Bool) (o : Option LedgerRow) → Along Staged (live_row test o)
  live_row-Staged test none = search staged_rules
  live_row-Staged test (some r) = search staged_rules

  pub apply_erase-Staged : Along Staged (apply_erase env id reason actor)
  unfolding apply_erase
  apply_erase-Staged = search (staged_rules, live_row-Staged) depth 9

  pub apply_erase-tables :
      (w : World) (n : ℕ) (r : LedgerRow)
      → find_row id w.ledger.entries ≡ some r
      → (apply_erase env id reason actor w).0 ≡ ok n
      → (apply_erase env id reason actor w).1.ledger
        ≡ changed_tables id
            (blanked (env.time (suc w.ticks)) reason)
            r.processing_state
            r.processing_state
            (erased reason)
            actor
            erase
            (env.time (suc (suc (suc w.ticks))))
            w.ledger
  unfolding apply_erase update_entry insert_transition append_transition append_audit row statement
      now ◌>>=◌
  apply_erase-tables w n r found h = ground arith

  permitted :
      (b : Bool) (m : Action ℕ) (w : World)
      → b ≡ true
      → (raise_if (not b) permission_error >>= λ _. m) w ≡ m w
  unfolding ◌>>=◌
  permitted true m w e = refl
  permitted false m w e = cc e

-- From a clean connection, whatever faults: `erase` either raises and commits nothing, or commits
-- exactly this, under a profile that enables erasure and for a row that is there, erased before or
-- not: the payload is nulled and the erasure columns are set, and one transition row that keeps
-- the state and one audit row of kind `erase` with its id are appended.
pub erase_row-Recorded :
    (env : Env) (id reason actor : Text) (w : World)
    → IsClean w
    → env.profile.erasure_enabled ≡ true
    → let (r, w') = erase_row env id reason actor w in
      Recorded id
        (λ _. Unit)
        (λ _ at r. record r {
          payload_json = none;
          erased_at = some at;
          erasure_reason = some reason;
        })
        state_of
        (erased reason)
        actor
        erase
        w.saved_ledger
        r
        w'.saved_ledger
unfolding erase_row
erase_row-Recorded env id reason actor w c enabled =
    rw
      (permitted env id reason actor env.profile.erasure_enabled
        (on_row env id (λ _. false) (λ _. in_transaction env (apply_erase env id reason actor)) w) w
        enabled)
      (elim (on_row-cases env id (λ _. false)
        (λ _. in_transaction env (apply_erase env id reason actor)) w) [
          | inl (e, q) ↦ rw q (refused e refl refl)
          | inr (r, found, _, q) ↦ rw q (
              transaction-Recorded env id (λ _. Unit) (λ _ at. blanked at reason) (erased reason)
                actor erase r (tick w) _ _ _ state_of (ticked-IsClean w c) found tt
                (apply_erase-Staged env id reason actor)
                (λ n e. apply_erase-tables env id reason actor (tick w) n r found e))
        ])

module _ (env : Env) (id : Text) (from to : ProcessingState) (f : LedgerRow → LedgerRow)
    (reason : Reason) (actor : Text) where
  -- the body of the transaction of `transition`
  abbrev change : Action ℕ
  change =
      update_entry env id f >>= λ _. insert_transition env id (some from) to reason actor transition

  change-tables :
      (w : World) (n : ℕ)
      → (change w).0 ≡ ok n
      → (change w).1.ledger
        ≡ changed_tables id f from to reason actor transition (env.time (suc w.ticks)) w.ledger
  unfolding update_entry insert_transition append_transition append_audit row statement now ◌>>=◌
  change-tables w n h = ground arith

  change-Staged : Along Staged change
  change-Staged = search staged_rules depth 9

module _ (env : Env) (id : Text) (allowed : LedgerRow → Type 0)
    (f : LedgerRow → Time → LedgerRow → LedgerRow) (to : LedgerRow → ProcessingState)
    (reason : Reason) (actor : Text) (kind : AuditKind) (l : LedgerTables) where
  -- reading the row back after the commit commits nothing more
  reread-Recorded :
      (r : Result ℕ) (v : World)
      → Recorded id allowed f to reason actor kind l r v.saved_ledger
      → let (x, u) = continue r (λ _. row env id) v in
        Recorded id allowed f to reason actor kind l x u.saved_ledger
  reread-Recorded (ok n) v (refused e q same) = cc q
  reread-Recorded (ok n) v (changed old at at' found may tables) =
      changed old at at' found may (((row-Staged env id).at v).saved_ledger ∙ tables)
  reread-Recorded (err x) v (refused e q same) = refused x refl same
  reread-Recorded (err x) v (changed old at at' found may tables) =
      changed old at at' found may tables

-- A live row that may move to `to`.
abbrev pub MayMove : ProcessingState → LedgerRow → Type 0
MayMove to r =
    ((is_revoked r || is_erased r) ≡ false) × (can_transition r.processing_state to ≡ true)

module _ (env : Env) (id : Text) (to : ProcessingState) (actor : Text) (reason : Option Text)
    (retry : Bool) (quarantine : Option Text) where
  -- `transition` once a row is found that is live
  abbrev move : LedgerRow → Action (Option LedgerRow)
  move r =
      in_transaction env
        (change env id r.processing_state to (moved to retry quarantine r) (stated reason) actor)
      >>= λ _. row env id

  abbrev transition_found : LedgerRow → Action (Option LedgerRow)
  transition_found r =
      raise_if (not (can_transition r.processing_state to)) illegal_transition >>= λ _. move r

  move_found :
      (w : World) (c : IsClean w) (r : LedgerRow) (b : Bool)
      → can_transition r.processing_state to ≡ b
      → find_row id w.ledger.entries ≡ some r
      → (is_revoked r || is_erased r) ≡ false
      → let (x, u) = (raise_if (not b) illegal_transition >>= λ _. move r) (tick w) in
        Recorded id
          (MayMove to)
          (λ r _. moved to retry quarantine r)
          (λ _. to)
          (stated reason)
          actor
          transition
          w.saved_ledger
          x
          u.saved_ledger
  unfolding ◌>>=◌
  move_found w c r false legal found live = refused _ refl refl
  move_found w c r true legal found live =
      reread-Recorded env id (MayMove to) (λ r _. moved to retry quarantine r) (λ _. to)
        (stated reason) actor transition w.saved_ledger _ _
        (transaction-Recorded env id (MayMove to) (λ r _. moved to retry quarantine r)
          (stated reason) actor transition r (tick w) _ 0 _ (λ _. to) (ticked-IsClean w c) found
          (live, legal)
          (change-Staged env id r.processing_state to (moved to retry quarantine r) (stated reason)
            actor)
          (change-tables env id r.processing_state to (moved to retry quarantine r) (stated reason)
            actor (tick w)))

-- From a clean connection, whatever faults: `transition` commits nothing, and then it raised; or
-- it commits exactly this, for a row that is neither revoked nor erased and whose state has a
-- legal transition to the target: the state is the target, the retry count is raised if asked,
-- the quarantine reason is the given one or the old, and one transition row from the old state
-- to the target and one audit row with its id are appended.
pub transition_to-Recorded :
    (env : Env) (id : Text) (to : ProcessingState) (actor : Text) (reason : Option Text)
    (retry : Bool) (quarantine : Option Text) (w : World)
    → IsClean w
    → let (r, w') = transition_to env id to actor reason retry quarantine w in
      Recorded id
        (MayMove to)
        (λ r _ old. record old {
          processing_state = to;
          retry_count = r.retry_count + (if retry then 1 else 0);
          quarantine_reason = or_else quarantine r.quarantine_reason;
        })
        (λ _. to)
        (stated reason)
        actor
        transition
        w.saved_ledger
        r
        w'.saved_ledger
unfolding transition_to
transition_to-Recorded env id to actor reason retry quarantine w c =
    elim (on_row-cases env id (λ r. is_revoked r || is_erased r)
      (transition_found env id to actor reason retry quarantine) w) [
        | inl (e, q) ↦ rw q (refused e refl refl)
        | inr (r, found, live, q) ↦ rw q (
            move_found env id to actor reason retry quarantine w c r
              (can_transition r.processing_state to) refl found live)
      ]
