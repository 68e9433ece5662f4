-- ===== src/Erasure.antt =====
-- `ErasureCoordinator`: src/kgis/erasure.py.
pub mod Steps
pub mod Privacy
pub mod Redactions
pub mod Cascades
pub mod Retry
pub mod Stages
pub mod Bodies
pub mod Outcomes
use agentic_kgis.Prelude.{
  ℕ, Bool, true, false, not, Option, none, some, List, [], ◌∷◌, map, Text, ◌==◌, text_eq, any, keep,
  if◌then◌else◌,
}
use agentic_kgis.Evidence.{Time}
use agentic_kgis.Tables.{LedgerRow, is_erased}
use agentic_kgis.Database.{
  Failure, key_error, permission_error, erasure_incomplete, Result, ok, err, World, Env, Action,
  pure, raise, raise_if, or_raise, ◌>>=◌, ◌>>◌, now, commit_ledger, commit_registry, restore_ledger,
  restore_registry, on_error,
}
use agentic_kgis.Ledger.{row, in_transaction}
use agentic_kgis.Governance.{revoke_row, apply_erase, record_redaction}
use agentic_kgis.Registry.{remove_subject_refs, orphan_evidence, redact_evidence}

pub record ErasureReport : Type 0 where
  pub candidate_id : Text
  pub removed_refs : List Text
  pub redacted : List Text
  pub preserved : List Text
  pub already_erased : Bool

abbrev pub is_among : List Text → Text → Bool
is_among ids id = any (λ x. x == id) ids

-- the evidence ids that were removed, those redacted with their hashes, and those preserved
pub record Cascade : Type 0 where
  pub removed : List Text
  pub redacted : List (Text × Text)
  pub preserved : List Text

abbrev pub add_redacted : Text → Option Text → List (Text × Text) → List (Text × Text)
add_redacted id none rest = rest
add_redacted id (some hash) rest = (id, hash) ∷ rest

abbrev pub report : Text → Cascade → ErasureReport
report id c = record {
  candidate_id = id;
  removed_refs = c.removed;
  redacted = map (λ p. p.0) c.redacted;
  preserved = c.preserved;
  already_erased = false;
}

abbrev pub already : Text → ErasureReport
already id = record {
  candidate_id = id;
  removed_refs = [];
  redacted = [];
  preserved = [];
  already_erased = true;
}

module _ (env : Env) where
  -- the loop of `_cascade` over the removed ids
  unfoldable pub redact_loop : List Text → List Text → Text → Time → Action (List (Text × Text))
  redact_loop [] orphans reason at = pure []
  redact_loop (id ∷ ids) orphans reason at = do
    hash ← (if is_among orphans id then redact_evidence env id reason at else pure none)
    rest ← redact_loop ids orphans reason at
    pure (add_redacted id hash rest)

  unfoldable pub cascade : Text → Text → Time → Action Cascade
  cascade id reason at = do
    removed ← remove_subject_refs env id
    orphans ← orphan_evidence env removed
    redacted ← redact_loop removed orphans reason at
    pure (record {
      removed = removed;
      redacted = redacted;
      preserved = keep (λ x. not (is_among orphans x)) removed;
    })

  -- `_audit`
  unfoldable pub audit : Text → List (Text × Text) → Text → Text → Action (Unit {0})
  audit id [] reason actor = pure tt
  audit id ((evidence_id, hash) ∷ rest) reason actor = do
    record_redaction env id evidence_id hash reason actor
    audit id rest reason actor

  -- what `_erase_shared` does between its `try` and its commit
  unfoldable pub shared_body : Text → Text → Text → Time → Action Cascade
  shared_body id reason actor at = do
    apply_erase env id reason actor
    c ← cascade id reason at
    audit id c.redacted reason actor
    pure c

  unfoldable pub erase_shared : Text → Text → Text → Time → Action ErasureReport
  erase_shared id reason actor at = do
    c ← in_transaction env (shared_body id reason actor at)
    pure (report id c)

  unfoldable pub separate_body : Text → Text → Text → Time → Action Cascade
  separate_body id reason actor at = do
    c ← cascade id reason at
    apply_erase env id reason actor
    audit id c.redacted reason actor
    pure c

  abbrev restore_both : World → World
  restore_both w = restore_registry env (restore_ledger env w)

  -- `except Exception as exc: rollback; raise ErasureIncompleteError from exc`
  abbrev incomplete : {A : Type 0} → Result A → World → Result A × World
  incomplete (ok a) w = (ok a, w)
  incomplete (err e) w = (err erasure_incomplete, restore_ledger env w)

  unfoldable pub final_commit : Action (Unit {0})
  final_commit w = let (r, w') = commit_ledger env w in incomplete r w'

  unfoldable pub erase_separate : Text → Text → Text → Time → Action ErasureReport
  erase_separate id reason actor at = do
    c ← on_error (separate_body id reason actor at) restore_both
    on_error (commit_registry env) restore_both
    final_commit
    pure (report id c)

  abbrev erase_row_found : Text → Text → Text → Option LedgerRow → Action ErasureReport
  erase_row_found id reason actor none = raise key_error
  erase_row_found id reason actor (some r) = if is_erased r then pure (already id) else do
    at ← now env
    if env.shared then erase_shared id reason actor at else erase_separate id reason actor at

  -- `ErasureCoordinator.erase`
  unfoldable pub erase : Text → Text → Text → Action ErasureReport
  erase id reason actor = do
    raise_if (not env.profile.erasure_enabled) permission_error
    found ← row env id
    erase_row_found id reason actor found

  -- `ErasureCoordinator.revoke`
  unfoldable pub revoke : Text → Text → Text → Action ℕ
  revoke id reason actor = revoke_row env id reason actor
