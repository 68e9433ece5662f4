-- ===== src/Ledger/Commit.antt =====
-- The transaction around a write: `try: body except: rollback; raise`, then `commit`.
use agentic_kgis.Prelude.{Bool, true, false, ◌≡◌, refl, ◌∙◌, Option, Text, arith}
use agentic_kgis.Database.{
  Failure, database_fault, Result, ok, err, World, Env, Action, pure, ◌>>=◌, statement, query,
  commit_ledger, restore_ledger, on_error,
}
use agentic_kgis.Database.Transactions.{IsPreorder, Along, Along-statement, along_rules}
use agentic_kgis.Evidence.{Time}
use agentic_kgis.Lifecycle.{ProcessingState}
use agentic_kgis.Tables.{LedgerRow, Reason, AuditKind, AuditRow}
use agentic_kgis.Ledger.{
  in_transaction, row, insert_entry, update_entry, append_audit, append_transition,
  insert_transition,
}

-- A step that commits nothing and leaves the registry alone.
pub record Staged (u v : World) : Type 0 where
  pub saved_ledger : v.saved_ledger ≡ u.saved_ledger
  pub saved_registry : v.saved_registry ≡ u.saved_registry
  pub registry : v.registry ≡ u.registry

pub Staged-IsPreorder : IsPreorder Staged
Staged-IsPreorder = record {
  stay = λ w. record { saved_ledger = refl; saved_registry = refl; registry = refl };
  chain = λ u v w p q. record {
    saved_ledger = q.saved_ledger ∙ p.saved_ledger;
    saved_registry = q.saved_registry ∙ p.saved_registry;
    registry = q.registry ∙ p.registry;
  };
  ticked = λ w. record { saved_ledger = refl; saved_registry = refl; registry = refl };
}

-- Nothing is pending on the connections.
pub record IsClean (w : World) : Type 0 where
  pub ledger : w.ledger ≡ w.saved_ledger
  pub registry : w.registry ≡ w.saved_registry

-- How a transaction around `body` ends: committed whole; rolled back whole; or, if the commit
-- itself faults, with nothing committed and the writes of `body` still pending.
pub data Settled {A : Type 0} (body : Action A) (w : World) (r : Result A) (w' : World)
    : Type 0 where
  committed :
      (a : A)
      → r ≡ ok a
      → (body w).0 ≡ ok a
      → IsClean w'
      → w'.saved_ledger ≡ (body w).1.ledger
      → w'.saved_registry ≡ w.saved_registry
      → Settled body w r w'
  rolled_back :
      (e : Failure)
      → r ≡ err e
      → (body w).0 ≡ err e
      → IsClean w'
      → w'.saved_ledger ≡ w.saved_ledger
      → w'.saved_registry ≡ w.saved_registry
      → Settled body w r w'
  left_pending :
      (a : A)
      → r ≡ err database_fault
      → (body w).0 ≡ ok a
      → w'.ledger ≡ (body w).1.ledger
      → w'.saved_ledger ≡ w.saved_ledger
      → w'.saved_registry ≡ w.saved_registry
      → w'.registry ≡ w.registry
      → Settled body w r w'

abbrev pub finish : {A : Type 0} (env : Env) → Result A → World → Result A × World
finish env (ok a) w = (commit_ledger env >>= λ _. pure a) w
finish env (err e) w = (err e, restore_ledger env w)

finish_const :
    {A : Type 0} (env : Env) (r : Result A) (v w : World)
    → in_transaction env (λ _. (r, v)) w ≡ finish env r v
unfolding in_transaction on_error ◌>>=◌
finish_const env (ok a) v w = refl
finish_const env (err e) v w = refl

pub in_transaction-finish :
    {A : Type 0} (env : Env) (body : Action A) (w : World)
    → in_transaction env body w ≡ finish env (body w).0 (body w).1
unfolding in_transaction on_error ◌>>=◌
in_transaction-finish env body w = finish_const env (body w).0 (body w).1 w

module _ {A : Type 0} (env : Env) (body : Action A) (w : World) where
  finish-Settled :
      (r : Result A) (b : Bool)
      → (body w).0 ≡ r
      → env.fault (body w).1.ticks ≡ b
      → Staged w (body w).1
      → IsClean w
      → Settled body w (finish env r (body w).1).0 (finish env r (body w).1).1
  unfolding commit_ledger statement ◌>>=◌
  finish-Settled (ok a) true e fault s c =
      rw fault (left_pending a refl e refl s.saved_ledger s.saved_registry s.registry)
  finish-Settled (ok a) false e fault s c =
      rw fault
        (committed a refl e (record { ledger = refl; registry = ground arith }) refl ground arith)
  finish-Settled (err x) b e fault s c =
      rolled_back x refl e (record { ledger = refl; registry = ground arith }) s.saved_ledger
        s.saved_registry

  pub in_transaction-Settled :
      Along Staged body
      → IsClean w
      → Settled body w (in_transaction env body w).0 (in_transaction env body w).1
  in_transaction-Settled staged c =
      rw (in_transaction-finish env body w)
        (finish-Settled (body w).0 (env.fault (body w).1.ticks) refl refl (staged.at w) c)

module _ (env : Env) where
  ledger_step :
      {A : Type 0} (f : World → A) (g : World → World)
      → ((w : World) → (g w).saved_ledger ≡ w.saved_ledger)
      → ((w : World) → (g w).saved_registry ≡ w.saved_registry)
      → ((w : World) → (g w).registry ≡ w.registry)
      → Along Staged (statement env f g)
  ledger_step f g a b c =
      Along-statement Staged-IsPreorder env f g
        λ w. record { saved_ledger = a w; saved_registry = b w; registry = c w }

  pub row-Staged : (id : Text) → Along Staged (row env id)
  unfolding row
  row-Staged id = ledger_step _ (λ w. w) (λ w. refl) (λ w. refl) (λ w. refl)

  pub query-Staged : {A : Type 0} (f : World → A) → Along Staged (query env f)
  query-Staged f = ledger_step f (λ w. w) (λ w. refl) (λ w. refl) (λ w. refl)

  pub insert_entry-Staged : (r : LedgerRow) → Along Staged (insert_entry env r)
  unfolding insert_entry
  insert_entry-Staged r =
      ledger_step _ _ (λ w. ground arith) (λ w. ground arith) (λ w. ground arith)

  pub update_entry-Staged :
      (id : Text) (f : LedgerRow → LedgerRow) → Along Staged (update_entry env id f)
  unfolding update_entry
  update_entry-Staged id f = ledger_step _ _ (λ w. refl) (λ w. refl) (λ w. refl)

  pub append_audit-Staged : (a : AuditRow) → Along Staged (append_audit env a)
  unfolding append_audit
  append_audit-Staged a = ledger_step _ _ (λ w. refl) (λ w. refl) (λ w. refl)

  pub append_transition-Staged :
      (id : Text) (from : Option ProcessingState) (to : ProcessingState) (reason : Reason)
      (actor : Text) (at : Time)
      → Along Staged (append_transition env id from to reason actor at)
  unfolding append_transition
  append_transition-Staged id from to reason actor at =
      ledger_step _ _ (λ w. refl) (λ w. refl) (λ w. refl)

  pub insert_transition-Staged :
      (id : Text) (from : Option ProcessingState) (to : ProcessingState) (reason : Reason)
      (actor : Text) (kind : AuditKind)
      → Along Staged (insert_transition env id from to reason actor kind)
  unfolding insert_transition
  insert_transition-Staged id from to reason actor kind =
      search
        (along_rules, Staged-IsPreorder, row-Staged, append_audit-Staged, append_transition-Staged)
        depth 9

pub ruleset staged_rules = (
  along_rules, Staged-IsPreorder, row-Staged, query-Staged, insert_entry-Staged,
  update_entry-Staged, append_audit-Staged, insert_transition-Staged,
)
