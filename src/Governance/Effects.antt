-- ===== src/Governance/Effects.antt =====
-- What a committed `transition`, `revoke` or `erase` has done to the tables, exactly, and that
-- nothing else can be committed.
use agentic_kgis.Prelude.{
  ℕ, suc, Bool, true, false, ◌≡◌, refl, ◌⊎◌, inl, inr, Option, none, some, arith, Text, sym, ◌∙◌,
  ap, text_eq,
}
use agentic_kgis.Evidence.{Time}
use agentic_kgis.Lifecycle.{ProcessingState}
use agentic_kgis.Tables.{LedgerTables, LedgerRow, Reason, AuditKind}
use agentic_kgis.Database.{
  Failure, database_fault, key_error, Result, ok, err, World, Env, Action, ◌>>=◌, statement, now,
  answer, tick, continue,
}
use agentic_kgis.Database.Transactions.{Along}
use agentic_kgis.Ledger.{
  find_row, update_row, row, update_entry, insert_transition, append_transition, append_audit,
  in_transaction,
}
use agentic_kgis.Ledger.Log.{logged}
use agentic_kgis.Ledger.Commit.{
  Staged, staged_rules, IsClean, committed, rolled_back, left_pending, in_transaction-Settled,
}
use agentic_kgis.Governance.{live_row}

-- The tables once the row is updated, and this is logged at `at`.
abbrev pub changed_tables :
    Text
    → (LedgerRow → LedgerRow)
    → ProcessingState
    → ProcessingState
    → Reason
    → Text
    → AuditKind
    → Time
    → LedgerTables
    → LedgerTables
changed_tables id f from to reason actor kind at l =
    logged id (some from) to reason actor kind at (record l { entries = update_row id f l.entries })

-- What an operation on the row of `id` has committed: nothing, and then it raised; or, for a row
-- that was there and that it may change, the change and its log.
pub data Recorded {A : Type 0} (id : Text) (allowed : LedgerRow → Type 0)
    (change : LedgerRow → Time → LedgerRow → LedgerRow) (target : LedgerRow → ProcessingState)
    (reason : Reason) (actor : Text) (kind : AuditKind) (l : LedgerTables) (r : Result A)
    (l' : LedgerTables) : Type 0 where
  refused :
      (e : Failure)
      → r ≡ err e
      → l' ≡ l
      → Recorded id allowed change target reason actor kind l r l'
  changed :
      (old : LedgerRow) (at at' : Time)
      → find_row id l.entries ≡ some old
      → allowed old
      → l'
        ≡ changed_tables id
            (change old at)
            old.processing_state
            (target old)
            reason
            actor
            kind
            at'
            l
      → Recorded id allowed change target reason actor kind l r l'

module _ (env : Env) (id : Text) (f : Time → LedgerRow → LedgerRow) (from to : ProcessingState)
    (reason : Reason) (actor : Text) (kind : AuditKind) where
  -- the body of the transaction of `revoke` and `erase`
  abbrev pub timed_change : Action ℕ
  timed_change = now env >>= λ at.
      update_entry env id (f at) >>= λ _. insert_transition env id (some from) to reason actor kind

  pub timed_change-tables :
      (w : World) (n : ℕ)
      → (timed_change w).0 ≡ ok n
      → (timed_change w).1.ledger
        ≡ changed_tables id
            (f (env.time w.ticks))
            from
            to
            reason
            actor
            kind
            (env.time (suc (suc w.ticks)))
            w.ledger
  unfolding update_entry insert_transition append_transition append_audit row statement now ◌>>=◌
  timed_change-tables w n h = ground arith

  pub timed_change-Staged : Along Staged timed_change
  timed_change-Staged = search staged_rules depth 9

module _ (env : Env) (id : Text) (allowed : LedgerRow → Type 0)
    (change : LedgerRow → Time → LedgerRow → LedgerRow) (reason : Reason) (actor : Text)
    (kind : AuditKind) where
  pub transaction-Recorded :
      (old : LedgerRow) (w : World) (body : Action ℕ) (at at' : Time)
      (to : LedgerRow → ProcessingState)
      → IsClean w
      → find_row id w.ledger.entries ≡ some old
      → allowed old
      → Along Staged body
      → ((n : ℕ)
          → (body w).0 ≡ ok n
          → (body w).1.ledger
            ≡ changed_tables id
                (change old at)
                old.processing_state
                (to old)
                reason
                actor
                kind
                at'
                w.ledger)
      → let (r, w') = in_transaction env body w in
        Recorded id allowed change to reason actor kind w.saved_ledger r w'.saved_ledger
  transaction-Recorded old w body at at' to clean found may staged tables =
      elim (in_transaction-Settled env body w staged clean) [
        | committed n _ e _ saved _ ↦
            changed old at at' (ap (λ l. find_row id l.entries) (sym clean.ledger) ∙ found) may (
              saved
              ∙ tables n e
              ∙ ap
                  (λ l.
                    changed_tables id (change old at) old.processing_state (to old) reason actor
                      kind at' l)
                  clean.ledger)
        | rolled_back e r _ _ saved _ ↦ refused e r saved
        | left_pending _ r _ _ saved _ _ ↦ refused _ r saved
      ]

abbrev pub same_state : LedgerRow → ProcessingState
same_state r = r.processing_state

module _ {A : Type 0} (env : Env) (id : Text) (test : LedgerRow → Bool) (k : LedgerRow → Action A)
    (w : World) where
  abbrev pub on_row : Action A
  on_row = row env id >>= λ o. live_row test o >>= k

  -- the lookup raised, or handed on a row that passed
  abbrev pub OnRow : Result A × World → Type 0
  OnRow x =
      ((e : Failure) × (x ≡ (err e, tick w)))
      ⊎ ((r : LedgerRow) × (find_row id w.ledger.entries ≡ some r)
          × (test r ≡ false)
          × (x ≡ k r (tick w)))

  found_cases :
      (r : LedgerRow) (b : Bool)
      → find_row id w.ledger.entries ≡ some r
      → test r ≡ b
      → OnRow ((live_row test (some r) >>= k) (tick w))
  unfolding ◌>>=◌
  found_cases r true found e = inl (key_error, rw e)
  found_cases r false found e = inr (r, found, e, rw e)

  lookup_cases :
      (b : Bool) (o : Option LedgerRow)
      → find_row id w.ledger.entries ≡ o
      → OnRow (
          continue
            (answer b o (tick w) (tick w)).0
            (λ o. live_row test o >>= k)
            (answer b o (tick w) (tick w)).1)
  unfolding ◌>>=◌
  lookup_cases true o e = inl (database_fault, refl)
  lookup_cases false none e = inl (key_error, refl)
  lookup_cases false (some r) e = found_cases r (test r) e refl

  pub on_row-cases : OnRow (on_row w)
  unfolding row statement ◌>>=◌
  on_row-cases = lookup_cases (env.fault w.ticks) (find_row id w.ledger.entries) refl

abbrev pub state_of : LedgerRow → ProcessingState
state_of r = r.processing_state

pub ticked-IsClean : (w : World) → IsClean w → IsClean (tick w)
ticked-IsClean w c = record { ledger = c.ledger; registry = c.registry }
