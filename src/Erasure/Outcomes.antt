-- ===== src/Erasure/Outcomes.antt =====
-- How an erasure can end: the row and the evidence text go together, or neither goes.
use agentic_kgis.Prelude.{
  suc, Bool, true, false, not, ◌≡◌, refl, ◌∙◌, ap, subst, Option, none, some, Text, text_eq,
  if◌then◌else◌,
}
use agentic_kgis.Database.{
  Failure, erasure_incomplete, Result, ok, err, World, Env, Action, pure, ◌>>=◌, tick, now,
  statement, on_error, commit_registry, commit_ledger,
}
use agentic_kgis.Evidence.{Time}
use agentic_kgis.Tables.{LedgerRow, is_erased}
use agentic_kgis.Ledger.{find_row, row}
use agentic_kgis.Ledger.Commit.{IsClean, finish, in_transaction-finish}
use agentic_kgis.Registry.Stages.{Uncommitted}
use agentic_kgis.Erasure.{
  Cascade, ErasureReport, report, already, shared_body, separate_body, erase_shared, erase_separate,
  final_commit, erase_row_found, restore_both, erase,
}
use agentic_kgis.Erasure.Privacy.{IsPrivate}
use agentic_kgis.Erasure.Bodies.{
  Erased, shared_body-Uncommitted, separate_body-Uncommitted, shared_body-Erased,
  separate_body-Erased,
}

-- The committed tables of both stores are those of before.
abbrev pub SameSaved : World → World → Type 0
SameSaved w w' = (w'.saved_ledger ≡ w.saved_ledger) × (w'.saved_registry ≡ w.saved_registry)

-- How an erasure of the row `old` can end.
pub data RowErasure (env : Env) (id reason actor : Text) (old : LedgerRow) (w : World)
    (o : Result ErasureReport) (w' : World) : Type 0 where
  failed : (e : Failure) → o ≡ err e → SameSaved w w' → RowErasure env id reason actor old w o w'
  complete :
      (c : Cascade)
      → o ≡ ok (report id c)
      → Erased id reason actor old w.saved_ledger w.saved_registry c w'.saved_ledger
          w'.saved_registry
      → IsClean w'
      → RowErasure env id reason actor old w o w'
  incomplete :
      (c : Cascade)
      → env.shared ≡ false
      → o ≡ err erasure_incomplete
      → IsPrivate id w.saved_registry c w'.saved_registry
      → w'.saved_ledger ≡ w.saved_ledger
      → IsClean w'
      → RowErasure env id reason actor old w o w'

module _ (env : Env) (id reason actor : Text) (old : LedgerRow) (w : World) where
  -- what is known of the body's end
  record Done (r : Result Cascade) (v : World) : Type 0 where
    uncommitted : SameSaved w v
    written :
        (c : Cascade)
        → r ≡ ok c
        → Erased id reason actor old w.saved_ledger w.saved_registry c v.ledger v.registry

  abbrev shared_end : Result Cascade → World → Result ErasureReport × World
  shared_end r v = ((λ _. finish env r v) >>= λ c. pure (report id c)) v

  shared_end-RowErasure :
      (r : Result Cascade) (v : World) (b : Bool)
      → env.shared ≡ true
      → env.fault v.ticks ≡ b
      → Done r v
      → RowErasure env id reason actor old w (shared_end r v).0 (shared_end r v).1
  unfolding ◌>>=◌ commit_ledger statement
  shared_end-RowErasure (err e) v b s f d = failed e refl d.uncommitted
  shared_end-RowErasure (ok c) v true s f d = rw f (failed _ refl d.uncommitted)
  shared_end-RowErasure (ok c) v false s f d =
      rw (f, s) (complete c refl (d.written c refl) (record { ledger = refl; registry = refl }))

  abbrev separate_end : Result Cascade → World → Result ErasureReport × World
  separate_end r v =
      (on_error (λ _. (r, v)) (restore_both env) >>= λ c.
      on_error (commit_registry env) (restore_both env) >>= λ _.
      final_commit env >>= λ _. pure (report id c))
        v

  separate_end-RowErasure :
      (r : Result Cascade) (v : World) (b c : Bool)
      → env.shared ≡ false
      → env.fault v.ticks ≡ b
      → env.fault (suc v.ticks) ≡ c
      → Done r v
      → RowErasure env id reason actor old w (separate_end r v).0 (separate_end r v).1
  unfolding ◌>>=◌ commit_ledger statement on_error final_commit commit_registry
  separate_end-RowErasure (err e) v b c s f g d = failed e refl d.uncommitted
  separate_end-RowErasure (ok a) v true c s f g d = rw f (failed _ refl d.uncommitted)
  separate_end-RowErasure (ok a) v false true s f g d =
      rw (f, g, s)
        (incomplete a refl refl ((d.written a refl).cascaded) d.uncommitted.0
          (record { ledger = refl; registry = refl }))
  separate_end-RowErasure (ok a) v false false s f g d =
      rw (f, g, s) (complete a refl (d.written a refl) (record { ledger = refl; registry = refl }))

  Done-body :
      (u : World) (body : Action Cascade)
      → IsClean w
      → ((c : Cascade)
          → (body u).0 ≡ ok c
          → let v = (body u).1 in
            Erased id reason actor old u.ledger u.registry c v.ledger v.registry)
      → Uncommitted u (body u).1
      → u.ledger ≡ w.ledger
      → u.registry ≡ w.registry
      → SameSaved w u
      → Done (body u).0 (body u).1
  Done-body u body clean h s l r k = record {
    uncommitted = (s.saved_ledger ∙ k.0, s.saved_registry ∙ k.1);
    written = λ c e.
        subst
          (λ t.
            Erased id reason actor old t w.saved_registry c (body u).1.ledger (body u).1.registry)
          (l ∙ clean.ledger)
          (subst
            (λ t. Erased id reason actor old u.ledger t c (body u).1.ledger (body u).1.registry)
            (r ∙ clean.registry) (h c e));
  }

  -- the erasure of the row, after the reads
  run : Time → Action ErasureReport
  run at =
      if env.shared
      then erase_shared env id reason actor at
      else erase_separate env id reason actor at

  run-shared :
      (at : Time) (u : World)
      → env.shared ≡ true
      → let (r, v) = shared_body env id reason actor at u in run at u ≡ shared_end r v
  unfolding run erase_shared ◌>>=◌
  run-shared at u s =
      ap
        (λ b.
          (if b then erase_shared env id reason actor at else erase_separate env id reason actor at)
            u)
        s
      ∙ rw (in_transaction-finish env (shared_body env id reason actor at) u) refl

  run-separate :
      (at : Time) (u : World)
      → env.shared ≡ false
      → let (r, v) = separate_body env id reason actor at u in run at u ≡ separate_end r v
  unfolding run erase_separate ◌>>=◌ on_error
  run-separate at u s =
      ap
        (λ b.
          (if b then erase_shared env id reason actor at else erase_separate env id reason actor at)
            u)
        s

  run-RowErasure :
      (u : World) (at : Time) (b : Bool)
      → IsClean w
      → env.shared ≡ b
      → find_row id u.ledger.entries ≡ some old
      → u.ledger ≡ w.ledger
      → u.registry ≡ w.registry
      → SameSaved w u
      → RowErasure env id reason actor old w (run at u).0 (run at u).1
  run-RowErasure u at true clean s found l r k = rw (run-shared at u s) (
      shared_end-RowErasure _ _ _ s refl (
        Done-body u (shared_body env id reason actor at) clean
          (λ c. shared_body-Erased env id reason actor at u old found c)
          ((shared_body-Uncommitted env id reason actor at).at u) l r k))
  run-RowErasure u at false clean s found l r k = rw (run-separate at u s) (
      separate_end-RowErasure _ _ _ _ s refl refl (
        Done-body u (separate_body env id reason actor at) clean
          (λ c. separate_body-Erased env id reason actor at u old found c)
          ((separate_body-Uncommitted env id reason actor at).at u) l r k))

-- How a call of `erase` can end.
pub data Erasing (env : Env) (id reason actor : Text) (w : World) (o : Result ErasureReport)
    (w' : World) : Type 0 where
  refused : (e : Failure) → o ≡ err e → SameSaved w w' → Erasing env id reason actor w o w'
  again :
      (old : LedgerRow)
      → find_row id w.ledger.entries ≡ some old
      → is_erased old ≡ true
      → o ≡ ok (already id)
      → w' ≡ tick w
      → Erasing env id reason actor w o w'
  anew :
      (old : LedgerRow)
      → find_row id w.ledger.entries ≡ some old
      → is_erased old ≡ false
      → RowErasure env id reason actor old w o w'
      → Erasing env id reason actor w o w'

module _ (env : Env) (id reason actor : Text) (w : World) (clean : IsClean w) where
  found-Erasing :
      (old : LedgerRow) (b : Bool)
      → find_row id w.ledger.entries ≡ some old
      → is_erased old ≡ b
      → let (o, w') = erase_row_found env id reason actor (some old) (tick w) in
        Erasing env id reason actor w o w'
  unfolding ◌>>=◌ now run
  found-Erasing old true found e = rw e (again old found e refl refl)
  found-Erasing old false found e = rw e (
      anew old found e (
        run-RowErasure env id reason actor old w (tick (tick w)) (env.time (tick w).ticks)
          env.shared clean refl found refl refl (refl, refl)))

  lookup-Erasing :
      (o : Option LedgerRow)
      → find_row id w.ledger.entries ≡ o
      → let (r, w') = erase_row_found env id reason actor o (tick w) in
        Erasing env id reason actor w r w'
  unfolding ◌>>=◌
  lookup-Erasing none f = refused _ refl (refl, refl)
  lookup-Erasing (some old) f = found-Erasing old (is_erased old) f refl

  -- From clean connections, whichever statements fault, a call of `erase` ends in one of these
  -- ways: it raises and commits nothing; it finds the row erased, says so, and changes no table; or
  -- the row was there and not erased, and then: it raises and commits nothing; or it returns the
  -- report, with both stores committed: the payload nulled, the erasure logged and the evidence
  -- cascade of the report complete; or, on two connections only, it raises ErasureIncompleteError
  -- with the cascade committed and the ledger as before.
  pub erase-Erasing :
      let (o, w') = erase env id reason actor w in Erasing env id reason actor w o w'
  unfolding erase ◌>>=◌ row statement
  erase-Erasing = enabled (not env.profile.erasure_enabled) (env.fault w.ticks) refl refl
    where
      enabled :
          (b c : Bool)
          → not env.profile.erasure_enabled ≡ b
          → env.fault w.ticks ≡ c
          → let (o, w') = erase env id reason actor w in Erasing env id reason actor w o w'
      enabled true c e f = rw e (refused _ refl (refl, refl))
      enabled false true e f = rw (e, f) (refused _ refl (refl, refl))
      enabled false false e f = rw (e, f) (lookup-Erasing (find_row id w.ledger.entries) refl)
