-- ===== src/Erasure/Bodies.antt =====
-- What the writes of an erasure amount to, in either order, before they are committed.
use agentic_kgis.Prelude.{suc, ◌≡◌, refl, sym, ◌∙◌, ap, subst, some, List, Text, text_eq, none}
use agentic_kgis.Database.{ok, World, Env, pure}
use agentic_kgis.Database.Transactions.{Along, along_rules, >>=-eq-ok, ok-injective}
use agentic_kgis.Evidence.{Time}
use agentic_kgis.Tables.{LedgerTables, LedgerRow, RegistryTables, erased, erase}
use agentic_kgis.Ledger.{find_row, update_row}
use agentic_kgis.Governance.{blanked, apply_erase}
use agentic_kgis.Governance.Effects.{changed_tables}
use agentic_kgis.Governance.Operations.{apply_erase-Staged, apply_erase-tables}
use agentic_kgis.Registry.Stages.{Uncommitted, Uncommitted-IsPreorder}
use agentic_kgis.Erasure.{Cascade, cascade, audit, shared_body, separate_body}
use agentic_kgis.Erasure.Privacy.{IsPrivate, cascade-IsPrivate}
use agentic_kgis.Erasure.Stages.{audit-OnlyAudits, cascade-Uncommitted}

-- The row of `id` has lost its payload and is marked as erased, the transition is logged, and the
-- evidence cascade is complete.
pub record Erased (id reason actor : Text) (old : LedgerRow) (l : LedgerTables) (u : RegistryTables)
    (c : Cascade) (l' : LedgerTables) (v : RegistryTables) : Type 0 where
  pub at : Time
  pub logged_at : Time
  pub entries :
      l'.entries
      ≡ update_row id
          (λ r. record r { payload_json = none; erased_at = some at; erasure_reason = some reason })
          l.entries
  pub transitions :
      l'.transitions
      ≡ (changed_tables id
          (blanked at reason)
          old.processing_state
          old.processing_state
          (erased reason)
          actor
          erase
          logged_at
          l).transitions
  pub cascaded : IsPrivate id u c v

IsPrivate-subst :
    (id : Text) {u u' : RegistryTables} {c c' : Cascade} {v v' : RegistryTables}
    → u ≡ u'
    → c ≡ c'
    → v ≡ v'
    → IsPrivate id u c v
    → IsPrivate id u' c' v'
IsPrivate-subst id {u} {u'} {c} {c'} {v} {v'} p q r x =
    subst (λ t. IsPrivate id t c' v') p
      (subst (λ t. IsPrivate id u t v') q (subst (λ t. IsPrivate id u c t) r x))

apply_erase-Uncommitted :
    (env : Env) (id reason actor : Text) → Along Uncommitted (apply_erase env id reason actor)
apply_erase-Uncommitted env id reason actor = record {
  at = λ w.
      let s = (apply_erase-Staged env id reason actor).at w in
      record { saved_ledger = s.saved_ledger; saved_registry = s.saved_registry };
}

audit-Uncommitted :
    (env : Env) (id : Text) (hs : List (Text × Text)) (reason actor : Text)
    → Along Uncommitted (audit env id hs reason actor)
audit-Uncommitted env id hs reason actor = record {
  at = λ w.
      let s = (audit-OnlyAudits env id hs reason actor).at w in
      record { saved_ledger = s.saved_ledger; saved_registry = s.saved_registry };
}

module _ (env : Env) (id reason actor : Text) (at : Time) where
  pub shared_body-Uncommitted : Along Uncommitted (shared_body env id reason actor at)
  unfolding shared_body
  shared_body-Uncommitted =
      search
        (
          along_rules,
          Uncommitted-IsPreorder,
          apply_erase-Uncommitted,
          cascade-Uncommitted env,
          audit-Uncommitted,
        )
        depth 9

  pub separate_body-Uncommitted : Along Uncommitted (separate_body env id reason actor at)
  unfolding separate_body
  separate_body-Uncommitted =
      search
        (
          along_rules,
          Uncommitted-IsPreorder,
          apply_erase-Uncommitted,
          cascade-Uncommitted env,
          audit-Uncommitted,
        )
        depth 9

  module _ (w : World) (old : LedgerRow) (found : find_row id w.ledger.entries ≡ some old)
      (c : Cascade) where
    pub shared_body-Erased :
        (shared_body env id reason actor at w).0 ≡ ok c
        → let w' = (shared_body env id reason actor at w).1 in
          Erased id reason actor old w.ledger w.registry c w'.ledger w'.registry
    unfolding shared_body pure
    shared_body-Erased h =
        let (n, e1, h1, q1) = >>=-eq-ok (apply_erase env id reason actor) _ w h in
        let v = (apply_erase env id reason actor w).1 in
        let (d, e2, h2, q2) = >>=-eq-ok (cascade env id reason at) _ v h1 in
        let u = (cascade env id reason at v).1 in
        let (x, e3, h3, q3) = >>=-eq-ok (audit env id d.redacted reason actor) _ u h2 in
        let tables = apply_erase-tables env id reason actor w n old found e1 in
        let staged = (apply_erase-Staged env id reason actor).at w in
        let (same, private) = cascade-IsPrivate env id reason at v d e2 in
        let audits = (audit-OnlyAudits env id d.redacted reason actor).at u in
        rw (q1, q2, q3)
          (record {
            at = env.time (suc w.ticks);
            logged_at = env.time (suc (suc (suc w.ticks)));
            entries = audits.entries ∙ ap (λ l. l.entries) (same ∙ tables);
            transitions = audits.transitions ∙ ap (λ l. l.transitions) (same ∙ tables);
            cascaded =
                IsPrivate-subst id staged.registry (ok-injective h3) (sym audits.registry) private;
          })

    pub separate_body-Erased :
        (separate_body env id reason actor at w).0 ≡ ok c
        → let w' = (separate_body env id reason actor at w).1 in
          Erased id reason actor old w.ledger w.registry c w'.ledger w'.registry
    unfolding separate_body pure
    separate_body-Erased h =
        let (d, e2, h2, q2) = >>=-eq-ok (cascade env id reason at) _ w h in
        let v = (cascade env id reason at w).1 in
        let (n, e1, h1, q1) = >>=-eq-ok (apply_erase env id reason actor) _ v h2 in
        let u = (apply_erase env id reason actor v).1 in
        let (x, e3, h3, q3) = >>=-eq-ok (audit env id d.redacted reason actor) _ u h1 in
        let (same, private) = cascade-IsPrivate env id reason at w d e2 in
        let tables =
          apply_erase-tables env id reason actor v n old
            (ap (λ l. find_row id l.entries) same ∙ found) e1 in
        let staged = (apply_erase-Staged env id reason actor).at v in
        let audits = (audit-OnlyAudits env id d.redacted reason actor).at u in
        rw (q2, q1, q3)
          (record {
            at = env.time (suc v.ticks);
            logged_at = env.time (suc (suc (suc v.ticks)));
            entries =
                audits.entries
                ∙ ap (λ l. l.entries) tables
                ∙ ap (λ l. update_row id (blanked (env.time (suc v.ticks)) reason) l.entries) same;
            transitions =
                audits.transitions
                ∙ ap (λ l. l.transitions) tables
                ∙ ap
                    (λ l.
                      (changed_tables id (blanked (env.time (suc v.ticks)) reason)
                        old.processing_state old.processing_state (erased reason) actor erase
                        (env.time (suc (suc (suc v.ticks)))) l).transitions)
                    same;
            cascaded =
                IsPrivate-subst id refl (ok-injective h3) (sym (audits.registry ∙ staged.registry))
                  private;
          })
