-- ===== src/Erasure/Stages.antt =====
-- What the steps of an erasure leave alone: none of them commits, and the audit only appends.
use agentic_kgis.Prelude.{◌≡◌, refl, ◌∙◌, List, [], ◌∷◌, Text, text_eq}
use agentic_kgis.Database.{World, Env}
use agentic_kgis.Database.Transactions.{IsPreorder, Along, Along-statement, along_rules}
use agentic_kgis.Evidence.{Time}
use agentic_kgis.Tables.{AuditRow}
use agentic_kgis.Ledger.{append_audit}
use agentic_kgis.Governance.{record_redaction}
use agentic_kgis.Registry.Stages.{
  Uncommitted, Uncommitted-IsPreorder, remove_subject_refs-Uncommitted, orphan_evidence-Uncommitted,
  redact_evidence-Uncommitted,
}
use agentic_kgis.Erasure.{redact_loop, cascade, audit}

-- A step that does nothing but append to the audit stream.
pub record OnlyAudits (u v : World) : Type 0 where
  pub saved_ledger : v.saved_ledger ≡ u.saved_ledger
  pub saved_registry : v.saved_registry ≡ u.saved_registry
  pub registry : v.registry ≡ u.registry
  pub entries : v.ledger.entries ≡ u.ledger.entries
  pub transitions : v.ledger.transitions ≡ u.ledger.transitions

OnlyAudits-IsPreorder : IsPreorder OnlyAudits
OnlyAudits-IsPreorder = record {
  stay = λ w. record {
    saved_ledger = refl;
    saved_registry = refl;
    registry = refl;
    entries = refl;
    transitions = refl;
  };
  chain = λ u v w p q. record {
    saved_ledger = q.saved_ledger ∙ p.saved_ledger;
    saved_registry = q.saved_registry ∙ p.saved_registry;
    registry = q.registry ∙ p.registry;
    entries = q.entries ∙ p.entries;
    transitions = q.transitions ∙ p.transitions;
  };
  ticked = λ w. record {
    saved_ledger = refl;
    saved_registry = refl;
    registry = refl;
    entries = refl;
    transitions = refl;
  };
}

module _ (env : Env) where
  append_audit-OnlyAudits : (a : AuditRow) → Along OnlyAudits (append_audit env a)
  unfolding append_audit
  append_audit-OnlyAudits a = Along-statement OnlyAudits-IsPreorder env _ _ λ w. record {
    saved_ledger = refl;
    saved_registry = refl;
    registry = refl;
    entries = refl;
    transitions = refl;
  }

  record_redaction-OnlyAudits :
      (id evidence_id hash reason actor : Text)
      → Along OnlyAudits (record_redaction env id evidence_id hash reason actor)
  unfolding record_redaction
  record_redaction-OnlyAudits id evidence_id hash reason actor =
      search (along_rules, OnlyAudits-IsPreorder, append_audit-OnlyAudits) depth 9

  pub audit-OnlyAudits :
      (id : Text) (hs : List (Text × Text)) (reason actor : Text)
      → Along OnlyAudits (audit env id hs reason actor)
  unfolding audit
  audit-OnlyAudits id [] reason actor = search (along_rules, OnlyAudits-IsPreorder)
  audit-OnlyAudits id ((evidence_id, hash) ∷ rest) reason actor =
      search
        (along_rules, OnlyAudits-IsPreorder, record_redaction-OnlyAudits, audit-OnlyAudits id rest)
        depth 9

  redact_loop-Uncommitted :
      (ids os : List Text) (reason : Text) (at : Time)
      → Along Uncommitted (redact_loop env ids os reason at)
  unfolding redact_loop
  redact_loop-Uncommitted [] os reason at = search (along_rules, Uncommitted-IsPreorder)
  redact_loop-Uncommitted (id ∷ ids) os reason at =
      search
        (
          along_rules,
          Uncommitted-IsPreorder,
          redact_evidence-Uncommitted env,
          redact_loop-Uncommitted ids,
        )
        depth 9

  pub cascade-Uncommitted :
      (id reason : Text) (at : Time) → Along Uncommitted (cascade env id reason at)
  unfolding cascade
  cascade-Uncommitted id reason at =
      search
        (
          along_rules,
          Uncommitted-IsPreorder,
          remove_subject_refs-Uncommitted env,
          orphan_evidence-Uncommitted env,
          redact_loop-Uncommitted,
        )
        depth 9
