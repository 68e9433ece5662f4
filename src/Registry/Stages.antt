-- ===== src/Registry/Stages.antt =====
-- The statements of the registry commit nothing, and end in a commit or a rollback of both.
use agentic_kgis.Prelude.{◌≡◌, refl, ◌∙◌, Option, none, some, List, [], ◌∷◌, Text}
use agentic_kgis.Database.{World, Env, statement, query}
use agentic_kgis.Database.Transactions.{
  IsPreorder, Along, Along-statement, Along-bind, Along-pure, along_rules,
}
use agentic_kgis.Evidence.{Time, Evidence}
use agentic_kgis.Tables.{EvidenceRow, RefRow}
use agentic_kgis.Registry.{
  inline_text, on_items, on_refs, put_statement, put_loop, remove_subject_refs, orphan_evidence,
  redact_row, redact_found, redact_evidence,
}

-- A step that commits nothing.
pub record Uncommitted (u v : World) : Type 0 where
  pub saved_ledger : v.saved_ledger ≡ u.saved_ledger
  pub saved_registry : v.saved_registry ≡ u.saved_registry

pub Uncommitted-IsPreorder : IsPreorder Uncommitted
Uncommitted-IsPreorder = record {
  stay = λ w. record { saved_ledger = refl; saved_registry = refl };
  chain = λ u v w p q. record {
    saved_ledger = q.saved_ledger ∙ p.saved_ledger;
    saved_registry = q.saved_registry ∙ p.saved_registry;
  };
  ticked = λ w. record { saved_ledger = refl; saved_registry = refl };
}

module _ (env : Env) where
  pub query-Uncommitted : {A : Type 0} (f : World → A) → Along Uncommitted (query env f)
  query-Uncommitted f =
      Along-statement Uncommitted-IsPreorder env f (λ w. w)
        λ w. record { saved_ledger = refl; saved_registry = refl }

  items_step :
      {A : Type 0} (f : World → A) (g : List EvidenceRow → List EvidenceRow)
      → Along Uncommitted (statement env f (on_items g))
  items_step f g =
      Along-statement Uncommitted-IsPreorder env f (on_items g)
        λ w. record { saved_ledger = refl; saved_registry = refl }

  refs_step :
      {A : Type 0} (f : World → A) (g : List RefRow → List RefRow)
      → Along Uncommitted (statement env f (on_refs g))
  refs_step f g =
      Along-statement Uncommitted-IsPreorder env f (on_refs g)
        λ w. record { saved_ledger = refl; saved_registry = refl }

  pub put_statement-Uncommitted : (e : Evidence) → Along Uncommitted (put_statement env e)
  unfolding put_statement
  put_statement-Uncommitted e =
      search (along_rules, Uncommitted-IsPreorder, query-Uncommitted, items_step) depth 9

  pub put_loop-Uncommitted : (es : List Evidence) → Along Uncommitted (put_loop env es)
  unfolding put_loop
  put_loop-Uncommitted [] = search (along_rules, Uncommitted-IsPreorder)
  put_loop-Uncommitted (e ∷ es) =
      search
        (along_rules, Uncommitted-IsPreorder, put_statement-Uncommitted e, put_loop-Uncommitted es)

  pub remove_subject_refs-Uncommitted : (id : Text) → Along Uncommitted (remove_subject_refs env id)
  unfolding remove_subject_refs
  remove_subject_refs-Uncommitted id =
      search (along_rules, Uncommitted-IsPreorder, query-Uncommitted, refs_step) depth 9

  pub orphan_evidence-Uncommitted : (ids : List Text) → Along Uncommitted (orphan_evidence env ids)
  unfolding orphan_evidence
  orphan_evidence-Uncommitted [] = search (along_rules, Uncommitted-IsPreorder)
  orphan_evidence-Uncommitted (id ∷ ids) =
      Along-bind Uncommitted-IsPreorder _ _ (query-Uncommitted _) λ referenced.
        Along-bind Uncommitted-IsPreorder _ _ (orphan_evidence-Uncommitted ids)
          λ rest. Along-pure Uncommitted-IsPreorder _

  pub redact_evidence-Uncommitted :
      (id reason : Text) (at : Time) → Along Uncommitted (redact_evidence env id reason at)
  unfolding redact_evidence
  redact_evidence-Uncommitted id reason at =
      search (along_rules, Uncommitted-IsPreorder, query-Uncommitted, found)
    where
      text_found :
          (r : EvidenceRow) (o : Option Text)
          → inline_text r.evidence ≡ o
          → Along Uncommitted (redact_row env id reason at r)
      text_found r none e = rw (redact_row, e) (search (along_rules, Uncommitted-IsPreorder))
      text_found r (some text) e = rw (redact_row, e) (items_step _ _)

      found : (o : Option EvidenceRow) → Along Uncommitted (redact_found env id reason at o)
      found none = search (along_rules, Uncommitted-IsPreorder)
      found (some r) = text_found r (inline_text r.evidence) refl
