-- ===== src/Erasure/Cascades.antt =====
-- What a completed evidence cascade removes, keeps and reports: `_cascade` of src/kgis/erasure.py.
use agentic_kgis.Prelude.{
  true, false, not, ◌&&◌, ◌≡◌, sym, ◌∙◌, ap, subst, is_some, List, Text, ◌==◌, text_eq, arith, any,
}
use agentic_kgis.Database.{ok, World, Env, pure}
use agentic_kgis.Database.Transactions.{>>=-eq-ok, ok-injective}
use agentic_kgis.Evidence.{Time}
use agentic_kgis.Tables.{RegistryTables}
use agentic_kgis.Registry.{find_item, is_referenced, remove_subject_refs, orphan_evidence}
use agentic_kgis.Registry.Redaction.{SameTables}
use agentic_kgis.Erasure.{Cascade, is_among, redact_loop, cascade}
use agentic_kgis.Erasure.Steps.{
  text_under, Unlinked, Removed, remove_subject_refs-ok, orphan_evidence-ok, redact_loop-Removed,
}
use agentic_kgis.Erasure.Privacy.{IsPrivate, cascaded, cascade-IsPrivate}
use agentic_kgis.Erasure.Redactions.{Redaction, Marks, redact_loop-Marks}

-- what a cascade has made of the items that nothing cites any more, and which of them it reports
pub record IsExact (env : Env) (reason : Text) (at : Time) (u : RegistryTables) (c : Cascade)
    (v : RegistryTables) : Type 0 where
  pub redacted :
      (x : Text)
      → is_among c.removed x ≡ true
      → is_referenced x v.refs ≡ false
      → Redaction env.digest reason at (find_item x u.items) (find_item x v.items)
  pub reported :
      (x : Text)
      → any (λ h. h.0 == x) c.redacted
        ≡ ((is_among c.removed x && not (is_referenced x v.refs)) && is_some (text_under x u.items))

module _ (env : Env) (reason : Text) (at : Time) (id : Text) (ids os : List Text)
    (hs : List (Text × Text)) (w v u t : World) (first_step : Unlinked id w v)
    (same : SameTables v u)
    (among : (x : Text) → is_among os x ≡ (is_among ids x && not (is_referenced x v.registry.refs)))
    (done : Removed (λ x. is_among ids x && is_among os x) u t)
    (marks : Marks env reason at (λ x. is_among ids x && is_among os x) u t hs) where
  items_first : u.registry.items ≡ w.registry.items
  items_first = ap (λ r. r.items) same.1 ∙ first_step.items

  cited_still : (x : Text) → is_referenced x v.registry.refs ≡ is_referenced x t.registry.refs
  cited_still x = ap (is_referenced x) (sym (done.refs ∙ ap (λ r. r.refs) same.1))

  IsExact-steps : IsExact env reason at w.registry (cascaded ids os hs) t.registry
  IsExact-steps = record {
    redacted = λ x m r.
        subst
          (λ items.
            Redaction env.digest reason at (find_item x items) (find_item x t.registry.items))
          items_first (marks.redacted x (ground (arith, among x, cited_still x)));
    reported = λ x.
        let told =
          marks.reported x
          ∙ ap (λ items. (is_among ids x && is_among os x) && is_some (text_under x items))
              items_first in
        ground (arith, told, among x, cited_still x);
  }

-- A cascade that returns has left the ledger alone, and of the registry: the subject's references
-- are gone and no other. An item that the subject cited and nothing cites any more is the very same
-- when it had no inline text, and otherwise it has lost its content and the quote of its span, has
-- the payload hash that it had or else the digest of its text, and carries the mark of this
-- redaction, every other field and the offsets of the span being as they were. Every other item is
-- the very same. The cascade reports as removed the ids that the subject cited, as redacted those
-- of the items that lost a text, and as preserved those still cited.
pub cascade-IsExact :
    (env : Env) (id reason : Text) (at : Time) (w : World) (c : Cascade)
    → (cascade env id reason at w).0 ≡ ok c
    → let w' = (cascade env id reason at w).1 in
      (w'.ledger ≡ w.ledger)
      × (IsPrivate id w.registry c w'.registry × IsExact env reason at w.registry c w'.registry)
unfolding cascade pure
cascade-IsExact env id reason at w c h =
    let private = cascade-IsPrivate env id reason at w c h in
    let (ids, e1, h1, q1) = >>=-eq-ok (remove_subject_refs env id) _ w h in
    let v = (remove_subject_refs env id w).1 in
    let (os, e2, h2, q2) = >>=-eq-ok (orphan_evidence env ids) _ v h1 in
    let u = (orphan_evidence env ids v).1 in
    let (hs, e3, h3, q3) = >>=-eq-ok (redact_loop env ids os reason at) _ u h2 in
    let (listed, unlinked) = remove_subject_refs-ok env id w e1 in
    let (same, among) = orphan_evidence-ok env ids v e2 in
    let t = (redact_loop env ids os reason at u).1 in
    let exact : IsExact env reason at w.registry c t.registry =
      subst (λ c. IsExact env reason at w.registry c t.registry) (ok-injective h3)
        (IsExact-steps env reason at id ids os hs w v u t unlinked same among
          (redact_loop-Removed env os reason at ids u e3)
          (redact_loop-Marks env os reason at ids u e3)) in
    (
      private.0,
      (
        private.1,
        subst (λ o. IsExact env reason at w.registry c o.1.registry) (sym (q1 ∙ q2 ∙ q3)) exact,
      ),
    )
