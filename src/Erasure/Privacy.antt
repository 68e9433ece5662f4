-- ===== src/Erasure/Privacy.antt =====
-- What the evidence cascade of an erasure removes and what it leaves alone.
use agentic_kgis.Prelude.{
  true, false, not, ◌&&◌, ◌≡◌, refl, sym, ◌∙◌, ap, subst, none, List, [], ◌∷◌, Text, ◌==◌, text_eq,
  arith, keep,
}
use agentic_kgis.Database.{ok, World, Env, pure}
use agentic_kgis.Database.Transactions.{>>=-eq-ok, ok-injective}
use agentic_kgis.Evidence.{Time}
use agentic_kgis.Tables.{RegistryTables}
use agentic_kgis.Registry.{find_item, cited_by, is_referenced, remove_subject_refs, orphan_evidence}
use agentic_kgis.Registry.Redaction.{SameTables}
use agentic_kgis.Erasure.{Cascade, is_among, redact_loop, cascade}
use agentic_kgis.Erasure.Steps.{
  text_under, Unlinked, remove_subject_refs-ok, orphan_evidence-ok, Removed, same_orphan,
  redact_loop-Removed,
}

-- what a cascade has done to the registry
pub record IsPrivate (id : Text) (u : RegistryTables) (c : Cascade) (v : RegistryTables)
    : Type 0 where
  pub refs : v.refs ≡ keep (λ r. not (r.subject_id == id)) u.refs
  pub removed : c.removed ≡ cited_by id u.refs
  pub gone :
      (x : Text)
      → is_among c.removed x ≡ true
      → is_referenced x v.refs ≡ false
      → text_under x v.items ≡ none
  pub kept_cited :
      (x : Text) → is_referenced x v.refs ≡ true → find_item x v.items ≡ find_item x u.items
  pub kept_others :
      (x : Text) → is_among c.removed x ≡ false → find_item x v.items ≡ find_item x u.items
  pub preserved :
      (x : Text) → is_among c.preserved x ≡ (is_among c.removed x && is_referenced x v.refs)

is_among-keep :
    (os ids : List Text) (x : Text)
    → is_among (keep (λ y. not (is_among os y)) ids) x ≡ (is_among ids x && not (is_among os x))
is_among-keep os [] x = refl
is_among-keep os (id ∷ ids) x =
    ground (arith, is_among-keep os ids x, same_orphan os id x (is_among os id) refl)

abbrev pub cascaded : List Text → List Text → List (Text × Text) → Cascade
cascaded ids os hs = record {
  removed = ids;
  redacted = hs;
  preserved = keep (λ x. not (is_among os x)) ids;
}

module _ (id : Text) (ids os : List Text) (hs : List (Text × Text)) (w v u t : World)
    (listed : ids ≡ cited_by id w.registry.refs) (first_step : Unlinked id w v)
    (same : SameTables v u)
    (among : (x : Text) → is_among os x ≡ (is_among ids x && not (is_referenced x v.registry.refs)))
    (done : Removed (λ x. is_among ids x && is_among os x) u t) where
  refs_now : t.registry.refs ≡ v.registry.refs
  refs_now = done.refs ∙ ap (λ r. r.refs) same.1

  items_before : u.registry.items ≡ w.registry.items
  items_before = ap (λ r. r.items) same.1 ∙ first_step.items

  still : (x : Text) → is_referenced x v.registry.refs ≡ is_referenced x t.registry.refs
  still x = ap (is_referenced x) (sym refs_now)

  IsPrivate-steps : IsPrivate id w.registry (cascaded ids os hs) t.registry
  IsPrivate-steps = record {
    refs = refs_now ∙ first_step.refs;
    removed = listed;
    gone = λ x m r. done.gone x (ground (arith, among x, still x));
    kept_cited =
        λ x r. done.kept x (ground (arith, among x, still x)) ∙ ap (find_item x) items_before;
    kept_others = λ x m. done.kept x (ground (arith, among x)) ∙ ap (find_item x) items_before;
    preserved = λ x. is_among-keep os ids x ∙ ground (arith, among x, still x);
  }

-- A cascade that returns has left the ledger alone, and of the registry: the subject's references
-- are gone and no other; an item that the subject cited and nothing cites any more has no text
-- left; every other item, cited by a remaining subject or not cited by this one, is the very same;
-- the report names the items that the subject cited, and as preserved those still cited.
pub cascade-IsPrivate :
    (env : Env) (id reason : Text) (at : Time) (w : World) (c : Cascade)
    → (cascade env id reason at w).0 ≡ ok c
    → let w' = (cascade env id reason at w).1 in
      (w'.ledger ≡ w.ledger) × IsPrivate id w.registry c w'.registry
unfolding cascade pure
cascade-IsPrivate env id reason at w c h =
    let (ids, e1, h1, q1) = >>=-eq-ok (remove_subject_refs env id) _ w h in
    let v = (remove_subject_refs env id w).1 in
    let (os, e2, h2, q2) = >>=-eq-ok (orphan_evidence env ids) _ v h1 in
    let u = (orphan_evidence env ids v).1 in
    let (hs, e3, h3, q3) = >>=-eq-ok (redact_loop env ids os reason at) _ u h2 in
    let (listed, unlinked) = remove_subject_refs-ok env id w e1 in
    let (same, among) = orphan_evidence-ok env ids v e2 in
    let done = redact_loop-Removed env os reason at ids u e3 in
    rw (q1, q2, q3)
      (
        done.ledger ∙ same.0 ∙ unlinked.ledger,
        subst (λ c. IsPrivate id w.registry c (redact_loop env ids os reason at u).1.registry)
            (ok-injective h3)
            (IsPrivate-steps id ids os hs w v u (redact_loop env ids os reason at u).1 listed
              unlinked same among done),
      )
