-- ===== src/Erasure/Retry.antt =====
-- The retry of an erasure whose evidence half was committed before: src/kgis/erasure.py.
use agentic_kgis.Prelude.{
  not, ◌≡◌, refl, sym, ◌∙◌, ap, List, [], ◌∷◌, Text, ◌==◌, text_eq, text_beq, keep, inl, inr,
  Bool-cases,
}
use agentic_kgis.Database.{ok, World, Env}
use agentic_kgis.Evidence.{Time}
use agentic_kgis.Tables.{RefRow}
use agentic_kgis.Registry.{find_item, cited_by}
use agentic_kgis.Erasure.{Cascade, is_among, cascade}
use agentic_kgis.Erasure.Privacy.{cascade-IsPrivate}

without-cited_by :
    (id : Text) (refs : List RefRow) → cited_by id (keep (λ r. not (r.subject_id == id)) refs) ≡ []
without-cited_by id [] = refl
without-cited_by id (r ∷ rs) = elim (Bool-cases (text_beq r.subject_id id)) [
  | inl e ↦ rw e (without-cited_by id rs)
  | inr e ↦ rw (e, e) (without-cited_by id rs)
]

keep-keep :
    (id : Text) (refs : List RefRow)
    → let rest = keep (λ r. not (r.subject_id == id)) refs in
      keep (λ r. not (r.subject_id == id)) rest ≡ rest
keep-keep id [] = refl
keep-keep id (r ∷ rs) = elim (Bool-cases (text_beq r.subject_id id)) [
  | inl e ↦ rw e (keep-keep id rs)
  | inr e ↦ rw (e, e) (ap (λ l. r ∷ l) (keep-keep id rs))
]

-- A cascade that completes is idempotent: where a second one for the same subject completes right
-- after it, the second one removes nothing, and leaves the references and every evidence item as
-- the first one left them.
pub cascade_again :
    (env : Env) (id reason reason' : Text) (at at' : Time) (w : World) (c d : Cascade)
    → (cascade env id reason at w).0 ≡ ok c
    → (cascade env id reason' at' (cascade env id reason at w).1).0 ≡ ok d
    → let u = (cascade env id reason at w).1.registry in
      let v = (cascade env id reason' at' (cascade env id reason at w).1).1.registry in
      (d.removed ≡ [])
      × (v.refs ≡ u.refs)
      × ((x : Text) → find_item x v.items ≡ find_item x u.items)
cascade_again env id reason reason' at at' w c d h g =
    let w' = (cascade env id reason at w).1 in
    let first_run = (cascade-IsPrivate env id reason at w c h).1 in
    let second_run = (cascade-IsPrivate env id reason' at' w' d g).1 in
    let nothing : d.removed ≡ [] =
      second_run.removed ∙ ap (cited_by id) first_run.refs ∙ without-cited_by id w.registry.refs in
    (
      nothing,
      second_run.refs
          ∙ ap (keep (λ r. not (r.subject_id == id))) first_run.refs
          ∙ keep-keep id w.registry.refs
          ∙ sym first_run.refs,
      λ x. second_run.kept_others x (ap (λ l. is_among l x) nothing),
    )
