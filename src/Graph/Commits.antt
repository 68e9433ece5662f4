-- ===== src/Graph/Commits.antt =====
-- Batches against the state: what of a batch reaches the dictionaries of `MemoryGraphStore.apply`,
-- src/kg_contracts/testing/memory.py.
use agentic_kgis.Prelude.{
  ℕ, ◌+◌, Bool, true, false, not, ◌≡◌, refl, sym, subst, ◌⊎◌, Option, none, some, List, [], ◌∷◌,
  Text, text_eq, keep, In, All, lookup, set, list_at, values,
}
use agentic_kgis.Graph.{
  CanonicalEntity, Assertion, put_entity, put_assertion, GraphState, GraphMutationBatch,
  Precondition,
}
use agentic_kgis.Graph.Apply.{
  Staging, nothing_staged, Staged, go_on, refuse, fault, stage_all, put_staged, put_assertions,
  bump, store_staged, apply, Applied, returned, raised, settle_batch, apply_checked, version_of,
  precondition_holds,
}
use agentic_kgis.Graph.Storing.{IsStored}
use agentic_kgis.Graph.Index.{IsIndexed, put_assertion-IsIndexed}
use agentic_kgis.Graph.Staging.{AreNew, IsStaging, StagesWell, stage_all-IsStaging}

-- states with the same assertions are indexed alike
IsIndexed-same :
    (s t : GraphState)
    → s.assertions ≡ t.assertions
    → s.assertions_by_id ≡ t.assertions_by_id
    → IsIndexed s
    → IsIndexed t
IsIndexed-same s t p q v = record {
  filed = λ k a h.
      subst (λ d. (a.subject_identity ≡ k) × (lookup a.assertion_id d ≡ some a)) q
        (v.filed k a (subst (λ d. In a (list_at k d)) (sym p) h));
  found = λ id a h.
      subst (λ d. (a.assertion_id ≡ id) × In a (list_at a.subject_identity d)) p
        (v.found id a (subst (λ d. lookup id d ≡ some a) (sym q) h));
}

put_staged-IsIndexed :
    (es : List CanonicalEntity) (s : GraphState) → IsIndexed s → IsIndexed (put_staged es s)
unfolding put_staged put_entity
put_staged-IsIndexed [] s v = v
put_staged-IsIndexed (e ∷ es) s v =
    put_staged-IsIndexed es (put_entity e s) (IsIndexed-same s (put_entity e s) refl refl v)

bump-IsIndexed : (xs : List Text) (s : GraphState) → IsIndexed s → IsIndexed (bump xs s)
unfolding bump
bump-IsIndexed [] s v = v
bump-IsIndexed (x ∷ xs) s v =
    bump-IsIndexed xs (record s { entity_versions = set x (version_of x s + 1) s.entity_versions })
      (IsIndexed-same s
        (record s { entity_versions = set x (version_of x s + 1) s.entity_versions }) refl refl v)

put_assertions-IsIndexed :
    (as_ : List Assertion) (s : GraphState)
    → AreNew s.assertions_by_id as_
    → IsIndexed s
    → IsIndexed (put_assertions as_ s)
unfolding put_assertions put_assertion
put_assertions-IsIndexed [] s n v = v
put_assertions-IsIndexed (a ∷ as_) s n v =
    put_assertions-IsIndexed as_ (put_assertion a s) n.1 (put_assertion-IsIndexed a s n.0 v)

put_staged-by_id :
    (es : List CanonicalEntity) (s : GraphState)
    → s.assertions_by_id ≡ (put_staged es s).assertions_by_id
unfolding put_staged put_entity
put_staged-by_id [] s = refl
put_staged-by_id (e ∷ es) s = put_staged-by_id es (put_entity e s)

store_staged-IsIndexed :
    (epoch : ℕ) (g : Staging) (s : GraphState)
    → IsStaging s g
    → IsIndexed s
    → IsIndexed (store_staged epoch g s)
unfolding store_staged
store_staged-IsIndexed epoch g s w v =
    let staged = put_staged (values g.staged_entities) s in
    let filled = put_assertions g.new_assertions staged in
    let bumped = bump g.touched_subjects filled in
    IsIndexed-same bumped (record bumped { epoch = epoch }) refl refl
      (bump-IsIndexed g.touched_subjects filled (
        put_assertions-IsIndexed g.new_assertions staged
          (subst (λ d. AreNew d g.new_assertions) (put_staged-by_id (values g.staged_entities) s)
            w.new)
          (put_staged-IsIndexed (values g.staged_entities) s v)))

-- A batch leaves the id index and the subject index of the assertions in step, whatever it does:
-- `apply` keeps IsIndexed.
pub apply-IsIndexed :
    (b : GraphMutationBatch) (ps : List Precondition) (s : GraphState)
    → IsIndexed s
    → IsIndexed (apply b ps s).1
unfolding apply
apply-IsIndexed b ps s v = go (keep (λ p. not (precondition_holds p s)) ps)
  where
    settled :
        (r : Staged) → StagesWell s r → IsIndexed (settle_batch b.batch_id (s.epoch + 1) s r).1
    settled (go_on g) w = store_staged-IsIndexed (s.epoch + 1) g s w v
    settled (refuse e) w = v
    settled (fault f) w = v

    go : (failed : List Precondition) → IsIndexed (apply_checked b failed s).1
    go [] = settled (stage_all s (s.epoch + 1) b.operations nothing_staged) (
        stage_all-IsStaging s (s.epoch + 1) b.operations nothing_staged
          (record { new = tt; ids = refl }))
    go (p ∷ failed) = v

abbrev pub is_committed : Applied → Bool
is_committed (returned r) = r.committed
is_committed (raised f) = false

abbrev pub epoch_reported : Applied → Option ℕ
epoch_reported (returned r) = r.new_epoch
epoch_reported (raised f) = none

-- what a batch may come to
abbrev pub Atomic :
    GraphMutationBatch → List Precondition → GraphState → Applied × GraphState → Type 0
Atomic b ps s out =
    ((is_committed out.0 ≡ false) × (out.1 ≡ s))
    ⊎ ((is_committed out.0 ≡ true)
        × (All (λ p. precondition_holds p s ≡ true) ps
            × (IsStored b s out.1
                × ((out.1.epoch ≡ s.epoch + 1) × (epoch_reported out.0 ≡ some (s.epoch + 1))))))
