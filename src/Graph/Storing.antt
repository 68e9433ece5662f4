-- ===== src/Graph/Storing.antt =====
-- What `MemoryGraphStore.apply` leaves in its dictionaries when a batch commits:
-- src/kg_contracts/testing/memory.py.
use agentic_kgis.Prelude.{
  ◌+◌, Bool, true, false, ◌≡◌, refl, sym, ap, ◌∙◌, arith, Option, some, List, [], ◌∷◌, ◌++◌, Text,
  text_beq_iff, ◌==◌, text_eq, keep, length, lookup, lookup-set, set, list_at, list_at-append_at,
  values, if◌then◌else◌,
}
use mathlib.Core.List.{append_assoc, append-nil}
use agentic_kgis.Graph.{
  CanonicalEntity, Assertion, GraphMutationBatch, GraphState, put_entity, put_assertion,
}
use agentic_kgis.Graph.Apply.{
  Staging, nothing_staged, put_staged, put_assertions, count_or_zero, version_of, bump,
  store_staged,
}
use agentic_kgis.Graph.Batches.{attached, touched, fates, Adds}

-- the last element that passes, or else the given answer
abbrev pub last_or : {A : Type 0} → (A → Bool) → List A → Option A → Option A
last_or test [] given = given
last_or test (x ∷ xs) given = last_or test xs (if test x then some x else given)

-- What a committed batch has stored, by its operations: the staging adds what they say, every
-- identity is held as it was last staged, every id has the assertion attached under it, a subject
-- has its attached assertions behind those it had, and its version counts how often it was touched.
pub record IsStored (b : GraphMutationBatch) (s out : GraphState) : Type 0 where
  pub staged : Staging
  pub added :
      Adds s
        (attached (s.epoch + 1) b.operations)
        (touched b.operations)
        (λ k held. fates s (s.epoch + 1) k b.operations held)
        nothing_staged
        staged
  pub entities :
      (k : Text)
      → lookup k out.entities
        ≡ last_or (λ e. e.identity_id == k) (values staged.staged_entities) (lookup k s.entities)
  pub by_id :
      (k : Text)
      → lookup k out.assertions_by_id
        ≡ last_or
            (λ a. a.assertion_id == k)
            (attached (s.epoch + 1) b.operations)
            (lookup k s.assertions_by_id)
  pub filed :
      (k : Text)
      → list_at k out.assertions
        ≡ list_at k s.assertions
          ++ keep (λ a. a.subject_identity == k) (attached (s.epoch + 1) b.operations)
  pub versions :
      (k : Text)
      → version_of k out ≡ version_of k s + length (keep (λ x. x == k) (touched b.operations))

-- Two states that differ in the entities alone, and so on for the other dictionaries.
abbrev OtherThanEntities : GraphState → GraphState → Type 0
OtherThanEntities s t =
    (t.assertions ≡ s.assertions)
    × ((t.assertions_by_id ≡ s.assertions_by_id) × (t.entity_versions ≡ s.entity_versions))

abbrev OtherThanAssertions : GraphState → GraphState → Type 0
OtherThanAssertions s t = (t.entities ≡ s.entities) × (t.entity_versions ≡ s.entity_versions)

abbrev OtherThanVersions : GraphState → GraphState → Type 0
OtherThanVersions s t =
    (t.entities ≡ s.entities)
    × ((t.assertions ≡ s.assertions) × (t.assertions_by_id ≡ s.assertions_by_id))

put_staged-others :
    (es : List CanonicalEntity) (s : GraphState) → OtherThanEntities s (put_staged es s)
unfolding put_staged put_entity
put_staged-others [] s = (refl, (refl, refl))
put_staged-others (e ∷ es) s = put_staged-others es (put_entity e s)

put_assertions-others :
    (as_ : List Assertion) (s : GraphState) → OtherThanAssertions s (put_assertions as_ s)
unfolding put_assertions put_assertion
put_assertions-others [] s = (refl, refl)
put_assertions-others (a ∷ as_) s = put_assertions-others as_ (put_assertion a s)

bump-others : (xs : List Text) (s : GraphState) → OtherThanVersions s (bump xs s)
unfolding bump
bump-others [] s = (refl, (refl, refl))
bump-others (x ∷ xs) s =
    bump-others xs (record s { entity_versions = set x (version_of x s + 1) s.entity_versions })

put_staged-entities :
    (k : Text) (es : List CanonicalEntity) (s : GraphState)
    → lookup k (put_staged es s).entities
      ≡ last_or (λ e. e.identity_id == k) es (lookup k s.entities)
unfolding put_staged put_entity
put_staged-entities k [] s = refl
put_staged-entities k (e ∷ es) s =
    put_staged-entities k es (put_entity e s)
    ∙ ap (last_or (λ e. e.identity_id == k) es) (lookup-set e.identity_id k e s.entities)

put_assertions-by_id :
    (k : Text) (as_ : List Assertion) (s : GraphState)
    → lookup k (put_assertions as_ s).assertions_by_id
      ≡ last_or (λ a. a.assertion_id == k) as_ (lookup k s.assertions_by_id)
unfolding put_assertions put_assertion
put_assertions-by_id k [] s = refl
put_assertions-by_id k (a ∷ as_) s =
    put_assertions-by_id k as_ (put_assertion a s)
    ∙ ap (last_or (λ a. a.assertion_id == k) as_) (lookup-set a.assertion_id k a s.assertions_by_id)

put_assertions-filed :
    (k : Text) (as_ : List Assertion) (s : GraphState)
    → list_at k (put_assertions as_ s).assertions
      ≡ list_at k s.assertions ++ keep (λ a. a.subject_identity == k) as_
unfolding put_assertions put_assertion
put_assertions-filed k [] s = sym (append-nil (list_at k s.assertions))
put_assertions-filed k (a ∷ as_) s =
    put_assertions-filed k as_ (put_assertion a s)
    ∙ ap (λ l. l ++ keep (λ a. a.subject_identity == k) as_)
        (list_at-append_at a.subject_identity k a s.assertions)
    ∙ go (a.subject_identity == k) refl
  where
    go :
        (b : Bool)
        → (a.subject_identity == k) ≡ b
        → (if b then list_at a.subject_identity s.assertions ++ a ∷ [] else list_at k s.assertions)
            ++ keep (λ a. a.subject_identity == k) as_
          ≡ list_at k s.assertions
            ++ (if b
                then a ∷ keep (λ a. a.subject_identity == k) as_
                else keep (λ a. a.subject_identity == k) as_)
    go true e =
        append_assoc (list_at a.subject_identity s.assertions) (a ∷ []) _
        ∙ ap (λ t. list_at t s.assertions ++ a ∷ keep (λ a. a.subject_identity == k) as_)
            ((text_beq_iff a.subject_identity k).0 e)
    go false e = refl

bump-versions :
    (k : Text) (xs : List Text) (s : GraphState)
    → version_of k (bump xs s) ≡ version_of k s + length (keep (λ x. x == k) xs)
unfolding bump
bump-versions k [] s = omega arith
bump-versions k (x ∷ xs) s =
    let next : GraphState = record s {
      entity_versions = set x (version_of x s + 1) s.entity_versions;
    } in
    bump-versions k xs next
    ∙ ap (λ o. count_or_zero o + length (keep (λ x. x == k) xs))
        (lookup-set x k (version_of x s + 1) s.entity_versions)
    ∙ go (x == k) refl
  where
    go :
        (b : Bool)
        → (x == k) ≡ b
        → count_or_zero (if b then some (version_of x s + 1) else lookup k s.entity_versions)
            + length (keep (λ x. x == k) xs)
          ≡ version_of k s + length (if b then x ∷ keep (λ x. x == k) xs else keep (λ x. x == k) xs)
    go true e =
        let same : version_of x s ≡ version_of k s =
          ap (λ t. version_of t s) ((text_beq_iff x k).0 e) in
        omega (arith, same)
    go false e = refl

-- Storing what a batch has staged stores what its operations say.
pub store_staged-IsStored :
    (b : GraphMutationBatch) (g : Staging) (s : GraphState)
    → Adds s
        (attached (s.epoch + 1) b.operations)
        (touched b.operations)
        (λ k held. fates s (s.epoch + 1) k b.operations held)
        nothing_staged
        g
    → IsStored b s (store_staged (s.epoch + 1) g s)
unfolding store_staged
store_staged-IsStored b g s h =
    let s1 = put_staged (values g.staged_entities) s in
    let s2 = put_assertions g.new_assertions s1 in
    let o1 = put_staged-others (values g.staged_entities) s in
    let o2 = put_assertions-others g.new_assertions s1 in
    let o3 = bump-others g.touched_subjects s2 in
    record {
      staged = g;
      added = h;
      entities =
          λ k. ap (lookup k) (o3.0 ∙ o2.0) ∙ put_staged-entities k (values g.staged_entities) s;
      by_id = λ k.
          ap (lookup k) o3.1.1
          ∙ put_assertions-by_id k g.new_assertions s1
          ∙ ap (last_or (λ a. a.assertion_id == k) g.new_assertions) (ap (lookup k) o1.1.0)
          ∙ ap (λ l. last_or (λ a. a.assertion_id == k) l (lookup k s.assertions_by_id))
              h.assertions;
      filed = λ k.
          ap (list_at k) o3.1.0
          ∙ put_assertions-filed k g.new_assertions s1
          ∙ ap (λ d. list_at k d ++ keep (λ a. a.subject_identity == k) g.new_assertions) o1.0
          ∙ ap (λ l. list_at k s.assertions ++ keep (λ a. a.subject_identity == k) l) h.assertions;
      versions = λ k.
          bump-versions k g.touched_subjects s2
          ∙ ap (λ d. count_or_zero (lookup k d) + length (keep (λ x. x == k) g.touched_subjects))
              (o2.1 ∙ o1.1.1)
          ∙ ap (λ l. version_of k s + length (keep (λ x. x == k) l)) h.subjects;
    }
