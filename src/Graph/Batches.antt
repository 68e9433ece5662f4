-- ===== src/Graph/Batches.antt =====
-- What the operations of a batch stage, in `MemoryGraphStore.apply`,
-- src/kg_contracts/testing/memory.py: per operation, apart from the loop.
use agentic_kgis.Prelude.{
  ℕ, Bool, true, false, ◌||◌, ◌≡◌, refl, sym, ap, ◌∙◌, Option, none, some, is_some, List, [], ◌∷◌,
  ◌++◌, Text, text_beq_iff, ◌==◌, text_eq, lookup, lookup-set, set, has_text, if◌then◌else◌,
}
use mathlib.Core.List.{append_assoc, append-nil}
use agentic_kgis.Graph.{
  CurationStatus, active, revoked, CanonicalEntity, Assertion, CurationOperationType,
  create_identity, revoke_identity, restore_identity, attach_assertion, merge_identities,
  split_identity, reassign_assertion, retract_assertion, promote_ontology_term, OperationPayload,
  CurationOperation, GraphState, duplicate_assertion, already_revoked, not_revoked,
  missing_identity_id, validation_error,
}
use agentic_kgis.Graph.Apply.{
  Staging, Staged, go_on, refuse, fault, is_revoked, or_stored, staged_entity, stage_assertion,
  stage_entity, stage_at, with_status, stage_create, stage_new, stage_attach, revoke_found,
  stage_revoke, restore_found, stage_restore, stage_one, stage_all,
}

abbrev attached_in : ℕ → Option Assertion → List Assertion
attached_in epoch none = []
attached_in epoch (some a) = record a { curation_epoch = epoch } ∷ []

-- the assertion that an operation attaches, in the new epoch
abbrev attached_by : ℕ → CurationOperationType → OperationPayload → List Assertion
attached_by epoch attach_assertion p = attached_in epoch p.assertion
attached_by epoch _ p = []

abbrev created_id : Option CanonicalEntity → List Text
created_id none = []
created_id (some e) = e.identity_id ∷ []

abbrev subject_id : Option Assertion → List Text
subject_id none = []
subject_id (some a) = a.subject_identity ∷ []

abbrev given_id : Option Text → List Text
given_id none = []
given_id (some id) = id ∷ []

-- the identity that an operation touches
abbrev touched_by : CurationOperationType → OperationPayload → List Text
touched_by create_identity p = created_id p.entity
touched_by attach_assertion p = subject_id p.assertion
touched_by revoke_identity p = given_id p.identity_id
touched_by restore_identity p = given_id p.identity_id
touched_by _ p = []

abbrev created_at :
    ℕ → Text → Option CanonicalEntity → Option CanonicalEntity → Option CanonicalEntity
created_at epoch k none held = held
created_at epoch k (some e) held =
    if e.identity_id == k then some (record e { curation_epoch = epoch }) else held

abbrev turned : CurationStatus → Option CanonicalEntity → Option CanonicalEntity
turned status none = none
turned status (some e) = some (with_status status e)

abbrev turned_at :
    CurationStatus
    → GraphState
    → Text
    → Option Text
    → Option CanonicalEntity
    → Option CanonicalEntity
turned_at status s k none held = held
turned_at status s k (some id) held =
    if id == k then turned status (or_stored held (lookup k s.entities)) else held

-- what an operation makes of the entity that is staged under a key
abbrev fate :
    GraphState
    → ℕ
    → Text
    → CurationOperationType
    → OperationPayload
    → Option CanonicalEntity
    → Option CanonicalEntity
fate s epoch k create_identity p held = created_at epoch k p.entity held
fate s epoch k revoke_identity p held = turned_at revoked s k p.identity_id held
fate s epoch k restore_identity p held = turned_at active s k p.identity_id held
fate s epoch k _ p held = held

abbrev pub attached : ℕ → List CurationOperation → List Assertion
attached epoch [] = []
attached epoch (o ∷ os) = attached_by epoch o.operation_type o.payload ++ attached epoch os

abbrev pub touched : List CurationOperation → List Text
touched [] = []
touched (o ∷ os) = touched_by o.operation_type o.payload ++ touched os

-- what the operations make of the entity under a key, one after the other
abbrev pub fates :
    GraphState → ℕ → Text → List CurationOperation → Option CanonicalEntity → Option CanonicalEntity
fates s epoch k [] held = held
fates s epoch k (o ∷ os) held = fates s epoch k os (fate s epoch k o.operation_type o.payload held)

-- one staging after another, by the three things that were added
pub record Adds (s : GraphState) (as_ : List Assertion) (xs : List Text)
    (next : Text → Option CanonicalEntity → Option CanonicalEntity) (g h : Staging) : Type 0 where
  pub assertions : h.new_assertions ≡ g.new_assertions ++ as_
  pub subjects : h.touched_subjects ≡ g.touched_subjects ++ xs
  pub entities : (k : Text) → lookup k h.staged_entities ≡ next k (lookup k g.staged_entities)

module _ (s : GraphState) where
  -- a round that goes on has added what it should
  abbrev pub AddsIf :
      List Assertion
      → List Text
      → (Text → Option CanonicalEntity → Option CanonicalEntity)
      → Staging
      → Staged
      → Type 0
  AddsIf as_ xs next g (go_on h) = Adds s as_ xs next g h
  AddsIf as_ xs next g (refuse e) = Unit
  AddsIf as_ xs next g (fault f) = Unit

  turned_here :
      (status : CurationStatus) (id k : Text) (e : CanonicalEntity) (g : Staging)
      → staged_entity id g s ≡ some e
      → lookup k (set id (with_status status e) g.staged_entities)
        ≡ turned_at status s k (some id) (lookup k g.staged_entities)
  turned_here status id k e g held =
      lookup-set id k (with_status status e) g.staged_entities ∙ go (id == k) refl
    where
      go :
          (b : Bool)
          → (id == k) ≡ b
          → (if b then some (with_status status e) else lookup k g.staged_entities) ≡ (
              if b
              then turned status (or_stored (lookup k g.staged_entities) (lookup k s.entities))
              else lookup k g.staged_entities)
      go true same = sym (
          ap (turned status)
            (ap (λ t. staged_entity t g s) (sym ((text_beq_iff id k).0 same)) ∙ held))
      go false apart = refl

  stage_at-Adds :
      (status : CurationStatus) (id : Text) (e : CanonicalEntity) (g : Staging)
      → staged_entity id g s ≡ some e
      → Adds s []
          (id ∷ [])
          (λ k held. turned_at status s k (some id) held)
          g
          (stage_at id (with_status status e) g)
  stage_at-Adds status id e g held = record {
    assertions = sym (append-nil g.new_assertions);
    subjects = refl;
    entities = λ k. turned_here status id k e g held;
  }

  revoke_found-AddsIf :
      (id : Text) (o : Option CanonicalEntity) (g : Staging)
      → staged_entity id g s ≡ o
      → AddsIf [] (id ∷ []) (λ k held. turned_at revoked s k (some id) held) g (revoke_found id o g)
  revoke_found-AddsIf id none g h = tt
  revoke_found-AddsIf id (some e) g h = go (is_revoked e.status)
    where
      go :
          (b : Bool)
          → AddsIf []
              (id ∷ [])
              (λ k held. turned_at revoked s k (some id) held)
              g
              (if b then refuse already_revoked else go_on (stage_at id (with_status revoked e) g))
      go true = tt
      go false = stage_at-Adds revoked id e g h

  restore_found-AddsIf :
      (id : Text) (o : Option CanonicalEntity) (g : Staging)
      → staged_entity id g s ≡ o
      → AddsIf [] (id ∷ []) (λ k held. turned_at active s k (some id) held) g (restore_found id o g)
  restore_found-AddsIf id none g h = tt
  restore_found-AddsIf id (some e) g h = go (is_revoked e.status)
    where
      go :
          (b : Bool)
          → AddsIf []
              (id ∷ [])
              (λ k held. turned_at active s k (some id) held)
              g
              (if b then go_on (stage_at id (with_status active e) g) else refuse not_revoked)
      go true = stage_at-Adds active id e g h
      go false = tt

  stage_new-AddsIf :
      (a : Assertion) (g : Staging)
      → AddsIf (a ∷ []) (a.subject_identity ∷ []) (λ k held. held) g (stage_new s a g)
  stage_new-AddsIf a g = go (
      is_some (lookup a.assertion_id s.assertions_by_id)
      || has_text a.assertion_id g.staged_assertion_ids)
    where
      go :
          (b : Bool)
          → AddsIf
              (a ∷ [])
              (a.subject_identity ∷ [])
              (λ k held. held)
              g
              (if b then refuse duplicate_assertion else go_on (stage_assertion a g))
      go true = tt
      go false = record { assertions = refl; subjects = refl; entities = λ k. refl }

  module _ (epoch : ℕ) where
    stage_one-AddsIf :
        (kind : CurationOperationType) (p : OperationPayload) (g : Staging)
        → AddsIf
            (attached_by epoch kind p)
            (touched_by kind p)
            (λ k held. fate s epoch k kind p held)
            g
            (stage_one s epoch kind p g)
    unfolding stage_one stage_create stage_attach stage_revoke stage_restore
    stage_one-AddsIf create_identity p g = go p.entity
      where
        go :
            (o : Option CanonicalEntity)
            → AddsIf []
                (created_id o)
                (λ k held. created_at epoch k o held)
                g
                (elim o [
                  | none ↦ fault validation_error
                  | some e ↦ go_on (stage_entity (record e { curation_epoch = epoch }) g)
                ])
        go none = tt
        go (some e) = record {
          assertions = sym (append-nil g.new_assertions);
          subjects = refl;
          entities = λ k.
              lookup-set e.identity_id k (record e { curation_epoch = epoch }) g.staged_entities;
        }
    stage_one-AddsIf attach_assertion p g = go p.assertion
      where
        go :
            (o : Option Assertion)
            → AddsIf
                (attached_in epoch o)
                (subject_id o)
                (λ k held. held)
                g
                (elim o [
                  | none ↦ fault validation_error
                  | some a ↦ stage_new s (record a { curation_epoch = epoch }) g
                ])
        go none = tt
        go (some a) = stage_new-AddsIf (record a { curation_epoch = epoch }) g
    stage_one-AddsIf revoke_identity p g = go p.identity_id
      where
        go :
            (o : Option Text)
            → AddsIf []
                (given_id o)
                (λ k held. turned_at revoked s k o held)
                g
                (elim o [
                  | none ↦ refuse missing_identity_id
                  | some id ↦ revoke_found id (staged_entity id g s) g
                ])
        go none = tt
        go (some id) = revoke_found-AddsIf id (staged_entity id g s) g refl
    stage_one-AddsIf restore_identity p g = go p.identity_id
      where
        go :
            (o : Option Text)
            → AddsIf []
                (given_id o)
                (λ k held. turned_at active s k o held)
                g
                (elim o [
                  | none ↦ refuse missing_identity_id
                  | some id ↦ restore_found id (staged_entity id g s) g
                ])
        go none = tt
        go (some id) = restore_found-AddsIf id (staged_entity id g s) g refl
    stage_one-AddsIf merge_identities p g = tt
    stage_one-AddsIf split_identity p g = tt
    stage_one-AddsIf reassign_assertion p g = tt
    stage_one-AddsIf retract_assertion p g = tt
    stage_one-AddsIf promote_ontology_term p g = tt

    Adds-both :
        (a b : List Assertion) (x y : List Text)
        → (m n : Text → Option CanonicalEntity → Option CanonicalEntity) (f g h : Staging)
        → Adds s a x m f g
        → Adds s b y n g h
        → Adds s (a ++ b) (x ++ y) (λ k held. n k (m k held)) f h
    Adds-both a b x y m n f g h p q = record {
      assertions = q.assertions ∙ ap (λ l. l ++ b) p.assertions ∙ append_assoc f.new_assertions a b;
      subjects = q.subjects ∙ ap (λ l. l ++ y) p.subjects ∙ append_assoc f.touched_subjects x y;
      entities = λ k. q.entities k ∙ ap (n k) (p.entities k);
    }

    -- A batch that is staged to its end has staged what its operations say.
    pub stage_all-AddsIf :
        (os : List CurationOperation) (g : Staging)
        → AddsIf
            (attached epoch os)
            (touched os)
            (λ k held. fates s epoch k os held)
            g
            (stage_all s epoch os g)
    unfolding stage_all
    stage_all-AddsIf [] g = record {
      assertions = sym (append-nil g.new_assertions);
      subjects = sym (append-nil g.touched_subjects);
      entities = λ k. refl;
    }
    stage_all-AddsIf (o ∷ os) g =
        go (stage_one s epoch o.operation_type o.payload g)
          (stage_one-AddsIf o.operation_type o.payload g) (stage_all-AddsIf os)
      where
        after :
            (f : Staging) (r : Staged)
            → Adds s
                (attached_by epoch o.operation_type o.payload)
                (touched_by o.operation_type o.payload)
                (λ k held. fate s epoch k o.operation_type o.payload held)
                g
                f
            → AddsIf (attached epoch os) (touched os) (λ k held. fates s epoch k os held) f r
            → AddsIf
                (attached epoch (o ∷ os))
                (touched (o ∷ os))
                (λ k held. fates s epoch k (o ∷ os) held)
                g
                r
        after f (go_on h) p q = Adds-both _ _ _ _ _ (λ k held. fates s epoch k os held) g f h p q
        after f (refuse e) p q = tt
        after f (fault x) p q = tt

        go :
            (r : Staged)
            → AddsIf
                (attached_by epoch o.operation_type o.payload)
                (touched_by o.operation_type o.payload)
                (λ k held. fate s epoch k o.operation_type o.payload held)
                g
                r
            → ((f : Staging)
                → AddsIf
                    (attached epoch os)
                    (touched os)
                    (λ k held. fates s epoch k os held)
                    f
                    (stage_all s epoch os f))
            → AddsIf
                (attached epoch (o ∷ os))
                (touched (o ∷ os))
                (λ k held. fates s epoch k (o ∷ os) held)
                g
                (elim r [
                  | go_on f ↦ stage_all s epoch os f
                  | refuse e ↦ refuse e
                  | fault x ↦ fault x
                ])
        go (go_on f) w next = after f (stage_all s epoch os f) w (next f)
        go (refuse e) w next = tt
        go (fault x) w next = tt
