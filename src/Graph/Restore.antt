-- ===== src/Graph/Restore.antt =====
-- Revoking an identity and restoring it: `MemoryGraphStore.apply` on the two batches.
-- src/kg_contracts/testing/memory.py.
use agentic_kgis.Prelude.{
  arith, ◌+◌, true, false, ◌≡◌, refl, sym, ap, ◌∙◌, subst, inl, inr, none, some, [], ◌∷◌, Text,
  text_beq, text_beq_iff, text_eq, lookup, lookup-set-here, lookup-set-other, set, if◌then◌else◌,
  Bool-cases,
}
use agentic_kgis.Graph.{
  already_revoked, not_revoked, active, revoked, CurationStatus, CanonicalEntity,
  CurationOperationType, revoke_identity, restore_identity, GraphMutationBatch, GraphState,
  put_entity,
}
use agentic_kgis.Graph.Apply.{
  nothing_staged, Staged, go_on, refuse, fault, stage_at, with_status, is_revoked, revoke_found,
  restore_found, stage_revoke, stage_restore, stage_one, stage_all, put_staged, put_assertions,
  bump, store_staged, settle_batch, apply,
}

-- a batch of one operation that names an identity
abbrev pub only : CurationOperationType → Text → GraphMutationBatch
only kind id = record {
  batch_id = id;
  operations =
      record {
        operation_type = kind;
        payload = record { entity = none; assertion = none; identity_id = some id };
      }
      ∷ [];
}

-- the state with one identity's status changed in the next epoch
abbrev pub restatus : CurationStatus → CanonicalEntity → Text → GraphState → GraphState
restatus status e id s =
    store_staged (s.epoch + 1) (stage_at id (with_status status e) nothing_staged) s

-- the last operation of a batch
abbrev last_staged : Staged → Staged
last_staged (go_on g) = go_on g
last_staged (refuse e) = refuse e
last_staged (fault f) = fault f

pub revoke_alone :
    (id : Text) (e : CanonicalEntity) (s : GraphState)
    → lookup id s.entities ≡ some e
    → is_revoked e.status ≡ false
    → (apply (only revoke_identity id) [] s).1 ≡ restatus revoked e id s
unfolding apply stage_all stage_one stage_revoke
revoke_alone id e s held live =
    ap (λ r. (settle_batch id (s.epoch + 1) s (last_staged r)).1)
      (ap (λ o. revoke_found id o nothing_staged) held
        ∙ ap
            (λ b.
              if b
              then refuse already_revoked
              else go_on (stage_at id (with_status revoked e) nothing_staged))
            live)

restore_alone :
    (id : Text) (e : CanonicalEntity) (s : GraphState)
    → lookup id s.entities ≡ some e
    → is_revoked e.status ≡ true
    → (apply (only restore_identity id) [] s).1 ≡ restatus active e id s
unfolding apply stage_all stage_one stage_restore
restore_alone id e s held dead =
    ap (λ r. (settle_batch id (s.epoch + 1) s (last_staged r)).1)
      (ap (λ o. restore_found id o nothing_staged) held
        ∙ ap
            (λ b.
              if b
              then go_on (stage_at id (with_status active e) nothing_staged)
              else refuse not_revoked)
            dead)

pub lookup-restatus :
    (status : CurationStatus) (e : CanonicalEntity) (id : Text) (s : GraphState)
    → e.identity_id ≡ id
    → lookup id (restatus status e id s).entities ≡ some (with_status status e)
unfolding store_staged put_staged put_entity put_assertions bump
lookup-restatus status e id s named =
    ap (λ k. lookup id (set k (with_status status e) s.entities)) named
    ∙ lookup-set-here id (with_status status e) s.entities

lookup-restatus-other :
    (status : CurationStatus) (e : CanonicalEntity) (id k : Text) (s : GraphState)
    → e.identity_id ≡ id
    → text_beq id k ≡ false
    → lookup k (restatus status e id s).entities ≡ lookup k s.entities
unfolding store_staged put_staged put_entity put_assertions bump
lookup-restatus-other status e id k s named other =
    ap (λ t. lookup k (set t (with_status status e) s.entities)) named
    ∙ lookup-set-other id k (with_status status e) s.entities other

-- what a reader of assertions and of one entity looks at
abbrev pub ReadsAlike : Text → GraphState → GraphState → Type 0
ReadsAlike k s t =
    (lookup k t.entities ≡ lookup k s.entities)
    × ((t.assertions ≡ s.assertions) × (t.assertions_by_id ≡ s.assertions_by_id))

restatus-indexes :
    (e c : CanonicalEntity) (id : Text) (s : GraphState)
    → ((restatus active e id (restatus revoked c id s)).assertions ≡ s.assertions)
      × ((restatus active e id (restatus revoked c id s)).assertions_by_id ≡ s.assertions_by_id)
unfolding store_staged put_staged put_entity put_assertions bump
restatus-indexes e c id s = (refl, refl)

restatus-epoch :
    (e c : CanonicalEntity) (id : Text) (s : GraphState)
    → (restatus active e id (restatus revoked c id s)).epoch ≡ s.epoch + 2
unfolding store_staged
restatus-epoch e c id s = omega arith

restatus-lookup :
    (id k : Text) (e : CanonicalEntity) (s : GraphState)
    → lookup id s.entities ≡ some e
    → e.identity_id ≡ id
    → e.status ≡ active
    → lookup k (restatus active (with_status revoked e) id (restatus revoked e id s)).entities
      ≡ lookup k s.entities
restatus-lookup id k e s held named live =
    let gone = restatus revoked e id s in
    elim (Bool-cases (text_beq id k)) [
      | inl here ↦
          subst
            (λ t.
              lookup t (restatus active (with_status revoked e) id gone).entities
              ≡ lookup t s.entities)
            ((text_beq_iff id k).0 here)
            (lookup-restatus active (with_status revoked e) id gone named
              ∙ ap (λ status. some (with_status status e)) (sym live)
              ∙ sym held)
      | inr other ↦
          lookup-restatus-other active (with_status revoked e) id k gone named other
          ∙ lookup-restatus-other revoked e id k s named other
    ]

-- Revoking an active identity and restoring it brings back the entity under every key, and leaves
-- both indexes of the assertions as they were, while the epoch moves on by two.
pub restore_identity-revoke_identity :
    (id k : Text) (e : CanonicalEntity) (s : GraphState)
    → lookup id s.entities ≡ some e
    → e.identity_id ≡ id
    → e.status ≡ active
    → ReadsAlike k s
        (apply (only restore_identity id) [] (apply (only revoke_identity id) [] s).1).1
      × ((apply (only restore_identity id) [] (apply (only revoke_identity id) [] s).1).1.epoch
          ≡ s.epoch + 2)
restore_identity-revoke_identity id k e s held named live =
    let gone = restatus revoked e id s in
    subst (λ t. ReadsAlike k s t × (t.epoch ≡ s.epoch + 2))
      (sym (
        ap (λ t. (apply (only restore_identity id) [] t).1)
          (revoke_alone id e s held (ap is_revoked live))
        ∙ restore_alone id (with_status revoked e) gone (lookup-restatus revoked e id s named)
            refl))
      (
        (restatus-lookup id k e s held named live, restatus-indexes (with_status revoked e) e id s),
        restatus-epoch (with_status revoked e) e id s,
      )
