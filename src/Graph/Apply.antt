-- ===== src/Graph/Apply.antt =====
-- `MemoryGraphStore.apply`: src/kg_contracts/testing/memory.py.
use agentic_kgis.Prelude.{
  ℕ, zero, suc, ◌+◌, ◌/◌, Bool, true, false, not, ◌||◌, Option, none, some, List, [], ◌∷◌, ◌++◌,
  Text, codes, ◌==◌, text_eq, keep, is_some, ltb, Dict, lookup, has_text, set, values,
  if◌then◌else◌,
}
use Prim.Native.Nat.{◌%◌}
use agentic_kgis.Graph.{
  CurationStatus, active, superseded, revoked, CanonicalEntity, Assertion, CurationOperationType,
  create_identity, revoke_identity, restore_identity, attach_assertion, OperationPayload,
  CurationOperation, Precondition, GraphMutationBatch, ApplyError, duplicate_assertion,
  missing_identity_id, unknown_identity, already_revoked, not_revoked, CommitResult, GraphState,
  GraphFault, not_implemented, validation_error, put_entity, put_assertion,
}

-- what the loop over the operations has built, and not yet stored
pub record Staging : Type 0 where
  pub staged_entities : Dict CanonicalEntity
  pub new_assertions : List Assertion
  pub staged_assertion_ids : List Text
  pub touched_subjects : List Text

abbrev pub nothing_staged : Staging
nothing_staged = record {
  staged_entities = [];
  new_assertions = [];
  staged_assertion_ids = [];
  touched_subjects = [];
}

-- the next round, a returned non-commit, or an exception
pub data Staged : Type 0 where
  go_on : Staging → Staged
  refuse : ApplyError → Staged
  fault : GraphFault → Staged

abbrev pub is_revoked : CurationStatus → Bool
is_revoked active = false
is_revoked superseded = false
is_revoked revoked = true

abbrev pub or_stored : Option CanonicalEntity → Option CanonicalEntity → Option CanonicalEntity
or_stored none stored = stored
or_stored (some e) stored = some e

-- `staged_entities.get(identity_id, self._entities.get(identity_id))`
abbrev pub staged_entity : Text → Staging → GraphState → Option CanonicalEntity
staged_entity id g s = or_stored (lookup id g.staged_entities) (lookup id s.entities)

abbrev pub stage_entity : CanonicalEntity → Staging → Staging
stage_entity e g = record g {
  staged_entities = set e.identity_id e g.staged_entities;
  touched_subjects = g.touched_subjects ++ e.identity_id ∷ [];
}

abbrev pub stage_assertion : Assertion → Staging → Staging
stage_assertion a g = record g {
  new_assertions = g.new_assertions ++ a ∷ [];
  staged_assertion_ids = g.staged_assertion_ids ++ a.assertion_id ∷ [];
  touched_subjects = g.touched_subjects ++ a.subject_identity ∷ [];
}

abbrev pub with_status : CurationStatus → CanonicalEntity → CanonicalEntity
with_status status e = record e { status = status }

-- an entity under the key that the batch names it by
abbrev pub stage_at : Text → CanonicalEntity → Staging → Staging
stage_at id e g = record g {
  staged_entities = set id e g.staged_entities;
  touched_subjects = g.touched_subjects ++ id ∷ [];
}

unfoldable pub stage_create : ℕ → OperationPayload → Staging → Staged
stage_create epoch p g = elim p.entity [
  | none ↦ fault validation_error
  | some e ↦ go_on (stage_entity (record e { curation_epoch = epoch }) g)
]

abbrev pub stage_new : GraphState → Assertion → Staging → Staged
stage_new s a g =
    if is_some (lookup a.assertion_id s.assertions_by_id)
      || has_text a.assertion_id g.staged_assertion_ids
    then refuse duplicate_assertion
    else go_on (stage_assertion a g)

unfoldable pub stage_attach : GraphState → ℕ → OperationPayload → Staging → Staged
stage_attach s epoch p g = elim p.assertion [
  | none ↦ fault validation_error
  | some a ↦ stage_new s (record a { curation_epoch = epoch }) g
]

abbrev pub revoke_found : Text → Option CanonicalEntity → Staging → Staged
revoke_found id none g = refuse unknown_identity
revoke_found id (some e) g =
    if is_revoked e.status
    then refuse already_revoked
    else go_on (stage_at id (with_status revoked e) g)

unfoldable pub stage_revoke : GraphState → OperationPayload → Staging → Staged
stage_revoke s p g = elim p.identity_id [
  | none ↦ refuse missing_identity_id
  | some id ↦ revoke_found id (staged_entity id g s) g
]

abbrev pub restore_found : Text → Option CanonicalEntity → Staging → Staged
restore_found id none g = refuse unknown_identity
restore_found id (some e) g =
    if is_revoked e.status then go_on (stage_at id (with_status active e) g) else refuse not_revoked

unfoldable pub stage_restore : GraphState → OperationPayload → Staging → Staged
stage_restore s p g = elim p.identity_id [
  | none ↦ refuse missing_identity_id
  | some id ↦ restore_found id (staged_entity id g s) g
]

unfoldable pub stage_one :
    GraphState → ℕ → CurationOperationType → OperationPayload → Staging → Staged
stage_one s epoch create_identity p g = stage_create epoch p g
stage_one s epoch attach_assertion p g = stage_attach s epoch p g
stage_one s epoch revoke_identity p g = stage_revoke s p g
stage_one s epoch restore_identity p g = stage_restore s p g
stage_one s epoch _ p g = fault not_implemented

unfoldable pub stage_all : GraphState → ℕ → List CurationOperation → Staging → Staged
stage_all s epoch [] g = go_on g
stage_all s epoch (o ∷ os) g = elim (stage_one s epoch o.operation_type o.payload g) [
  | go_on g' ↦ stage_all s epoch os g'
  | refuse e ↦ refuse e
  | fault f ↦ fault f
]

unfoldable pub put_staged : List CanonicalEntity → GraphState → GraphState
put_staged [] s = s
put_staged (e ∷ es) s = put_staged es (put_entity e s)

unfoldable pub put_assertions : List Assertion → GraphState → GraphState
put_assertions [] s = s
put_assertions (a ∷ as_) s = put_assertions as_ (put_assertion a s)

abbrev pub count_or_zero : Option ℕ → ℕ
count_or_zero none = 0
count_or_zero (some n) = n

abbrev pub version_of : Text → GraphState → ℕ
version_of id s = count_or_zero (lookup id s.entity_versions)

unfoldable pub bump : List Text → GraphState → GraphState
bump [] s = s
bump (x ∷ xs) s =
    bump xs (record s { entity_versions = set x (version_of x s + 1) s.entity_versions })

-- what `apply` does to the dictionaries once every operation is staged
unfoldable pub store_staged : ℕ → Staging → GraphState → GraphState
store_staged epoch g s =
    let s' =
      bump g.touched_subjects
        (put_assertions g.new_assertions (put_staged (values g.staged_entities) s)) in
    record s' { epoch = epoch }

-- the decimal digits of a number below 10 ^ fuel
abbrev digits : ℕ → ℕ → Text
digits zero n = []
digits (suc fuel) n = elim (ltb n 10) [
  | true ↦ (48 + n) ∷ []
  | false ↦ digits fuel (n / 10) ++ (48 + n % 10) ∷ []
]

-- `str(n)`: a number has at most as many digits as it counts, and one more
unfoldable pub str : ℕ → Text
str n = digits (suc n) n

unfoldable pub precondition_holds : Precondition → GraphState → Bool
precondition_holds p s =
    if not (p.kind == codes "entity_version")
    then true
    else str (version_of p.subject s) == p.expected

-- a result, or an exception
pub data Applied : Type 0 where
  returned : CommitResult → Applied
  raised : GraphFault → Applied

abbrev pub refusal : Text → Option ApplyError → List Precondition → CommitResult
refusal id e ps = record {
  batch_id = id;
  committed = false;
  new_epoch = none;
  failed_preconditions = ps;
  error = e;
}

abbrev pub settle_batch : Text → ℕ → GraphState → Staged → Applied × GraphState
settle_batch id epoch s (go_on g) = (
  returned (record {
    batch_id = id;
    committed = true;
    new_epoch = some epoch;
    failed_preconditions = [];
    error = none;
  }),
  store_staged epoch g s,
)
settle_batch id epoch s (refuse e) = (returned (refusal id (some e) []), s)
settle_batch id epoch s (fault f) = (raised f, s)

abbrev pub apply_checked :
    GraphMutationBatch → List Precondition → GraphState → Applied × GraphState
apply_checked b [] s =
    settle_batch b.batch_id (s.epoch + 1) s (stage_all s (s.epoch + 1) b.operations nothing_staged)
apply_checked b (p ∷ ps) s = (returned (refusal b.batch_id none (p ∷ ps)), s)

unfoldable pub apply : GraphMutationBatch → List Precondition → GraphState → Applied × GraphState
apply b ps s = apply_checked b (keep (λ p. not (precondition_holds p s)) ps) s
