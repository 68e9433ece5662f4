-- ===== src/Graph.antt =====
-- The canonical graph: the records of src/kg_contracts/assertions.py, the curation operations of
-- curation.py, the batches of stores.py, and the state and writer primitives of
-- `MemoryGraphStore`, src/kg_contracts/testing/memory.py. An assertion is kept with the fields
-- that an operation or a reader looks at.
pub mod Apply
pub mod Reads
pub mod Index
pub mod Staging
pub mod Commits
pub mod Lookup
pub mod Restore
pub mod Shield
pub mod Batches
pub mod Storing
use agentic_kgis.Prelude.{
  ℕ, suc, ◌+◌, Bool, true, false, not, ◌&&◌, ◌||◌, Option, none, some, List, [], ◌∷◌, ◌++◌, Text,
  codes, ◌==◌, text_eq, nat_eq, any, all, is_some, length, Dict, lookup, set, append_at,
  if◌then◌else◌,
}
use agentic_kgis.Evidence.{Time, ValidPeriod}
use agentic_kgis.Candidates.{EntityRef}

pub data CurationStatus : Type 0 where
  active superseded revoked : CurationStatus

pub record CanonicalEntity : Type 0 where
  pub identity_id : Text
  pub entity_type : Text
  pub aliases : List EntityRef
  pub status : CurationStatus
  pub display_name : Option Text
  pub created_at : Time
  pub curation_epoch : ℕ

pub record Assertion : Type 0 where
  pub assertion_id : Text
  pub subject_identity : Text
  pub predicate : Text
  pub object_identity : Option Text
  pub status : CurationStatus
  pub valid_period : ValidPeriod
  pub recorded_at : Time
  pub superseded_at : Option Time
  pub superseded_by : Option Text
  pub curation_epoch : ℕ

-- the class of `_ASSERTION_ID_RE`: a digit, or an upper-case letter that is not I, L, O or U
abbrev is_crockford : ℕ → Bool
is_crockford c = any (λ d. c == d) (codes "0123456789ABCDEFGHJKMNPQRSTVWXYZ")

abbrev remove_prefix : Text → Text → Option Text
remove_prefix [] t = some t
remove_prefix (x ∷ p) [] = none
remove_prefix (x ∷ p) (y ∷ t) = let rest = remove_prefix p t in if x == y then rest else none

abbrev is_ulid : Option Text → Bool
is_ulid none = false
is_ulid (some rest) = length rest == 26 && all is_crockford rest

unfoldable pub is_assertion_id : Text → Bool
is_assertion_id value = is_ulid (remove_prefix (codes "as_") value)

pub data CurationOperationType : Type 0 where
  create_identity revoke_identity restore_identity attach_assertion merge_identities split_identity
        reassign_assertion retract_assertion promote_ontology_term :
      CurationOperationType

-- `INVERSE_OPERATION_TYPES`
unfoldable pub inverse_type : CurationOperationType → Option CurationOperationType
inverse_type create_identity = some revoke_identity
inverse_type revoke_identity = some restore_identity
inverse_type restore_identity = some revoke_identity
inverse_type attach_assertion = some retract_assertion
inverse_type retract_assertion = some attach_assertion
inverse_type merge_identities = some split_identity
inverse_type split_identity = some merge_identities
inverse_type reassign_assertion = some reassign_assertion
inverse_type promote_ontology_term = none

-- A payload, as the contract's models read it: the entity or the assertion that it validates as
-- once its epoch is overwritten, and the text under `identity_id`.
pub record OperationPayload : Type 0 where
  pub entity : Option CanonicalEntity
  pub assertion : Option Assertion
  pub identity_id : Option Text

pub record CurationOperation : Type 0 where
  pub operation_type : CurationOperationType
  pub payload : OperationPayload

pub record Precondition : Type 0 where
  pub kind : Text
  pub subject : Text
  pub expected : Text

pub record GraphMutationBatch : Type 0 where
  pub batch_id : Text
  pub operations : List CurationOperation

pub data ApplyError : Type 0 where
  duplicate_assertion missing_identity_id unknown_identity already_revoked not_revoked : ApplyError

pub record CommitResult : Type 0 where
  pub batch_id : Text
  pub committed : Bool
  pub new_epoch : Option ℕ
  pub failed_preconditions : List Precondition
  pub error : Option ApplyError

-- the dictionaries and the epoch, which is also what a snapshot holds
pub record GraphState : Type 0 where
  pub entities : Dict CanonicalEntity
  pub assertions : Dict (List Assertion)
  pub assertions_by_id : Dict Assertion
  pub entity_versions : Dict ℕ
  pub epoch : ℕ

pub record GraphStore : Type 0 where
  pub state : GraphState
  pub txn_snapshot : Option GraphState

unfoldable pub put_entity : CanonicalEntity → GraphState → GraphState
put_entity e s = record s { entities = set e.identity_id e s.entities }

unfoldable pub put_assertion : Assertion → GraphState → GraphState
put_assertion a s = record s {
  assertions = append_at a.subject_identity a s.assertions;
  assertions_by_id = set a.assertion_id a s.assertions_by_id;
}

unfoldable pub put_entities : List CanonicalEntity → GraphState → ℕ × GraphState
put_entities [] s = (0, s)
put_entities (e ∷ es) s = let (n, s') = put_entities es (put_entity e s) in (suc n, s')

pub data GraphFault : Type 0 where
  value_error key_error runtime_error not_implemented validation_error : GraphFault

abbrev keep_pointer : Option Text → Option Text → Option Text
keep_pointer none old = old
keep_pointer (some new) old = some new

abbrev pub retired : Time → Option Text → Assertion → Assertion
retired at replaced_by a = record a {
  status = superseded;
  superseded_at = some at;
  superseded_by = keep_pointer replaced_by a.superseded_by;
}

-- the first assertion of a subject that has the id, and the list with it replaced
unfoldable pub retire_in :
    Text → (Assertion → Assertion) → List Assertion → Option (Assertion × List Assertion)
retire_in id f [] = none
retire_in id f (a ∷ as_) =
    let rest = retire_in id f as_ in
    if a.assertion_id == id then some (f a, f a ∷ as_) else behind rest
  where
    behind : Option (Assertion × List Assertion) → Option (Assertion × List Assertion)
    behind none = none
    behind (some (b, bs)) = some (b, a ∷ bs)

-- the first subject that has it, in the order of the dictionary
unfoldable pub retire_first :
    Text
    → (Assertion → Assertion)
    → Dict (List Assertion)
    → Option (Assertion × Dict (List Assertion))
retire_first id f [] = none
retire_first id f ((subject, held) ∷ d) =
    let rest = retire_first id f d in
    elim (retire_in id f held) [ none ↦ behind rest | some p ↦ some (p.0, (subject, p.1) ∷ d) ]
  where
    behind : Option (Assertion × Dict (List Assertion)) → Option (Assertion × Dict (List Assertion))
    behind none = none
    behind (some (b, e)) = some (b, (subject, held) ∷ e)

abbrev well_formed_pointer : Option Text → Bool
well_formed_pointer none = true
well_formed_pointer (some id) = is_assertion_id id

abbrev index_retired :
    Text → Option (Assertion × Dict (List Assertion)) → GraphState → Option GraphFault × GraphState
index_retired id none s = (some key_error, s)
index_retired id (some (a, d)) s =
    (none, record s { assertions = d; assertions_by_id = set id a s.assertions_by_id })

-- `none` where it returns
unfoldable pub mark_superseded :
    Text → Time → Option Text → GraphState → Option GraphFault × GraphState
mark_superseded id at replaced_by s =
    if not (well_formed_pointer replaced_by)
    then (some value_error, s)
    else index_retired id (retire_first id (retired at replaced_by) s.assertions) s

unfoldable pub begin : GraphStore → GraphStore
begin g = record g { txn_snapshot = some g.state }

unfoldable pub commit : GraphStore → GraphStore
commit g = record g { txn_snapshot = none }

abbrev roll_to : Option GraphState → GraphStore → Option GraphFault × GraphStore
roll_to none g = (some runtime_error, g)
roll_to (some s) g = (none, record { state = s; txn_snapshot = none })

unfoldable pub rollback : GraphStore → Option GraphFault × GraphStore
rollback g = roll_to g.txn_snapshot g
