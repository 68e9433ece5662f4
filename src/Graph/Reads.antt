-- ===== src/Graph/Reads.antt =====
-- The readers of `MemoryGraphStore`: src/kg_contracts/testing/memory.py. The store declares every
-- capability that a read option asks for, so no reader raises.
use agentic_kgis.Prelude.{
  ℕ, zero, suc, Bool, true, false, not, ◌&&◌, Option, none, some, List, [], ◌∷◌, ◌++◌, Text, ◌==◌,
  text_eq, any, keep, ltb, leb, lookup, has_text, values, list_at, if◌then◌else◌,
}
use agentic_kgis.Evidence.{Time}
use agentic_kgis.Candidates.{EntityRef}
use agentic_kgis.Graph.{
  CurationStatus, active, superseded, revoked, CanonicalEntity, Assertion, GraphState,
}

pub record GraphReadOptions : Type 0 where
  pub curation_epoch : Option ℕ
  pub valid_at : Option Time
  pub transaction_at : Option Time
  pub include_superseded : Bool
  pub include_revoked : Bool

abbrev pub within_epoch : Option ℕ → ℕ → Bool
within_epoch none record_epoch = true
within_epoch (some epoch) record_epoch = not (ltb epoch record_epoch)

abbrev pub status_shown : CurationStatus → GraphReadOptions → Bool
status_shown active o = true
status_shown superseded o = o.include_superseded
status_shown revoked o = o.include_revoked

unfoldable pub is_visible : ℕ → CurationStatus → GraphReadOptions → Bool
is_visible record_epoch status o =
    if not (within_epoch o.curation_epoch record_epoch) then false else status_shown status o

abbrev pub entity_shield : Option CanonicalEntity → GraphReadOptions → Bool
entity_shield none o = true
entity_shield (some e) o = elim e.status [
  | revoked ↦ o.include_revoked
  | active ↦ true
  | superseded ↦ true
]

unfoldable pub subject_visible : Text → GraphReadOptions → GraphState → Bool
subject_visible id o s = entity_shield (lookup id s.entities) o

abbrev not_before : Option Time → Time → Bool
not_before none t = true
not_before (some from) t = not (ltb t from)

abbrev not_after : Option Time → Time → Bool
not_after none t = true
not_after (some to) t = not (ltb to t)

abbrev still_current : Option Time → Time → Bool
still_current none t = true
still_current (some at) t = not (leb at t)

unfoldable pub valid_at_matches : Assertion → Time → Bool
valid_at_matches a t = not_before a.valid_period.valid_from t && not_after a.valid_period.valid_to t

unfoldable pub transaction_at_matches : Assertion → Time → Bool
transaction_at_matches a t = not (ltb t a.recorded_at) && still_current a.superseded_at t

abbrev wanted_at : (Assertion → Time → Bool) → Option Time → Assertion → Bool
wanted_at test none a = true
wanted_at test (some t) a = test a t

-- the three tests that `assertions_for` and `get_assertion` put to an assertion
unfoldable pub assertion_shown : GraphReadOptions → Assertion → Bool
assertion_shown o a =
    is_visible a.curation_epoch a.status o
    && (wanted_at valid_at_matches o.valid_at a
        && wanted_at transaction_at_matches o.transaction_at a)

abbrev pub if_entity : Option CanonicalEntity → GraphReadOptions → Option CanonicalEntity
if_entity none o = none
if_entity (some e) o = if is_visible e.curation_epoch e.status o then some e else none

unfoldable pub get_entity : Text → GraphReadOptions → GraphState → Option CanonicalEntity
get_entity id o s = if_entity (lookup id s.entities) o

abbrev same_alias : EntityRef → EntityRef → Bool
same_alias a b = a.entity_type == b.entity_type && (a.namespace == b.namespace && a.key == b.key)

abbrev type_wanted : Option Text → CanonicalEntity → Bool
type_wanted none e = true
type_wanted (some t) e = e.entity_type == t

abbrev alias_wanted : Option EntityRef → CanonicalEntity → Bool
alias_wanted none e = true
alias_wanted (some a) e = any (same_alias a) e.aliases

unfoldable pub find_entities :
    Option Text → Option EntityRef → GraphReadOptions → GraphState → List CanonicalEntity
find_entities entity_type alias o s =
    keep
      (λ e.
        is_visible e.curation_epoch e.status o
        && (type_wanted entity_type e && alias_wanted alias e))
      (values s.entities)

unfoldable pub assertions_for : Text → GraphReadOptions → GraphState → List Assertion
assertions_for id o s =
    if not (subject_visible id o s) then [] else keep (assertion_shown o) (list_at id s.assertions)

abbrev pub if_assertion : Option Assertion → GraphReadOptions → GraphState → Option Assertion
if_assertion none o s = none
if_assertion (some a) o s =
    if not (subject_visible a.subject_identity o s)
    then none
    else if assertion_shown o a
    then some a
    else none

unfoldable pub get_assertion : Text → GraphReadOptions → GraphState → Option Assertion
get_assertion id o s = if_assertion (lookup id s.assertions_by_id) o s

-- The frontier is a set; it is kept in the order of insertion, where the code leaves the order open.
pub record Search : Type 0 where
  pub visited : List Text
  pub next_frontier : List Text
  pub result : List CanonicalEntity

abbrev pub reach : Text → Option CanonicalEntity → Search → Search
reach target none f = record f { visited = target ∷ f.visited }
reach target (some e) f = record {
  visited = target ∷ f.visited;
  next_frontier = f.next_frontier ++ target ∷ [];
  result = f.result ++ e ∷ [];
}

abbrev pub follow_to : Option Text → GraphReadOptions → GraphState → Search → Search
follow_to none o s f = f
follow_to (some target) o s f =
    if has_text target f.visited then f else reach target (get_entity target o s) f

unfoldable pub follow_assertions : List Assertion → GraphReadOptions → GraphState → Search → Search
follow_assertions [] o s f = f
follow_assertions (a ∷ as_) o s f = follow_assertions as_ o s (follow_to a.object_identity o s f)

-- one round over the frontier
unfoldable pub hop : List Text → GraphReadOptions → GraphState → Search → Search
hop [] o s f = f
hop (subject ∷ rest) o s f = hop rest o s (follow_assertions (assertions_for subject o s) o s f)

unfoldable pub hops_from : ℕ → GraphReadOptions → GraphState → Search → List CanonicalEntity
hops_from zero o s f = f.result
hops_from (suc n) o s f =
    hops_from n o s (hop f.next_frontier o s (record f { next_frontier = [] }))

unfoldable pub neighborhood : Text → ℕ → GraphReadOptions → GraphState → List CanonicalEntity
neighborhood id hops o s =
    hops_from hops o s (record { visited = id ∷ []; next_frontier = id ∷ []; result = [] })
