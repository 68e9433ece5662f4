-- ===== src/Examples/Graphs.antt =====
-- Runs of the in-memory canonical graph.
use agentic_kgis.Prelude.{
  ◌≡◌, refl, sym, ◌↔◌, false, none, some, [], ◌∷◌, Text, codes, In, lookup, text_beq,
}
use mathlib.Core.Option.{some-ne-none}
use agentic_kgis.Graph.{
  active, CanonicalEntity, Assertion, attach_assertion, revoke_identity, restore_identity,
  CurationOperation, GraphMutationBatch, GraphState, put_assertion, put_entity,
}
use agentic_kgis.Graph.Apply.{
  apply, stage_all, stage_one, stage_attach, stage_revoke, store_staged, put_staged, put_assertions,
  bump,
}
use agentic_kgis.Graph.Reads.{
  GraphReadOptions, get_entity, get_assertion, assertions_for, neighborhood, hops_from, hop,
  follow_assertions, subject_visible, assertion_shown, is_visible,
}
use agentic_kgis.Graph.Index.{IsIndexed, put_assertion-IsIndexed}
use agentic_kgis.Graph.Commits.{apply-IsIndexed}
use agentic_kgis.Graph.Lookup.{get_assertion_iff}
use agentic_kgis.Graph.Restore.{only, ReadsAlike, restore_identity-revoke_identity}
use agentic_kgis.Graph.Shield.{IsHidden, revoke_identity-IsHidden}

abbrev latest : GraphReadOptions
latest = record {
  curation_epoch = none;
  valid_at = none;
  transaction_at = none;
  include_superseded = false;
  include_revoked = false;
}

abbrev ada : CanonicalEntity
ada = record {
  identity_id = codes "ada";
  entity_type = codes "Person";
  aliases = [];
  status = active;
  display_name = none;
  created_at = 1;
  curation_epoch = 0;
}

abbrev cyd : CanonicalEntity
cyd = record ada { identity_id = codes "cyd" }

abbrev knows : Text → Assertion
knows id = record {
  assertion_id = id;
  subject_identity = codes "ada";
  predicate = codes "knows";
  object_identity = some (codes "bob");
  status = active;
  valid_period = record { valid_from = none; valid_to = none };
  recorded_at = 2;
  superseded_at = none;
  superseded_by = none;
  curation_epoch = 0;
}

abbrev empty : GraphState
empty = record {
  entities = [];
  assertions = [];
  assertions_by_id = [];
  entity_versions = [];
  epoch = 0;
}

abbrev bob : CanonicalEntity
bob = record ada { identity_id = codes "bob" }

abbrev filled : GraphState
filled = record {
  entities = (codes "ada", ada) ∷ (codes "bob", bob) ∷ [];
  assertions = (codes "ada", knows (codes "as_1") ∷ []) ∷ [];
  assertions_by_id = (codes "as_1", knows (codes "as_1")) ∷ [];
  entity_versions = [];
  epoch = 4;
}

abbrev attach : Text → CurationOperation
attach id = record {
  operation_type = attach_assertion;
  payload = record { entity = none; assertion = some (knows id); identity_id = none };
}

-- two assertions, the second under an id that the first has taken
abbrev twice : GraphMutationBatch
twice = record {
  batch_id = codes "b1";
  operations = attach (codes "as_2") ∷ attach (codes "as_2") ∷ [];
}

abbrev once : GraphMutationBatch
once = record { batch_id = codes "b2"; operations = attach (codes "as_2") ∷ [] }

empty-IsIndexed : IsIndexed empty
empty-IsIndexed = record {
  filed = λ k a h. absurd h;
  found = λ id a h. absurd (some-ne-none a (sym h));
}

filled-IsIndexed : IsIndexed filled
unfolding put_assertion
filled-IsIndexed =
    let v = put_assertion-IsIndexed (knows (codes "as_1")) empty refl empty-IsIndexed in
    record { filed = v.filed; found = v.found }

twice_is_refused : (apply twice [] filled).1.epoch ≡ 4
unfolding apply stage_all stage_one stage_attach text_beq
twice_is_refused = refl

bob_is_reached : neighborhood (codes "ada") 2 latest filled ≡ bob ∷ []
unfolding neighborhood hops_from hop follow_assertions assertions_for subject_visible
    assertion_shown is_visible get_entity text_beq
bob_is_reached = refl

apply-IsIndexed_example : IsIndexed (apply once [] filled).1
apply-IsIndexed_example = apply-IsIndexed once [] filled filled-IsIndexed

get_assertion_iff_example :
    (get_assertion (codes "as_1") latest filled ≡ some (knows (codes "as_1"))) ↔ (
      (codes "as_1" ≡ codes "as_1")
      × In (knows (codes "as_1")) (assertions_for (codes "ada") latest filled))
get_assertion_iff_example =
    get_assertion_iff (codes "as_1") latest filled (knows (codes "as_1")) filled-IsIndexed

-- the next batch after the revocation creates another entity
abbrev after_revocation : GraphState
after_revocation = put_entity cyd (apply (only revoke_identity (codes "ada")) [] filled).1

still_revoked :
    lookup (codes "ada") after_revocation.entities
    ≡ lookup (codes "ada") (apply (only revoke_identity (codes "ada")) [] filled).1.entities
unfolding apply stage_all stage_one stage_revoke store_staged put_staged put_assertions bump
    put_entity text_beq
still_revoked = refl

ada_held : lookup (codes "ada") filled.entities ≡ some ada
unfolding text_beq
ada_held = refl

revoke_identity-IsHidden_example : IsHidden (codes "ada") latest after_revocation
revoke_identity-IsHidden_example =
    revoke_identity-IsHidden (codes "ada") ada filled after_revocation latest ada_held refl refl
      still_revoked refl

restore_identity-revoke_identity_example :
    ReadsAlike
      (codes "ada")
      filled
      (apply
        (only restore_identity (codes "ada"))
        []
        (apply (only revoke_identity (codes "ada")) [] filled).1).1
    × ((apply
          (only restore_identity (codes "ada"))
          []
          (apply (only revoke_identity (codes "ada")) [] filled).1).1.epoch
        ≡ 6)
unfolding text_beq
restore_identity-revoke_identity_example =
    restore_identity-revoke_identity (codes "ada") (codes "ada") ada filled refl refl refl
