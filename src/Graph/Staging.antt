-- ===== src/Graph/Staging.antt =====
-- What the loop of `MemoryGraphStore.apply` has staged can be put in: its new assertions have ids
-- of their own. src/kg_contracts/testing/memory.py.
use agentic_kgis.Prelude.{
  ℕ, false, ◌||◌, ◌≡◌, sym, ap, ◌∙◌, inl, inr, Option, none, some, List, [], ◌∷◌, ◌++◌, map, Text,
  ◌==◌, text_eq, or_false, is_some-false, is_some, lookup, lookup-set-other, set, has_text, Dict,
  Bool-cases, Option-cases,
}
use mathlib.Core.List.{map-append}
use agentic_kgis.Graph.{
  CanonicalEntity, Assertion, CurationOperation, OperationPayload, CurationOperationType,
  create_identity, revoke_identity, restore_identity, attach_assertion, merge_identities,
  split_identity, reassign_assertion, retract_assertion, promote_ontology_term, revoked, active,
  GraphState,
}
use agentic_kgis.Graph.Apply.{
  Staging, Staged, go_on, refuse, fault, stage_create, stage_attach, stage_new, stage_revoke,
  revoke_found, stage_restore, restore_found, stage_one, stage_all, staged_entity, is_revoked,
  stage_at, with_status,
}

-- Assertions whose ids are new to the dictionary and to one another.
abbrev pub AreNew : Dict Assertion → List Assertion → Type 0
AreNew d [] = Unit
AreNew d (a ∷ as_) = (lookup a.assertion_id d ≡ none) × AreNew (set a.assertion_id a d) as_

pub AreNew-snoc :
    (a : Assertion) (as_ : List Assertion) (d : Dict Assertion)
    → AreNew d as_
    → lookup a.assertion_id d ≡ none
    → has_text a.assertion_id (map (λ b. b.assertion_id) as_) ≡ false
    → AreNew d (as_ ++ a ∷ [])
AreNew-snoc a [] d v free fresh = (free, tt)
AreNew-snoc a (b ∷ as_) d v free fresh =
    let split =
      or_false (b.assertion_id == a.assertion_id)
        (has_text a.assertion_id (map (λ c. c.assertion_id) as_)) fresh in
    (
      v.0,
      AreNew-snoc a as_ (set b.assertion_id b d) v.1
          (lookup-set-other b.assertion_id a.assertion_id b d split.0 ∙ free) split.1,
    )

-- What the loop has staged can be put in: every staged assertion is new, and the staged ids are
-- theirs.
pub record IsStaging (s : GraphState) (g : Staging) : Type 0 where
  pub new : AreNew s.assertions_by_id g.new_assertions
  pub ids : g.staged_assertion_ids ≡ map (λ a. a.assertion_id) g.new_assertions

abbrev pub StagesWell : GraphState → Staged → Type 0
StagesWell s (go_on g) = IsStaging s g
StagesWell s (refuse e) = Unit
StagesWell s (fault f) = Unit

stage_new-IsStaging :
    (s : GraphState) (a : Assertion) (g : Staging) → IsStaging s g → StagesWell s (stage_new s a g)
stage_new-IsStaging s a g v =
    elim (Bool-cases (
      is_some (lookup a.assertion_id s.assertions_by_id)
      || has_text a.assertion_id g.staged_assertion_ids)) [
        | inl e ↦ rw e tt
        | inr e ↦
            (let split =
                or_false (is_some (lookup a.assertion_id s.assertions_by_id))
                  (has_text a.assertion_id g.staged_assertion_ids) e in
              rw e (record {
                new =
                    AreNew-snoc a g.new_assertions s.assertions_by_id v.new
                      (is_some-false (lookup a.assertion_id s.assertions_by_id) split.0)
                      (ap (has_text a.assertion_id) (sym v.ids) ∙ split.1);
                ids =
                    ap (λ l. l ++ a.assertion_id ∷ []) v.ids
                    ∙ sym (map-append (λ b. b.assertion_id) g.new_assertions (a ∷ []));
              }))
      ]

stage_at-IsStaging :
    (s : GraphState) (id : Text) (e : CanonicalEntity) (g : Staging)
    → IsStaging s g
    → IsStaging s (stage_at id e g)
stage_at-IsStaging s id e g v = record { new = v.new; ids = v.ids }

revoke_found-IsStaging :
    (s : GraphState) (id : Text) (o : Option CanonicalEntity) (g : Staging)
    → IsStaging s g
    → StagesWell s (revoke_found id o g)
revoke_found-IsStaging s id none g v = tt
revoke_found-IsStaging s id (some e) g v = elim (Bool-cases (is_revoked e.status)) [
  | inl h ↦ rw h tt
  | inr h ↦ rw h (stage_at-IsStaging s id (with_status revoked e) g v)
]

restore_found-IsStaging :
    (s : GraphState) (id : Text) (o : Option CanonicalEntity) (g : Staging)
    → IsStaging s g
    → StagesWell s (restore_found id o g)
restore_found-IsStaging s id none g v = tt
restore_found-IsStaging s id (some e) g v = elim (Bool-cases (is_revoked e.status)) [
  | inl h ↦ rw h (stage_at-IsStaging s id (with_status active e) g v)
  | inr h ↦ rw h tt
]

stage_one-IsStaging :
    (s : GraphState) (epoch : ℕ) (kind : CurationOperationType) (p : OperationPayload) (g : Staging)
    → IsStaging s g
    → StagesWell s (stage_one s epoch kind p g)
unfolding stage_one stage_create stage_attach stage_revoke stage_restore
stage_one-IsStaging s epoch create_identity p g v = elim (Option-cases p.entity) [
  | inl e ↦ rw e tt
  | inr (c, e) ↦ rw e (record { new = v.new; ids = v.ids })
]
stage_one-IsStaging s epoch attach_assertion p g v = elim (Option-cases p.assertion) [
  | inl e ↦ rw e tt
  | inr (a, e) ↦ rw e (stage_new-IsStaging s (record a { curation_epoch = epoch }) g v)
]
stage_one-IsStaging s epoch revoke_identity p g v = elim (Option-cases p.identity_id) [
  | inl e ↦ rw e tt
  | inr (id, e) ↦ rw e (revoke_found-IsStaging s id (staged_entity id g s) g v)
]
stage_one-IsStaging s epoch restore_identity p g v = elim (Option-cases p.identity_id) [
  | inl e ↦ rw e tt
  | inr (id, e) ↦ rw e (restore_found-IsStaging s id (staged_entity id g s) g v)
]
stage_one-IsStaging s epoch merge_identities p g v = tt
stage_one-IsStaging s epoch split_identity p g v = tt
stage_one-IsStaging s epoch reassign_assertion p g v = tt
stage_one-IsStaging s epoch retract_assertion p g v = tt
stage_one-IsStaging s epoch promote_ontology_term p g v = tt

pub stage_all-IsStaging :
    (s : GraphState) (epoch : ℕ) (os : List CurationOperation) (g : Staging)
    → IsStaging s g
    → StagesWell s (stage_all s epoch os g)
unfolding stage_all
stage_all-IsStaging s epoch [] g v = v
stage_all-IsStaging s epoch (o ∷ os) g v =
    go (stage_one s epoch o.operation_type o.payload g)
      (stage_one-IsStaging s epoch o.operation_type o.payload g v) (stage_all-IsStaging s epoch os)
  where
    go :
        (r : Staged)
        → StagesWell s r
        → ((g' : Staging) → IsStaging s g' → StagesWell s (stage_all s epoch os g'))
        → StagesWell s (elim r [
          | go_on g' ↦ stage_all s epoch os g'
          | refuse e ↦ refuse e
          | fault f ↦ fault f
        ])
    go (go_on g') w next = next g' w
    go (refuse e) w next = tt
    go (fault f) w next = tt
