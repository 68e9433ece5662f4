-- ===== src/Graph/Index.antt =====
-- The two indexes of the assertions stay in step: every write of `MemoryGraphStore`,
-- src/kg_contracts/testing/memory.py.
use agentic_kgis.Prelude.{
  ◌≡◌, sym, ap, ◌∙◌, subst, inl, inr, none, some, Text, text_eq, lookup, set, list_at, append_at,
  In, In-append_at, In-append_at-new, In-append_at-old, lookup-set-here, lookup-set-fresh,
  lookup-set-cases,
}
use agentic_kgis.Graph.{Assertion, GraphState, put_assertion}

-- What the subject index files is what the id index finds, and the other way round; no subject
-- lists an id twice.
pub record IsIndexed (s : GraphState) : Type 0 where
  pub filed :
      (k : Text) (a : Assertion)
      → In a (list_at k s.assertions)
      → (a.subject_identity ≡ k) × (lookup a.assertion_id s.assertions_by_id ≡ some a)
  pub found :
      (id : Text) (a : Assertion)
      → lookup id s.assertions_by_id ≡ some a
      → (a.assertion_id ≡ id) × In a (list_at a.subject_identity s.assertions)

pub put_assertion-IsIndexed :
    (a : Assertion) (s : GraphState)
    → lookup a.assertion_id s.assertions_by_id ≡ none
    → IsIndexed s
    → IsIndexed (put_assertion a s)
unfolding put_assertion
put_assertion-IsIndexed a s free v = record {
  filed = λ k b h. elim (In-append_at a.subject_identity k b a s.assertions h) [
    | inl old ↦ (
      (v.filed k b old).0,
      lookup-set-fresh a.assertion_id b.assertion_id a b s.assertions_by_id free
          (v.filed k b old).1,
    )
    | inr (new, same) ↦ (
      ap (λ c. c.subject_identity) new ∙ same,
      subst (λ c. lookup c.assertion_id (set a.assertion_id a s.assertions_by_id) ≡ some c)
          (sym new) (lookup-set-here a.assertion_id a s.assertions_by_id),
    )
  ];
  found = λ id b h. elim (lookup-set-cases a.assertion_id id a b s.assertions_by_id h) [
    | inl (key, same) ↦ (
      ap (λ c. c.assertion_id) (sym same) ∙ key,
      subst (λ c. In c (list_at c.subject_identity (append_at a.subject_identity a s.assertions)))
          same (In-append_at-new a.subject_identity a s.assertions),
    )
    | inr old ↦ (
      (v.found id b old).0,
      In-append_at-old a.subject_identity b.subject_identity b a s.assertions (v.found id b old).1,
    )
  ];
}
