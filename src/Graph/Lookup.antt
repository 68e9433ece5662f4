-- ===== src/Graph/Lookup.antt =====
-- The two ways to an assertion: by its id and through its subject, in `MemoryGraphStore`,
-- src/kg_contracts/testing/memory.py.
use agentic_kgis.Prelude.{
  Bool, true, false, not, ◌≡◌, refl, sym, ap, ◌∙◌, subst, ◌↔◌, inl, inr, none, some, List, [], Text,
  keep, lookup, list_at, In, In-keep, if◌then◌else◌, Option-cases,
}
use mathlib.Core.Bool.{true≢false}
use mathlib.Core.Option.{some-ne-none, some_inj}
use agentic_kgis.Graph.{Assertion, GraphState}
use agentic_kgis.Graph.Reads.{
  GraphReadOptions, subject_visible, assertion_shown, assertions_for, if_assertion, get_assertion,
}
use agentic_kgis.Graph.Index.{IsIndexed}

-- what a read of one record answers, by its two tests
guarded_iff :
    (a b : Assertion) (shield shown : Bool)
    → ((if not shield then none else if shown then some b else none) ≡ some a)
      ↔ ((b ≡ a) × ((shield ≡ true) × (shown ≡ true)))
guarded_iff a b false shown =
    (λ e. absurd (some-ne-none a (sym e)), λ p. absurd (true≢false (sym p.1.0)))
guarded_iff a b true false =
    (λ e. absurd (some-ne-none a (sym e)), λ p. absurd (true≢false (sym p.1.1)))
guarded_iff a b true true = (λ e. (some_inj.0 e, (refl, refl)), λ p. ap some p.0)

guarded_In_iff :
    (a : Assertion) (shield : Bool) (test : Assertion → Bool) (xs : List Assertion)
    → In a (if not shield then [] else keep test xs)
      ↔ (In a xs × ((shield ≡ true) × (test a ≡ true)))
guarded_In_iff a false test xs = (λ h. absurd h, λ p. absurd (true≢false (sym p.1.0)))
guarded_In_iff a true test xs = (
  λ h. (((In-keep test a xs).0 h).0, (refl, ((In-keep test a xs).0 h).1)),
  λ p. (In-keep test a xs).1 (p.0, p.1.1),
)

assertions_for_iff :
    (id : Text) (o : GraphReadOptions) (s : GraphState) (a : Assertion)
    → In a (assertions_for id o s) ↔ (
        In a (list_at id s.assertions)
        × ((subject_visible id o s ≡ true) × (assertion_shown o a ≡ true)))
unfolding assertions_for
assertions_for_iff id o s a =
    guarded_In_iff a (subject_visible id o s) (assertion_shown o) (list_at id s.assertions)

-- In an indexed state, the read by id answers an assertion when, and only when, it has that id and
-- the read of its subject lists it, under the same options.
pub get_assertion_iff :
    (id : Text) (o : GraphReadOptions) (s : GraphState) (a : Assertion)
    → IsIndexed s
    → (get_assertion id o s ≡ some a)
      ↔ ((a.assertion_id ≡ id) × In a (assertions_for a.subject_identity o s))
unfolding get_assertion
get_assertion_iff id o s a v = (there, back)
  where
    there :
        if_assertion (lookup id s.assertions_by_id) o s ≡ some a
        → (a.assertion_id ≡ id) × In a (assertions_for a.subject_identity o s)
    there e = elim (Option-cases (lookup id s.assertions_by_id)) [
      | inl missing ↦ absurd (some-ne-none a (sym e ∙ ap (λ r. if_assertion r o s) missing))
      | inr (b, held) ↦
          (let read =
              (guarded_iff a b (subject_visible b.subject_identity o s) (assertion_shown o b)).0
                (sym (ap (λ r. if_assertion r o s) held) ∙ e) in
            subst (λ c. (c.assertion_id ≡ id) × In c (assertions_for c.subject_identity o s)) read.0
              (
                (v.found id b held).0,
                (assertions_for_iff b.subject_identity o s b).1 ((v.found id b held).1, read.1),
              ))
    ]

    back :
        (a.assertion_id ≡ id) × In a (assertions_for a.subject_identity o s)
        → if_assertion (lookup id s.assertions_by_id) o s ≡ some a
    back p =
        let listed = (assertions_for_iff a.subject_identity o s a).0 p.1 in
        let held =
          subst (λ t. lookup t s.assertions_by_id ≡ some a) p.0
            (v.filed a.subject_identity a listed.0).1 in
        ap (λ r. if_assertion r o s) held
        ∙ (guarded_iff a a (subject_visible a.subject_identity o s) (assertion_shown o a)).1
            (refl, listed.1)
