-- ===== src/Catalog/Decisions.antt =====
-- The corpus of decisions of src/kgis/registry/store.py: what is recorded and what stays.
use agentic_kgis.Prelude.{
  ℕ, Bool, true, false, not, ◌&&◌, ◌||◌, ◌≡◌, refl, sym, ap, ◌∙◌, Option, none, some, List, [], ◌∷◌,
  Text, ◌==◌, text_eq, text_beq, text_beq_refl, text_beq_iff, nat_beq_iff, first, map, first-append,
  or_else, or_else-none, is_some, if◌then◌else◌,
}
use mathlib.Core.Bool.{true≢false}
use mathlib.Core.Option.{some-injective}
use agentic_kgis.Catalog.{
  DecisionRow, CatalogTables, Recorded, recorded, invalid_record, conflict, decision, option_beq,
  same_decision, insert_unless, insert_decision, label_all, relabel, compare_stored, answered,
  is_empty, store_decision, labelled, record_outcome,
}

option_beq_refl : (o : Option Text) → option_beq o o ≡ true
option_beq_refl none = refl
option_beq_refl (some t) = text_beq_refl t

both : (a b : Bool) → a ≡ true → b ≡ true → a && b ≡ true
both true b h k = k
both false b h k = absurd (true≢false (sym h))

same_decision_refl : (r : DecisionRow) → same_decision r r ≡ true
unfolding same_decision
same_decision_refl r = both _ _ (text_beq_refl r.decision_id) (
    both _ _ (option_beq_refl r.graph_name) (
      both _ _ (text_beq_refl r.recommendation_json) (
        both _ _ (text_beq_refl r.chosen_outcome) (
          both _ _ (text_beq_refl r.decided_by) (
            both _ _ (text_beq_refl r.rationale)
              ((nat_beq_iff r.decided_at r.decided_at).1 refl))))))

-- a row without a decider or a rationale
abbrev pub is_blank_row : DecisionRow → Bool
is_blank_row row = is_empty row.decided_by || is_empty row.rationale

abbrev pub is_recorded : Recorded → Bool
is_recorded (recorded row) = true
is_recorded _ = false

-- the row that the id has fits the new one
abbrev pub fits : DecisionRow → Option DecisionRow → Bool
fits row none = true
fits row (some stored) = same_decision stored row

insert_decision-decision :
    (row : DecisionRow) (t : CatalogTables) (id : Text)
    → decision id (insert_decision row t)
      ≡ or_else (decision id t) (if row.decision_id == id then some row else none)
unfolding insert_decision decision
insert_decision-decision row t id = go (decision row.decision_id t) refl
  where
    kept :
        (stored : DecisionRow) (b : Bool)
        → (row.decision_id == id) ≡ b
        → decision row.decision_id t ≡ some stored
        → decision id t ≡ or_else (decision id t) (if b then some row else none)
    kept stored false e f = sym (or_else-none (decision id t))
    kept stored true e f =
        let there = ap (λ k. decision k t) (sym ((text_beq_iff row.decision_id id).0 e)) ∙ f in
        there ∙ ap (λ o. or_else o (some row)) (sym there)

    go :
        (o : Option DecisionRow)
        → decision row.decision_id t ≡ o
        → first (λ r. r.decision_id == id) (insert_unless row t o).decisions
          ≡ or_else (decision id t) (if row.decision_id == id then some row else none)
    go none e = first-append (λ r. r.decision_id == id) t.decisions row
    go (some stored) e = kept stored (row.decision_id == id) refl e

-- the id's row afterwards, and whether the record is answered, where the row is blank or not
abbrev Stores : DecisionRow → CatalogTables → Text → Bool → Recorded × CatalogTables → Type 0
Stores row t id blank (answer, after) =
    (decision id after
      ≡ or_else (decision id t) (if not blank && row.decision_id == id then some row else none))
    × (is_recorded answer ≡ not blank && fits row (decision row.decision_id t))

-- What recording a decision does, for any id: the id has the row that it had, or else the new row
-- if it is its own; and the answer is the record exactly if the stored row fits. A row without a
-- decider or a rationale is refused and nothing changes.
pub store_decision_lem :
    (row : DecisionRow) (t : CatalogTables) (id : Text)
    → (decision id (store_decision row t).1
        ≡ or_else
            (decision id t)
            (if not (is_blank_row row) && row.decision_id == id then some row else none))
      × (is_recorded (store_decision row t).0
          ≡ not (is_blank_row row) && fits row (decision row.decision_id t))
unfolding store_decision
store_decision_lem row t id = go (is_blank_row row)
  where
    compared :
        (o : Option DecisionRow)
        → is_recorded (
            compare_stored row
              (or_else o (if text_beq row.decision_id row.decision_id then some row else none)))
          ≡ fits row o
    compared none =
        ap (λ b. is_recorded (compare_stored row (if b then some row else none)))
          (text_beq_refl row.decision_id)
        ∙ answer true (same_decision row row) (same_decision_refl row)
      where
        answer : (c b : Bool) → b ≡ c → is_recorded (if b then recorded row else conflict) ≡ c
        answer c true e = e
        answer c false e = e
    compared (some stored) = answer (same_decision stored row)
      where
        answer : (b : Bool) → is_recorded (if b then recorded row else conflict) ≡ b
        answer true = refl
        answer false = refl

    go :
        (b : Bool)
        → Stores row t id b
            (if b then (invalid_record, t) else answered row (insert_decision row t))
    go true = (sym (or_else-none (decision id t)), refl)
    go false = (
      insert_decision-decision row t id,
      ap (λ o. is_recorded (compare_stored row o)) (insert_decision-decision row t row.decision_id)
          ∙ compared (decision row.decision_id t),
    )

first-map :
    {A : Type 0} (test : A → Bool) (f : A → A) (rows : List A) (s : A)
    → ((r : A) → test (f r) ≡ test r)
    → first test rows ≡ some s
    → first test (map f rows) ≡ some (f s)
first-map test f [] s h e = absurd (true≢false (sym (ap is_some e)))
first-map test f (r ∷ rows) s h e =
    ap (λ b. if b then some (f r) else first test (map f rows)) (h r)
    ∙ go (test r) e (λ k. first-map test f rows s h k)
  where
    go :
        (b : Bool)
        → (if b then some r else first test rows) ≡ some s
        → (first test rows ≡ some s → first test (map f rows) ≡ some (f s))
        → (if b then some (f r) else first test (map f rows)) ≡ some (f s)
    go true e rest = ap some (ap f (some-injective r s e))
    go false e rest = rest e

-- an outcome leaves the columns that are compared
module _ (now : ℕ) (id label : Text) (note : Option Text) where
  relabel-keeps :
      (P : DecisionRow → Bool) (r : DecisionRow)
      → P (labelled now label note r) ≡ P r
      → P (relabel now id label note r) ≡ P r
  relabel-keeps P r h = go (r.decision_id == id)
    where
      go : (b : Bool) → P (if b then labelled now label note r else r) ≡ P r
      go true = h
      go false = refl

  relabel-same_decision :
      (r row : DecisionRow) → same_decision (relabel now id label note r) row ≡ same_decision r row
  unfolding same_decision
  relabel-same_decision r row = relabel-keeps (λ x. same_decision x row) r refl

  -- a row that fits stays after the outcome
  outcome-fits :
      (t after : CatalogTables) (row stored : DecisionRow)
      → decision row.decision_id t ≡ some stored
      → same_decision stored row ≡ true
      → record_outcome now id label note t ≡ some after
      → (decision row.decision_id after ≡ some (relabel now id label note stored))
        × (same_decision (relabel now id label note stored) row ≡ true)
  unfolding record_outcome decision
  outcome-fits t after row stored e f h = go (decision id t) h
    where
      go :
          (o : Option DecisionRow)
          → (elim o [
            | none ↦ none
            | some found ↦ some (record t { decisions = label_all now id label note t.decisions })
          ])
            ≡ some after
          → (decision row.decision_id after ≡ some (relabel now id label note stored))
            × (same_decision (relabel now id label note stored) row ≡ true)
      go none h = absurd (true≢false (sym (ap is_some h)))
      go (some found) h =
          let moved : record t { decisions = label_all now id label note t.decisions } ≡ after =
            some-injective _ _ h in
          (
            ap (decision row.decision_id) (sym moved)
                ∙ first-map (λ r. r.decision_id == row.decision_id) (relabel now id label note)
                    t.decisions stored
                    (λ r. relabel-keeps (λ x. x.decision_id == row.decision_id) r refl) e,
            relabel-same_decision stored row ∙ f,
          )

-- a decision that is there is not written again
resubmit :
    (row stored : DecisionRow) (t : CatalogTables)
    → is_blank_row row ≡ false
    → decision row.decision_id t ≡ some stored
    → same_decision stored row ≡ true
    → store_decision row t ≡ (recorded row, t)
unfolding store_decision insert_decision
resubmit row stored t full e f =
    ap (λ b. if b then (invalid_record, t) else answered row (insert_decision row t)) full
    ∙ ap (answered row) (ap (insert_unless row t) e)
    ∙ ap (λ o. (compare_stored row o, t)) e
    ∙ ap (λ b. (if b then recorded row else conflict, t)) f

-- what a recorded decision leaves
recorded-stored :
    (row : DecisionRow) (t : CatalogTables)
    → is_recorded (store_decision row t).0 ≡ true
    → (is_blank_row row ≡ false)
      × ((stored : DecisionRow) × ((decision row.decision_id (store_decision row t).1 ≡ some stored)
            × (same_decision stored row ≡ true)))
unfolding store_decision
recorded-stored row t h = go (is_blank_row row) h
  where
    result : Bool → Recorded × CatalogTables
    result b = if b then (invalid_record, t) else answered row (insert_decision row t)

    fitting :
        (o : Option DecisionRow)
        → is_recorded (compare_stored row o) ≡ true
        → (stored : DecisionRow) × ((o ≡ some stored) × (same_decision stored row ≡ true))
    fitting none h = absurd (true≢false (sym h))
    fitting (some stored) h = (stored, (refl, passed (same_decision stored row) h))
      where
        passed : (b : Bool) → is_recorded (if b then recorded row else conflict) ≡ true → b ≡ true
        passed true h = refl
        passed false h = absurd (true≢false (sym h))

    go :
        (b : Bool)
        → is_recorded (result b).0 ≡ true
        → (b ≡ false)
          × ((stored : DecisionRow) × ((decision row.decision_id (result b).1 ≡ some stored)
                × (same_decision stored row ≡ true)))
    go true h = absurd (true≢false (sym h))
    go false h = (refl, fitting (decision row.decision_id (insert_decision row t)) h)

-- A decision that is recorded stays: after any outcome that is attached to any decision, the same
-- decision again is answered with the same record, and writes nothing.
pub store_decision_again :
    (row : DecisionRow) (t after : CatalogTables) (now : ℕ) (id label : Text) (note : Option Text)
    → is_recorded (store_decision row t).0 ≡ true
    → record_outcome now id label note (store_decision row t).1 ≡ some after
    → store_decision row after ≡ (recorded row, after)
store_decision_again row t after now id label note h e =
    let (full, (stored, (there, same))) = recorded-stored row t h in
    let kept =
      outcome-fits now id label note (store_decision row t).1 after row stored there same e in
    resubmit row (relabel now id label note stored) after full kept.0 kept.1
