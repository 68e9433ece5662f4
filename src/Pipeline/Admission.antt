-- ===== src/Pipeline/Admission.antt =====
-- What `IngestPipeline._collect`, src/kgis/pipeline.py, admits to the plan, and when it returns.
use agentic_kgis.Prelude.{
  Bool, true, false, not, ◌||◌, ◌≡◌, refl, sym, ap, ◌∙◌, subst, inl, inr, Option, none, some, List,
  [], ◌∷◌, map, Text, text_eq, text_beq, has_text, has_text-append, or_swap, All, All-append,
  AreDistinct, AreDistinct-snoc, if◌then◌else◌, Bool-cases,
}
use mathlib.Core.List.{map-append}
use agentic_kgis.Candidates.{Candidate}
use agentic_kgis.Validation.{SourceRecord, NormalizedRecord, RecordValidation}
use agentic_kgis.Pipeline.{
  Built, built, data_error, unreadable, bug, Ending, exhausted, broken, crashed, Progress,
  on_report, Round, go_on, stop, crash, Stages, admit_candidate, admit_all, take_built,
  take_validated, collect_one, collect, fresh, build_failure, warn_all,
}
use agentic_kgis.Reports.{
  Report, built_more, valid_more, read_more, fail, read_failed, note_validation_failure,
}

-- what a round owes: one predicate where the loop goes on, another where it ends
abbrev pub Rounds : (Progress → Type 0) → (Progress → Type 0) → Round → Type 0
Rounds P Q (go_on p) = P p
Rounds P Q (stop p) = Q p
Rounds P Q crash = Unit

abbrev pub Returns : (Progress → Type 0) → Option Progress → Type 0
Returns Q none = Unit
Returns Q (some p) = Q p

-- both branches of a test that is negated
pub if_cases :
    {A : Type 0} (P : A → Type 0) (b : Bool) {x y : A} → P y → P x → P (if not b then x else y)
if_cases P true hy hx = hy
if_cases P false hy hx = hx

module _ {V : Type 0} (stages : Stages V) where
  -- a loop whose rounds keep `P`, and end in `Q`
  pub collect-Returns :
      (P Q : Progress → Type 0)
      → ((s : SourceRecord V) (p : Progress) → P p → Rounds P Q (collect_one stages s p))
      → ((p : Progress) → P p → Q p)
      → ((m : Text) (p : Progress) → P p → Q (on_report (fail m) p))
      → (ss : List (SourceRecord V)) (ending : Ending) (p : Progress) → P p
      → Returns Q (collect stages ss ending p)
  unfolding collect
  collect-Returns P Q keeps done_ lost [] exhausted p h = done_ p h
  collect-Returns P Q keeps done_ lost [] (broken m) p h = lost _ p h
  collect-Returns P Q keeps done_ lost [] crashed p h = tt
  collect-Returns P Q keeps done_ lost (s ∷ ss) ending p h =
      go (collect_one stages s p) (keeps s p h) (collect-Returns P Q keeps done_ lost ss ending)
    where
      go :
          (r : Round)
          → Rounds P Q r
          → ((p' : Progress) → P p' → Returns Q (collect stages ss ending p'))
          → Returns Q
              (elim r [ go_on p' ↦ collect stages ss ending p' | stop p' ↦ some p' | crash ↦ none ])
      go (go_on p') w next = next p' w
      go (stop p') w next = w
      go crash w next = tt

  abbrev pub keys : List Candidate → List Text
  keys = map (λ c. c.semantic_key)

  -- The plan: no key twice, every candidate found valid, and the keys seen are the plan's.
  pub record IsPlan (p : Progress) : Type 0 where
    pub distinct : AreDistinct (keys p.planned)
    pub seen : (k : Text) → has_text k p.seen_keys ≡ has_text k (keys p.planned)
    pub guarded : All (λ c. (stages.validate_candidate c).valid ≡ true) p.planned

  admit_candidate-IsPlan :
      (c : Candidate) (p : Progress) → IsPlan p → IsPlan (admit_candidate stages c p)
  unfolding admit_candidate
  admit_candidate-IsPlan c p h = elim (Bool-cases (has_text c.semantic_key p.seen_keys)) [
    | inl e ↦ rw e (record { distinct = h.distinct; seen = h.seen; guarded = h.guarded })
    | inr e ↦ elim (Bool-cases (stages.validate_candidate c).valid) [
      | inr v ↦ rw e (rw v (record { distinct = h.distinct; seen = h.seen; guarded = h.guarded }))
      | inl v ↦ rw e (
          rw v (record {
            distinct =
                subst (λ l. AreDistinct l)
                  (sym (map-append (λ d. d.semantic_key) p.planned (c ∷ [])))
                  (AreDistinct-snoc c.semantic_key (keys p.planned)
                    (sym (h.seen c.semantic_key) ∙ e) h.distinct);
            seen = λ k.
                ap (λ b. text_beq c.semantic_key k || b) (h.seen k)
                ∙ or_swap (text_beq c.semantic_key k) (has_text k (keys p.planned))
                ∙ sym (has_text-append k (keys p.planned) (c.semantic_key ∷ []))
                ∙ ap (has_text k) (sym (map-append (λ d. d.semantic_key) p.planned (c ∷ [])));
            guarded =
                All-append (λ d. (stages.validate_candidate d).valid ≡ true) p.planned (c ∷ [])
                  h.guarded (v, tt);
          }))
    ]
  ]

  on_report-IsPlan : (f : Report → Report) (p : Progress) → IsPlan p → IsPlan (on_report f p)
  on_report-IsPlan f p h = record { distinct = h.distinct; seen = h.seen; guarded = h.guarded }

  admit_all-IsPlan :
      (cs : List Candidate) (p : Progress) → IsPlan p → IsPlan (admit_all stages cs p)
  unfolding admit_all
  admit_all-IsPlan [] p h = h
  admit_all-IsPlan (c ∷ cs) p h =
      admit_all-IsPlan cs (admit_candidate stages c (on_report built_more p))
        (admit_candidate-IsPlan c (on_report built_more p) (on_report-IsPlan built_more p h))

  take_built-IsPlan :
      (n : NormalizedRecord V) (b : Built) (p : Progress)
      → IsPlan p
      → Rounds IsPlan IsPlan (take_built stages n b p)
  unfolding take_built
  take_built-IsPlan n (built cs) p h =
      admit_all-IsPlan cs (on_report valid_more p) (on_report-IsPlan valid_more p h)
  take_built-IsPlan n (data_error m) p h =
      on_report-IsPlan (note_validation_failure (build_failure stages n m)) p h
  take_built-IsPlan n (unreadable m) p h = on_report-IsPlan (fail (read_failed m)) p h
  take_built-IsPlan n bug p h = tt

  take_validated-IsPlan :
      (n : NormalizedRecord V) (d : RecordValidation) (p : Progress)
      → IsPlan p
      → Rounds IsPlan IsPlan (take_validated stages n d p)
  unfolding take_validated
  take_validated-IsPlan n d p h =
      let warned = on_report (warn_all n.index n.coordinates.locator d.warnings) p in
      let kept = on_report-IsPlan (warn_all n.index n.coordinates.locator d.warnings) p h in
      if_cases (Rounds IsPlan IsPlan) d.valid (take_built-IsPlan n (stages.build n) warned kept)
        (on_report-IsPlan (note_validation_failure d) warned kept)

  collect_one-IsPlan :
      (s : SourceRecord V) (p : Progress) → IsPlan p → Rounds IsPlan IsPlan (collect_one stages s p)
  unfolding collect_one
  collect_one-IsPlan s p h =
      let n = stages.normalize s in
      take_validated-IsPlan n (stages.record_validator.validate n) (on_report read_more p)
        (on_report-IsPlan read_more p h)

  -- A collection that returns has planned no key twice and nothing that the candidate validator
  -- refuses, and the keys that it has seen are those of the plan: a refused candidate takes none.
  pub collect-IsPlan :
      (ss : List (SourceRecord V)) (ending : Ending)
      → Returns IsPlan (collect stages ss ending fresh)
  collect-IsPlan ss ending =
      collect-Returns IsPlan IsPlan collect_one-IsPlan (λ p h. h)
        (λ m p h. on_report-IsPlan (fail m) p h) ss ending fresh
        (record { distinct = tt; seen = λ k. refl; guarded = tt })
