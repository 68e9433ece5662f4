-- ===== src/Evaluation/Scorecards.antt =====
-- The scorecard that `evaluate_extraction` of src/kg_eval/metrics.py makes.
use agentic_kgis.Prelude.{
  ℕ, ◌+◌, ◌≤◌, true, ◌≡◌, refl, sym, ap, ◌∙◌, arith, Option, none, some, is_some, List, Text, codes,
  length, length-keep, length-map, leb,
}
use mathlib.Core.Bool.{true≢false}
use mathlib.Core.Logic.{◌⊎◌, inl, inr}
use agentic_kgis.Evaluation.Gold.{
  GoldSet, Category, entity_items, relation_items, attribute_items, gold_keys, candidate_key,
  of_category, match_category,
}
use agentic_kgis.Evaluation.Metrics.{OntologySpec, prf, rate}
use agentic_kgis.Evaluation.Spans.{
  ArmOutput, counts_within, counts_accepted, EvidenceValidity, Pairs, validity_of, validity_from,
  evidence_validity, matched_gold_spans, span_coverage_counts, span_overlap_counts,
}
use agentic_kgis.Evaluation.Grading.{
  ExtractionMetrics, attempted_by, match_in, unknown_attempts, scorecard, graded_card,
  evaluate_extraction,
}
use agentic_kgis.Evaluation.Shares.{IsHonest, AreHonest, prf-AreHonest, share-IsHonest}
use agentic_kgis.Evaluation.Pairing.{matched_gold_spans-some}
use agentic_kgis.Evaluation.Tallies.{match-tp}
use agentic_kgis.Evaluation.Grounds.{unsupported_le, unverified_le}

abbrev pub graded : Category → ArmOutput → ℕ
graded category output = length (of_category category output.candidates)

match_in-graded :
    (output : ArmOutput) (gold : GoldSet) (category : Category)
    → (let m = match_in output gold category in m.tp + m.fp ≡ graded category output)
unfolding match_category
match_in-graded output gold category =
    (match-tp (gold_keys category gold) _).1.0.1
    ∙ length-map candidate_key (of_category category output.candidates)

leb_le : (a b : ℕ) → leb a b ≡ true → a ≤ b
leb_le a b e = ground (arith, e)

module _ {C : Type 0} where
  -- What holds of the evidence metrics: their rates are honest, and a part is no larger than the
  -- whole.
  pub record IsGraded (v : EvidenceValidity C) : Type 0 where
    pub resolvable_honest : IsHonest v.resolvable_rate
    pub coverage_honest : IsHonest v.span_coverage_rate
    pub overlap_honest : IsHonest v.span_overlap_rate
    pub resolved : v.resolvable_refs ≤ v.total_refs
    pub covered : v.spans_covered ≤ v.spans_checked
    pub overlapped : v.spans_overlapping ≤ v.spans_with_offsets
    pub located : v.spans_with_offsets ≤ v.spans_checked

  validity_of-IsGraded :
      (total resolvable : ℕ) (coverage overlap : ℕ × ℕ)
      → resolvable ≤ total
      → coverage.1 ≤ coverage.0
      → overlap.1 ≤ overlap.0
      → overlap.0 ≤ coverage.0
      → IsGraded (validity_of {C = C} total resolvable coverage overlap)
  validity_of-IsGraded total resolvable coverage overlap a b c d = record {
    resolvable_honest = share-IsHonest resolvable total _ a;
    coverage_honest = share-IsHonest coverage.1 coverage.0 _ b;
    overlap_honest = share-IsHonest overlap.1 overlap.0 _ c;
    resolved = a;
    covered = b;
    overlapped = c;
    located = d;
  }

  evidence_validity-IsGraded :
      (output : ArmOutput) (gold : GoldSet)
      → (v : EvidenceValidity C) × ((evidence_validity output gold ≡ some v) × IsGraded v)
  unfolding evidence_validity span_coverage_counts span_overlap_counts
  evidence_validity-IsGraded output gold =
      go (matched_gold_spans output.candidates gold)
        (matched_gold_spans-some output.candidates gold)
    where
      go :
          (o : Option Pairs)
          → is_some o ≡ true
          → (v : EvidenceValidity C) × ((validity_from output o ≡ some v) × IsGraded v)
      go none e = absurd (true≢false (sym e))
      go (some pairs) e = (
        _,
        (
          refl,
          validity_of-IsGraded _ _ _ _ (length-keep _ _) (length-keep _ _) (length-keep _ _)
              (length-keep _ _),
        ),
      )

  rate-IsHonest : (part n : ℕ) (note : Text) → part ≤ n → IsHonest {C = C} (rate part (some n) note)
  unfolding rate
  rate-IsHonest part n note h = share-IsHonest part n note h

  -- What holds of a scorecard.
  pub record IsSound (output : ArmOutput) (s : ExtractionMetrics C) : Type 0 where
    pub entity_honest : AreHonest s.entity_prf
    pub relation_honest : AreHonest s.relation_prf
    pub attribute_honest : AreHonest s.attribute_prf
    pub graded_evidence : IsGraded s.evidence
    pub hallucinated :
        s.hallucination_count + (s.entity_prf.tp + s.relation_prf.tp + s.attribute_prf.tp)
        ≡ graded entity_items output + graded relation_items output + graded attribute_items output
    pub supported :
        (s.unsupported_assertion_count ≤ s.unverified_assertion_count)
        × (s.unverified_assertion_count ≤ length output.candidates)
    pub rated : (output.attempted ≡ none) ⊎ (IsHonest s.abstention_rate × IsHonest s.failure_rate)

  rates_lem :
      (output : ArmOutput) (gold : GoldSet) (o : Option ℕ)
      → output.attempted ≡ o
      → counts_accepted output ≡ true
      → (o ≡ none)
        ⊎ (IsHonest {C = C} (rate output.abstained (attempted_by o gold.attempted) unknown_attempts)
            × IsHonest {C = C}
                (rate output.failed (attempted_by o gold.attempted) unknown_attempts))
  unfolding counts_accepted
  rates_lem output gold none e h = inl refl
  rates_lem output gold (some n) e h =
      let within : output.abstained + output.failed ≤ n =
        leb_le (output.abstained + output.failed) n (ap (counts_within output) (sym e) ∙ h) in
      inr (
        rate-IsHonest output.abstained n unknown_attempts (omega (arith, within)),
        rate-IsHonest output.failed n unknown_attempts (omega (arith, within)),
      )

  sound :
      (boot : Option (List ℕ → Option C)) (output : ArmOutput) (gold : GoldSet)
      → (ontology : Option OntologySpec) (v : EvidenceValidity C) → counts_accepted output ≡ true
      → IsGraded v
      → IsSound output (scorecard boot output gold ontology v)
  unfolding prf
  sound boot output gold ontology v h k =
      let e = match_in-graded output gold entity_items in
      let r = match_in-graded output gold relation_items in
      let a = match_in-graded output gold attribute_items in
      record {
        entity_honest = prf-AreHonest (match_in output gold entity_items) (codes "entity") boot;
        relation_honest =
            prf-AreHonest (match_in output gold relation_items) (codes "relation") boot;
        attribute_honest =
            prf-AreHonest (match_in output gold attribute_items) (codes "attribute") boot;
        graded_evidence = k;
        hallucinated = omega (arith, e, r, a);
        supported = (unsupported_le output, unverified_le output);
        rated = rates_lem output gold output.attempted refl h;
      }

  -- For an output of an arm that its validator accepts, grading always returns a scorecard. Each of
  -- its rates either has a value from zero to one and no note, or a note and no value, the
  -- abstention and failure rates when the arm knows its attempts; the false positives and the true
  -- positives together are the candidates of the three categories; the unsupported candidates are
  -- no more than the unverified ones, and those no more than all; and of the references and spans a
  -- part is no larger than the whole.
  pub evaluate_extraction-IsSound :
      (boot : Option (List ℕ → Option C)) (output : ArmOutput) (gold : GoldSet)
      → (ontology : Option OntologySpec) → counts_accepted output ≡ true
      → (s : ExtractionMetrics C) × ((evaluate_extraction boot output gold ontology ≡ some s)
          × IsSound output s)
  unfolding evaluate_extraction
  evaluate_extraction-IsSound boot output gold ontology h =
      let (v, (e, k)) = evidence_validity-IsGraded output gold in
      (
        scorecard boot output gold ontology v,
        (ap (graded_card boot output gold ontology) e, sound boot output gold ontology v h k),
      )
