-- ===== src/Evaluation/Spans.antt =====
-- What an arm produced, in src/kg_eval/arms.py, and the evidence metrics of src/kg_eval/metrics.py.
-- A list index out of range raises, which is `none` here.
use agentic_kgis.Prelude.{
  ℕ, zero, suc, ◌+◌, Bool, true, false, not, ◌&&◌, Option, none, some, is_some, List, [], ◌∷◌, ◌++◌,
  Text, codes, ◌==◌, text_eq, ltb, leb, any, keep, map, length, Dict, lookup, find, if◌then◌else◌,
}
use agentic_kgis.Evidence.{
  is_present, TextSpan, Evidence, EvidenceRelationship, supports, contradicts, derived_from,
  contextualizes, EvidenceRef,
}
use agentic_kgis.Candidates.{Candidate}
use agentic_kgis.Evaluation.Gold.{
  EvidenceSpan, GoldSet, Category, entity_items, relation_items, attribute_items, gold_items,
  of_category, match_category,
}
use agentic_kgis.Evaluation.Metrics.{Ratio, MetricValue, share}

pub record CostLatency : Type 0 where
  pub latency_seconds : Option Ratio
  pub cost_usd : Option Ratio
  pub tokens : Option ℕ

-- `ArmOutput`, less the identity of the arm, which grading does not read
pub record ArmOutput : Type 0 where
  pub candidates : List Candidate
  pub evidence : Dict Evidence
  pub attempted : Option ℕ
  pub abstained : ℕ
  pub failed : ℕ
  pub cost : Option CostLatency

abbrev pub counts_within : ArmOutput → Option ℕ → Bool
counts_within output none = true
counts_within output (some n) = leb (output.abstained + output.failed) n

-- `_check_counts_within_attempted`
unfoldable pub counts_accepted : ArmOutput → Bool
counts_accepted output = counts_within output output.attempted

-- `store.get(id)`, when it is evidence that is present
abbrev pub present_at : Dict Evidence → Text → Option Evidence
present_at store id = elim (lookup id store) [
  | none ↦ none
  | some e ↦ if is_present e.availability then some e else none
]

abbrev quoted_in : Option Text → Option Text → Bool
quoted_in none content = true
quoted_in (some quote) none = false
quoted_in (some quote) (some content) = is_some (find content quote 0)

-- a round of `_covers_span`
abbrev pub covers : EvidenceSpan → Option Evidence → Bool
covers span none = false
covers span (some e) = e.source_locator == span.source_locator && quoted_in span.quote e.content

unfoldable pub covers_span : Candidate → EvidenceSpan → Dict Evidence → Bool
covers_span c span store =
    any (λ ref. covers span (present_at store ref.evidence_id)) c.evidence_refs

abbrev overlaps_at : EvidenceSpan → ℕ → ℕ → Evidence → Option TextSpan → Bool
overlaps_at span start end e none = false
overlaps_at span start end e (some s) =
    e.source_locator == span.source_locator && (ltb s.start end && ltb start s.end)

-- a round of `_overlaps_span`
abbrev pub overlaps : EvidenceSpan → ℕ → ℕ → Option Evidence → Bool
overlaps span start end none = false
overlaps span start end (some e) = overlaps_at span start end e e.span

abbrev overlaps_between : Candidate → EvidenceSpan → Dict Evidence → Option ℕ → Option ℕ → Bool
overlaps_between c span store (some start) (some end) =
    any (λ ref. overlaps span start end (present_at store ref.evidence_id)) c.evidence_refs
overlaps_between c span store _ _ = false

unfoldable pub overlaps_span : Candidate → EvidenceSpan → Dict Evidence → Bool
overlaps_span c span store = overlaps_between c span store span.start span.end

-- `xs[i]`
abbrev pub item_at : List (Option EvidenceSpan) → ℕ → Option (Option EvidenceSpan)
item_at [] i = none
item_at (x ∷ xs) zero = some x
item_at (x ∷ xs) (suc i) = item_at xs i

abbrev pub Pairs : Type 0
Pairs = List (Candidate × EvidenceSpan)

-- the pair of a matched candidate, before the pairs of the rest
abbrev pub add_pair : Candidate → Option (Option EvidenceSpan) → Option Pairs → Option Pairs
add_pair c (some (some span)) (some rest) = some ((c, span) ∷ rest)
add_pair c (some none) rest = rest
add_pair c (some (some span)) none = none
add_pair c none rest = none

-- the loop of `_category_matched_spans`, over the candidates and their indices
unfoldable pub category_matched_spans :
    List Candidate → List (Option EvidenceSpan) → List (Option ℕ) → Option Pairs
category_matched_spans [] spans indices = some []
category_matched_spans (c ∷ cs) spans [] = none
category_matched_spans (c ∷ cs) spans (none ∷ indices) = category_matched_spans cs spans indices
category_matched_spans (c ∷ cs) spans (some i ∷ indices) =
    let rest = category_matched_spans cs spans indices in add_pair c (item_at spans i) rest

abbrev pub gold_spans : Category → GoldSet → List (Option EvidenceSpan)
gold_spans category gold = map (λ g. g.1) (gold_items category gold)

abbrev pub spans_of : Category → List Candidate → GoldSet → Option Pairs
spans_of category cs gold =
    category_matched_spans (of_category category cs) (gold_spans category gold)
      (match_category category cs gold).matched_gold_indices

abbrev pub join_pairs : Option Pairs → Option Pairs → Option Pairs
join_pairs (some a) (some b) = some (a ++ b)
join_pairs _ _ = none

unfoldable pub matched_gold_spans : List Candidate → GoldSet → Option Pairs
matched_gold_spans cs gold =
    join_pairs (join_pairs (spans_of entity_items cs gold) (spans_of relation_items cs gold))
      (spans_of attribute_items cs gold)

-- `_span_coverage_counts` of the pairs: those checked, and those covered
unfoldable pub span_coverage_counts : Pairs → Dict Evidence → ℕ × ℕ
span_coverage_counts pairs store =
    (length pairs, length (keep (λ p. covers_span p.0 p.1 store) pairs))

abbrev has_offsets : EvidenceSpan → Bool
has_offsets span = is_some span.start && is_some span.end

-- `_span_overlap_counts` of the pairs
unfoldable pub span_overlap_counts : Pairs → Dict Evidence → ℕ × ℕ
span_overlap_counts pairs store =
    let located = keep (λ p. has_offsets p.1) pairs in
    (length located, length (keep (λ p. overlaps_span p.0 p.1 store) located))

-- every citation of the candidates
abbrev pub all_refs : List Candidate → List EvidenceRef
all_refs [] = []
all_refs (c ∷ cs) = c.evidence_refs ++ all_refs cs

pub record EvidenceValidity (C : Type 0) : Type 0 where
  pub resolvable_rate : MetricValue C
  pub span_coverage_rate : MetricValue C
  pub span_overlap_rate : MetricValue C
  pub total_refs : ℕ
  pub resolvable_refs : ℕ
  pub spans_checked : ℕ
  pub spans_covered : ℕ
  pub spans_with_offsets : ℕ
  pub spans_overlapping : ℕ

module _ {C : Type 0} where
  abbrev pub validity_of : ℕ → ℕ → ℕ × ℕ → ℕ × ℕ → EvidenceValidity C
  validity_of total resolvable coverage overlap = record {
    resolvable_rate = share resolvable total (codes "no evidence references to resolve");
    span_coverage_rate =
        share coverage.1 coverage.0 (codes "no matched gold items carry an evidence span");
    span_overlap_rate =
        share overlap.1 overlap.0 (codes "no matched gold items carry character offsets");
    total_refs = total;
    resolvable_refs = resolvable;
    spans_checked = coverage.0;
    spans_covered = coverage.1;
    spans_with_offsets = overlap.0;
    spans_overlapping = overlap.1;
  }

  abbrev pub validity_from : ArmOutput → Option Pairs → Option (EvidenceValidity C)
  validity_from output none = none
  validity_from output (some pairs) = some (
      validity_of (length (all_refs output.candidates))
        (length (
          keep (λ ref. is_some (lookup ref.evidence_id output.evidence))
            (all_refs output.candidates)))
        (span_coverage_counts pairs output.evidence) (span_overlap_counts pairs output.evidence))

  -- `_evidence_validity`
  unfoldable pub evidence_validity : ArmOutput → GoldSet → Option (EvidenceValidity C)
  evidence_validity output gold = validity_from output (matched_gold_spans output.candidates gold)

-- `_present_evidence_refs`
abbrev pub present_evidence_refs : Dict Evidence → Candidate → List EvidenceRef
present_evidence_refs store c =
    keep (λ ref. is_some (present_at store ref.evidence_id)) c.evidence_refs

-- a relationship of `_GROUNDING_RELATIONSHIPS`
abbrev pub grounds : EvidenceRelationship → Bool
grounds supports = true
grounds contradicts = false
grounds derived_from = true
grounds contextualizes = false

abbrev pub verifies : EvidenceRelationship → Bool
verifies supports = true
verifies contradicts = false
verifies derived_from = false
verifies contextualizes = false

abbrev pub lacks : (EvidenceRelationship → Bool) → Dict Evidence → Candidate → Bool
lacks test store c = not (any (λ ref. test ref.relationship) (present_evidence_refs store c))

unfoldable pub unsupported_assertions : ArmOutput → ℕ
unsupported_assertions output = length (keep (lacks grounds output.evidence) output.candidates)

unfoldable pub unverified_assertions : ArmOutput → ℕ
unverified_assertions output = length (keep (lacks verifies output.evidence) output.candidates)
