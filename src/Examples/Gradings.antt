-- ===== src/Examples/Gradings.antt =====
-- Runs of the grading of an arm, with a bootstrap that measures the hits.
use agentic_kgis.Prelude.{
  ℕ, true, ◌≡◌, refl, Option, none, some, List, [], ◌∷◌, Text, codes, map, length, text_beq,
}
use agentic_kgis.Evidence.{EvidenceRelationship, supports, derived_from, present, Evidence}
use agentic_kgis.Candidates.{Candidate}
use agentic_kgis.Evaluation.{match, match_keys, gold_index, key_beq, mark}
use agentic_kgis.Evaluation.Gold.{
  EvidenceSpan, GoldSet, accepted_gold, unique_keys, entity_items, gold_keys, candidate_key,
  gold_items, entity_key_gold, of_category, in_category, match_category,
}
use agentic_kgis.Evaluation.Hits.{found_in, first_hits}
use agentic_kgis.Evaluation.Signals.{match_category-found_in}
use agentic_kgis.Evaluation.Metrics.{divide, prf, rate}
use agentic_kgis.Evaluation.Shares.{IsF1, prf-IsF1}
use agentic_kgis.Evaluation.Spans.{
  ArmOutput, counts_accepted, unsupported_assertions, unverified_assertions,
}
use agentic_kgis.Evaluation.Grading.{
  ExtractionMetrics, evaluate_extraction, attempts, unknown_attempts,
}
use agentic_kgis.Evaluation.Scorecards.{IsSound, evaluate_extraction-IsSound}
use agentic_kgis.Examples.{candidate}

abbrev page : EvidenceSpan
page = record {
  source_locator = codes "page";
  quote = some (codes "met");
  start = none;
  end = none;
}

-- two people, of whom one is in the evidence
abbrev people : GoldSet
people = record {
  attempted = some 2;
  entities =
      record { entity_type = codes "Person"; semantic_key = codes "k"; evidence = some page }
      ∷ record { entity_type = codes "Person"; semantic_key = codes "z"; evidence = none }
      ∷ [];
  relations = [];
  attributes = [];
}

abbrev cited : Evidence
cited = record {
  evidence_id = codes "e";
  source_type = codes "document";
  source_locator = codes "page";
  observed_at = 1;
  valid_time = none;
  availability = present;
  absence_reason = none;
  payload_hash = none;
  content = some (codes "they met");
  error_message = none;
  span = none;
}

abbrev citing : Text → EvidenceRelationship → Candidate
citing key r = record (candidate (codes "id") key) {
  evidence_refs = record { evidence_id = codes "e"; relationship = r } ∷ [];
}

-- a person who is found twice, and one who is not gold and cites nothing
abbrev found : List Candidate
found =
    citing (codes "k") supports
    ∷ citing (codes "k") derived_from
    ∷ candidate (codes "c") (codes "l")
    ∷ []

abbrev output : ArmOutput
output = record {
  candidates = found;
  evidence = (codes "e", cited) ∷ [];
  attempted = some 4;
  abstained = 1;
  failed = 2;
  cost = none;
}

people_accepted : accepted_gold people ≡ true
unfolding accepted_gold unique_keys gold_items entity_key_gold key_beq text_beq
people_accepted = refl

output_accepted : counts_accepted output ≡ true
unfolding counts_accepted
output_accepted = refl

match_category-found_in_example :
    (let produced = map candidate_key (of_category entity_items found) in
      let m = match_category entity_items found people in
      (m.gold_hits ≡ found_in produced (gold_keys entity_items people))
      × (m.candidate_hits ≡ first_hits (gold_keys entity_items people) [] produced))
match_category-found_in_example = match_category-found_in entity_items found people people_accepted

abbrev bootstrap : Option (List ℕ → Option ℕ)
bootstrap = some (λ hits. some (length hits))

prf-IsF1_example :
    IsF1
      (match_category entity_items found people)
      (prf (match_category entity_items found people) (codes "entity") bootstrap).f1.value
prf-IsF1_example = prf-IsF1 (match_category entity_items found people) (codes "entity") bootstrap

evaluate_extraction-IsSound_example :
    (s : ExtractionMetrics ℕ) × ((evaluate_extraction bootstrap output people none ≡ some s)
      × IsSound output s)
evaluate_extraction-IsSound_example =
    evaluate_extraction-IsSound bootstrap output people none output_accepted

one_hit : (match_category entity_items found people).candidate_hits ≡ 1 ∷ 0 ∷ 0 ∷ []
unfolding match_category candidate_key in_category gold_items entity_key_gold match match_keys
    gold_index key_beq mark text_beq
one_hit = refl

one_unsupported : unsupported_assertions output ≡ 1
unfolding unsupported_assertions text_beq
one_unsupported = refl

two_unverified : unverified_assertions output ≡ 2
unfolding unverified_assertions text_beq
two_unverified = refl

-- an arm that does not know its attempts, on the attempts of the gold set
abbrev uncounted : ArmOutput
uncounted = record output { attempted = none; abstained = 3 }

uncounted_accepted : counts_accepted uncounted ≡ true
unfolding counts_accepted
uncounted_accepted = refl

rate_above_one :
    (rate {C = ℕ} uncounted.abstained (attempts uncounted people) unknown_attempts).value
    ≡ some (divide 3 2)
unfolding rate
rate_above_one = refl
