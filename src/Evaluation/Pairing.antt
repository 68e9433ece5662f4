-- ===== src/Evaluation/Pairing.antt =====
-- The pairs of a matched candidate and the evidence span of its gold item, in
-- src/kg_eval/metrics.py: every index that is looked up is there.
use agentic_kgis.Prelude.{
  ℕ, zero, suc, ◌+◌, ◌<◌, Bool, true, false, ◌≡◌, refl, sym, ◌∙◌, subst, arith, Option, none, some,
  is_some, List, [], ◌∷◌, ◌++◌, nat_beq, any, map, length, length-append, length-map, All,
  All-append, if◌then◌else◌,
}
use mathlib.Core.Bool.{true≢false}
use agentic_kgis.Candidates.{Candidate}
use agentic_kgis.Evaluation.Tallies.{gold_index-within}
use agentic_kgis.Evaluation.Gold.{
  EvidenceSpan, GoldSet, Category, entity_items, relation_items, attribute_items, gold_items,
  gold_keys, candidate_key, of_category, match_category,
}
use agentic_kgis.Evaluation.Spans.{
  item_at, Pairs, add_pair, category_matched_spans, gold_spans, spans_of, join_pairs,
  matched_gold_spans,
}
use agentic_kgis.Evaluation.{
  MatchKey, gold_index, Matching, miss, hit, match_at, match_keys, start_match, match,
}

abbrev InRange : ℕ → Option ℕ → Type 0
InRange n none = Unit
InRange n (some i) = i < n

-- the indices of the candidates so far, one for each, and all of gold items
abbrev AreIndices : List MatchKey → ℕ → List (Option ℕ) → Type 0
AreIndices gold seen indices = (length indices ≡ seen) × All (InRange (length gold)) indices

more_indices :
    (gold : List MatchKey) (seen : ℕ) (indices : List (Option ℕ)) (o : Option ℕ)
    → InRange (length gold) o
    → AreIndices gold seen indices
    → AreIndices gold (suc seen) (indices ++ o ∷ [])
more_indices gold seen indices o r (l, h) = (
  omega (arith, length-append indices (o ∷ []), l),
  All-append (InRange (length gold)) indices (o ∷ []) h (r, tt),
)

match_at-AreIndices :
    (gold : List MatchKey) (seen : ℕ) (m : Matching) (key : MatchKey) (o : Option ℕ)
    → gold_index 0 gold key ≡ o
    → AreIndices gold seen m.matched_indices
    → AreIndices gold (suc seen) (match_at o m).matched_indices
match_at-AreIndices gold seen m key none e h = more_indices gold seen m.matched_indices none tt h
match_at-AreIndices gold seen m key (some i) e h = go (any (λ c. nat_beq i c) m.consumed)
  where
    inside : i < length gold
    inside = omega (arith, (gold_index-within 0 gold key i e).1)

    go : (b : Bool) → AreIndices gold (suc seen) (if b then miss m else hit i m).matched_indices
    go true = more_indices gold seen m.matched_indices none tt h
    go false = more_indices gold seen m.matched_indices (some i) inside h

match_keys-AreIndices :
    (gold keys : List MatchKey) (seen : ℕ) (m : Matching)
    → AreIndices gold seen m.matched_indices
    → AreIndices gold (seen + length keys) (match_keys gold keys m).matched_indices
unfolding match_keys
match_keys-AreIndices gold [] seen m h =
    let same : seen ≡ seen + 0 = omega arith in
    subst (λ n. AreIndices gold n m.matched_indices) same h
match_keys-AreIndices gold (key ∷ keys) seen m h =
    let same : suc seen + length keys ≡ seen + suc (length keys) = omega arith in
    let o = gold_index 0 gold key in
    subst (λ n. AreIndices gold n (match_keys gold keys (match_at o m)).matched_indices) same
      (match_keys-AreIndices gold keys (suc seen) (match_at o m)
        (match_at-AreIndices gold seen m key o refl h))

match-AreIndices :
    (gold candidates : List MatchKey)
    → AreIndices gold (length candidates) (match gold candidates).matched_gold_indices
unfolding match
match-AreIndices gold candidates =
    let (l, h) = match_keys-AreIndices gold candidates 0 (start_match gold) (refl, tt) in
    (omega (arith, l), h)

item_at-found :
    (spans : List (Option EvidenceSpan)) (i : ℕ)
    → i < length spans
    → is_some (item_at spans i) ≡ true
item_at-found [] i h = absurd (omega (arith, h))
item_at-found (s ∷ spans) zero h = refl
item_at-found (s ∷ spans) (suc i) h = item_at-found spans i (omega (arith, h))

add_pair-some :
    (c : Candidate) (o : Option (Option EvidenceSpan)) (rest : Option Pairs)
    → is_some o ≡ true
    → is_some rest ≡ true
    → is_some (add_pair c o rest) ≡ true
add_pair-some c none rest e h = absurd (true≢false (sym e))
add_pair-some c (some none) rest e h = h
add_pair-some c (some (some span)) none e h = absurd (true≢false (sym h))
add_pair-some c (some (some span)) (some rest) e h = refl

category_matched_spans-some :
    (cs : List Candidate) (spans : List (Option EvidenceSpan)) (indices : List (Option ℕ))
    → length indices ≡ length cs
    → All (InRange (length spans)) indices
    → is_some (category_matched_spans cs spans indices) ≡ true
unfolding category_matched_spans
category_matched_spans-some [] spans indices l h = refl
category_matched_spans-some (c ∷ cs) spans [] l h = absurd (omega (arith, l))
category_matched_spans-some (c ∷ cs) spans (none ∷ indices) l h =
    category_matched_spans-some cs spans indices (omega (arith, l)) h.1
category_matched_spans-some (c ∷ cs) spans (some i ∷ indices) l h =
    add_pair-some c (item_at spans i) (category_matched_spans cs spans indices)
      (item_at-found spans i h.0)
      (category_matched_spans-some cs spans indices (omega (arith, l)) h.1)

spans_of-some :
    (category : Category) (cs : List Candidate) (gold : GoldSet)
    → is_some (spans_of category cs gold) ≡ true
unfolding match_category
spans_of-some category cs gold =
    let items = gold_items category gold in
    let kept = of_category category cs in
    let found = match-AreIndices (gold_keys category gold) (map candidate_key kept) in
    let wide : length (gold_keys category gold) ≡ length (gold_spans category gold) =
      length-map (λ g. g.0) items ∙ sym (length-map (λ g. g.1) items) in
    category_matched_spans-some kept (gold_spans category gold) _
      (found.0 ∙ length-map candidate_key kept)
      (subst (λ n. All (InRange n) (match_category category cs gold).matched_gold_indices) wide
        found.1)

join_pairs-some :
    (a b : Option Pairs) → is_some a ≡ true → is_some b ≡ true → is_some (join_pairs a b) ≡ true
join_pairs-some none b e h = absurd (true≢false (sym e))
join_pairs-some (some a) none e h = absurd (true≢false (sym h))
join_pairs-some (some a) (some b) e h = refl

-- no index is out of range
pub matched_gold_spans-some :
    (cs : List Candidate) (gold : GoldSet) → is_some (matched_gold_spans cs gold) ≡ true
unfolding matched_gold_spans
matched_gold_spans-some cs gold =
    join_pairs-some _ _
      (join_pairs-some _ _ (spans_of-some entity_items cs gold)
        (spans_of-some relation_items cs gold))
      (spans_of-some attribute_items cs gold)
