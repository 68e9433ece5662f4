-- ===== src/Evaluation.antt =====
-- The comparison of produced keys with the gold set: src/kg_eval/matching.py. A key is a tuple of
-- texts, and a hit of 1.0 or 0.0 the number one or zero.
pub mod Tallies
pub mod Gold
pub mod Hits
pub mod Signals
pub mod Metrics
pub mod Spans
pub mod Grading
pub mod Shares
pub mod Pairing
pub mod Grounds
pub mod Scorecards
use agentic_kgis.Prelude.{
  ℕ, zero, suc, ◌+◌, ◌-◌, Bool, true, false, ◌&&◌, Option, none, some, List, [], ◌∷◌, ◌++◌, Text,
  ◌==◌, text_eq, nat_beq, any, length, map, if◌then◌else◌,
}

abbrev pub MatchKey : Type 0
MatchKey = List Text

unfoldable pub key_beq : MatchKey → MatchKey → Bool
key_beq [] [] = true
key_beq (x ∷ a) (y ∷ b) = x == y && key_beq a b
key_beq _ _ = false

-- `gold_index.get(key)`: the first index of the key, counted from a start
unfoldable pub gold_index : ℕ → List MatchKey → MatchKey → Option ℕ
gold_index start [] key = none
gold_index start (g ∷ gs) key =
    let rest = gold_index (suc start) gs key in if key_beq g key then some start else rest

-- `gold_hits[i] = 1.0`
unfoldable pub mark : ℕ → List ℕ → List ℕ
mark i [] = []
mark zero (h ∷ hs) = 1 ∷ hs
mark (suc i) (h ∷ hs) = h ∷ mark i hs

-- what the loop of `_match` changes
pub record Matching : Type 0 where
  pub consumed : List ℕ
  pub gold_hits : List ℕ
  pub candidate_hits : List ℕ
  pub matched_indices : List (Option ℕ)

-- a candidate that hits no gold item, or one that is consumed
abbrev pub miss : Matching → Matching
miss m = record m {
  candidate_hits = m.candidate_hits ++ 0 ∷ [];
  matched_indices = m.matched_indices ++ none ∷ [];
}

abbrev pub hit : ℕ → Matching → Matching
hit i m = record {
  consumed = i ∷ m.consumed;
  gold_hits = mark i m.gold_hits;
  candidate_hits = m.candidate_hits ++ 1 ∷ [];
  matched_indices = m.matched_indices ++ some i ∷ [];
}

-- a round of the loop
abbrev pub match_at : Option ℕ → Matching → Matching
match_at none m = miss m
match_at (some i) m = if any (λ c. nat_beq i c) m.consumed then miss m else hit i m

unfoldable pub match_keys : List MatchKey → List MatchKey → Matching → Matching
match_keys gold [] m = m
match_keys gold (key ∷ keys) m = match_keys gold keys (match_at (gold_index 0 gold key) m)

pub record CategoryMatch : Type 0 where
  pub tp : ℕ
  pub fp : ℕ
  pub fn : ℕ
  pub gold_hits : List ℕ
  pub candidate_hits : List ℕ
  pub matched_gold_indices : List (Option ℕ)

-- `[0.0] * len(gold_keys)`
abbrev pub no_hits : List MatchKey → List ℕ
no_hits gold = map (λ g. 0) gold

abbrev pub start_match : List MatchKey → Matching
start_match gold = record {
  consumed = [];
  gold_hits = no_hits gold;
  candidate_hits = [];
  matched_indices = [];
}

abbrev pub category_match : List MatchKey → List MatchKey → Matching → CategoryMatch
category_match gold candidates m = record {
  tp = length m.consumed;
  fp = length candidates - length m.consumed;
  fn = length gold - length m.consumed;
  gold_hits = m.gold_hits;
  candidate_hits = m.candidate_hits;
  matched_gold_indices = m.matched_indices;
}

-- `_match`
unfoldable pub match : List MatchKey → List MatchKey → CategoryMatch
match gold candidates =
    category_match gold candidates (match_keys gold candidates (start_match gold))
