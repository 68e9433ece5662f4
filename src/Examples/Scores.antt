-- ===== src/Examples/Scores.antt =====
-- A comparison with a gold set of two items, of which one is produced twice.
use agentic_kgis.Prelude.{ℕ, ◌+◌, ◌≡◌, refl, List, [], ◌∷◌, codes, length, text_beq}
use agentic_kgis.Evaluation.{MatchKey, match, match_keys, gold_index, key_beq, mark}
use agentic_kgis.Evaluation.Tallies.{total, match-tp}

abbrev key : ℕ → MatchKey
key n = codes "entity" ∷ codes "Player" ∷ (n ∷ []) ∷ []

abbrev gold : List MatchKey
gold = key 1 ∷ key 2 ∷ []

abbrev produced : List MatchKey
produced = key 2 ∷ key 2 ∷ key 3 ∷ []

match-tp_example :
    (let m = match gold produced in
      ((m.tp ≡ total m.gold_hits) × (m.tp ≡ total m.candidate_hits))
      × (((m.tp + m.fn ≡ length gold) × (m.tp + m.fp ≡ length produced))
          × ((length m.gold_hits ≡ length gold) × (length m.candidate_hits ≡ length produced))))
match-tp_example = match-tp gold produced

repeat_is_false_positive : (match gold produced).fp ≡ 2
unfolding match match_keys gold_index key_beq mark text_beq
repeat_is_false_positive = refl
