-- ===== src/Submission/Keys.antt =====
-- Deduplication keys.
use agentic_kgis.Prelude.{◌≡◌, [], ◌∷◌, ◌++◌, All, ◌≢◌, ◌↔◌, arith, Text}
use agentic_kgis.Candidates.{Candidate}
use agentic_kgis.Ledger.{dedup_key}

-- a text without the unit separator
abbrev pub NoSeparator : Text → Type 0
NoSeparator = All (λ c. c ≢ 31)

split_unique :
    (a b s t : Text) → NoSeparator a → NoSeparator b → a ++ 31 ∷ s ≡ b ++ 31 ∷ t → (a ≡ b) × (s ≡ t)
split_unique [] [] s t na nb e = ground arith
split_unique [] (y ∷ b) s t na nb e = ground arith
split_unique (x ∷ a) [] s t na nb e = ground arith
split_unique (x ∷ a) (y ∷ b) s t na nb e = ground (arith, split_unique a b s t na.1 nb.1)

-- Two candidates whose graph ids hold no unit separator have the same deduplication key exactly
-- when they agree in graph id and semantic key, whatever the semantic keys hold.
pub dedup_key_iff :
    (c d : Candidate)
    → NoSeparator c.graph_id
    → NoSeparator d.graph_id
    → (dedup_key c ≡ dedup_key d) ↔ ((c.graph_id ≡ d.graph_id) × (c.semantic_key ≡ d.semantic_key))
unfolding dedup_key
dedup_key_iff c d nc nd =
    (split_unique c.graph_id d.graph_id c.semantic_key d.semantic_key nc nd, λ e. cc (e.0, e.1))
