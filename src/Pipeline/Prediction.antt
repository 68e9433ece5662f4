-- ===== src/Pipeline/Prediction.antt =====
-- The dry run's count of ledger duplicates, `_count_ledger_duplicates` of src/kgis/pipeline.py,
-- against what `MemoryCandidateSink`, src/kg_contracts/testing/memory.py, then answers.
use agentic_kgis.Prelude.{
  ℕ, ◌+◌, Bool, true, false, ◌&&◌, ◌||◌, ◌≡◌, refl, sym, ap, ◌∙◌, arith, none, some, List, [], ◌∷◌,
  ◌++◌, map, Text, ◌==◌, text_eq, text_beq, text_beq_sym, and_false_right, any, any-append, keep,
  length, has_text, any-append, or_false, or_swap, or_nothing, All, inl, inr, AreDistinct,
  Bool-cases, ltb,
}
use mathlib.Core.Path.{fun_ext}
use agentic_kgis.Candidates.{Candidate}
use agentic_kgis.Sink.{
  MemoryCandidateSink, has_pair, memory_submit_one, memory_submit, memory_sink, memory_entry_of,
  memory_entries,
}
use agentic_kgis.Sink.Keys.{memory_sink-IsSequential}
use agentic_kgis.Reports.{Report, tally}
use agentic_kgis.Pipeline.Runs.{
  LedgerView, existing_keys, is_predicted, count_ledger_duplicates, record_all, submit_all,
}
use agentic_kgis.Pipeline.Batches.{submit_all-submit_once}

-- the reader that the in-memory ledger is for a dry run; it has no probe for ids
abbrev pub view_of : MemoryCandidateSink → LedgerView
view_of s = record {
  entries = memory_entries (record { graph_id = none; processing_states = none }) s;
  has_candidate_id = none;
}

abbrev pub is_keyed : Text → Text → Candidate → Bool
is_keyed g k c = c.graph_id == g && c.semantic_key == k

-- The pairs seen are those of the candidates received.
abbrev pub IsLedger : MemoryCandidateSink → Type 0
IsLedger s = (g k : Text) → has_pair g k s.seen_pairs ≡ any (is_keyed g k) s.received_list

memory_submit_one-IsLedger :
    (c : Candidate) (s : MemoryCandidateSink) → IsLedger s → IsLedger (memory_submit_one c s).1
unfolding memory_submit_one
memory_submit_one-IsLedger c s v g k =
    elim (Bool-cases (has_pair c.graph_id c.semantic_key s.seen_pairs)) [
      | inl e ↦ rw e (v g k)
      | inr e ↦ rw e (
          ap (λ b. is_keyed g k c || b) (v g k)
          ∙ or_swap (is_keyed g k c) (any (is_keyed g k) s.received_list)
          ∙ sym (any-append (is_keyed g k) s.received_list (c ∷ [])))
    ]

-- A submission keeps the pairs seen and the candidates received in step.
pub memory_submit-IsLedger :
    (cs : List Candidate) (s : MemoryCandidateSink) → IsLedger s → IsLedger (memory_submit cs s).1
unfolding memory_submit
memory_submit-IsLedger [] s v = v
memory_submit-IsLedger (c ∷ cs) s v =
    memory_submit-IsLedger cs (memory_submit_one c s).1 (memory_submit_one-IsLedger c s v)

existing_lem :
    (g k : Text) (cs : List Candidate)
    → has_text k (existing_keys g (map memory_entry_of (keep (λ c. true) cs)))
      ≡ any (is_keyed g k) cs
unfolding existing_keys memory_entry_of
existing_lem g k [] = refl
existing_lem g k (c ∷ cs) = elim (Bool-cases (c.graph_id == g)) [
  | inl e ↦ rw e (ap (λ b. c.semantic_key == k || b) (existing_lem g k cs))
  | inr e ↦ rw e (existing_lem g k cs)
]

-- what the dry run predicts of a candidate of its graph is whether its pair is seen
is_predicted_lem :
    (g : Text) (s : MemoryCandidateSink) (c : Candidate)
    → IsLedger s
    → is_predicted g (view_of s) c ≡ has_pair g c.semantic_key s.seen_pairs
unfolding is_predicted memory_entries
is_predicted_lem g s c v =
    sym (or_nothing (has_text c.semantic_key (existing_keys g (view_of s).entries)))
    ∙ existing_lem g c.semantic_key s.received_list
    ∙ sym (v g c.semantic_key)

-- a later state of the sink has seen the same of what is still to come
abbrev SeenAlike : Text → MemoryCandidateSink → MemoryCandidateSink → List Candidate → Type 0
SeenAlike g s t =
    All (λ c. has_pair g c.semantic_key t.seen_pairs ≡ has_pair g c.semantic_key s.seen_pairs)

abbrev with_pair : Candidate → MemoryCandidateSink → MemoryCandidateSink
with_pair c t = record {
  seen_pairs = (c.graph_id, c.semantic_key) ∷ t.seen_pairs;
  received_list = t.received_list ++ c ∷ [];
}

SeenAlike-with_pair :
    (g : Text) (c : Candidate) (s t : MemoryCandidateSink) (cs : List Candidate)
    → has_text c.semantic_key (map (λ d. d.semantic_key) cs) ≡ false
    → SeenAlike g s t cs
    → SeenAlike g s (with_pair c t) cs
SeenAlike-with_pair g c s t [] fresh h = tt
SeenAlike-with_pair g c s t (d ∷ cs) fresh h =
    let split =
      or_false (text_beq d.semantic_key c.semantic_key)
        (has_text c.semantic_key (map (λ x. x.semantic_key) cs)) fresh in
    (
      and_false_right (text_beq c.graph_id g) (text_beq c.semantic_key d.semantic_key)
            (has_pair g d.semantic_key t.seen_pairs)
            (text_beq_sym c.semantic_key d.semantic_key ∙ split.0)
          ∙ h.0,
      SeenAlike-with_pair g c s t cs split.1 h.1,
    )

abbrev pub IsOf : Text → List Candidate → Type 0
IsOf g = All (λ c. c.graph_id ≡ g)

duplicates_lem :
    (g : Text) (s t : MemoryCandidateSink) (cs : List Candidate) (r : Report)
    → AreDistinct (map (λ c. c.semantic_key) cs)
    → IsOf g cs
    → SeenAlike g s t cs
    → (record_all (memory_submit cs t).0 r).duplicates
      ≡ r.duplicates + length (keep (λ c. has_pair g c.semantic_key s.seen_pairs) cs)
unfolding memory_submit memory_submit_one record_all tally
duplicates_lem g s t [] r d o h = omega arith
duplicates_lem g s t (c ∷ cs) r d o h =
    elim (Bool-cases (has_pair c.graph_id c.semantic_key t.seen_pairs)) [
      | inl e ↦ rw e (
          rw (before e) (
            omega (
              arith,
              duplicates_lem g s t cs (record r { duplicates = r.duplicates + 1 }) d.1 o.1 h.1,
            )))
      | inr e ↦ rw e (
          rw (before e) (
            duplicates_lem g s (with_pair c t) cs
              (record r {
                received_count = r.received_count + 1;
                candidates_submitted = r.candidates_submitted + 1;
              })
              d.1 o.1 (SeenAlike-with_pair g c s t cs d.0 h.1)))
    ]
  where
    before :
        {b : Bool}
        → has_pair c.graph_id c.semantic_key t.seen_pairs ≡ b
        → has_pair g c.semantic_key s.seen_pairs ≡ b
    before e = sym h.0 ∙ ap (λ x. has_pair x c.semantic_key t.seen_pairs) (sym o.0) ∙ e

All-refl : (g : Text) (s : MemoryCandidateSink) (cs : List Candidate) → SeenAlike g s s cs
All-refl g s [] = tt
All-refl g s (c ∷ cs) = (refl, All-refl g s cs)

-- The dry run predicts exactly what the sink then answers: for a plan without repeated keys, all
-- of the pipeline's graph, and the in-memory ledger as the reader, the count of ledger duplicates
-- is the number of duplicates that a run's submission reports, whatever the batch size.
pub count_ledger_duplicates-submit_all :
    (g : Text) (size : ℕ) (planned : List Candidate) (r : Report) (s : MemoryCandidateSink)
    → ltb size 1 ≡ false
    → AreDistinct (map (λ c. c.semantic_key) planned)
    → IsOf g planned
    → IsLedger s
    → r.duplicates ≡ 0
    → count_ledger_duplicates g (some (view_of s)) planned
      ≡ some (submit_all memory_sink size planned r s).0.duplicates
unfolding count_ledger_duplicates
count_ledger_duplicates-submit_all g size planned r s h d o v start = ap some (
    ap (λ f. length (keep f planned)) (fun_ext (λ c. is_predicted_lem g s c v))
    ∙ omega (arith, start, duplicates_lem g s s planned r d o (All-refl g s planned))
    ∙ sym (
        ap (λ out. out.0.duplicates)
          (submit_all-submit_once memory_sink memory_sink-IsSequential size planned r s h)))
