-- ===== src/Sink.antt =====
-- The write surface that a pipeline submits to, `CandidateSink` of src/kg_contracts/stores.py, and
-- the in-memory ledger behind it: `MemoryCandidateSink` of src/kg_contracts/testing/memory.py. A
-- sink is its `submit` on its own state; one that raises is not modelled.
pub mod Keys
use agentic_kgis.Prelude.{
  ℕ, Bool, true, false, not, ◌&&◌, ◌||◌, ◌≡◌, Option, none, some, List, [], ◌∷◌, ◌++◌, Text, ◌==◌,
  text_eq, any, keep, first, map, if◌then◌else◌,
}
use agentic_kgis.Candidates.{Candidate}
use agentic_kgis.Lifecycle.{ProcessingState, state_beq}
use agentic_kgis.Submission.{SubmissionStatus, received, duplicate, SubmissionOutcome, outcome}
use agentic_kgis.Listing.{LedgerReadOptions, LedgerEntry}

pub record CandidateSink (S : Type 0) : Type 0 where
  pub submit_to : List Candidate → S → List SubmissionOutcome × S

-- A sink to which batches are transport alone: two submissions do what one of both does.
pub record IsSequential {S : Type 0} (sink : CandidateSink S) : Type 0 where
  pub nothing : (s : S) → sink.submit_to [] s ≡ ([], s)
  pub joins :
      (front back : List Candidate) (s : S)
      → sink.submit_to (front ++ back) s ≡ (
          let (os, t) = sink.submit_to front s in
          let (ps, u) = sink.submit_to back t in (os ++ ps, u))

pub record MemoryCandidateSink : Type 0 where
  pub seen_pairs : List (Text × Text)
  pub received_list : List Candidate

abbrev pub has_pair : Text → Text → List (Text × Text) → Bool
has_pair g k = any (λ p. p.0 == g && p.1 == k)

-- one round of the loop of `submit`
unfoldable pub memory_submit_one :
    Candidate → MemoryCandidateSink → SubmissionOutcome × MemoryCandidateSink
memory_submit_one c s =
    if has_pair c.graph_id c.semantic_key s.seen_pairs then (outcome duplicate c, s) else (
      outcome received c,
      record {
        seen_pairs = (c.graph_id, c.semantic_key) ∷ s.seen_pairs;
        received_list = s.received_list ++ c ∷ [];
      },
    )

unfoldable pub memory_submit :
    List Candidate → MemoryCandidateSink → List SubmissionOutcome × MemoryCandidateSink
memory_submit [] s = ([], s)
memory_submit (c ∷ cs) s =
    let (o, t) = memory_submit_one c s in let (os, u) = memory_submit cs t in (o ∷ os, u)

abbrev pub memory_sink : CandidateSink MemoryCandidateSink
memory_sink = record { submit_to = memory_submit }

abbrev wanted_graph : Option Text → Candidate → Bool
wanted_graph none c = true
wanted_graph (some g) c = c.graph_id == g

abbrev wanted_states : Option (List ProcessingState) → Bool
wanted_states none = true
wanted_states (some ss) = any (state_beq ProcessingState.received) ss

-- `_entry`
unfoldable pub memory_entry_of : Candidate → LedgerEntry
memory_entry_of c = record {
  candidate = c;
  processing_state = ProcessingState.received;
  received_at = c.created_at;
}

-- `ledger_entries`
unfoldable pub memory_entries : LedgerReadOptions → MemoryCandidateSink → List LedgerEntry
memory_entries o s =
    map memory_entry_of
      (keep (λ c. wanted_graph o.graph_id c && wanted_states o.processing_states) s.received_list)

abbrev found_entry : Option Candidate → Option LedgerEntry
found_entry none = none
found_entry (some c) = some (memory_entry_of c)

-- `ledger_entry`
unfoldable pub memory_entry : Text → MemoryCandidateSink → Option LedgerEntry
memory_entry id s = found_entry (first (λ c. c.candidate_id == id) s.received_list)
