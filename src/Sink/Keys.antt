-- ===== src/Sink/Keys.antt =====
-- `MemoryCandidateSink` of src/kg_contracts/testing/memory.py: batches and keys.
use agentic_kgis.Prelude.{◌≡◌, refl, ap, List, [], ◌∷◌, ◌++◌, text_eq}
use agentic_kgis.Candidates.{Candidate}
use agentic_kgis.Sink.{
  IsSequential, MemoryCandidateSink, memory_submit_one, memory_submit, memory_sink,
}

memory_submit-joins :
    (front back : List Candidate) (s : MemoryCandidateSink)
    → memory_submit (front ++ back) s
      ≡ (let (os, t) = memory_submit front s in let (ps, u) = memory_submit back t in (os ++ ps, u))
unfolding memory_submit
memory_submit-joins [] back s = refl
memory_submit-joins (c ∷ front) back s =
    ap (λ r. ((memory_submit_one c s).0 ∷ r.0, r.1))
      (memory_submit-joins front back (memory_submit_one c s).1)

-- The in-memory ledger takes two batches as it takes one of both.
pub memory_sink-IsSequential : IsSequential memory_sink
unfolding memory_submit
memory_sink-IsSequential = record { nothing = λ s. refl; joins = memory_submit-joins }
