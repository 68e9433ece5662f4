-- ===== src/Examples.antt =====
-- Sample data for the tests: candidates, environments and worlds.
pub mod Routes
pub mod Ledgers
pub mod Erasures
pub mod Graphs
pub mod Pipelines
pub mod Fields
pub mod Extracts
pub mod Advice
pub mod Catalogs
pub mod Builds
pub mod Scores
pub mod Gradings
use agentic_kgis.Prelude.{
  ℕ, Bool, true, false, Option, none, some, List, [], ◌∷◌, Text, codes, nat_beq, refl,
  if◌then◌else◌,
}
use agentic_kgis.Evidence.{TextSpan, present, Evidence, supports}
use agentic_kgis.Policy.{CandidateScores, one}
use agentic_kgis.Candidates.{Candidate, entity}
use agentic_kgis.Lifecycle.{ProcessingState}
use agentic_kgis.Tables.{LedgerTables, RegistryTables, EvidenceRow, RefRow, LedgerRow}
use agentic_kgis.Database.{World, Env, auto_merge, reject_only}
use agentic_kgis.Ledger.Commit.{IsClean}

abbrev pub scores : CandidateScores
scores = record {
  extraction_confidence = 90;
  source_reliability = 80;
  identity_confidence = some 70;
  assertion_confidence = none;
  corroboration_score = none;
  policy_risk = 10;
}

abbrev pub candidate : Text → Text → Candidate
candidate id key = record {
  candidate_id = id;
  graph_id = codes "g";
  producer = codes "p";
  semantic_key = key;
  evidence_refs = [];
  scores = scores;
  trace_id = codes "t";
  created_at = 3;
  variant = entity (codes "Person");
}

-- Two candidates with one key, and a third with its own.
abbrev pub batch : List Candidate
batch =
    candidate (codes "a") (codes "k")
    ∷ candidate (codes "b") (codes "k")
    ∷ candidate (codes "c") (codes "l")
    ∷ []

-- an environment whose statements fault at the ticks that `fault` names
abbrev pub environment : Bool → (ℕ → Bool) → Env
environment shared fault = record {
  shared = shared;
  fault = fault;
  time = λ n. n;
  profile = record { identity_mode = reject_only; erasure_enabled = true };
  resolver = some (λ c. some false);
  dump = λ c. c.semantic_key;
  digest = λ t. t;
}

abbrev pub healthy : Env
healthy = environment true (λ n. false)

-- what the clients see when the statement of tick 4 faults
abbrev pub faulty : Env
faulty = environment true (λ n. nat_beq n 4)

abbrev pub no_rows : LedgerTables
no_rows = record { entries = []; transitions = []; audits = [] }

abbrev pub no_evidence : RegistryTables
no_evidence = record { items = []; refs = [] }

abbrev pub world : LedgerTables → RegistryTables → World
world l r = record { ledger = l; registry = r; saved_ledger = l; saved_registry = r; ticks = 0 }

abbrev pub empty : World
empty = world no_rows no_evidence

pub world-IsClean : (l : LedgerTables) (r : RegistryTables) → IsClean (world l r)
world-IsClean l r = record { ledger = refl; registry = refl }

abbrev pub ledger_row : Text → ProcessingState → LedgerRow
ledger_row id state = record {
  candidate_id = id;
  graph_id = codes "g";
  dedup_key = id;
  candidate_kind = codes "entity";
  processing_state = state;
  payload_json = some (codes "{}");
  payload_hash = codes "h";
  retry_count = 0;
  quarantine_reason = none;
  valid_from = none;
  valid_to = none;
  received_at = 1;
  recorded_at = 2;
  revoked_at = none;
  revocation_reason = none;
  erased_at = none;
  erasure_reason = none;
}

abbrev pub one_row : LedgerTables
one_row = record {
  entries = ledger_row (codes "a") ProcessingState.received ∷ [];
  transitions = [];
  audits = [];
}

abbrev pub item : Text → Evidence
item id = record {
  evidence_id = id;
  source_type = codes "document";
  source_locator = codes "d";
  observed_at = 1;
  valid_time = none;
  availability = present;
  absence_reason = none;
  payload_hash = none;
  content = some (codes "text");
  error_message = none;
  span = some (record { start = 0; end = 4; quote = some (codes "text") });
}

abbrev pub stored : Option ℕ → Text → EvidenceRow
stored at id = record { evidence = item id; redacted_at = at; redaction_reason = none }

abbrev pub ref : Text → Text → RefRow
ref subject id = record { subject_id = subject; evidence_id = id; relationship = supports }

-- Candidate `a` cites both items, candidate `b` the second one as well.
abbrev pub some_evidence : RegistryTables
some_evidence = record {
  items = stored none (codes "x") ∷ stored none (codes "y") ∷ stored (some 5) (codes "z") ∷ [];
  refs =
      ref (codes "a") (codes "x") ∷ ref (codes "a") (codes "y") ∷ ref (codes "b") (codes "y") ∷ [];
}

abbrev pub populated : World
populated = world one_row some_evidence
