-- ===== src/Lib.antt =====
-- The knowledge-graph ingestion system of this repository: the contracts of candidates, evidence
-- and curation (src/kg_contracts), the ingestion side with its stores (src/kgis), and the grading
-- of extractions against a gold set (src/kg_eval). An ingestion run submits candidates to the
-- ledger, which admits each key once while a live row holds it; a policy routes every candidate to
-- automatic, assessed or human adjudication; the ledger moves its rows through the processing
-- states and logs every move; the evidence registry keeps what the candidates cite; and the erasure
-- coordinator takes a candidate's payload out of the ledger and the text of its evidence out of the
-- registry. Accepted candidates become operations on a canonical graph, which a graph store applies
-- batch by batch, each an epoch of its own.
--
-- Files, with the code that each models:
--   Prelude        shared tests, lists and texts
--   Policy         src/kg_contracts/policy.py: ConfidencePolicy.route and what it calls;
--                  Policy/Routing has its theorems
--   Evidence       src/kg_contracts/evidence.py; Evidence/Builders: its constructors
--   Candidates     src/kg_contracts/candidates.py and identity.py, as far as stores read them
--   Lifecycle      src/kgis/ledger/lifecycle.py; Lifecycle/Paths: where a row can go
--   Tables         the tables of src/kgis/ledger/schema.py, row.py and src/kgis/evidence/schema.py
--   Database       connections, transactions and faults; Database/Transactions: relations that
--                  every action keeps
--   Ledger         the statements of src/kgis/ledger/store.py, row.py and audit.py; Ledger/Rows,
--                  Log, Commit, Valid: rows, the transition log, one transaction, the invariant
--   Submission     SqliteCandidateLedger.submit; Submission/Keys, Steps, Atomicity, Results
--   Governance     SqliteCandidateLedger.transition, revoke, erase, _apply_erase and
--                  record_redaction; Governance/Effects, Operations
--   Listing        SqliteCandidateLedger.ledger_entry and ledger_entries
--   Calls          any sequence of ledger calls
--   Registry       src/kgis/evidence/store.py; Registry/Stages, Redaction, Terminal
--   Erasure        src/kgis/erasure.py; Erasure/Steps, Privacy, Redactions, Cascades, Retry,
--                  Stages, Bodies, Outcomes
--   Graph          src/kg_contracts/testing/memory.py: the state, the writer primitives and the
--                  transactions of MemoryGraphStore, with the records of assertions.py and
--                  curation.py; Graph/Apply: its apply; Graph/Reads: its readers; Graph/Index,
--                  Staging, Batches, Storing, Commits, Lookup, Restore, Shield: what holds of them
--   Validation     src/kgis/records.py and the record validators of validate.py;
--                  Validation/Composite: the merged decision; Validation/Terms: the candidate
--                  validator and the tests of ontology.py
--   Reports        src/kgis/report.py, src/kg_contracts/ingestion.py and the coverage counter
--   Normalization  the coercions of src/kgis/normalize.py; Normalization/Schema: its normalizers;
--                  Normalization/Types, Records: what they give
--   Sink           the in-memory ledger of src/kg_contracts/testing/memory.py and what a pipeline
--                  asks of a sink; Sink/Keys
--   Pipeline       the collection of src/kgis/pipeline.py; Pipeline/Runs: batches, plan and run;
--                  Pipeline/Admission, Accounting, Batches, Prediction: what holds of
--                  them
--   Documents      src/kgis/extraction/documents.py: documents, chunks and chunkers;
--                  Documents/Slices, Windows, Paragraphs: what chunks are and what they reach
--   Extraction     src/kgis/extraction/parse.py; Extraction/Anchors, Quotes, Responses: where a
--                  quote is anchored, what it is, and which responses are accepted
--   Advisor        src/kgis/registry/models.py and src/kg_contracts/registry.py: graphs, profiles
--                  and outcomes; Advisor/Factors: the factors; Advisor/Scoring: GraphAdvisor of
--                  src/kgis/registry/advisor.py; Advisor/Contract: to_contract; Advisor/Minors,
--                  Projections: what a recommendation rests on and what the contract gets
--   Catalog        src/kgis/registry/store.py: the tables, readers and operations of the registry;
--                  Catalog/Connections: the registration in its transaction;
--                  Catalog/Versions, Registration, Decisions: what registering and deciding do
--   Building       src/kgis/builders.py with the constructors of the references it makes;
--                  Building/Facts: the facts of a record and their keys
--   Evaluation     the comparison of src/kg_eval/matching.py; Evaluation/Gold: the gold set of
--                  src/kg_eval/goldset.py and the keys; Evaluation/Metrics, Spans, Grading: the
--                  metrics of src/kg_eval/metrics.py for an output of src/kg_eval/arms.py;
--                  Evaluation/Tallies, Hits, Signals, Shares, Pairing, Grounds, Scorecards: what
--                  the comparison and the metrics give
--   Examples       sample data, tests and instances of the theorems
--
-- How the model stands for the code. A table is the list of its rows in the order of insertion. A
-- world has the tables of both stores as the open transaction sees them and as they were last
-- committed; an operation is an action, a function from a world to a result and a world. Every
-- statement, commit and clock reading takes one tick, and the environment says which ticks fault
-- (`sqlite3.OperationalError`), what the clock reads, whether both stores share one connection, and
-- what the identity resolver answers or that it raises. The serializer and the hash are parameters
-- of the environment too. A rollback does not fault. A text is the list of its code points, an
-- instant a natural number, and a score the number of units of 2 ^ -1074 in the float: the code
-- only compares them. AUTOINCREMENT gives the count of rows so far plus one, since no row of that
-- table is ever deleted. The stages of a pipeline are fields of its job: a reader is the list of
-- its records and how the stream ends, and a builder answers candidates or the kind of its
-- exception. What a normalizer asks of Python's float, Unicode and datetime tables is a record of
-- functions, a parameter of it; so are the floats that the advisor computes and compares, and the
-- float conversion and the JSON decoder of the response parser. The float of a metric is the exact
-- ratio that its divisions come to, so rounding is not modelled, and its bootstrap is a function of
-- the hits. A loop runs over a list, but for the digits of a number and the batches of a list,
-- which have the number itself and the list's length as fuel, and for the loops over a text, which
-- have its length: every round moves their position by one at least.
--
-- What the stages of a pipeline and the environment are taken to be: a normalizer and the
-- validators answer and do not raise, although the normalizer of the code raises at an integer too
-- large for a float or for printing, which stops a run; the identity resolver answers a candidate
-- the same at every time; a score is a number, not NaN; the ids that SELECT DISTINCT gives come in
-- the order of insertion, where SQLite leaves the order open. The transactions of the graph
-- registry fault in the registration alone: its two writers of decisions are modelled without
-- faults.
--
-- Not modelled: other connections to the same file, the opening and migration of the databases, the
-- columns that repeat a stored object's fields, the JSON of `detail_json` beyond the evidence id,
-- the messages of exceptions; a sink that raises, ids, the clock and the elapsed time of a
-- pipeline; the content hashes and metadata of documents; the texts of an advisor's reasons; the
-- properties and content hashes that builders attach; the loading and hashing of gold sets and arms
-- and the normalization of a value to text. No file here is about the extraction runner and its
-- extractors or the structured sources and readers, which drive models, files and services outside
-- the repository; nor about the bootstrap of src/kg_eval, which is float arithmetic on a seeded
-- generator, and the ablation and the reports, which sum up what the modelled parts return.
pub mod Prelude
pub mod Policy
pub mod Evidence
pub mod Candidates
pub mod Lifecycle
pub mod Tables
pub mod Database
pub mod Ledger
pub mod Submission
pub mod Governance
pub mod Calls
pub mod Registry
pub mod Erasure
pub mod Listing
pub mod Graph
pub mod Validation
pub mod Reports
pub mod Documents
pub mod Extraction
pub mod Advisor
pub mod Catalog
pub mod Building
pub mod Evaluation
pub mod Sink
pub mod Pipeline
pub mod Normalization
pub mod Examples
