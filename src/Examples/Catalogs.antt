-- ===== src/Examples/Catalogs.antt =====
-- Runs of the registry of graphs.
use agentic_kgis.Prelude.{
  true, false, not, ◌&&◌, ◌≡◌, refl, none, some, [], ◌∷◌, codes, ◌==◌, text_eq, text_beq, or_else,
  if◌then◌else◌,
}
use agentic_kgis.Advisor.{GraphDescriptor}
use agentic_kgis.Catalog.{
  DecisionRow, CatalogTables, recorded, version_row, register_rows, insert_version, next_version,
  rows_named, max_version, decision, store_decision, insert_decision, same_decision, record_outcome,
  labelled,
}
use agentic_kgis.Catalog.Connections.{Connection, Faults, raised, transaction, register}
use agentic_kgis.Catalog.Decisions.{
  is_blank_row, is_recorded, fits, store_decision_lem, store_decision_again,
}
use agentic_kgis.Examples.Advice.{graph}

abbrev descriptor : GraphDescriptor
descriptor = (graph (codes "a") []).descriptor

-- the name in version one, and no decision
abbrev tables : CatalogTables
tables = record { versions = version_row 1 descriptor [] 1 ∷ []; decisions = [] }

abbrev idle : Connection
idle = record { open_tables = tables; committed_tables = tables; in_transaction = false }

-- the commit faults
abbrev late : Faults
late = record { at_begin = false; at_statement = false; at_commit = true }

-- after it, the next registration on the connection raises at its BEGIN, whatever faults
stays_open :
    (f : Faults)
    → (register f 6 descriptor [] none
        (register late 5 descriptor [] (some (codes "age")) idle).1).0
      ≡ raised
unfolding register transaction register_rows insert_version next_version rows_named max_version
    text_beq
stays_open f = refl

abbrev row : DecisionRow
row = record {
  decision_id = codes "d";
  graph_name = some (codes "a");
  recommendation_json = codes "{}";
  chosen_outcome = codes "FULLY_ISOLATED";
  decided_by = codes "h";
  rationale = codes "r";
  decided_at = 3;
  outcome_label = none;
  outcome_note = none;
  outcome_recorded_at = none;
}

store_decision_lem_example :
    (decision (codes "d") (store_decision row tables).1
      ≡ or_else
          (decision (codes "d") tables)
          (if not (is_blank_row row) && row.decision_id == codes "d" then some row else none))
    × (is_recorded (store_decision row tables).0
        ≡ not (is_blank_row row) && fits row (decision row.decision_id tables))
store_decision_lem_example = store_decision_lem row tables (codes "d")

abbrev decided : CatalogTables
decided = record { versions = tables.versions; decisions = labelled 9 (codes "good") none row ∷ [] }

store_decision_again_example : store_decision row decided ≡ (recorded row, decided)
unfolding store_decision insert_decision decision same_decision record_outcome text_beq
store_decision_again_example =
    store_decision_again row tables decided 9 (codes "d") (codes "good") none refl refl
