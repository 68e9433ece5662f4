-- ===== src/Catalog/Connections.antt =====
-- `SqliteRegistryStore._transaction` of src/kgis/registry/store.py, and the registration in it.
use agentic_kgis.Prelude.{ℕ, Bool, true, false, ◌||◌, Option, none, some, Text, Dict, if◌then◌else◌}
use agentic_kgis.Advisor.{GraphDescriptor}
use agentic_kgis.Catalog.{CatalogTables, register_rows}

-- The tables as the connection sees them and as they were last committed, and whether it is inside
-- a transaction.
pub record Connection : Type 0 where
  pub open_tables : CatalogTables
  pub committed_tables : CatalogTables
  pub in_transaction : Bool

-- which of BEGIN, the statements between and COMMIT raise `sqlite3.OperationalError`
pub record Faults : Type 0 where
  pub at_begin : Bool
  pub at_statement : Bool
  pub at_commit : Bool

pub data Ended : Type 0 where
  returned raised : Ended

-- after the statements: a commit that faults leaves the transaction open
abbrev pub end_committing : Bool → Connection → CatalogTables → Ended × Connection
end_committing faults c t =
    if faults
    then (
      raised,
      record { open_tables = t; committed_tables = c.committed_tables; in_transaction = true },
    )
    else (returned, record { open_tables = t; committed_tables = t; in_transaction = false })

-- what the statements wrote, or the rollback after their exception
abbrev pub end_statements : Bool → Connection → Option CatalogTables → Ended × Connection
end_statements faults c none = (
  raised,
  record {
    open_tables = c.committed_tables;
    committed_tables = c.committed_tables;
    in_transaction = false;
  },
)
end_statements faults c (some t) = end_committing faults c t

-- `_transaction` around some statements; SQLite refuses a BEGIN inside a transaction
unfoldable pub transaction :
    Faults → (CatalogTables → Option CatalogTables) → Connection → Ended × Connection
transaction f statements c =
    if c.in_transaction || f.at_begin
    then (raised, c)
    else end_statements f.at_commit c (if f.at_statement then none else statements c.open_tables)

-- `register`, at an instant
unfoldable pub register :
    Faults → ℕ → GraphDescriptor → Dict Text → Option Text → Connection → Ended × Connection
register f now d attributes backend_ref c =
    transaction f (register_rows now d attributes backend_ref) c
