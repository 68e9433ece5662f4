-- ===== src/Catalog/Registration.antt =====
-- What a registration comes to when statements may fault: `register` of
-- src/kgis/registry/store.py.
use agentic_kgis.Prelude.{ℕ, Bool, true, false, ◌||◌, ◌≡◌, some, Text}
use agentic_kgis.Advisor.{GraphDescriptor}
use agentic_kgis.Catalog.Connections.{Connection, Faults, Ended, returned, raised}
use agentic_kgis.Catalog.Versions.{Registers}

-- outside a transaction, and with nothing pending
pub record IsIdle (c : Connection) : Type 0 where
  pub outside : c.in_transaction ≡ false
  pub nothing_pending : c.open_tables ≡ c.committed_tables

-- How a registration can end: whole and committed; with the tables as they were, after a fault
-- before the commit; or pending in an open transaction, after a fault of the commit itself.
pub data Ends (f : Faults) (d : GraphDescriptor) (c : Connection) (name : Text) (version : ℕ)
    (out : Ended × Connection) : Type 0 where
  whole :
      out.0 ≡ returned
      → IsIdle out.1
      → (f.at_begin || (f.at_statement || f.at_commit)) ≡ false
      → Registers d c.committed_tables name version (some out.1.committed_tables)
      → Ends f d c name version out
  rolled_back :
      out.0 ≡ raised
      → IsIdle out.1
      → (f.at_begin || f.at_statement) ≡ true
      → out.1.committed_tables ≡ c.committed_tables
      → Ends f d c name version out
  pending :
      out.0 ≡ raised
      → f.at_commit ≡ true
      → out.1.in_transaction ≡ true
      → out.1.committed_tables ≡ c.committed_tables
      → Registers d c.committed_tables name version (some out.1.open_tables)
      → Ends f d c name version out
