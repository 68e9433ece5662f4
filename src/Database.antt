-- ===== src/Database.antt =====
-- Statements, transactions and faults of the two stores' SQLite connections, as far as ledger/
-- store.py, evidence/store.py and erasure.py under src/kgis/ use them. A connection has the tables
-- as its open transaction sees them and as they were last committed. Every statement, commit and
-- clock reading takes a tick; the environment says which statements and commits fault, and what
-- the clock reads.
pub mod Transactions
use agentic_kgis.Prelude.{ℕ, suc, Bool, true, false, Option, none, some, Text, ◌≡◌, if◌then◌else◌}
use agentic_kgis.Evidence.{Time}
use agentic_kgis.Candidates.{Candidate}
use agentic_kgis.Tables.{LedgerTables, RegistryTables}

pub data Failure : Type 0 where
  -- `sqlite3.OperationalError`, from a statement or a commit
  database_fault : Failure
  -- an exception of the injected identity resolver
  resolver_fault : Failure
  -- a payload that does not parse
  payload_fault : Failure
  key_error permission_error illegal_transition evidence_not_found erasure_incomplete : Failure

pub data Result (A : Type 0) : Type 0 where
  ok : A → Result A
  err : Failure → Result A

-- `IdentityMode` and `ConsumerProfile`: src/kgis/ledger/config.py
pub data IdentityMode : Type 0 where
  auto_merge reject_only : IdentityMode

pub record ConsumerProfile : Type 0 where
  pub identity_mode : IdentityMode
  pub erasure_enabled : Bool

pub record World : Type 0 where
  pub ledger : LedgerTables
  pub registry : RegistryTables
  pub saved_ledger : LedgerTables
  pub saved_registry : RegistryTables
  pub ticks : ℕ

-- What the stores are given: whether both stand on one connection, the faults and the clock by
-- the tick, the profile, the resolver (`none` for an exception), the serializer and the digests.
pub record Env : Type 0 where
  pub shared : Bool
  pub fault : ℕ → Bool
  pub time : ℕ → Time
  pub profile : ConsumerProfile
  pub resolver : Option (Candidate → Option Bool)
  pub dump : Candidate → Text
  pub digest : Text → Text

abbrev pub Action : Type 0 → Type 0
Action A = World → Result A × World

module _ {A : Type 0} where
  unfoldable pub pure : A → Action A
  pure a w = (ok a, w)

  unfoldable pub raise : Failure → Action A
  raise e w = (err e, w)

  unfoldable pub or_raise : Option A → Failure → Action A
  or_raise none e w = (err e, w)
  or_raise (some a) e w = (ok a, w)

unfoldable pub raise_if : Bool → Failure → Action (Unit {0})
raise_if c e w = (if c then err e else ok tt, w)

abbrev pub continue : {A B : Type 0} → Result A → (A → Action B) → Action B
continue (ok a) f w = f a w
continue (err e) f w = (err e, w)

-- opening this opens the actions above too
infixl 5 ◌>>=◌ ◌>>◌
unfoldable pub ◌>>=◌ : {A B : Type 0} → Action A → (A → Action B) → Action B
unfolding pure raise or_raise raise_if
◌>>=◌ m f w = let (r, w') = m w in continue r f w'

abbrev pub ◌>>◌ : {A B : Type 0} → Action A → Action B → Action B
m >> k = m >>= λ _. k

abbrev pub tick : World → World
tick w = record w { ticks = suc w.ticks }

-- what a statement does, given whether it faults
abbrev pub answer : {A : Type 0} → Bool → A → World → World → Result A × World
answer true a before after = (err database_fault, before)
answer false a before after = (ok a, after)

module _ (env : Env) where
  -- `self._now()`
  unfoldable pub now : Action Time
  now w = (ok (env.time w.ticks), tick w)

  -- A statement that reads `f` and writes `g`, or faults and does neither.
  unfoldable pub statement : {A : Type 0} → (World → A) → (World → World) → Action A
  statement f g w = answer (env.fault w.ticks) (f w) (tick w) (g (tick w))

  abbrev pub query : {A : Type 0} → (World → A) → Action A
  query f = statement f (λ w. w)

  abbrev pub save_ledger : World → World
  save_ledger w = record w {
    saved_ledger = w.ledger;
    saved_registry = if env.shared then w.registry else w.saved_registry;
  }

  abbrev pub save_registry : World → World
  save_registry w = record w {
    saved_registry = w.registry;
    saved_ledger = if env.shared then w.ledger else w.saved_ledger;
  }

  abbrev pub restore_ledger : World → World
  restore_ledger w = record w {
    ledger = w.saved_ledger;
    registry = if env.shared then w.saved_registry else w.registry;
  }

  abbrev pub restore_registry : World → World
  restore_registry w = record w {
    registry = w.saved_registry;
    ledger = if env.shared then w.saved_ledger else w.ledger;
  }

  -- `conn.commit()` of the ledger's connection and of the registry's
  unfoldable pub commit_ledger : Action (Unit {0})
  commit_ledger = statement (λ _. tt) save_ledger

  unfoldable pub commit_registry : Action (Unit {0})
  commit_registry = statement (λ _. tt) save_registry

abbrev pub settle : {A : Type 0} → Result A → (World → World) → World → Result A × World
settle (ok a) cleanup w = (ok a, w)
settle (err e) cleanup w = (err e, cleanup w)

-- `except Exception: cleanup; raise`
unfoldable pub on_error : {A : Type 0} → Action A → (World → World) → Action A
on_error m cleanup w = let (r, w') = m w in settle r cleanup w'
