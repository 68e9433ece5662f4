-- ===== src/Listing.antt =====
-- `ledger_entry` and `ledger_entries`: src/kgis/ledger/store.py, and the projection of
-- src/kgis/ledger/row.py. The recorded instants are ordered as numbers, and candidate ids by
-- their code points.
use agentic_kgis.Prelude.{
  Bool, true, false, ◌&&◌, ◌||◌, ◌≡◌, refl, Option, none, some, List, [], ◌∷◌, Text, ◌==◌, text_eq,
  nat_beq, ltb, any, keep, arith, if◌then◌else◌, inl, inr, Bool-cases,
}
use agentic_kgis.Evidence.{Time}
use agentic_kgis.Candidates.{Candidate}
use agentic_kgis.Lifecycle.{ProcessingState, state_beq}
use agentic_kgis.Tables.{LedgerRow, is_live}
use agentic_kgis.Database.{Env, Action, pure, or_raise, ◌>>=◌, query, payload_fault}
use agentic_kgis.Ledger.{row}

pub record LedgerReadOptions : Type 0 where
  pub graph_id : Option Text
  pub processing_states : Option (List ProcessingState)

pub record LedgerEntry : Type 0 where
  pub candidate : Candidate
  pub processing_state : ProcessingState
  pub received_at : Time

abbrev wanted_graph : Option Text → LedgerRow → Bool
wanted_graph none r = true
wanted_graph (some g) r = r.graph_id == g

abbrev wanted_state : Option (List ProcessingState) → LedgerRow → Bool
wanted_state none r = true
wanted_state (some ss) r = any (λ s. state_beq r.processing_state s) ss

-- the WHERE clause
unfoldable pub is_selected : LedgerReadOptions → LedgerRow → Bool
is_selected o r = is_live r && (wanted_graph o.graph_id r && wanted_state o.processing_states r)

unfoldable pub text_leb : Text → Text → Bool
text_leb [] b = true
text_leb (x ∷ a) [] = false
text_leb (x ∷ a) (y ∷ b) = ltb x y || (nat_beq x y && text_leb a b)

-- the ORDER BY clause
unfoldable pub row_leb : LedgerRow → LedgerRow → Bool
row_leb a b =
    ltb a.recorded_at b.recorded_at
    || (nat_beq a.recorded_at b.recorded_at && text_leb a.candidate_id b.candidate_id)

unfoldable pub place : LedgerRow → List LedgerRow → List LedgerRow
place r [] = r ∷ []
place r (x ∷ xs) = let rest = place r xs in if row_leb r x then r ∷ x ∷ xs else x ∷ rest

unfoldable pub ordered : List LedgerRow → List LedgerRow
ordered [] = []
ordered (r ∷ rs) = place r (ordered rs)

-- the rows that the SELECT gives
unfoldable pub listed : LedgerReadOptions → List LedgerRow → List LedgerRow
listed o rows = ordered (keep (is_selected o) rows)

-- `to_entry`, where `load` reads a payload back, or raises
unfoldable pub to_entry : (Text → Option Candidate) → LedgerRow → Action (Option LedgerEntry)
to_entry load r = elim r.payload_json [
  | none ↦ pure none
  | some payload ↦ (do
    c ← or_raise (load payload) payload_fault
    pure (
        some (record {
          candidate = c;
          processing_state = r.processing_state;
          received_at = r.received_at;
        })))
]

abbrev add_entry : Option LedgerEntry → List LedgerEntry → List LedgerEntry
add_entry none es = es
add_entry (some e) es = e ∷ es

abbrev entry_found : (Text → Option Candidate) → Option LedgerRow → Action (Option LedgerEntry)
entry_found load none = pure none
entry_found load (some r) = to_entry load r

unfoldable pub entries_loop : (Text → Option Candidate) → List LedgerRow → Action (List LedgerEntry)
entries_loop load [] = pure []
entries_loop load (r ∷ rs) = do
  e ← to_entry load r
  es ← entries_loop load rs
  pure (add_entry e es)

module _ (env : Env) (load : Text → Option Candidate) where
  unfoldable pub ledger_entry : Text → Action (Option LedgerEntry)
  ledger_entry id = do found ← row env id; entry_found load found

  unfoldable pub ledger_entries : LedgerReadOptions → Action (List LedgerEntry)
  ledger_entries o = do rows ← query env (λ w. listed o w.ledger.entries); entries_loop load rows

text_leb_total : (a b : Text) → text_leb a b ≡ false → text_leb b a ≡ true
unfolding text_leb
text_leb_total [] b h = ground arith
text_leb_total (x ∷ a) [] h = refl
text_leb_total (x ∷ a) (y ∷ b) h = ground (arith, text_leb_total a b)

row_leb_total : (a b : LedgerRow) → row_leb a b ≡ false → row_leb b a ≡ true
unfolding row_leb
row_leb_total a b h = ground (arith, text_leb_total a.candidate_id b.candidate_id)

-- the first row is not behind the next
abbrev Leads : LedgerRow → List LedgerRow → Type 0
Leads r [] = Unit
Leads r (x ∷ xs) = row_leb r x ≡ true

abbrev pub IsOrdered : List LedgerRow → Type 0
IsOrdered [] = Unit
IsOrdered (r ∷ rs) = Leads r rs × IsOrdered rs

place-Leads :
    (x r : LedgerRow) (rs : List LedgerRow) → row_leb x r ≡ true → Leads x rs → Leads x (place r rs)
unfolding place
place-Leads x r [] h l = h
place-Leads x r (y ∷ ys) h l = elim (Bool-cases (row_leb r y)) [ inl e ↦ rw e h | inr e ↦ rw e l ]

place-IsOrdered : (r : LedgerRow) (rs : List LedgerRow) → IsOrdered rs → IsOrdered (place r rs)
unfolding place
place-IsOrdered r [] o = (tt, tt)
place-IsOrdered r (x ∷ xs) o = elim (Bool-cases (row_leb r x)) [
  | inl e ↦ rw e (e, o)
  | inr e ↦ rw e (place-Leads x r xs (row_leb_total r x e) o.0, place-IsOrdered r xs o.1)
]

any-place :
    (t : LedgerRow → Bool) (r : LedgerRow) (rs : List LedgerRow)
    → any t (place r rs) ≡ (t r || any t rs)
unfolding place
any-place t r [] = refl
any-place t r (x ∷ xs) = ground (arith, any-place t r xs)

ordered-IsOrdered : (rs : List LedgerRow) → IsOrdered (ordered rs)
unfolding ordered
ordered-IsOrdered [] = tt
ordered-IsOrdered (r ∷ rs) = place-IsOrdered r (ordered rs) (ordered-IsOrdered rs)

any-ordered :
    (t : LedgerRow → Bool) (o : LedgerReadOptions) (rs : List LedgerRow)
    → any t (ordered (keep (is_selected o) rs)) ≡ any (λ r. is_selected o r && t r) rs
unfolding ordered
any-ordered t o [] = refl
any-ordered t o (r ∷ rs) = elim (Bool-cases (is_selected o r)) [
  | inl e ↦
      rw e (ground (arith, any-place t r (ordered (keep (is_selected o) rs)), any-ordered t o rs))
  | inr e ↦ rw e (any-ordered t o rs)
]

-- The listing of the ledger shows exactly the live rows of the wanted graph and states (for every
-- test on rows, one that passes is listed exactly when the table holds a selected one that
-- passes), in the order of their recording, and of their ids within one instant.
pub listed-IsOrdered :
    (o : LedgerReadOptions) (rows : List LedgerRow)
    → IsOrdered (listed o rows)
      × ((test : LedgerRow → Bool)
          → any test (listed o rows) ≡ any (λ r. is_selected o r && test r) rows)
unfolding listed
listed-IsOrdered o rows =
    (ordered-IsOrdered (keep (is_selected o) rows), λ test. any-ordered test o rows)
