-- ===== src/Lifecycle.antt =====
-- The processing states of a ledger row and its legal transitions: src/kgis/ledger/lifecycle.py
-- and `ProcessingState` of src/kg_contracts/curation.py.
pub mod Paths
use agentic_kgis.Prelude.{ℕ, Bool, true, false, ◌≡◌, ◌↔◌, List, [], ◌∷◌, arith, nat_beq, any}

pub data ProcessingState : Type 0 where
  received validated invalid blocked resolution_pending review_pending accepted rejected obsolete
        retryable_error permanent_error :
      ProcessingState

-- the text that the enumeration's value is, as a number
abbrev pub state_code : ProcessingState → ℕ
state_code received = 0
state_code validated = 1
state_code invalid = 2
state_code blocked = 3
state_code resolution_pending = 4
state_code review_pending = 5
state_code accepted = 6
state_code rejected = 7
state_code obsolete = 8
state_code retryable_error = 9
state_code permanent_error = 10

abbrev pub state_beq : ProcessingState → ProcessingState → Bool
state_beq a b = nat_beq (state_code a) (state_code b)

-- `LEGAL_TRANSITIONS`
unfoldable pub legal_transitions : ProcessingState → List ProcessingState
legal_transitions received = validated ∷ invalid ∷ blocked ∷ retryable_error ∷ obsolete ∷ []
legal_transitions validated =
    resolution_pending ∷ review_pending ∷ accepted ∷ obsolete ∷ retryable_error ∷ []
legal_transitions blocked = received ∷ rejected ∷ invalid ∷ []
legal_transitions resolution_pending =
    review_pending ∷ accepted ∷ rejected ∷ obsolete ∷ retryable_error ∷ []
legal_transitions review_pending = accepted ∷ rejected ∷ obsolete ∷ []
legal_transitions retryable_error = validated ∷ received ∷ permanent_error ∷ rejected ∷ []
legal_transitions accepted = []
legal_transitions rejected = []
legal_transitions invalid = []
legal_transitions obsolete = []
legal_transitions permanent_error = []

unfoldable pub can_transition : ProcessingState → ProcessingState → Bool
unfolding legal_transitions
can_transition src dst = any (λ s. state_beq dst s) (legal_transitions src)

abbrev is_empty : List ProcessingState → Bool
is_empty [] = true
is_empty (x ∷ xs) = false

-- membership in `TERMINAL_STATES`
unfoldable pub is_terminal : ProcessingState → Bool
unfolding legal_transitions
is_terminal s = is_empty (legal_transitions s)
