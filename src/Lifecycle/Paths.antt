-- ===== src/Lifecycle/Paths.antt =====
-- Where a ledger row can go: the paths through the legal transitions.
use agentic_kgis.Prelude.{◌≡◌, refl, ◌⊎◌, inl, inr, true, false, Bool, arith}
use agentic_kgis.Lifecycle.{
  ProcessingState, received, validated, invalid, blocked, resolution_pending, review_pending,
  accepted, rejected, obsolete, retryable_error, permanent_error, can_transition, is_terminal,
}

pub data PathTo : ProcessingState → ProcessingState → Type 0 where
  here : {s : ProcessingState} → PathTo s s
  step : {s t u : ProcessingState} → can_transition s t ≡ true → PathTo t u → PathTo s u

-- A terminal state has no legal transition.
terminal_stuck : (s t : ProcessingState) → is_terminal s ≡ true → can_transition s t ≡ false
unfolding is_terminal can_transition
terminal_stuck accepted t h = refl
terminal_stuck rejected t h = refl
terminal_stuck invalid t h = refl
terminal_stuck obsolete t h = refl
terminal_stuck permanent_error t h = refl
terminal_stuck _ t h = ground arith

terminal_end : {s t : ProcessingState} → is_terminal s ≡ true → PathTo s t → t ≡ s
terminal_end h here = refl
terminal_end {s} h (step {t = t} legal p) = ground (arith, terminal_stuck s t h)

to_accepted : (s : ProcessingState) → is_terminal s ≡ false → PathTo s accepted
unfolding is_terminal can_transition
to_accepted received h = step {t = validated} refl (step {t = accepted} refl here)
to_accepted validated h = step {t = accepted} refl here
to_accepted blocked h =
    step {t = received} refl (step {t = validated} refl (step {t = accepted} refl here))
to_accepted resolution_pending h = step {t = accepted} refl here
to_accepted review_pending h = step {t = accepted} refl here
to_accepted retryable_error h = step {t = validated} refl (step {t = accepted} refl here)
to_accepted _ h = ground arith

-- Once a row is in a terminal state, no sequence of legal transitions takes it elsewhere.
pub terminal_absorbs : (s t : ProcessingState) → is_terminal s ≡ true → PathTo s t → t ≡ s
terminal_absorbs s t h p = terminal_end h p

-- Every state that is not terminal has a sequence of legal transitions to ACCEPTED: no row is stuck
-- short of a terminal state.
pub open-reaches_accepted : (s : ProcessingState) → is_terminal s ≡ false → PathTo s accepted
open-reaches_accepted s h = to_accepted s h

-- A path passes a state, its ends included.
abbrev pub Passes : ProcessingState → {s t : ProcessingState} → PathTo s t → Type 0
Passes x (here {s}) = s ≡ x
Passes x (step {s} legal p) = (s ≡ x) ⊎ Passes x p

-- what has not been validated, and what becomes of it without that
abbrev early : ProcessingState → Bool
early validated = false
early resolution_pending = false
early review_pending = false
early accepted = false
early _ = true

starts_there : {t u x : ProcessingState} (p : PathTo t u) → t ≡ x → Passes x p
starts_there here e = e
starts_there (step legal p) e = inl e

pass_later :
    {t u : ProcessingState} (s : ProcessingState) (p : PathTo t u)
    → Passes validated p ⊎ (early u ≡ true)
    → ((s ≡ validated) ⊎ Passes validated p) ⊎ (early u ≡ true)
pass_later s p (inl v) = inl (inr v)
pass_later s p (inr e) = inr e

early_step :
    (s t : ProcessingState)
    → early s ≡ true
    → can_transition s t ≡ true
    → (t ≡ validated) ⊎ (early t ≡ true)
unfolding can_transition
early_step s validated e legal = inl refl
early_step s t e legal = ground arith

early_path :
    {s t : ProcessingState} (p : PathTo s t)
    → early s ≡ true
    → Passes validated p ⊎ (early t ≡ true)
early_path here e = inr e
early_path (step {s} {t} legal p) e = elim (early_step s t e legal) [
  | inl there ↦ inl (inr (starts_there p there))
  | inr still ↦ pass_later s p (early_path p still)
]

-- No row is accepted unvalidated: every sequence of legal transitions from RECEIVED to ACCEPTED
-- passes through VALIDATED.
pub accepted-Passes_validated : (p : PathTo received accepted) → Passes validated p
accepted-Passes_validated p = elim (early_path p refl) [ inl v ↦ v | inr e ↦ cc ]
