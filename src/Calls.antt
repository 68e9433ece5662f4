-- ===== src/Calls.antt =====
-- Any sequence of calls on a ledger: src/kgis/ledger/store.py as a whole.
use agentic_kgis.Prelude.{
  Bool, false, ◌≡◌, refl, sym, ◌∙◌, ap, subst, inl, inr, Option, some, List, arith, Text,
  Bool-cases,
}
use agentic_kgis.Evidence.{Time}
use agentic_kgis.Candidates.{Candidate}
use agentic_kgis.Lifecycle.{ProcessingState, received}
use agentic_kgis.Lifecycle.Paths.{PathTo}
use agentic_kgis.Tables.{LedgerTables, LedgerRow, Reason, AuditKind}
use agentic_kgis.Database.{permission_error, Result, err, ◌>>=◌, World, Env}
use agentic_kgis.Ledger.{find_row}
use agentic_kgis.Ledger.Rows.{IsTame, All-find_row, find_row-candidate_id, find_row-has_id}
use agentic_kgis.Ledger.Log.{Follows, last_state, IsLog-PathTo}
use agentic_kgis.Ledger.Valid.{IsValid, InState, update-IsValid}
use agentic_kgis.Ledger.Commit.{IsClean}
use agentic_kgis.Submission
use agentic_kgis.Submission.Results.{submit-IsValid}
use agentic_kgis.Governance.{transition_to, revoke_row, erase_row, withdrawn, blanked, moved}
use agentic_kgis.Governance.Effects.{Recorded, refused, changed}
use agentic_kgis.Governance.Operations.{
  transition_to-Recorded, revoke_row-Recorded, erase_row-Recorded,
}

found_state :
    (l : LedgerTables) (id : Text) (r : LedgerRow)
    → IsValid l
    → find_row id l.entries ≡ some r
    → last_state l.transitions id ≡ some r.processing_state
found_state l id r v found =
    subst (λ x. last_state l.transitions x ≡ some r.processing_state)
      (find_row-candidate_id id l.entries found)
      (All-find_row (InState l.transitions) id l.entries v.in_state found)

-- A recorded change keeps the tables valid, if it is tame and ends in a state that may follow.
Recorded-IsValid :
    {A : Type 0} (id : Text) (allowed : LedgerRow → Type 0)
    (f : LedgerRow → Time → LedgerRow → LedgerRow) (to : LedgerRow → ProcessingState)
    (reason : Reason) (actor : Text) (kind : AuditKind) (l l' : LedgerTables) (r : Result A)
    → ((old : LedgerRow) (at : Time) → IsTame (f old at))
    → ((old : LedgerRow) → allowed old → Follows (some old.processing_state) (to old))
    → ((old x : LedgerRow) (at : Time)
        → x.processing_state ≡ old.processing_state
        → (f old at x).processing_state ≡ to old)
    → Recorded id allowed f to reason actor kind l r l'
    → IsValid l
    → IsValid l'
Recorded-IsValid id allowed f to reason actor kind l l' r tame follows lands (refused _ _ same) v =
    subst IsValid (sym same) v
Recorded-IsValid id allowed f to reason actor kind l l' r tame follows lands
      (changed old at at' found may tables) v =
    subst IsValid (sym tables) (
      update-IsValid l id (f old at) old.processing_state (to old) reason actor kind at' v
        (tame old at) (find_row-has_id id l.entries found) (found_state l id old v found)
        (follows old may)
        (λ x e s.
          lands old x at
            (cc (sym s ∙ ap (last_state l.transitions) e ∙ found_state l id old v found))))

pub data Call : Type 0 where
  submit : List Candidate → Call
  transition : Text → ProcessingState → Text → Option Text → Bool → Option Text → Call
  revoke erase : Text → Text → Text → Call

-- The world that a call leaves, whatever it returns or raises.
abbrev pub call : Env → Call → World → World
call env (submit cs) w = (Submission.submit env cs w).1
call env (transition id to actor reason retry quarantine) w =
    (transition_to env id to actor reason retry quarantine w).1
call env (revoke id reason actor) w = (revoke_row env id reason actor w).1
call env (erase id reason actor) w = (erase_row env id reason actor w).1

moved-IsTame :
    (to : ProcessingState) (retry : Bool) (quarantine : Option Text) (old : LedgerRow)
    → IsTame (moved to retry quarantine old)
moved-IsTame to retry quarantine old = record {
  keeps_id = λ r. refl;
  keeps_key = λ r. refl;
  revives_none = λ r h. h;
}

withdrawn-IsTame : (at : Time) (reason : Text) → IsTame (withdrawn at reason)
withdrawn-IsTame at reason = record {
  keeps_id = λ r. refl;
  keeps_key = λ r. refl;
  revives_none = λ r h. ground arith;
}

blanked-IsTame : (at : Time) (reason : Text) → IsTame (blanked at reason)
blanked-IsTame at reason = record {
  keeps_id = λ r. refl;
  keeps_key = λ r. refl;
  revives_none = λ r h. ground arith;
}

erase_disabled :
    (env : Env) (id reason actor : Text) (w : World)
    → env.profile.erasure_enabled ≡ false
    → erase_row env id reason actor w ≡ (err permission_error, w)
unfolding erase_row ◌>>=◌
erase_disabled env id reason actor w off = rw off

call-IsValid :
    (env : Env) (k : Call) (w : World)
    → IsClean w
    → IsValid w.saved_ledger
    → IsValid (call env k w).saved_ledger
call-IsValid env (submit cs) w c v = submit-IsValid env cs w c v
call-IsValid env (transition id to actor reason retry quarantine) w c v =
    Recorded-IsValid id _ _ _ _ _ _ _ _ _ (λ old at. moved-IsTame to retry quarantine old)
      (λ old may. inl may.1) (λ old x at e. refl)
      (transition_to-Recorded env id to actor reason retry quarantine w c) v
call-IsValid env (revoke id reason actor) w c v =
    Recorded-IsValid id _ _ _ _ _ _ _ _ _ (λ old at. withdrawn-IsTame at reason)
      (λ old may. inr refl) (λ old x at e. e) (revoke_row-Recorded env id reason actor w c) v
call-IsValid env (erase id reason actor) w c v = elim (Bool-cases env.profile.erasure_enabled) [
  | inl on ↦
      Recorded-IsValid id _ _ _ _ _ _ _ _ _ (λ old at. blanked-IsTame at reason)
        (λ old may. inr refl) (λ old x at e. e) (erase_row-Recorded env id reason actor w c on) v
  | inr off ↦
      subst (λ y. IsValid y.1.saved_ledger) (sym (erase_disabled env id reason actor w off)) v
]

-- Calls one after the other, each from a world with nothing pending.
pub data Calls (env : Env) (w : World) : World → Type 0 where
  start : Calls env w w
  then : {u : World} → Calls env w u → IsClean u → (k : Call) → Calls env w (call env k u)

-- Over any sequence of submissions, transitions, revokes and erases, successful or not and
-- whichever statements fault, as long as each begins with nothing pending, the committed tables
-- stay valid.
pub Calls-IsValid :
    (env : Env) (w u : World) → Calls env w u → IsValid w.saved_ledger → IsValid u.saved_ledger
Calls-IsValid env w u start v = v
Calls-IsValid env w u (then {u = x} calls clean k) v =
    call-IsValid env k x clean (Calls-IsValid env w x calls v)

-- In the committed tables that such a sequence leaves, the state of every row can be reached from
-- RECEIVED by legal transitions.
pub Calls-PathTo :
    (env : Env) (w u : World) (id : Text) (r : LedgerRow)
    → Calls env w u
    → IsValid w.saved_ledger
    → find_row id u.saved_ledger.entries ≡ some r
    → PathTo received r.processing_state
Calls-PathTo env w u id r calls v found =
    let valid : IsValid u.saved_ledger = Calls-IsValid env w u calls v in
    IsLog-PathTo u.saved_ledger.transitions valid.is_log id r.processing_state
      (found_state u.saved_ledger id r valid found)
