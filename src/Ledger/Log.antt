-- ===== src/Ledger/Log.antt =====
-- What `_insert_transition` leaves behind, and what the transition log says of a candidate.
use agentic_kgis.Prelude.{
  ℕ, suc, true, ◌≡◌, refl, ◌⊎◌, inl, inr, Option, none, some, List, [], ◌∷◌, ◌++◌, Text, ◌==◌,
  text_eq, arith, length, Bool-cases, subst, sym, ap, ◌∙◌, if◌then◌else◌,
}
use agentic_kgis.Evidence.{Time}
use agentic_kgis.Lifecycle.{ProcessingState, received, can_transition}
use agentic_kgis.Lifecycle.Paths.{PathTo, here, step}
use agentic_kgis.Tables.{Reason, TransitionRow, AuditKind, LedgerTables}
use agentic_kgis.Database.{ok, World, Env, statement, now, ◌>>=◌}
use agentic_kgis.Ledger.{find_row, hash_of, row, append_transition, append_audit, insert_transition}

-- the transition row that `_insert_transition` adds
abbrev pub entry_row :
    Text
    → Option ProcessingState
    → ProcessingState
    → Reason
    → Text
    → Time
    → LedgerTables
    → TransitionRow
entry_row id from to reason actor at l = record {
  transition_id = suc (length l.transitions);
  candidate_id = id;
  from_state = from;
  to_state = to;
  reason = reason;
  actor = actor;
  at = at;
}

-- One transition row and the audit row that goes with it, behind those of before.
abbrev pub logged :
    Text
    → Option ProcessingState
    → ProcessingState
    → Reason
    → Text
    → AuditKind
    → Time
    → LedgerTables
    → LedgerTables
logged id from to reason actor kind at l = record {
  entries = l.entries;
  transitions = l.transitions ++ entry_row id from to reason actor at l ∷ [];
  audits =
      l.audits
      ++ (record {
        candidate_id = id;
        transition_id = some (suc (length l.transitions));
        kind = kind;
        from_state = from;
        to_state = some to;
        payload_hash = hash_of (find_row id l.entries);
        reason = reason;
        actor = actor;
        recorded_at = at;
        evidence_id = none;
      })
        ∷ [];
}

pub insert_transition-logged :
    (env : Env) (id : Text) (from : Option ProcessingState) (to : ProcessingState) (reason : Reason)
    (actor : Text) (kind : AuditKind) (w : World) {n : ℕ}
    → (insert_transition env id from to reason actor kind w).0 ≡ ok n
    → (insert_transition env id from to reason actor kind w).1.ledger
      ≡ logged id from to reason actor kind (env.time w.ticks) w.ledger
unfolding insert_transition append_transition append_audit row statement now ◌>>=◌
insert_transition-logged env id from to reason actor kind w h = ground arith

-- the state that the log leaves a candidate in
abbrev later_of : Option ProcessingState → Option ProcessingState → Option ProcessingState
later_of none s = s
later_of (some t) s = some t

abbrev pub last_state : List TransitionRow → Text → Option ProcessingState
last_state [] id = none
last_state (t ∷ ts) id =
    later_of (last_state ts id) (if t.candidate_id == id then some t.to_state else none)

pub last_state-append :
    (ts : List TransitionRow) (t : TransitionRow) (id : Text)
    → last_state (ts ++ t ∷ []) id
      ≡ (if t.candidate_id == id then some t.to_state else last_state ts id)
last_state-append [] t id = ground arith
last_state-append (s ∷ ts) t id = ground (arith, last_state-append ts t id)

-- What a transition row may say, given the state that the log had left its candidate in: an entry
-- into RECEIVED, a legal transition, or a revoke or erase that keeps the state.
abbrev pub Follows : Option ProcessingState → ProcessingState → Type 0
Follows none to = to ≡ received
Follows (some s) to = (can_transition s to ≡ true) ⊎ (s ≡ to)

pub data IsLog : List TransitionRow → Type 0 where
  start : IsLog []
  entry :
      (ts us : List TransitionRow) (t : TransitionRow)
      → IsLog ts
      → t.from_state ≡ last_state ts t.candidate_id
      → Follows t.from_state t.to_state
      → us ≡ ts ++ t ∷ []
      → IsLog us

extend : {s t u : ProcessingState} → PathTo s t → can_transition t u ≡ true → PathTo s u
extend here legal = step legal here
extend (step first p) legal = step first (extend p legal)

follow :
    (o : Option ProcessingState) (s : ProcessingState)
    → ((r : ProcessingState) → o ≡ some r → PathTo received r)
    → Follows o s
    → PathTo received s
follow none s p e = subst (λ x. PathTo received x) (sym e) here
follow (some r) s p (inl legal) = extend (p r refl) legal
follow (some r) s p (inr same) = subst (λ x. PathTo received x) same (p r refl)

pub last_state-entry :
    (ts us : List TransitionRow) (t : TransitionRow) (id : Text)
    → us ≡ ts ++ t ∷ []
    → last_state us id ≡ (if t.candidate_id == id then some t.to_state else last_state ts id)
last_state-entry ts us t id grown = ap (λ l. last_state l id) grown ∙ last_state-append ts t id

-- In a log every candidate's state can be reached from RECEIVED by legal transitions.
pub IsLog-PathTo :
    (us : List TransitionRow)
    → IsLog us
    → (id : Text) (s : ProcessingState) → last_state us id ≡ some s
    → PathTo received s
IsLog-PathTo us start id s e = cc
IsLog-PathTo us (entry ts vs t log from follows grown) id s e =
    elim (Bool-cases (t.candidate_id == id)) [
      | inl this ↦
          (let same : t.to_state ≡ s = ground (arith, last_state-entry ts vs t id grown) in
            let p : PathTo received t.to_state =
              follow t.from_state t.to_state
                (λ r e'. IsLog-PathTo ts log t.candidate_id r (sym from ∙ e')) follows in
            subst (λ x. PathTo received x) same p)
      | inr other ↦ IsLog-PathTo ts log id s (ground (arith, last_state-entry ts vs t id grown))
    ]
