-- ===== src/Ledger/Valid.antt =====
-- What holds of the ledger's tables between two calls, and that the writes keep it.
use agentic_kgis.Prelude.{
  true, false, ◌≡◌, refl, sym, none, some, List, [], ◌∷◌, ◌++◌, Text, ◌==◌, text_eq, text_beq_iff,
  text_beq_refl, arith, All, All-append, Bool-cases, inl, inr,
}
use agentic_kgis.Evidence.{Time}
use agentic_kgis.Lifecycle.{ProcessingState, received}
use agentic_kgis.Tables.{LedgerRow, Reason, TransitionRow, AuditKind, LedgerTables}
use agentic_kgis.Ledger.{has_id, update_row, violates_unique}
use agentic_kgis.Ledger.Rows.{
  DistinctIds, DistinctKeys, IsTame, DistinctIds-append, DistinctKeys-append, DistinctIds-update,
  DistinctKeys-update, has_id-append, has_id-update,
}
use agentic_kgis.Ledger.Log.{logged, entry_row, last_state, last_state-append, IsLog, Follows}

-- The row's state is the one that the transition log leaves its candidate in.
abbrev pub InState : List TransitionRow → LedgerRow → Type 0
InState ts r = last_state ts r.candidate_id ≡ some r.processing_state

pub record IsValid (l : LedgerTables) : Type 0 where
  pub distinct_ids : DistinctIds l.entries
  pub distinct_keys : DistinctKeys l.entries
  pub is_log : IsLog l.transitions
  pub in_state : All (InState l.transitions) l.entries
  pub known : (id : Text) → has_id id l.entries ≡ false → last_state l.transitions id ≡ none

InState-other :
    (ts : List TransitionRow) (t : TransitionRow) (rs : List LedgerRow)
    → has_id t.candidate_id rs ≡ false
    → All (InState ts) rs
    → All (InState (ts ++ t ∷ [])) rs
InState-other ts t [] h a = tt
InState-other ts t (r ∷ rs) h a = ground (
  arith,
  InState-other ts t rs,
  last_state-append ts t r.candidate_id,
  text_beq_iff t.candidate_id r.candidate_id,
  text_beq_iff r.candidate_id t.candidate_id,
)

-- Inserting a row whose key and id are free, and logging its entry, keeps the tables valid.
pub insert-IsValid :
    (l : LedgerTables) (r : LedgerRow) (reason : Reason) (actor : Text) (kind : AuditKind)
    (at : Time)
    → IsValid l
    → violates_unique r l.entries ≡ false
    → r.processing_state ≡ received
    → IsValid (
        logged r.candidate_id none received reason actor kind at
          (record l { entries = l.entries ++ r ∷ [] }))
insert-IsValid l r reason actor kind at v free entered =
    let t : TransitionRow = entry_row r.candidate_id none received reason actor at l in
    record {
      distinct_ids = DistinctIds-append l.entries r (ground arith) v.distinct_ids;
      distinct_keys = DistinctKeys-append l.entries r (ground arith) v.distinct_keys;
      is_log =
          IsLog.entry l.transitions _ t v.is_log (sym (v.known r.candidate_id (ground arith))) refl
            refl;
      in_state =
          All-append (InState (l.transitions ++ t ∷ [])) l.entries (r ∷ [])
            (InState-other l.transitions t l.entries (ground arith) v.in_state)
            (ground (
              arith,
              last_state-append l.transitions t r.candidate_id,
              text_beq_refl r.candidate_id,
            ));
      known = λ id h.
          ground
            (arith, v.known id, has_id-append id l.entries r, last_state-append l.transitions t id);
    }

InState-update :
    (ts : List TransitionRow) (t : TransitionRow) (f : LedgerRow → LedgerRow)
    → IsTame f
    → ((x : LedgerRow)
        → x.candidate_id ≡ t.candidate_id
        → InState ts x
        → (f x).processing_state ≡ t.to_state)
    → (rs : List LedgerRow) → All (InState ts) rs
    → All (InState (ts ++ t ∷ [])) (update_row t.candidate_id f rs)
InState-update ts t f tame lands [] a = tt
InState-update ts t f tame lands (r ∷ rs) a = (
  elim (Bool-cases (r.candidate_id == t.candidate_id)) [
    | inl this ↦ rw this (
        ground (
          arith,
          tame.keeps_id r,
          lands r ((text_beq_iff _ _).0 this) a.0,
          last_state-append ts t (f r).candidate_id,
          text_beq_iff r.candidate_id t.candidate_id,
          text_beq_refl t.candidate_id,
        ))
    | inr other ↦ rw other (
        ground (
          arith,
          a.0,
          last_state-append ts t r.candidate_id,
          text_beq_iff r.candidate_id t.candidate_id,
          text_beq_iff t.candidate_id r.candidate_id,
        ))
  ],
  InState-update ts t f tame lands rs a.1,
)

-- Updating the row of a candidate and logging the state that this leaves it in keeps the tables
-- valid.
pub update-IsValid :
    (l : LedgerTables) (id : Text) (f : LedgerRow → LedgerRow) (from to : ProcessingState)
    (reason : Reason) (actor : Text) (kind : AuditKind) (at : Time)
    → IsValid l
    → IsTame f
    → has_id id l.entries ≡ true
    → last_state l.transitions id ≡ some from
    → Follows (some from) to
    → ((x : LedgerRow)
        → x.candidate_id ≡ id
        → InState l.transitions x
        → (f x).processing_state ≡ to)
    → IsValid (
        logged id
          (some from)
          to
          reason
          actor
          kind
          at
          (record l { entries = update_row id f l.entries }))
update-IsValid l id f from to reason actor kind at v tame present in_from follows lands =
    let t : TransitionRow = entry_row id (some from) to reason actor at l in
    record {
      distinct_ids = DistinctIds-update id f tame l.entries v.distinct_ids;
      distinct_keys = DistinctKeys-update id f tame l.entries v.distinct_keys;
      is_log = IsLog.entry l.transitions _ t v.is_log (sym in_from) follows refl;
      in_state = InState-update l.transitions t f tame lands l.entries v.in_state;
      known = λ x h. ground (
        arith,
        v.known x,
        has_id-update id f tame x l.entries,
        last_state-append l.transitions t x,
        text_beq_iff id x,
      );
    }
