-- ===== src/Submission/Results.antt =====
-- What a batch does to the ledger: the tables stay valid, a second submission adds nothing, and
-- every key is admitted at most once.
use agentic_kgis.Prelude.{
  true, ◌≡◌, ◌≢◌, refl, ◌⊎◌, inl, inr, none, some, List, arith, subst, sym, ◌∙◌, ap, text_beq_refl,
  text_eq, All,
}
use agentic_kgis.Candidates.{Candidate}
use agentic_kgis.Tables.{LedgerTables, stated, transition}
use agentic_kgis.Database.{ok, World, Env}
use agentic_kgis.Database.Transactions.{ok-injective}
use agentic_kgis.Ledger.{dedup_key, has_live_key, has_id, row_for_candidate}
use agentic_kgis.Ledger.Rows.{has_id-append, has_live_key-append}
use agentic_kgis.Ledger.Valid.{IsValid, insert-IsValid}
use agentic_kgis.Ledger.Commit.{IsClean, committed, rolled_back, left_pending}
use agentic_kgis.Submission.{SubmissionStatus, SubmissionOutcome, submit_loop, submit}
use agentic_kgis.Submission.Atomicity.{submit-Settled}
use agentic_kgis.Submission.Steps.{
  identity_verdict, SubmitStep, seen, ambiguous, collides, enters, SubmitRun, done, next,
  submit_loop-Run,
}

module _ (env : Env) where
  step-IsValid :
      (c : Candidate) (l l' : LedgerTables) (s : SubmissionStatus)
      → SubmitStep env c l s l'
      → IsValid l
      → IsValid l'
  unfolding row_for_candidate
  step-IsValid c l l' s (seen _ _ same) v = subst IsValid (sym same) v
  step-IsValid c l l' s (ambiguous _ _ _ same) v = subst IsValid (sym same) v
  step-IsValid c l l' s (collides _ _ _ _ same) v = subst IsValid (sym same) v
  step-IsValid c l l' s (enters at at' new clear free _ grown) v = subst IsValid (sym grown) (
      insert-IsValid l (row_for_candidate env c at) (stated none) c.producer transition at' v
        (ground arith) refl)

  run-IsValid :
      {cs : List Candidate} {l l' : LedgerTables} {os : List SubmissionOutcome}
      → SubmitRun env cs l os l'
      → IsValid l
      → IsValid l'
  run-IsValid (done l) v = v
  run-IsValid (next step run) v = run-IsValid run (step-IsValid _ _ _ _ step v)

-- From a valid ledger with nothing pending, `submit` of any batch leaves the committed tables
-- valid, whichever statements fault: candidate ids are unique, live deduplication keys are
-- unique, the transitions are a legal log, and every row is in the state that its log leaves it
-- in.
pub submit-IsValid :
    (env : Env) (cs : List Candidate) (w : World)
    → IsClean w
    → IsValid w.saved_ledger
    → IsValid (submit env cs w).1.saved_ledger
submit-IsValid env cs w c v = elim (submit-Settled env cs w c) [
  | committed os _ e _ saved _ ↦
      subst IsValid (sym saved)
        (run-IsValid env (submit_loop-Run env cs w os e) (subst IsValid (sym c.ledger) v))
  | rolled_back _ _ _ _ saved _ ↦ subst IsValid (sym saved) v
  | left_pending _ _ _ _ saved _ _ ↦ subst IsValid (sym saved) v
]

-- The candidate cannot enter: its key is live, the resolver keeps it out, or its id is taken.
abbrev Barred : Env → Candidate → LedgerTables → Type 0
Barred env c l =
    (has_live_key (dedup_key c) l.entries ≡ true)
    ⊎ (identity_verdict env c ≡ some true)
    ⊎ (has_id c.candidate_id l.entries ≡ true)

module _ (env : Env) where
  step_bars :
      (c : Candidate) (l l' : LedgerTables) (s : SubmissionStatus)
      → SubmitStep env c l s l'
      → Barred env c l'
  unfolding row_for_candidate
  step_bars c l l' s (seen live _ same) = inl (rw same live)
  step_bars c l l' s (ambiguous _ verdict _ same) = inr (inl verdict)
  step_bars c l l' s (collides _ _ taken _ same) = inr (inr (rw same taken))
  step_bars c l l' s (enters at at' _ _ _ _ grown) = inr (
      inr (
        ground (
          arith,
          ap (λ t. has_id c.candidate_id t.entries) grown,
          has_id-append c.candidate_id l.entries (row_for_candidate env c at),
          text_beq_refl c.candidate_id,
        )))

  step_keeps_Barred :
      (c d : Candidate) (l l' : LedgerTables) (s : SubmissionStatus)
      → SubmitStep env d l s l'
      → Barred env c l
      → Barred env c l'
  unfolding row_for_candidate
  step_keeps_Barred c d l l' s (seen _ _ same) b = subst (Barred env c) (sym same) b
  step_keeps_Barred c d l l' s (ambiguous _ _ _ same) b = subst (Barred env c) (sym same) b
  step_keeps_Barred c d l l' s (collides _ _ _ _ same) b = subst (Barred env c) (sym same) b
  step_keeps_Barred c d l l' s (enters at at' _ _ _ _ grown) b = elim b [
    | inl live ↦ inl (
        ground (
          arith,
          ap (λ t. has_live_key (dedup_key c) t.entries) grown,
          has_live_key-append (dedup_key c) l.entries (row_for_candidate env d at),
        ))
    | inr rest ↦ elim rest [
      | inl verdict ↦ inr (inl verdict)
      | inr taken ↦ inr (
          inr (
            ground (
              arith,
              ap (λ t. has_id c.candidate_id t.entries) grown,
              has_id-append c.candidate_id l.entries (row_for_candidate env d at),
            )))
    ]
  ]

  run_keeps_Barred :
      (c : Candidate) {cs : List Candidate} {l l' : LedgerTables} {os : List SubmissionOutcome}
      → SubmitRun env cs l os l'
      → Barred env c l
      → Barred env c l'
  run_keeps_Barred c (done l) b = b
  run_keeps_Barred c (next step run) b = run_keeps_Barred c run (step_keeps_Barred c _ _ _ _ step b)

  run_bars :
      {cs : List Candidate} {l l' : LedgerTables} {os : List SubmissionOutcome}
      → SubmitRun env cs l os l'
      → All (λ c. Barred env c l') cs
  run_bars (done l) = tt
  run_bars (next step run) = (run_keeps_Barred _ run (step_bars _ _ _ _ step), run_bars run)

  Barred-step_same :
      (c : Candidate) (l l' : LedgerTables) (s : SubmissionStatus)
      → SubmitStep env c l s l'
      → Barred env c l
      → (l' ≡ l) × (s ≢ SubmissionStatus.received)
  Barred-step_same c l l' s (seen _ e same) b = (same, ground arith)
  Barred-step_same c l l' s (ambiguous _ _ e same) b = (same, ground arith)
  Barred-step_same c l l' s (collides _ _ _ e same) b = (same, ground arith)
  Barred-step_same c l l' s (enters at at' new clear free _ grown) b = absurd (ground arith)

abbrev pub NotReceived : SubmissionOutcome → Type 0
NotReceived o = o.status ≢ SubmissionStatus.received

module _ (env : Env) where
  Barred-run_same :
      {cs : List Candidate} {l l' : LedgerTables} {os : List SubmissionOutcome}
      → SubmitRun env cs l os l'
      → All (λ c. Barred env c l) cs
      → (l' ≡ l) × All NotReceived os
  Barred-run_same (done l) b = (refl, tt)
  Barred-run_same (next {c} {cs} {l} {m} {n} {s} step run) (b, bs) =
      let (same, status) = Barred-step_same env c l m s step b in
      let (same', statuses) =
        Barred-run_same run (subst (λ t. All (λ c. Barred env c t) cs) (sym same) bs) in
      (same' ∙ same, (status, statuses))

-- A `submit` that returned has committed a run of the specification, and left nothing pending.
submit_ok-Run :
    (env : Env) (cs : List Candidate) (w : World) (os : List SubmissionOutcome)
    → IsClean w
    → (submit env cs w).0 ≡ ok os
    → SubmitRun env cs w.saved_ledger os (submit env cs w).1.saved_ledger
      × IsClean (submit env cs w).1
submit_ok-Run env cs w os c h = elim (submit-Settled env cs w c) [
  | committed os' r e clean saved _ ↦ (
    subst (λ x. SubmitRun env cs w.saved_ledger x (submit env cs w).1.saved_ledger)
        (ok-injective (sym r ∙ h))
        (subst (λ t. SubmitRun env cs w.saved_ledger os' t) (sym saved)
          (subst (λ t. SubmitRun env cs t os' (submit_loop env cs w).1.ledger) c.ledger
            (submit_loop-Run env cs w os' e))),
    clean,
  )
  | rolled_back _ r _ _ _ _ ↦ cc (sym r ∙ h)
  | left_pending _ r _ _ _ _ _ ↦ cc (sym r ∙ h)
]

-- Submission is idempotent: if a batch was submitted from a clean connection and is submitted
-- again, and both calls return, then the second call changes no committed table and receives
-- nothing: every candidate is a duplicate or invalid.
pub submit_again :
    (env : Env) (cs : List Candidate) (w : World) (os os' : List SubmissionOutcome)
    → IsClean w
    → (submit env cs w).0 ≡ ok os
    → (submit env cs (submit env cs w).1).0 ≡ ok os'
    → ((submit env cs (submit env cs w).1).1.saved_ledger ≡ (submit env cs w).1.saved_ledger)
      × All NotReceived os'
submit_again env cs w os os' c h h' =
    let (run, clean) = submit_ok-Run env cs w os c h in
    let (run', _) = submit_ok-Run env cs (submit env cs w).1 os' clean h' in
    Barred-run_same env run' (run_bars env run)
