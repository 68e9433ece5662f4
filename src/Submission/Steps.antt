-- ===== src/Submission/Steps.antt =====
-- What a submission promises, as steps on the tables, and that `submit` takes these steps.
use agentic_kgis.Prelude.{
  Bool, true, false, ◌≡◌, refl, inl, inr, Option, none, some, List, [], ◌∷◌, ◌++◌, arith, suc,
  Bool-cases, Option-cases, ◌∙◌, sym, ap, subst, if◌then◌else◌,
}
use agentic_kgis.Evidence.{Time}
use agentic_kgis.Candidates.{Candidate}
use agentic_kgis.Lifecycle.{ProcessingState}
use agentic_kgis.Tables.{LedgerTables, stated, transition}
use agentic_kgis.Database.{
  ok, err, World, Env, Action, continue, answer, tick, pure, or_raise, resolver_fault, statement,
  now, ◌>>=◌,
}
use agentic_kgis.Database.Transactions.{>>=-eq-ok, ok-injective}
use agentic_kgis.Ledger.{
  dedup_key, has_live_key, has_id, row_for_candidate, insert_entry, insert_transition,
  append_transition, append_audit, row,
}
use agentic_kgis.Ledger.Log.{logged}
use agentic_kgis.Submission.{
  SubmissionStatus, duplicate, invalid, SubmissionOutcome, outcome, is_reject_only, verdict,
  is_rejected, admit, submit_one, submit_loop,
}

-- the verdict of the injected resolver, where the profile asks for one
abbrev asked : Option (Candidate → Option Bool) → Candidate → Option Bool
asked none c = some false
asked (some resolver) c = resolver c

abbrev pub identity_verdict : Env → Candidate → Option Bool
identity_verdict env c =
    if is_reject_only env.profile.identity_mode then asked env.resolver c else some false

-- the tables once `c` is entered at `at`, and this is logged at `at'`
abbrev pub entered_tables : Env → Candidate → Time → Time → LedgerTables → LedgerTables
entered_tables env c at at' l =
    logged c.candidate_id none ProcessingState.received (stated none) c.producer transition at'
      (record l { entries = l.entries ++ row_for_candidate env c at ∷ [] })

-- One candidate: a duplicate of a live row, one that an ambiguous identity keeps out, one that a
-- unique constraint keeps out, or a new row.
pub data SubmitStep (env : Env) (c : Candidate) (l : LedgerTables) (s : SubmissionStatus)
    (l' : LedgerTables) : Type 0 where
  seen :
      has_live_key (dedup_key c) l.entries ≡ true → s ≡ duplicate → l' ≡ l → SubmitStep env c l s l'
  ambiguous :
      has_live_key (dedup_key c) l.entries ≡ false
      → identity_verdict env c ≡ some true
      → s ≡ invalid
      → l' ≡ l
      → SubmitStep env c l s l'
  collides :
      has_live_key (dedup_key c) l.entries ≡ false
      → identity_verdict env c ≡ some false
      → has_id c.candidate_id l.entries ≡ true
      → s ≡ duplicate
      → l' ≡ l
      → SubmitStep env c l s l'
  enters :
      (at at' : Time)
      → has_live_key (dedup_key c) l.entries ≡ false
      → identity_verdict env c ≡ some false
      → has_id c.candidate_id l.entries ≡ false
      → s ≡ SubmissionStatus.received
      → l' ≡ entered_tables env c at at' l
      → SubmitStep env c l s l'

pub data SubmitRun (env : Env)
    : List Candidate → LedgerTables → List SubmissionOutcome → LedgerTables → Type 0 where
  done : (l : LedgerTables) → SubmitRun env [] l [] l
  next :
      {c : Candidate} {cs : List Candidate} {l m n : LedgerTables} {s : SubmissionStatus}
      {os : List SubmissionOutcome}
      → SubmitStep env c l s m
      → SubmitRun env cs m os n
      → SubmitRun env (c ∷ cs) l (outcome s c ∷ os) n

module _ (env : Env) (c : Candidate) where
  admit-Step :
      (w : World) (o : SubmissionOutcome)
      → has_live_key (dedup_key c) w.ledger.entries ≡ false
      → identity_verdict env c ≡ some false
      → (admit env c w).0 ≡ ok o
      → (s : SubmissionStatus) × (o ≡ outcome s c)
        × SubmitStep env c w.ledger s (admit env c w).1.ledger
  unfolding admit row_for_candidate insert_entry insert_transition append_transition append_audit
      row statement now ◌>>=◌
  admit-Step w o new clear h = elim (Bool-cases (has_id c.candidate_id w.ledger.entries)) [
    | inl taken ↦ (duplicate, ground arith, SubmitStep.collides new clear taken refl ground arith)
    | inr free ↦ (
      SubmissionStatus.received,
      ground arith,
      SubmitStep.enters (env.time w.ticks) (env.time (suc (suc w.ticks))) new clear free refl ground
          arith,
    )
  ]

  verdict-Step :
      (w : World) (o : SubmissionOutcome) (b : Bool)
      → has_live_key (dedup_key c) w.ledger.entries ≡ false
      → identity_verdict env c ≡ some b
      → ((if b then pure (outcome invalid c) else admit env c) w).0 ≡ ok o
      → (s : SubmissionStatus) × (o ≡ outcome s c)
        × SubmitStep env c w.ledger s
            ((if b then pure (outcome invalid c) else admit env c) w).1.ledger
  unfolding pure
  verdict-Step w o true new e h = (invalid, ground arith, SubmitStep.ambiguous new e refl refl)
  verdict-Step w o false new e h = admit-Step w o new e h

  resolve_eq :
      (b : Bool) (resolver : Option (Candidate → Option Bool)) (w : World)
      → (if b then verdict resolver c else pure false) w
        ≡ or_raise (if b then asked resolver c else some false) resolver_fault w
  unfolding pure or_raise
  resolve_eq true none w = refl
  resolve_eq true (some resolver) w = refl
  resolve_eq false resolver w = refl

  -- the verdict costs no tick and changes no table
  rejected-eq :
      (w : World) → is_rejected env c w ≡ or_raise (identity_verdict env c) resolver_fault w
  unfolding is_rejected
  rejected-eq w = resolve_eq (is_reject_only env.profile.identity_mode) env.resolver w

  -- the rest of `submit_one` for a key that is not live
  abbrev fresh : Action SubmissionOutcome
  fresh =
      is_rejected env c >>= λ rejected. if rejected then pure (outcome invalid c) else admit env c

  fresh-Step :
      (w : World) (o : SubmissionOutcome)
      → has_live_key (dedup_key c) w.ledger.entries ≡ false
      → (fresh w).0 ≡ ok o
      → (s : SubmissionStatus) × (o ≡ outcome s c) × SubmitStep env c w.ledger s (fresh w).1.ledger
  unfolding ◌>>=◌
  fresh-Step w o new h = elim (Option-cases (identity_verdict env c)) [
    | inl raises ↦
        (let q : is_rejected env c w ≡ (err resolver_fault, w) = rejected-eq w ∙ (rw raises) in
          cc (rw q at h))
    | inr (b, e) ↦
        (let q : is_rejected env c w ≡ (ok b, w) = rejected-eq w ∙ (rw e) in
          rw q (verdict-Step w o b new e (rw q at h)))
  ]

  -- Where one round of the loop of `submit` returns, it has taken a step of the specification.
  pub submit_one-Step :
      (w : World) (o : SubmissionOutcome)
      → (submit_one env c w).0 ≡ ok o
      → (s : SubmissionStatus) × (o ≡ outcome s c)
        × SubmitStep env c w.ledger s (submit_one env c w).1.ledger
  unfolding submit_one statement ◌>>=◌
  submit_one-Step w o h =
      after_query (env.fault w.ticks) (has_live_key (dedup_key c) w.ledger.entries) refl h
    where
      after_query :
          (b found : Bool)
          → has_live_key (dedup_key c) w.ledger.entries ≡ found
          → (continue
              (answer b found (tick w) (tick w)).0
              (λ x. if x then pure (outcome duplicate c) else fresh)
              (answer b found (tick w) (tick w)).1).0
            ≡ ok o
          → (s : SubmissionStatus) × (o ≡ outcome s c)
            × SubmitStep env c w.ledger s
                (continue
                  (answer b found (tick w) (tick w)).0
                  (λ x. if x then pure (outcome duplicate c) else fresh)
                  (answer b found (tick w) (tick w)).1).1.ledger
      after_query true found e g = cc g
      after_query false true e g = (duplicate, ground arith, SubmitStep.seen e refl refl)
      after_query false false e g = fresh-Step (tick w) o e g

module _ (env : Env) where
  -- A batch whose loop returns has taken, candidate after candidate, the steps that the
  -- specification of a submission allows, with the outcomes that they state.
  pub submit_loop-Run :
      (cs : List Candidate) (w : World) (os : List SubmissionOutcome)
      → (submit_loop env cs w).0 ≡ ok os
      → SubmitRun env cs w.ledger os (submit_loop env cs w).1.ledger
  unfolding submit_loop pure
  submit_loop-Run [] w os h =
      subst (λ x. SubmitRun env [] w.ledger x w.ledger) (ok-injective h) (done w.ledger)
  submit_loop-Run (c ∷ cs) w os h =
      let (o, e, h1, q) = >>=-eq-ok (submit_one env c) _ w h in
      let v : World = (submit_one env c w).1 in
      let (os', e', h2, q') = >>=-eq-ok (submit_loop env cs) _ v h1 in
      let (s, is_outcome, step) = submit_one-Step env c w o e in
      let run : SubmitRun env cs v.ledger os' (submit_loop env cs v).1.ledger =
        submit_loop-Run cs v os' e' in
      rw (q, q')
        (subst (λ x. SubmitRun env (c ∷ cs) w.ledger x (submit_loop env cs v).1.ledger)
          (ap (λ y. y ∷ os') (sym is_outcome) ∙ ok-injective h2) (next step run))
