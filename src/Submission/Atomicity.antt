-- ===== src/Submission/Atomicity.antt =====
-- `submit` is one transaction.
use agentic_kgis.Prelude.{Bool, Option, none, some, List, [], ◌∷◌}
use agentic_kgis.Candidates.{Candidate}
use agentic_kgis.Database.{World, Env}
use agentic_kgis.Database.Transactions.{Along}
use agentic_kgis.Ledger.Commit.{Staged, staged_rules, IsClean, Settled, in_transaction-Settled}
use agentic_kgis.Submission.{verdict, is_rejected, admit, submit_one, submit_loop, submit}

verdict-Staged :
    (resolver : Option (Candidate → Option Bool)) (c : Candidate)
    → Along Staged (verdict resolver c)
verdict-Staged none c = search staged_rules
verdict-Staged (some resolver) c = search staged_rules

module _ (env : Env) where
  is_rejected-Staged : (c : Candidate) → Along Staged (is_rejected env c)
  unfolding is_rejected
  is_rejected-Staged c = search (staged_rules, verdict-Staged)

  admit-Staged : (c : Candidate) → Along Staged (admit env c)
  unfolding admit
  admit-Staged c = search staged_rules depth 9

  submit_one-Staged : (c : Candidate) → Along Staged (submit_one env c)
  unfolding submit_one
  submit_one-Staged c = search (staged_rules, is_rejected-Staged, admit-Staged) depth 9

  submit_loop-Staged : (cs : List Candidate) → Along Staged (submit_loop env cs)
  unfolding submit_loop
  submit_loop-Staged [] = search staged_rules
  submit_loop-Staged (c ∷ cs) =
      search (staged_rules, submit_one-Staged c, submit_loop-Staged cs) depth 9

-- From a connection with nothing pending, `submit` of any batch ends in one of three ways,
-- whichever statements fault and whatever the resolver raises: the writes of the whole batch are
-- committed; or the batch is rolled back and nothing has changed; or, if the final commit faults,
-- the error is raised with nothing committed and the batch's writes still pending.
pub submit-Settled :
    (env : Env) (cs : List Candidate) (w : World)
    → IsClean w
    → Settled (submit_loop env cs) w (submit env cs w).0 (submit env cs w).1
unfolding submit
submit-Settled env cs w c =
    in_transaction-Settled env (submit_loop env cs) w (submit_loop-Staged env cs) c
