-- ===== src/Examples/Erasures.antt =====
-- Runs of the evidence registry and of the erasure.
use agentic_kgis.Prelude.{
  Option, true, false, ◌≡◌, refl, [], ◌∷◌, codes, text_beq, nat_beq, some, none, Text,
}
use agentic_kgis.Evidence.{well_shaped}
use agentic_kgis.Database.{
  World, ok, err, Env, ◌>>=◌, statement, now, commit_ledger, commit_registry, on_error,
  erasure_incomplete,
}
use agentic_kgis.Ledger.{
  row, append_transition, append_audit, insert_transition, in_transaction, update_entry,
}
use agentic_kgis.Governance.{apply_erase, record_redaction}
use agentic_kgis.Registry.{
  is_redacted, put_many, redact_evidence, remove_subject_refs, orphan_evidence,
}
use agentic_kgis.Registry.Terminal.{Keeps, put_many-Keeps}
use agentic_kgis.Erasure.{
  Cascade, report, redact_loop, cascade, audit, shared_body, separate_body, erase_shared,
  erase_separate, final_commit, erase,
}
use agentic_kgis.Erasure.Privacy.{IsPrivate}
use agentic_kgis.Erasure.Cascades.{IsExact, cascade-IsExact}
use agentic_kgis.Erasure.Outcomes.{Erasing, erase-Erasing}
use agentic_kgis.Evidence.Builders.{Source}
use agentic_kgis.Examples.{
  healthy, environment, item, world-IsClean, populated, one_row, some_evidence,
}

-- what the erasure of candidate `a` finds
abbrev found : Cascade
found = record {
  removed = codes "x" ∷ codes "y" ∷ [];
  redacted = (codes "x", codes "text") ∷ [];
  preserved = codes "y" ∷ [];
}

cascade_of_a : (cascade healthy (codes "a") (codes "asked") 9 populated).0 ≡ ok found
unfolding cascade redact_loop remove_subject_refs orphan_evidence redact_evidence statement ◌>>=◌
    text_beq
cascade_of_a = refl

cascade-IsExact_example :
    let w' = (cascade healthy (codes "a") (codes "asked") 9 populated).1 in
    (w'.ledger ≡ populated.ledger)
    × (IsPrivate (codes "a") populated.registry found w'.registry
        × IsExact healthy (codes "asked") 9 populated.registry found w'.registry)
cascade-IsExact_example =
    cascade-IsExact healthy (codes "a") (codes "asked") 9 populated found cascade_of_a

-- two connections, and a fault in the commit of the ledger, after that of the registry
abbrev apart : Env
apart = environment false (λ n. nat_beq n 18)

erase_together :
    (erase healthy (codes "a") (codes "asked") (codes "v") populated).0
    ≡ ok (report (codes "a") found)
unfolding erase erase_shared shared_body in_transaction apply_erase update_entry insert_transition
    append_transition append_audit record_redaction audit row now on_error commit_ledger cascade
    redact_loop remove_subject_refs orphan_evidence redact_evidence statement ◌>>=◌ text_beq
erase_together = refl

half_committed :
    (erase apart (codes "a") (codes "asked") (codes "v") populated).0 ≡ err erasure_incomplete
unfolding erase erase_separate separate_body final_commit commit_registry apply_erase update_entry
    insert_transition append_transition append_audit record_redaction audit row now on_error
    commit_ledger cascade redact_loop remove_subject_refs orphan_evidence redact_evidence statement
    ◌>>=◌ text_beq
half_committed = refl

erase-Erasing_example :
    let (o, w') = erase apart (codes "a") (codes "asked") (codes "v") populated in
    Erasing apart (codes "a") (codes "asked") (codes "v") populated o w'
erase-Erasing_example =
    erase-Erasing apart (codes "a") (codes "asked") (codes "v") populated
      (world-IsClean one_row some_evidence)

z_is_redacted : is_redacted (codes "z") populated.registry.items ≡ true
unfolding text_beq
z_is_redacted = refl

put_many-Keeps_example :
    let w' = (put_many healthy (item (codes "z") ∷ item (codes "x") ∷ []) populated).1 in
    Keeps (codes "z") populated.registry w'.registry
    × Keeps (codes "z") populated.registry w'.saved_registry
put_many-Keeps_example =
    put_many-Keeps healthy (codes "z") (item (codes "z") ∷ item (codes "x") ∷ []) populated
      (world-IsClean one_row some_evidence) z_is_redacted

item_is_well_shaped : well_shaped (item (codes "x")) ≡ true
unfolding well_shaped
item_is_well_shaped = refl

abbrev some_source : Source
some_source = record {
  evidence_id = none;
  fresh_id = codes "ev";
  source_type = codes "document";
  source_locator = codes "d";
  observed_at = 1;
  valid_time = none;
}

-- an empty content is a content
abbrev empty_text : Option Text
empty_text = some []

abbrev no_text : Option Text
no_text = none

abbrev once : World
once = (cascade healthy (codes "a") (codes "asked") 9 populated).1

abbrev found_again : Cascade
found_again = record { removed = []; redacted = []; preserved = [] }

second_cascade_of_a : (cascade healthy (codes "a") (codes "again") 12 once).0 ≡ ok found_again
unfolding cascade redact_loop remove_subject_refs orphan_evidence redact_evidence statement ◌>>=◌
    text_beq
second_cascade_of_a = refl
