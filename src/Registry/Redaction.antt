-- ===== src/Registry/Redaction.antt =====
-- What the redaction of an evidence item does, and that no later write brings the text back.
use agentic_kgis.Prelude.{
  Bool, true, false, ◌≡◌, refl, sym, subst, inl, inr, Option, none, some, List, [], ◌∷◌, Text,
  text_eq, text_beq, text_beq_iff, arith, Bool-cases,
}
use agentic_kgis.Database.{Failure, Result, ok, err, World, Env, pure, ◌>>=◌, tick, statement}
use agentic_kgis.Evidence.{Time, Evidence, well_shaped}
use agentic_kgis.Tables.{EvidenceRow}
use agentic_kgis.Registry.{
  find_item, update_item, inline_text, blank, hash_for, redact_row, redact_found, redact_evidence,
}

-- the row that a redaction writes
abbrev pub redacted_row : Env → Text → Time → EvidenceRow → Text → EvidenceRow
redacted_row env reason at r text = record {
  evidence = blank r.evidence (hash_for env.digest r.evidence text);
  redacted_at = some at;
  redaction_reason = some reason;
}

pub find_item-id :
    (id : Text) (rows : List EvidenceRow) (r : EvidenceRow)
    → find_item id rows ≡ some r
    → text_beq r.evidence.evidence_id id ≡ true
find_item-id id [] r h = cc h
find_item-id id (x ∷ xs) r h = ground (arith, find_item-id id xs r)

pub find_item-update :
    (id : Text) (new r : EvidenceRow) (rows : List EvidenceRow)
    → find_item id rows ≡ some r
    → text_beq new.evidence.evidence_id id ≡ true
    → find_item id (update_item id (λ _. new) rows) ≡ some new
find_item-update id new r [] h e = cc h
find_item-update id new r (x ∷ xs) h e = ground (arith, find_item-update id new r xs)

pub text_beq-other :
    (a b c : Text) → text_beq a b ≡ true → text_beq b c ≡ false → text_beq a c ≡ false
text_beq-other a b c e d = subst (λ t. text_beq t c ≡ false) (sym ((text_beq_iff a b).0 e)) d

pub find_item-update-other :
    (id x : Text) (new : EvidenceRow) (rows : List EvidenceRow)
    → text_beq new.evidence.evidence_id id ≡ true
    → text_beq id x ≡ false
    → find_item x (update_item id (λ _. new) rows) ≡ find_item x rows
find_item-update-other id x new [] e d = refl
find_item-update-other id x new (y ∷ ys) e d = ground (
  arith,
  find_item-update-other id x new ys,
  text_beq-other new.evidence.evidence_id id x,
  text_beq-other y.evidence.evidence_id id x,
)

pub blank-inline_text : (e : Evidence) (h : Text) → inline_text (blank e h) ≡ none
blank-inline_text e h = ground arith

-- An item with inline text that is well-formed stays well-formed when its text is dropped for a
-- hash: it is present by the hash.
pub blank-well_shaped :
    (e : Evidence) (h t : Text)
    → inline_text e ≡ some t
    → well_shaped e ≡ true
    → well_shaped (blank e h) ≡ true
unfolding well_shaped
blank-well_shaped e h t p q = ground arith

abbrev pub SameTables : World → World → Type 0
SameTables u v = (v.ledger ≡ u.ledger) × (v.registry ≡ u.registry)

-- How a redaction of `id` can end.
pub data Redacts (env : Env) (id reason : Text) (at : Time) (w : World) (o : Result (Option Text))
    (w' : World) : Type 0 where
  faulted : (e : Failure) → o ≡ err e → SameTables w w' → Redacts env id reason at w o w'
  untouched :
      o ≡ ok none
      → ((r : EvidenceRow) → find_item id w.registry.items ≡ some r → inline_text r.evidence ≡ none)
      → SameTables w w'
      → Redacts env id reason at w o w'
  replaced :
      (r : EvidenceRow) (text : Text)
      → find_item id w.registry.items ≡ some r
      → inline_text r.evidence ≡ some text
      → o ≡ ok (some (hash_for env.digest r.evidence text))
      → w'.ledger ≡ w.ledger
      → w'.registry.refs ≡ w.registry.refs
      → w'.registry.items ≡ update_item id (λ _. redacted_row env reason at r text) w.registry.items
      → Redacts env id reason at w o w'

module _ (env : Env) (id reason : Text) (at : Time) (w : World) where
  text_found :
      (r : EvidenceRow) (o : Option Text) (b : Bool)
      → find_item id w.registry.items ≡ some r
      → inline_text r.evidence ≡ o
      → env.fault (tick w).ticks ≡ b
      → let (r, w') = redact_row env id reason at r (tick w) in Redacts env id reason at w r w'
  unfolding statement pure ◌>>=◌
  text_found r none b f t e = rw (redact_row, t) (untouched refl (λ s g. cc (f, g, t)) (refl, refl))
  text_found r (some text) true f t e = rw (redact_row, t, e) (faulted _ refl (refl, refl))
  text_found r (some text) false f t e =
      rw (redact_row, t, e) (replaced r text f t refl refl refl refl)

  row_found :
      (o : Option EvidenceRow)
      → find_item id w.registry.items ≡ o
      → let (r, w') = redact_found env id reason at o (tick w) in Redacts env id reason at w r w'
  unfolding pure ◌>>=◌
  row_found none f = untouched refl (λ s g. cc (f, g)) (refl, refl)
  row_found (some r) f =
      text_found r (inline_text r.evidence) (env.fault (tick w).ticks) f refl refl

  -- The redaction of an evidence item, on every branch: a fault changes no table; an id that is not
  -- there, or whose item has no inline text, changes none either, and returns nothing; otherwise
  -- the item under this id alone is replaced by its blanked form with the redaction marker, and its
  -- hash is returned.
  pub redact_evidence-Redacts :
      let (r, w') = redact_evidence env id reason at w in Redacts env id reason at w r w'
  unfolding redact_evidence ◌>>=◌ statement
  redact_evidence-Redacts = elim (Bool-cases (env.fault w.ticks)) [
    | inl e ↦ rw e (faulted _ refl (refl, refl))
    | inr e ↦ rw e (row_found (find_item id w.registry.items) refl)
  ]
