-- ===== src/Registry.antt =====
-- `SqliteEvidenceRegistry`: src/kgis/evidence/store.py.
pub mod Stages
pub mod Redaction
pub mod Terminal
use agentic_kgis.Prelude.{
  has_text, ℕ, Bool, true, false, not, ◌&&◌, ◌||◌, Option, none, some, List, [], ◌∷◌, ◌++◌, map,
  Text, ◌==◌, text_eq, nat_beq, any, keep, first, is_some, if◌then◌else◌,
}
use agentic_kgis.Evidence.{
  Time, TextSpan, is_present, EvidenceAvailability, present, absent, error, Evidence,
  EvidenceRelationship, relationship_code, EvidenceRef,
}
use agentic_kgis.Tables.{EvidenceRow, RefRow}
use agentic_kgis.Database.{
  evidence_not_found, World, Env, Action, pure, or_raise, ◌>>=◌, ◌>>◌, statement, query,
  commit_registry, restore_registry, on_error,
}

abbrev pub find_item : Text → List EvidenceRow → Option EvidenceRow
find_item id = first (λ r. r.evidence.evidence_id == id)

-- `SELECT 1 FROM evidence WHERE evidence_id = ? AND redacted_at IS NOT NULL`
abbrev pub is_redacted : Text → List EvidenceRow → Bool
is_redacted id = any (λ r. r.evidence.evidence_id == id && is_some r.redacted_at)

-- `INSERT OR REPLACE INTO evidence`: the old row goes, and the new one has no marker.
abbrev pub replace_item : Evidence → List EvidenceRow → List EvidenceRow
replace_item e rows =
    keep (λ r. not (r.evidence.evidence_id == e.evidence_id)) rows
    ++ record { evidence = e; redacted_at = none; redaction_reason = none } ∷ []

abbrev pub update_item : Text → (EvidenceRow → EvidenceRow) → List EvidenceRow → List EvidenceRow
update_item id f = map (λ r. if r.evidence.evidence_id == id then f r else r)

abbrev pub cites : Text → Text → RefRow → Bool
cites subject id r = r.subject_id == subject && r.evidence_id == id

abbrev pub same_ref : RefRow → RefRow → Bool
same_ref a b =
    cites a.subject_id a.evidence_id b
    && nat_beq (relationship_code a.relationship) (relationship_code b.relationship)

-- `INSERT OR IGNORE INTO evidence_refs`
abbrev pub insert_ref : RefRow → List RefRow → List RefRow
insert_ref r rows = if any (same_ref r) rows then rows else rows ++ r ∷ []

-- `SELECT DISTINCT evidence_id FROM evidence_refs WHERE subject_id = ?`
abbrev add_new : Text → List Text → List Text
add_new t ts = if has_text t ts then ts else t ∷ ts

abbrev pub cited_by : Text → List RefRow → List Text
cited_by subject [] = []
cited_by subject (r ∷ rs) =
    let rest = cited_by subject rs in
    if r.subject_id == subject then add_new r.evidence_id rest else rest

abbrev pub is_referenced : Text → List RefRow → Bool
is_referenced id = any (λ r. r.evidence_id == id)

abbrev pub quote_of : Option TextSpan → Option Text
quote_of none = none
quote_of (some s) = s.quote

abbrev pub without_quote : Option TextSpan → Option TextSpan
without_quote none = none
without_quote (some s) = some (record s { quote = none })

-- Python's `a or b` on an optional text: the empty text counts as false.
abbrev pub hash_or : Option Text → Text → Text
hash_or none d = d
hash_or (some []) d = d
hash_or (some (x ∷ xs)) d = x ∷ xs

abbrev pub text_or : Option Text → Option Text → Option Text
text_or none q = q
text_or (some t) q = some t

-- the inline text of an evidence item: its content, or else the quote of its span
abbrev pub inline_text : Evidence → Option Text
inline_text e = if is_present e.availability then text_or e.content (quote_of e.span) else none

-- the item with its text dropped, and the hash that stands for it
abbrev pub blank : Evidence → Text → Evidence
blank e hash = record e { content = none; payload_hash = some hash; span = without_quote e.span }

abbrev pub hash_for : (Text → Text) → Evidence → Text → Text
hash_for digest e text = hash_or e.payload_hash (digest text)

abbrev pub on_items : (List EvidenceRow → List EvidenceRow) → World → World
on_items f w = record w { registry = record w.registry { items = f w.registry.items } }

abbrev pub on_refs : (List RefRow → List RefRow) → World → World
on_refs f w = record w { registry = record w.registry { refs = f w.registry.refs } }

abbrev matches : Option EvidenceRelationship → EvidenceRelationship → Bool
matches none r = true
matches (some s) r = nat_beq (relationship_code s) (relationship_code r)

abbrev ref_of : RefRow → EvidenceRef
ref_of r = record { evidence_id = r.evidence_id; relationship = r.relationship }

abbrev evidence_of : Option EvidenceRow → Option Evidence
evidence_of none = none
evidence_of (some r) = some r.evidence

module _ (env : Env) where
  -- `_put_stmt`
  unfoldable pub put_statement : Evidence → Action (Unit {0})
  put_statement e = do
    redacted ← query env (λ w. is_redacted e.evidence_id w.registry.items)
    if redacted then pure tt else statement env (λ _. tt) (on_items (replace_item e))

  unfoldable pub put : Evidence → Action (Unit {0})
  put e = do put_statement e; commit_registry env

  -- `try: body except Exception: rollback; raise`, then `commit`
  unfoldable pub registry_transaction : {A : Type 0} → Action A → Action A
  registry_transaction body = do
    result ← on_error body (restore_registry env)
    commit_registry env
    pure result

  unfoldable pub put_loop : List Evidence → Action (Unit {0})
  put_loop [] = pure tt
  put_loop (e ∷ es) = do put_statement e; put_loop es

  unfoldable pub put_many : List Evidence → Action (Unit {0})
  put_many es = registry_transaction (put_loop es)

  unfoldable pub get : Text → Action (Option Evidence)
  get id = query env (λ w. evidence_of (find_item id w.registry.items))

  -- the `executemany` of `add_refs`
  unfoldable pub add_refs_loop : Text → List EvidenceRef → Action (Unit {0})
  add_refs_loop subject [] = pure tt
  add_refs_loop subject (r ∷ rs) = do
    statement env (λ _. tt)
        (on_refs (
          insert_ref (record {
            subject_id = subject;
            evidence_id = r.evidence_id;
            relationship = r.relationship;
          })))
    add_refs_loop subject rs

  unfoldable pub add_refs : Text → List EvidenceRef → Action (Unit {0})
  add_refs subject refs = registry_transaction (add_refs_loop subject refs)

  unfoldable pub refs_for : Text → Option EvidenceRelationship → Action (List EvidenceRef)
  refs_for subject relationship = query env (λ w.
      map ref_of (
        keep (λ r. r.subject_id == subject && matches relationship r.relationship) w.registry.refs))

  unfoldable pub resolve_loop : List EvidenceRef → Action (List Evidence)
  resolve_loop [] = pure []
  resolve_loop (r ∷ rs) = do
    found ← get r.evidence_id
    e ← or_raise found evidence_not_found
    es ← resolve_loop rs
    pure (e ∷ es)

  unfoldable pub resolve : Text → Option EvidenceRelationship → Action (List Evidence)
  resolve subject relationship = do refs ← refs_for subject relationship; resolve_loop refs

  -- `_remove_subject_refs_stmt`
  unfoldable pub remove_subject_refs : Text → Action (List Text)
  remove_subject_refs subject = do
    cited ← query env (λ w. cited_by subject w.registry.refs)
    statement env (λ _. tt) (on_refs (keep (λ r. not (r.subject_id == subject))))
    pure cited

  -- `_orphan_evidence_stmt`
  unfoldable pub orphan_evidence : List Text → Action (List Text)
  orphan_evidence [] = pure []
  orphan_evidence (id ∷ ids) = do
    referenced ← query env (λ w. is_referenced id w.registry.refs)
    rest ← orphan_evidence ids
    pure (if referenced then rest else id ∷ rest)

  -- `_redact_evidence_stmt` on a row that is there
  abbrev redact_row : Text → Text → Time → EvidenceRow → Action (Option Text)
  redact_row id reason at r = elim (inline_text r.evidence) [
    | none ↦ pure none
    | some text ↦
        statement env (λ _. some (hash_for env.digest r.evidence text))
          (on_items (
            update_item id (λ _. record {
              evidence = blank r.evidence (hash_for env.digest r.evidence text);
              redacted_at = some at;
              redaction_reason = some reason;
            })))
  ]

  abbrev redact_found : Text → Text → Time → Option EvidenceRow → Action (Option Text)
  redact_found id reason at none = pure none
  redact_found id reason at (some r) = redact_row id reason at r

  unfoldable pub redact_evidence : Text → Text → Time → Action (Option Text)
  redact_evidence id reason at = do
    found ← query env (λ w. find_item id w.registry.items)
    redact_found id reason at found
