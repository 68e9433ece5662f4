-- ===== src/Erasure/Steps.antt =====
-- What each step of the evidence cascade of an erasure does to the tables.
use agentic_kgis.Prelude.{
  Bool, true, false, not, ◌&&◌, ◌||◌, ◌≡◌, refl, sym, ◌∙◌, ap, subst, inl, inr, Option, none, some,
  List, [], ◌∷◌, Text, ◌==◌, text_eq, text_beq, text_beq_iff, arith, if◌then◌else◌, Bool-cases,
  keep,
}
use agentic_kgis.Database.{ok, World, Env, Action, pure, ◌>>=◌, tick, statement, query}
use agentic_kgis.Database.Transactions.{>>=-eq-ok, ok-injective}
use agentic_kgis.Evidence.{Time}
use agentic_kgis.Tables.{EvidenceRow, RefRow}
use agentic_kgis.Registry.{
  find_item, cited_by, is_referenced, inline_text, hash_for, remove_subject_refs, orphan_evidence,
  redact_evidence,
}
use agentic_kgis.Registry.Redaction.{
  faulted, untouched, replaced, redact_evidence-Redacts, find_item-update, find_item-update-other,
  find_item-id, blank-inline_text, redacted_row, SameTables,
}
use agentic_kgis.Erasure.{is_among, redact_loop}

-- the inline text that the registry holds under an id
abbrev pub text_of : Option EvidenceRow → Option Text
text_of none = none
text_of (some r) = inline_text r.evidence

abbrev pub text_under : Text → List EvidenceRow → Option Text
text_under id rows = text_of (find_item id rows)

-- the references of the subject are gone, and nothing else has changed
pub record Unlinked (id : Text) (w v : World) : Type 0 where
  pub ledger : v.ledger ≡ w.ledger
  pub items : v.registry.items ≡ w.registry.items
  pub refs : v.registry.refs ≡ keep (λ r. not (r.subject_id == id)) w.registry.refs

pub remove_subject_refs-ok :
    (env : Env) (id : Text) (w : World) {ids : List Text}
    → (remove_subject_refs env id w).0 ≡ ok ids
    → let w' = (remove_subject_refs env id w).1 in
      (ids ≡ cited_by id w.registry.refs) × Unlinked id w w'
unfolding remove_subject_refs statement ◌>>=◌
remove_subject_refs-ok env id w h = ground arith

query-bind :
    {A B : Type 0} (env : Env) (f : World → A) (k : A → Action B) (w : World) {b : B}
    → ((query env f >>= k) w).0 ≡ ok b
    → (query env f >>= k) w ≡ k (f w) (tick w)
unfolding statement ◌>>=◌
query-bind env f k w h = elim (Bool-cases (env.fault w.ticks)) [
  | inl faults ↦ cc (h, faults)
  | inr runs ↦ rw runs refl
]

member :
    (b : Bool) (id x : Text) (rest ids : List Text) (refs : List RefRow)
    → is_referenced id refs ≡ b
    → is_among rest x ≡ (is_among ids x && not (is_referenced x refs))
    → is_among (if b then rest else id ∷ rest) x
      ≡ ((text_beq id x || is_among ids x) && not (is_referenced x refs))
member b id x rest ids refs r m = elim (Bool-cases (text_beq id x)) [
  | inl same ↦
      (let s : is_referenced x refs ≡ b =
          subst (λ t. is_referenced t refs ≡ b) ((text_beq_iff id x).0 same) r in
        ground (arith, s))
  | inr differ ↦ ground arith
]

pub orphan_evidence-ok :
    (env : Env) (ids : List Text) (w : World) {os : List Text}
    → (orphan_evidence env ids w).0 ≡ ok os
    → SameTables w (orphan_evidence env ids w).1
      × ((x : Text) → is_among os x ≡ (is_among ids x && not (is_referenced x w.registry.refs)))
unfolding orphan_evidence pure
orphan_evidence-ok env [] w {os} h =
    ((refl, refl), λ x. ap (λ l. is_among l x) (sym (ok-injective h)))
orphan_evidence-ok env (id ∷ ids) w {os} h =
    let q = query-bind env (λ w. is_referenced id w.registry.refs) _ w h in
    let (rest, e, h2, q2) =
      >>=-eq-ok (orphan_evidence env ids) _ (tick w) (ap (λ p. p.0) (sym q) ∙ h) in
    let (t, m) = orphan_evidence-ok env ids (tick w) e in
    rw (q, q2)
      (
        t,
        λ x.
            ap (λ l. is_among l x) (sym (ok-injective h2))
            ∙ member (is_referenced id w.registry.refs) id x rest ids w.registry.refs refl (m x),
      )

redact_one-ok :
    (env : Env) (id reason : Text) (at : Time) (w : World) {o : Option Text}
    → (redact_evidence env id reason at w).0 ≡ ok o
    → let w' = (redact_evidence env id reason at w).1 in
      (w'.ledger ≡ w.ledger)
      × (w'.registry.refs ≡ w.registry.refs)
      × (text_under id w'.registry.items ≡ none)
      × ((x : Text)
          → text_beq id x ≡ false
          → find_item x w'.registry.items ≡ find_item x w.registry.items)
redact_one-ok env id reason at w {o} h = elim (redact_evidence-Redacts env id reason at w) [
  | faulted e r t ↦ cc (h, r)
  | untouched r none_there (l, g) ↦ (
    l,
    ap (λ t. t.refs) g,
    ap (λ t. text_under id t.items) g ∙ untouched_text (find_item id w.registry.items) none_there,
    λ x d. ap (λ t. find_item x t.items) g,
  )
  | replaced row text found has r l refs items ↦ (
    l,
    refs,
    ap (text_under id) items
        ∙ ap text_of (
            find_item-update id (redacted_row env reason at row text) row w.registry.items found
              (find_item-id id w.registry.items row found))
        ∙ blank-inline_text row.evidence (hash_for env.digest row.evidence text),
    λ x d.
        ap (find_item x) items
        ∙ find_item-update-other id x (redacted_row env reason at row text) w.registry.items
            (find_item-id id w.registry.items row found) d,
  )
]
  where
    untouched_text :
        (o : Option EvidenceRow)
        → ((r : EvidenceRow) → o ≡ some r → inline_text r.evidence ≡ none)
        → text_of o ≡ none
    untouched_text none f = refl
    untouched_text (some r) f = f r refl

-- The texts under the ids that pass are gone, and every other item is as it was.
pub record Removed (test : Text → Bool) (u v : World) : Type 0 where
  pub ledger : v.ledger ≡ u.ledger
  pub refs : v.registry.refs ≡ u.registry.refs
  pub gone : (x : Text) → test x ≡ true → text_under x v.registry.items ≡ none
  pub kept :
      (x : Text) → test x ≡ false → find_item x v.registry.items ≡ find_item x u.registry.items

Removed-both :
    (s t r : Text → Bool) (u v w : World)
    → ((x : Text) → r x ≡ (s x || t x))
    → Removed s u v
    → Removed t v w
    → Removed r u w
Removed-both s t r u v w split p q = record {
  ledger = q.ledger ∙ p.ledger;
  refs = q.refs ∙ p.refs;
  gone = λ x h. elim (Bool-cases (t x)) [
    | inl later ↦ q.gone x later
    | inr early ↦ ap text_of (q.kept x early) ∙ p.gone x (ground (arith, split x))
  ];
  kept = λ x h. q.kept x (ground (arith, split x)) ∙ p.kept x (ground (arith, split x));
}

pub same_orphan :
    (os : List Text) (id x : Text) (b : Bool)
    → is_among os id ≡ b
    → text_beq id x ≡ true
    → is_among os x ≡ b
same_orphan os id x b m e = subst (λ t. is_among os t ≡ b) ((text_beq_iff id x).0 e) m

module _ (env : Env) (orphans : List Text) (reason : Text) (at : Time) where
  pub redact_if-Removed :
      (id : Text) (b : Bool) (w : World) {o : Option Text}
      → is_among orphans id ≡ b
      → ((if b then redact_evidence env id reason at else pure none) w).0 ≡ ok o
      → Removed
          (λ x. text_beq id x && is_among orphans x)
          w
          ((if b then redact_evidence env id reason at else pure none) w).1
  unfolding pure
  redact_if-Removed id true w m h =
      let (l, r, g, k) = redact_one-ok env id reason at w h in
      record {
        ledger = l;
        refs = r;
        gone = λ x t.
            subst (λ y. text_under y (redact_evidence env id reason at w).1.registry.items ≡ none)
              ((text_beq_iff id x).0 (ground arith)) g;
        kept = λ x t. k x (ground (arith, same_orphan orphans id x true m));
      }
  redact_if-Removed id false w m h = record {
    ledger = refl;
    refs = refl;
    gone = λ x t. ground (arith, same_orphan orphans id x false m);
    kept = λ x t. refl;
  }

  pub redact_loop-Removed :
      (ids : List Text) (w : World) {hs : List (Text × Text)}
      → (redact_loop env ids orphans reason at w).0 ≡ ok hs
      → Removed
          (λ x. is_among ids x && is_among orphans x)
          w
          (redact_loop env ids orphans reason at w).1
  unfolding redact_loop pure
  redact_loop-Removed [] w h = record {
    ledger = refl;
    refs = refl;
    gone = λ x t. cc t;
    kept = λ x t. refl;
  }
  redact_loop-Removed (id ∷ ids) w h =
      let m = (if is_among orphans id then redact_evidence env id reason at else pure none) in
      let (o, e1, h1, q1) = >>=-eq-ok m _ w h in
      let (rest, e2, h2, q2) = >>=-eq-ok (redact_loop env ids orphans reason at) _ (m w).1 h1 in
      rw (q1, q2)
        (Removed-both (λ x. text_beq id x && is_among orphans x)
          (λ x. is_among ids x && is_among orphans x) _ w (m w).1 _ (λ x. ground arith)
          (redact_if-Removed id (is_among orphans id) w refl e1)
          (redact_loop-Removed ids (m w).1 e2))
