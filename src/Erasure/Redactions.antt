-- ===== src/Erasure/Redactions.antt =====
-- What the redaction of an evidence item keeps and what it changes, field by field, and over the
-- loop of a cascade: `_redact_evidence_stmt` of src/kgis/evidence/store.py and `_cascade` of
-- src/kgis/erasure.py.
use agentic_kgis.Prelude.{
  Bool, true, false, ◌&&◌, ◌||◌, ◌≡◌, refl, sym, ap, ◌∙◌, subst, arith, ◌⊎◌, inl, inr, Option, none,
  some, is_some, List, [], ◌∷◌, Text, text_beq, text_beq_iff, ◌==◌, text_eq, any, Bool-cases,
  if◌then◌else◌,
}
use mathlib.Core.Bool.{true≢false}
use mathlib.Core.Option.{some-ne-none}
use agentic_kgis.Database.{ok, World, Env, pure}
use agentic_kgis.Database.Transactions.{>>=-eq-ok, ok-injective}
use agentic_kgis.Evidence.{Time, TextSpan, is_present}
use agentic_kgis.Tables.{EvidenceRow}
use agentic_kgis.Registry.{
  find_item, inline_text, text_or, quote_of, without_quote, hash_or, redact_evidence,
}
use agentic_kgis.Registry.Redaction.{
  faulted, untouched, replaced, redact_evidence-Redacts, find_item-update, find_item-id,
  redacted_row,
}
use agentic_kgis.Erasure.{is_among, add_redacted, redact_loop}
use agentic_kgis.Erasure.Steps.{
  text_of, text_under, Removed, redact_if-Removed, redact_loop-Removed,
}

-- the same span without its quote
abbrev Unquoted : Option TextSpan → Option TextSpan → Type 0
Unquoted none none = Unit
Unquoted (some s) (some t) = (t.start ≡ s.start) × ((t.end ≡ s.end) × (t.quote ≡ none))
Unquoted none (some t) = ⊥
Unquoted (some s) none = ⊥

-- the hash that was there, unless it was none or empty, and else the one given
abbrev Hashed : Option Text → Text → Option Text → Type 0
Hashed none given hash = hash ≡ some given
Hashed (some []) given hash = hash ≡ some given
Hashed (some (c ∷ t)) given hash = hash ≡ some (c ∷ t)

module _ (digest : Text → Text) (reason : Text) (at : Time) where
  -- The row `after` is the row `before` with its text redacted, and everything else as it was.
  pub record IsRedacted (text : Text) (before after : EvidenceRow) : Type 0 where
    pub evidence_id : after.evidence.evidence_id ≡ before.evidence.evidence_id
    pub source_type : after.evidence.source_type ≡ before.evidence.source_type
    pub source_locator : after.evidence.source_locator ≡ before.evidence.source_locator
    pub observed_at : after.evidence.observed_at ≡ before.evidence.observed_at
    pub valid_time : after.evidence.valid_time ≡ before.evidence.valid_time
    pub availability : after.evidence.availability ≡ before.evidence.availability
    pub absence_reason : after.evidence.absence_reason ≡ before.evidence.absence_reason
    pub error_message : after.evidence.error_message ≡ before.evidence.error_message
    pub no_content : after.evidence.content ≡ none
    pub span : Unquoted before.evidence.span after.evidence.span
    pub payload_hash : Hashed before.evidence.payload_hash (digest text) after.evidence.payload_hash
    pub marked : (after.redacted_at ≡ some at) × (after.redaction_reason ≡ some reason)

  -- A row is the same when it has no inline text, and redacted when it has some.
  abbrev RowRedaction : EvidenceRow → EvidenceRow → Type 0
  RowRedaction r r' =
      ((inline_text r.evidence ≡ none) × (r' ≡ r))
      ⊎ ((text : Text) × ((inline_text r.evidence ≡ some text) × IsRedacted text r r'))

  abbrev pub Redaction : Option EvidenceRow → Option EvidenceRow → Type 0
  Redaction none none = Unit
  Redaction none (some r) = ⊥
  Redaction (some r) none = ⊥
  Redaction (some r) (some r') = RowRedaction r r'

  IsRedacted-no_text :
      (text : Text) (r r' : EvidenceRow) → IsRedacted text r r' → inline_text r'.evidence ≡ none
  IsRedacted-no_text text r r' h = go (is_present r'.evidence.availability) (
      ap (λ c. text_or c (quote_of r'.evidence.span)) h.no_content
      ∙ quote r.evidence.span r'.evidence.span h.span)
    where
      quote : (s t : Option TextSpan) → Unquoted s t → quote_of t ≡ none
      quote none none u = refl
      quote (some s) (some t) u = u.1.1
      quote none (some t) u = absurd u
      quote (some s) none u = absurd u

      go :
          (b : Bool)
          → text_or r'.evidence.content (quote_of r'.evidence.span) ≡ none
          → (if b then text_or r'.evidence.content (quote_of r'.evidence.span) else none) ≡ none
      go true e = e
      go false e = refl

  -- a second redaction finds nothing to redact
  Redaction-trans : (a b c : Option EvidenceRow) → Redaction a b → Redaction b c → Redaction a c
  Redaction-trans none none c h k = k
  Redaction-trans none (some r) c h k = absurd h
  Redaction-trans (some r) none c h k = absurd h
  Redaction-trans (some r) (some s) none h k = k
  Redaction-trans (some r) (some s) (some t) h k = go h k
    where
      go : RowRedaction r s → RowRedaction s t → RowRedaction r t
      go (inl (no_text, same)) k = subst (λ x. RowRedaction x t) same k
      go (inr (text, (found, h))) (inl (no_text, same)) =
          inr (text, (found, subst (IsRedacted text r) (sym same) h))
      go (inr (text, (found, h))) (inr (other, (again, k))) =
          absurd (some-ne-none other (sym again ∙ IsRedacted-no_text text r s h))

  Redaction-none : (o : Option EvidenceRow) → text_of o ≡ none → Redaction o o
  Redaction-none none e = tt
  Redaction-none (some r) e = inl (e, refl)

  Redaction-no_text : (a b : Option EvidenceRow) → Redaction a b → text_of b ≡ none
  Redaction-no_text none none h = refl
  Redaction-no_text none (some r) h = absurd h
  Redaction-no_text (some r) none h = absurd h
  Redaction-no_text (some r) (some s) (inl (no_text, same)) =
      ap (λ x. inline_text x.evidence) same ∙ no_text
  Redaction-no_text (some r) (some s) (inr (text, (found, h))) = IsRedacted-no_text text r s h

redacted_row-IsRedacted :
    (env : Env) (reason : Text) (at : Time) (r : EvidenceRow) (text : Text)
    → IsRedacted env.digest reason at text r (redacted_row env reason at r text)
redacted_row-IsRedacted env reason at r text = record {
  evidence_id = refl;
  source_type = refl;
  source_locator = refl;
  observed_at = refl;
  valid_time = refl;
  availability = refl;
  absence_reason = refl;
  error_message = refl;
  no_content = refl;
  span = unquoted r.evidence.span;
  payload_hash = hashed r.evidence.payload_hash;
  marked = (refl, refl);
}
  where
    unquoted : (s : Option TextSpan) → Unquoted s (without_quote s)
    unquoted none = tt
    unquoted (some s) = (refl, (refl, refl))

    hashed : (h : Option Text) → Hashed h (env.digest text) (some (hash_or h (env.digest text)))
    hashed none = refl
    hashed (some []) = refl
    hashed (some (c ∷ t)) = refl

-- The redaction of one item: what becomes of it, and that a hash is returned when it had a text.
redact_one-Redaction :
    (env : Env) (id reason : Text) (at : Time) (w : World) {o : Option Text}
    → (redact_evidence env id reason at w).0 ≡ ok o
    → let w' = (redact_evidence env id reason at w).1 in
      Redaction env.digest reason at
        (find_item id w.registry.items)
        (find_item id w'.registry.items)
      × (is_some o ≡ is_some (text_under id w.registry.items))
redact_one-Redaction env id reason at w {o} h = elim (redact_evidence-Redacts env id reason at w) [
  | faulted e r t ↦ cc (h, r)
  | untouched r none_there (l, g) ↦
      (let no_text = still (find_item id w.registry.items) none_there in
        (
          subst
              (λ t.
                Redaction env.digest reason at (find_item id w.registry.items)
                  (find_item id t.items))
              (sym g) (Redaction-none env.digest reason at (find_item id w.registry.items) no_text),
          ap is_some (ok-injective (sym h ∙ r)) ∙ sym (ap is_some no_text),
        ))
  | replaced row text found has r l refs items ↦
      (let now =
          ap (find_item id) items
          ∙ find_item-update id (redacted_row env reason at row text) row w.registry.items found
              (find_item-id id w.registry.items row found) in
        (
          subst
              (λ p.
                Redaction env.digest reason at p
                  (find_item id (redact_evidence env id reason at w).1.registry.items))
              (sym found)
              (subst (Redaction env.digest reason at (some row)) (sym now)
                (inr (text, (has, redacted_row-IsRedacted env reason at row text)))),
          ap is_some (ok-injective (sym h ∙ r)) ∙ sym (ap is_some (ap text_of found ∙ has)),
        ))
]
  where
    still :
        (o : Option EvidenceRow)
        → ((r : EvidenceRow) → o ≡ some r → inline_text r.evidence ≡ none)
        → text_of o ≡ none
    still none f = refl
    still (some r) f = f r refl

-- What becomes of the items that pass, and which ids the list of redacted ones has.
pub record Marks (env : Env) (reason : Text) (at : Time) (test : Text → Bool) (u v : World)
    (hs : List (Text × Text)) : Type 0 where
  pub redacted :
      (x : Text)
      → test x ≡ true
      → Redaction env.digest reason at (find_item x u.registry.items) (find_item x v.registry.items)
  pub reported :
      (x : Text) → any (λ h. h.0 == x) hs ≡ (test x && is_some (text_under x u.registry.items))

any-add_redacted :
    (id x : Text) (o : Option Text) (hs : List (Text × Text))
    → any (λ h. h.0 == x) (add_redacted id o hs)
      ≡ (text_beq id x && is_some o) || any (λ h. h.0 == x) hs
any-add_redacted id x none hs = ground arith
any-add_redacted id x (some h) hs = ground arith

module _ (env : Env) (orphans : List Text) (reason : Text) (at : Time) where
  one_round :
      (id : Text) (b : Bool) (w : World) {o : Option Text}
      → is_among orphans id ≡ b
      → ((if b then redact_evidence env id reason at else pure none) w).0 ≡ ok o
      → (let w' = ((if b then redact_evidence env id reason at else pure none) w).1 in
          (is_among orphans id ≡ true
            → Redaction env.digest reason at
                (find_item id w.registry.items)
                (find_item id w'.registry.items))
          × (is_some o ≡ (is_among orphans id && is_some (text_under id w.registry.items))))
  unfolding pure
  one_round id true w {o} m h =
      let (r, s) = redact_one-Redaction env id reason at w h in
      (λ e. r, s ∙ ap (λ b. b && is_some (text_under id w.registry.items)) (sym m))
  one_round id false w {o} m h = (
    λ e. absurd (true≢false (sym e ∙ m)),
    sym (ap is_some (ok-injective h))
        ∙ ap (λ b. b && is_some (text_under id w.registry.items)) (sym m),
  )

  here :
      (s a i o t m : Bool)
      → s ≡ (o && t)
      → a ≡ ((i && o) && m)
      → (o ≡ true → m ≡ false)
      → (s || a) ≡ (o && t)
  here s a i true t m e f g = ground (arith, e, f, g refl)
  here s a i false t m e f g = ground (arith, e, f)

  module _ (id : Text) (ids : List Text) (o : Option Text) (rest : List (Text × Text))
      (u mid v : World) (first : Removed (λ x. text_beq id x && is_among orphans x) u mid)
      (later : Removed (λ x. is_among ids x && is_among orphans x) mid v)
      (round : (is_among orphans id ≡ true
          → Redaction env.digest reason at
              (find_item id u.registry.items)
              (find_item id mid.registry.items))
        × (is_some o ≡ (is_among orphans id && is_some (text_under id u.registry.items))))
      (next : Marks env reason at (λ x. is_among ids x && is_among orphans x) mid v rest) where
    abbrev Becomes : Text → World → World → Type 0
    Becomes x s t =
        Redaction env.digest reason at (find_item x s.registry.items) (find_item x t.registry.items)

    at_once : (x : Text) → text_beq id x ≡ true → is_among orphans x ≡ true → Becomes x u mid
    at_once x same orphan =
        let path = (text_beq_iff id x).0 same in
        subst (λ y. Becomes y u mid) path (round.0 (ap (is_among orphans) path ∙ orphan))

    redacted_both :
        (x : Text)
        → ((text_beq id x || is_among ids x) && is_among orphans x) ≡ true
        → Becomes x u v
    redacted_both x t = elim (Bool-cases (text_beq id x)) [
      | inl same ↦ elim (Bool-cases (is_among ids x)) [
        | inl again ↦
            Redaction-trans env.digest reason at _ _ _ (at_once x same (ground arith))
              (next.redacted x (ground arith))
        | inr once ↦
            subst (Redaction env.digest reason at (find_item x u.registry.items))
              (sym (later.kept x (ground arith))) (at_once x same (ground arith))
      ]
      | inr differ ↦
          subst (λ p. Redaction env.digest reason at p (find_item x v.registry.items))
            (first.kept x (ground arith)) (next.redacted x (ground arith))
    ]

    reported_both :
        (x : Text)
        → any (λ h. h.0 == x) (add_redacted id o rest) ≡ (
            ((text_beq id x || is_among ids x) && is_among orphans x)
            && is_some (text_under x u.registry.items))
    reported_both x = any-add_redacted id x o rest ∙ elim (Bool-cases (text_beq id x)) [
      | inl same ↦
          (let path = (text_beq_iff id x).0 same in
            let now =
              here (is_some o) (any (λ h. h.0 == x) rest) (is_among ids x) (is_among orphans x)
                (is_some (text_under x u.registry.items))
                (is_some (text_under x mid.registry.items))
                (round.1
                  ∙ ap (λ y. is_among orphans y && is_some (text_under y u.registry.items)) path)
                (next.reported x)
                (λ orphan.
                  ap is_some
                    (Redaction-no_text env.digest reason at _ _ (at_once x same orphan))) in
            ground (arith, same, now))
      | inr differ ↦
          (let still =
              next.reported x
              ∙ ap (λ p. (is_among ids x && is_among orphans x) && is_some (text_of p))
                  (first.kept x (ground arith)) in
            ground (arith, differ, still))
    ]

  pub redact_loop-Marks :
      (ids : List Text) (w : World) {hs : List (Text × Text)}
      → (redact_loop env ids orphans reason at w).0 ≡ ok hs
      → Marks env reason at
          (λ x. is_among ids x && is_among orphans x)
          w
          (redact_loop env ids orphans reason at w).1
          hs
  unfolding redact_loop pure
  redact_loop-Marks [] w h = record {
    redacted = λ x t. absurd (true≢false (sym t));
    reported = λ x. ap (any (λ h. h.0 == x)) (sym (ok-injective h));
  }
  redact_loop-Marks (id ∷ ids) w h =
      let m = (if is_among orphans id then redact_evidence env id reason at else pure none) in
      let (o, e1, h1, q1) = >>=-eq-ok m _ w h in
      let (rest, e2, h2, q2) = >>=-eq-ok (redact_loop env ids orphans reason at) _ (m w).1 h1 in
      let mid = (m w).1 in
      subst
        (Marks env reason at (λ x. is_among (id ∷ ids) x && is_among orphans x) w
          (redact_loop env (id ∷ ids) orphans reason at w).1)
        (ok-injective h2)
        (rw (q1, q2)
          (record {
            redacted =
                redacted_both id ids o rest w mid (redact_loop env ids orphans reason at mid).1
                  (redact_if-Removed env orphans reason at id (is_among orphans id) w refl e1)
                  (redact_loop-Removed env orphans reason at ids mid e2)
                  (one_round id (is_among orphans id) w refl e1) (redact_loop-Marks ids mid e2);
            reported =
                reported_both id ids o rest w mid (redact_loop env ids orphans reason at mid).1
                  (redact_if-Removed env orphans reason at id (is_among orphans id) w refl e1)
                  (redact_loop-Removed env orphans reason at ids mid e2)
                  (one_round id (is_among orphans id) w refl e1) (redact_loop-Marks ids mid e2);
          }))
