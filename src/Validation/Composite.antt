-- ===== src/Validation/Composite.antt =====
-- The composite validator: `CompositeRecordValidator` of src/kgis/validate.py, against all the
-- decisions that it merges.
use agentic_kgis.Prelude.{
  Bool, true, false, not, ◌&&◌, ◌||◌, ◌≡◌, refl, sym, ap, ◌∙◌, subst, inl, inr, ◌↔◌, Option, none,
  some, List, [], ◌∷◌, ◌++◌, Text, text_eq, text_beq, text_beq_refl, text_beq_iff, or_nothing, all,
  is_some, has_text, has_text_iff, In, All, AreDistinct, or_false, if◌then◌else◌, Bool-cases,
}
use mathlib.Core.Bool.{true≢false}
use mathlib.Core.List.{append_assoc, append-nil}
use agentic_kgis.Validation.{
  FailureKind, NormalizedRecord, RecordValidation, RecordValidator, failure_kind_matches,
  dedupe_from, dedupe, Merged, merge_one, merge_all, first_kind, nothing_merged,
  composite_record_validator,
}

dedupe_from_iff :
    (x : Text) (seen vs : List Text)
    → In x (dedupe_from seen vs) ↔ (In x vs × (has_text x seen ≡ false))
unfolding dedupe_from
dedupe_from_iff x seen [] = (λ h. absurd h, λ p. absurd p.0)
dedupe_from_iff x seen (v ∷ vs) = elim (Bool-cases (has_text v seen)) [
  | inl e ↦ rw e (
    λ h. let q = (dedupe_from_iff x seen vs).0 h in (inr q.0, q.1),
    λ p. elim p.0 [
      | inl s ↦ absurd (true≢false (sym e ∙ ap (λ t. has_text t seen) (sym s) ∙ p.1))
      | inr h ↦ (dedupe_from_iff x seen vs).1 (h, p.1)
    ],
  )
  | inr e ↦ rw e (
    λ h. elim h [
      | inl s ↦ (inl s, ap (λ t. has_text t seen) s ∙ e)
      | inr later ↦
          (let q = (dedupe_from_iff x (v ∷ seen) vs).0 later in
            (inr q.0, (or_false (text_beq v x) (has_text x seen) q.1).1))
    ],
    λ p. elim p.0 [
      | inl s ↦ inl s
      | inr h ↦ elim (Bool-cases (text_beq v x)) [
        | inl s ↦ inl (sym ((text_beq_iff v x).0 s))
        | inr n ↦
            inr ((dedupe_from_iff x (v ∷ seen) vs).1 (h, ap (λ b. b || has_text x seen) n ∙ p.1))
      ]
    ],
  )
]

-- what was seen is not kept
dedupe_from-seen :
    (x : Text) (seen vs : List Text)
    → has_text x seen ≡ true
    → has_text x (dedupe_from seen vs) ≡ false
dedupe_from-seen x seen vs e = elim (Bool-cases (has_text x (dedupe_from seen vs))) [
  | inl h ↦ absurd (
      true≢false
        (sym e ∙ ((dedupe_from_iff x seen vs).0 ((has_text_iff x (dedupe_from seen vs)).0 h)).1))
  | inr h ↦ h
]

dedupe_from-AreDistinct : (seen vs : List Text) → AreDistinct (dedupe_from seen vs)
unfolding dedupe_from
dedupe_from-AreDistinct seen [] = tt
dedupe_from-AreDistinct seen (v ∷ vs) = elim (Bool-cases (has_text v seen)) [
  | inl e ↦ rw e (dedupe_from-AreDistinct seen vs)
  | inr e ↦ rw e (
    dedupe_from-seen v (v ∷ seen) vs (ap (λ b. b || has_text v seen) (text_beq_refl v)),
    dedupe_from-AreDistinct (v ∷ seen) vs,
  )
]

-- the reasons that a decision contributes
abbrev pub given_reasons : RecordValidation → List Text
given_reasons d = if not d.valid then d.reasons else []

merge_one-reasons :
    (d : RecordValidation) (m : Merged) → (merge_one d m).reasons ≡ m.reasons ++ given_reasons d
unfolding merge_one
merge_one-reasons d m = elim (Bool-cases d.valid) [
  | inl e ↦ rw e (sym (append-nil m.reasons))
  | inr e ↦ rw e refl
]

merge_one-warnings :
    (d : RecordValidation) (m : Merged) → (merge_one d m).warnings ≡ m.warnings ++ d.warnings
unfolding merge_one
merge_one-warnings d m = elim (Bool-cases d.valid) [ inl e ↦ rw e refl | inr e ↦ rw e refl ]

first_kind-given :
    (old new : Option FailureKind) (rest : Bool)
    → failure_kind_matches false new ≡ true
    → is_some (first_kind old new) || rest ≡ is_some old || true
unfolding failure_kind_matches
first_kind-given none none rest h = absurd (true≢false (sym h))
first_kind-given none (some k) rest h = refl
first_kind-given (some k) new rest h = refl

merge_one-failure_kind :
    (d : RecordValidation) (m : Merged) (rest : Bool)
    → failure_kind_matches d.valid d.failure_kind ≡ true
    → is_some (merge_one d m).failure_kind || not rest
      ≡ is_some m.failure_kind || not (d.valid && rest)
unfolding merge_one
merge_one-failure_kind d m rest h = elim (Bool-cases d.valid) [
  | inl e ↦ rw e refl
  | inr e ↦ rw e (
      first_kind-given m.failure_kind d.failure_kind (not rest)
        (ap (λ b. failure_kind_matches b d.failure_kind) (sym e) ∙ h))
]

module _ {V : Type 0} (r : NormalizedRecord V) where
  abbrev pub all_reasons : List (RecordValidator V) → List Text
  all_reasons [] = []
  all_reasons (v ∷ vs) = given_reasons (v.validate r) ++ all_reasons vs

  abbrev pub all_warnings : List (RecordValidator V) → List Text
  all_warnings [] = []
  all_warnings (v ∷ vs) = (v.validate r).warnings ++ all_warnings vs

  merge_all-reasons :
      (vs : List (RecordValidator V)) (m : Merged)
      → (merge_all r vs m).reasons ≡ m.reasons ++ all_reasons vs
  unfolding merge_all merge_one
  merge_all-reasons [] m = sym (append-nil m.reasons)
  merge_all-reasons (v ∷ vs) m =
      merge_all-reasons vs (merge_one (v.validate r) m)
      ∙ ap (λ l. l ++ all_reasons vs) (merge_one-reasons (v.validate r) m)
      ∙ append_assoc m.reasons (given_reasons (v.validate r)) (all_reasons vs)

  merge_all-warnings :
      (vs : List (RecordValidator V)) (m : Merged)
      → (merge_all r vs m).warnings ≡ m.warnings ++ all_warnings vs
  unfolding merge_all merge_one
  merge_all-warnings [] m = sym (append-nil m.warnings)
  merge_all-warnings (v ∷ vs) m =
      merge_all-warnings vs (merge_one (v.validate r) m)
      ∙ ap (λ l. l ++ all_warnings vs) (merge_one-warnings (v.validate r) m)
      ∙ append_assoc m.warnings (v.validate r).warnings (all_warnings vs)

  merge_all-failure_kind :
      (vs : List (RecordValidator V)) (m : Merged)
      → All (λ v. failure_kind_matches (v.validate r).valid (v.validate r).failure_kind ≡ true) vs
      → is_some (merge_all r vs m).failure_kind
        ≡ is_some m.failure_kind || not (all (λ v. (v.validate r).valid) vs)
  unfolding merge_all merge_one failure_kind_matches
  merge_all-failure_kind [] m h = or_nothing (is_some m.failure_kind)
  merge_all-failure_kind (v ∷ vs) m h =
      merge_all-failure_kind vs (merge_one (v.validate r) m) h.1
      ∙ merge_one-failure_kind (v.validate r) m (all (λ w. (w.validate r).valid) vs) h.0

  -- What a merged decision says of the decisions that it merges.
  pub record Merges (vs : List (RecordValidator V)) (d : RecordValidation) : Type 0 where
    pub decides : d.valid ≡ all (λ v. (v.validate r).valid) vs
    pub coherent : failure_kind_matches d.valid d.failure_kind ≡ true
    pub explains : (x : Text) → In x d.reasons ↔ In x (all_reasons vs)
    pub warns : (x : Text) → In x d.warnings ↔ In x (all_warnings vs)
    pub once : AreDistinct d.reasons × AreDistinct d.warnings

dedupe_iff : (x : Text) (vs : List Text) → In x (dedupe vs) ↔ In x vs
unfolding dedupe
dedupe_iff x vs =
    (λ h. ((dedupe_from_iff x [] vs).0 h).0, λ h. (dedupe_from_iff x [] vs).1 (h, refl))

coherent_lem : (kind : Option FailureKind) → failure_kind_matches (not (is_some kind)) kind ≡ true
unfolding failure_kind_matches
coherent_lem none = refl
coherent_lem (some k) = refl

not-not : (b : Bool) → not (not b) ≡ b
not-not true = refl
not-not false = refl

module _ {V : Type 0} where
  -- Where every validator's decision names a kind exactly when it fails, the composite accepts a
  -- record when all of them do, names a kind exactly when it fails, gives the reasons of the
  -- failing ones and the warnings of all, and says no reason and no warning twice.
  pub composite_record_validator-Merges :
      (vs : List (RecordValidator V)) (version : Option Text) (r : NormalizedRecord V)
      → All (λ v. failure_kind_matches (v.validate r).valid (v.validate r).failure_kind ≡ true) vs
      → Merges r vs ((composite_record_validator vs version).validate r)
  unfolding composite_record_validator dedupe
  composite_record_validator-Merges vs version r h =
      let merged = merge_all r vs nothing_merged in
      record {
        decides =
            ap not (merge_all-failure_kind r vs nothing_merged h)
            ∙ not-not (all (λ v. (v.validate r).valid) vs);
        coherent = coherent_lem merged.failure_kind;
        explains = λ x.
            subst (λ l. In x (dedupe merged.reasons) ↔ In x l)
              (merge_all-reasons r vs nothing_merged) (dedupe_iff x merged.reasons);
        warns = λ x.
            subst (λ l. In x (dedupe merged.warnings) ↔ In x l)
              (merge_all-warnings r vs nothing_merged) (dedupe_iff x merged.warnings);
        once =
            (dedupe_from-AreDistinct [] merged.reasons, dedupe_from-AreDistinct [] merged.warnings);
      }
