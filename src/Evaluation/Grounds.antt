-- ===== src/Evaluation/Grounds.antt =====
-- The counts of src/kg_eval/metrics.py of candidates without evidence that grounds or verifies them.
use agentic_kgis.Prelude.{
  ◌≤◌, Bool, true, false, not, ◌≡◌, refl, sym, arith, List, [], ◌∷◌, any, keep, length, length-keep,
  if◌then◌else◌,
}
use mathlib.Core.Bool.{true≢false}
use agentic_kgis.Evidence.{
  EvidenceRelationship, supports, contradicts, derived_from, contextualizes, EvidenceRef,
}
use agentic_kgis.Evaluation.Spans.{
  ArmOutput, present_evidence_refs, grounds, verifies, lacks, unsupported_assertions,
  unverified_assertions,
}

module _ {A : Type 0} where
  -- a test that holds wherever another does keeps no fewer
  keep_mono :
      (P Q : A → Bool)
      → ((x : A) → P x ≡ true → Q x ≡ true)
      → (xs : List A) → length (keep P xs) ≤ length (keep Q xs)
  keep_mono P Q i [] = omega arith
  keep_mono P Q i (x ∷ xs) = go (P x) (Q x) (i x) (keep_mono P Q i xs)
    where
      go :
          (b c : Bool)
          → (b ≡ true → c ≡ true)
          → length (keep P xs) ≤ length (keep Q xs)
          → length (if b then x ∷ keep P xs else keep P xs)
            ≤ length (if c then x ∷ keep Q xs else keep Q xs)
      go true true j h = omega (arith, h)
      go true false j h = absurd (true≢false (sym (j refl)))
      go false true j h = omega (arith, h)
      go false false j h = h

verifies-grounds : (r : EvidenceRelationship) → verifies r ≡ true → grounds r ≡ true
verifies-grounds supports e = refl
verifies-grounds contradicts e = absurd (true≢false (sym e))
verifies-grounds derived_from e = refl
verifies-grounds contextualizes e = absurd (true≢false (sym e))

any_mono :
    (refs : List EvidenceRef)
    → any (λ ref. grounds ref.relationship) refs ≡ false
    → any (λ ref. verifies ref.relationship) refs ≡ false
any_mono [] e = refl
any_mono (r ∷ refs) e = ground (arith, any_mono refs, verifies-grounds r.relationship)

pub unsupported_le :
    (output : ArmOutput) → unsupported_assertions output ≤ unverified_assertions output
unfolding unsupported_assertions unverified_assertions
unsupported_le output =
    keep_mono (lacks grounds output.evidence) (lacks verifies output.evidence)
      (λ c e. weaker (present_evidence_refs output.evidence c) e) output.candidates
  where
    weaker :
        (refs : List EvidenceRef)
        → not (any (λ ref. grounds ref.relationship) refs) ≡ true
        → not (any (λ ref. verifies ref.relationship) refs) ≡ true
    weaker refs e = ground (arith, any_mono refs)

pub unverified_le : (output : ArmOutput) → unverified_assertions output ≤ length output.candidates
unfolding unverified_assertions
unverified_le output = length-keep (lacks verifies output.evidence) output.candidates
