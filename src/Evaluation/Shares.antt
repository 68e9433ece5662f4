-- ===== src/Evaluation/Shares.antt =====
-- The values of the metrics of src/kg_eval/metrics.py: when there is one, and how large it is.
use agentic_kgis.Prelude.{
  ℕ, zero, suc, ◌+◌, ◌*◌, ◌≤◌, ◌<◌, Bool, true, false, not, ◌≡◌, refl, sym, ap, ◌∙◌, subst, arith,
  Option, none, some, is_some, List, Text, nat_beq, nat_beq_iff, if◌then◌else◌,
}
use mathlib.Core.Logic.{◌⊎◌, inl, inr}
use native.Mathlib.Nat.{mul-add, mul_assoc, mul_comm, zero-mul, mul-pos, mul-le-mul_left}
use agentic_kgis.Evaluation.{CategoryMatch}
use agentic_kgis.Evaluation.Metrics.{
  Ratio, divide, zero_ratio, MetricValue, Prf, f1_score, harmonic_mean, measured, insufficient,
  f1_of, interval, prf, share,
}

-- a number from zero to one
abbrev pub IsProportion : Ratio → Type 0
IsProportion r = (0 < r.denominator) × (r.numerator ≤ r.denominator)

abbrev Proportional : Option Ratio → Type 0
Proportional none = Unit
Proportional (some r) = IsProportion r

abbrev SameRatio : Ratio → Ratio → Type 0
SameRatio a b = a.numerator * b.denominator ≡ b.numerator * a.denominator

-- A metric that is measured has a value from zero to one and no note; one that is not has a note
-- and no value.
pub record IsHonest {C : Type 0} (v : MetricValue C) : Type 0 where
  pub has_value : is_some v.value ≡ v.sufficient
  pub has_note : is_some v.note ≡ not v.sufficient
  pub proportional : Proportional v.value

zero-IsProportion : IsProportion zero_ratio
zero-IsProportion = (omega arith, omega arith)

positive : (n : ℕ) → nat_beq n 0 ≡ false → 0 < n
positive n e = ground (arith, e)

f1_score-IsProportion :
    (p r : Ratio) → IsProportion p → IsProportion r → IsProportion (f1_score p r)
unfolding f1_score
f1_score-IsProportion p r h k = go (nat_beq whole 0) refl
  where
    whole : ℕ
    whole = p.numerator * r.denominator + r.numerator * p.denominator

    half : 2 * p.numerator * r.numerator ≤ whole
    half =
        let first = mul-le-mul_left p.numerator k.1 in
        let second = mul-le-mul_left r.numerator h.1 in
        omega (
          arith,
          first,
          second,
          mul_assoc 2 p.numerator r.numerator,
          mul_comm p.numerator r.numerator,
        )

    go :
        (b : Bool)
        → nat_beq whole 0 ≡ b
        → IsProportion (if b then zero_ratio else harmonic_mean p r)
    go true e = zero-IsProportion
    go false e = (positive whole e, half)

-- what an F1 is of three counts: it is missing when nothing was produced or nothing is gold, and
-- otherwise twice the true positives in twice the true positives and the two kinds of errors
abbrev pub IsF1 : CategoryMatch → Option Ratio → Type 0
IsF1 m none = (m.tp + m.fp ≡ 0) ⊎ (m.tp + m.fn ≡ 0)
IsF1 m (some q) =
    ((0 < m.tp + m.fp) × (0 < m.tp + m.fn))
    × ((0 < q.denominator) × SameRatio q (divide (2 * m.tp) (2 * m.tp + m.fp + m.fn)))

f1_score-IsF1 :
    (m : CategoryMatch)
    → 0 < m.tp + m.fp
    → 0 < m.tp + m.fn
    → IsF1 m (some (f1_score (divide m.tp (m.tp + m.fp)) (divide m.tp (m.tp + m.fn))))
unfolding f1_score
f1_score-IsF1 m h k = go (nat_beq whole 0) refl
  where
    whole : ℕ
    whole = m.tp * (m.tp + m.fn) + m.tp * (m.tp + m.fp)

    twice : whole ≡ m.tp * (2 * m.tp + m.fp + m.fn)
    twice = sym (mul-add m.tp (m.tp + m.fn) (m.tp + m.fp)) ∙ ap (λ n. m.tp * n) (omega arith)

    no_hits : (t : ℕ) → t * (m.tp + m.fn) + t * (m.tp + m.fp) ≡ 0 → t ≡ 0
    no_hits zero e = refl
    no_hits (suc t) e =
        absurd (omega (arith, e, mul-pos {m = suc t} {n = m.tp + m.fp} (omega arith) h))

    go :
        (b : Bool)
        → nat_beq whole 0 ≡ b
        → IsF1 m (
            some (
              if b
              then zero_ratio
              else harmonic_mean (divide m.tp (m.tp + m.fp)) (divide m.tp (m.tp + m.fn))))
    go true e =
        let none_hit = no_hits m.tp ((nat_beq_iff whole 0).0 e) in
        ((h, k), (omega arith, omega (arith, none_hit, zero-mul (2 * m.tp + m.fp + m.fn))))
    go false e = (
      (h, k),
      (positive whole e, mul_assoc (2 * m.tp) m.tp _ ∙ ap (λ n. 2 * m.tp * n) (sym twice)),
    )

f1_of-IsF1 :
    (C : Type 0) (m : CategoryMatch) (category : Text)
    → (b c : Bool) → nat_beq (m.tp + m.fp) 0 ≡ b
    → nat_beq (m.tp + m.fn) 0 ≡ c
    → IsF1 m
        (f1_of {C = C} category
          (if b then none else some (divide m.tp (m.tp + m.fp)))
          (if c then none else some (divide m.tp (m.tp + m.fn)))).value
f1_of-IsF1 C m category true true d e = inl ((nat_beq_iff _ _).0 d)
f1_of-IsF1 C m category true false d e = inl ((nat_beq_iff _ _).0 d)
f1_of-IsF1 C m category false true d e = inr ((nat_beq_iff _ _).0 e)
f1_of-IsF1 C m category false false d e = f1_score-IsF1 m (positive _ d) (positive _ e)

pair_eq :
    {a b c d : Option Ratio} → a ≡ b → c ≡ d → Path (Option Ratio × Option Ratio) (a, c) (b, d)
pair_eq {a} {b} {c} {d} p q = ap (λ x. (x, c)) p ∙ ap (λ y. (b, y)) q

module _ {C : Type 0} where
  measured-IsHonest : (r : Ratio) (ci : Option C) → IsProportion r → IsHonest (measured r ci)
  measured-IsHonest r ci h = record { has_value = refl; has_note = refl; proportional = h }

  insufficient-IsHonest : (note : Text) → IsHonest {C = C} (insufficient note)
  insufficient-IsHonest note = record { has_value = refl; has_note = refl; proportional = tt }

  part-IsHonest :
      (part whole : ℕ) (note : Text) (ci : Option C)
      → part ≤ whole
      → IsHonest (if nat_beq whole 0 then insufficient note else measured (divide part whole) ci)
  part-IsHonest part whole note ci h = go (nat_beq whole 0) refl
    where
      go :
          (b : Bool)
          → nat_beq whole 0 ≡ b
          → IsHonest (if b then insufficient note else measured (divide part whole) ci)
      go true e = insufficient-IsHonest note
      go false e = measured-IsHonest (divide part whole) ci (positive whole e, h)

  pub share-IsHonest :
      (part whole : ℕ) (note : Text) → part ≤ whole → IsHonest {C = C} (share part whole note)
  share-IsHonest part whole note h = part-IsHonest part whole note none h

  f1_of-IsHonest :
      (category : Text) (p r : Option Ratio)
      → Proportional p
      → Proportional r
      → IsHonest {C = C} (f1_of category p r)
  f1_of-IsHonest category none none h k = insufficient-IsHonest _
  f1_of-IsHonest category none (some r) h k = insufficient-IsHonest _
  f1_of-IsHonest category (some p) none h k = insufficient-IsHonest _
  f1_of-IsHonest category (some p) (some r) h k =
      measured-IsHonest (f1_score p r) none (f1_score-IsProportion p r h k)

  -- the three metrics of a category
  pub record AreHonest (r : Prf C) : Type 0 where
    pub precision_honest : IsHonest r.precision
    pub recall_honest : IsHonest r.recall
    pub f1_honest : IsHonest r.f1

  pub prf-AreHonest :
      (m : CategoryMatch) (category : Text) (boot : Option (List ℕ → Option C))
      → AreHonest (prf m category boot)
  unfolding prf
  prf-AreHonest m category boot =
      let right : m.tp ≤ m.tp + m.fp = omega arith in
      let found : m.tp ≤ m.tp + m.fn = omega arith in
      let p = part-IsHonest m.tp (m.tp + m.fp) _ (interval boot m.candidate_hits) right in
      let r = part-IsHonest m.tp (m.tp + m.fn) _ (interval boot m.gold_hits) found in
      record {
        precision_honest = p;
        recall_honest = r;
        f1_honest = f1_of-IsHonest category _ _ p.proportional r.proportional;
      }

  value_if :
      (b : Bool) (note : Text) (r : Ratio) (ci : Option C)
      → (if b then insufficient note else measured r ci).value ≡ (if b then none else some r)
  value_if true note r ci = refl
  value_if false note r ci = refl

  -- The F1 of a category is missing exactly when no candidate was produced or no item is gold, and
  -- otherwise it is the ratio of twice the true positives to twice the true positives, the false
  -- positives and the false negatives together.
  pub prf-IsF1 :
      (m : CategoryMatch) (category : Text) (boot : Option (List ℕ → Option C))
      → IsF1 m (prf m category boot).f1.value
  unfolding prf
  prf-IsF1 m category boot =
      subst (λ p. IsF1 m (f1_of {C = C} category p.0 p.1).value)
        (sym (pair_eq (value_if _ _ _ _) (value_if _ _ _ _)))
        (f1_of-IsF1 C m category _ _ refl refl)
