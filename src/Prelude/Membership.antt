-- ===== src/Prelude/Membership.antt =====
-- Membership in a list, as a sum of equations.
use mathlib.Core.Bool.{Bool, true, false, ◌||◌, true≢false}
use mathlib.Core.List.{List, [], ◌∷◌, ◌++◌}
use mathlib.Core.Logic.{◌⊎◌, inl, inr, ◌↔◌}
use mathlib.Core.Path.{◌≡◌, refl, sym, ap, ◌∙◌, subst}
use agentic_kgis.Prelude.Tests.{
  if◌then◌else◌, Text, text_beq, text_beq_iff, text_eq, Bool-cases, or_right, or_assoc, or_false,
  text_beq_sym,
}
use agentic_kgis.Prelude.Dicts.{
  has_text, or_empty, Dict, lookup-set-here, lookup-set-other, list_at, append_at,
  list_at-append_at,
}
use agentic_kgis.Prelude.Lists.{keep}

-- `x in xs`
abbrev pub In : {A : Type 0} → A → List A → Type 0
In x [] = ⊥
In x (y ∷ ys) = (x ≡ y) ⊎ In x ys

module _ {A : Type 0} where
  pub In-append : (x : A) (xs ys : List A) → In x (xs ++ ys) → In x xs ⊎ In x ys
  In-append x [] ys h = inr h
  In-append x (z ∷ zs) ys (inl e) = inl (inl e)
  In-append x (z ∷ zs) ys (inr h) = elim (In-append x zs ys h) [
    | inl a ↦ inl (inr a)
    | inr b ↦ inr b
  ]

  pub In-append-left : (x : A) (xs ys : List A) → In x xs → In x (xs ++ ys)
  In-append-left x [] ys h = absurd h
  In-append-left x (z ∷ zs) ys (inl e) = inl e
  In-append-left x (z ∷ zs) ys (inr h) = inr (In-append-left x zs ys h)

  pub In-append-right : (x : A) (xs ys : List A) → In x ys → In x (xs ++ ys)
  In-append-right x [] ys h = h
  In-append-right x (z ∷ zs) ys h = inr (In-append-right x zs ys h)

  pub In-keep :
      (test : A → Bool) (x : A) (xs : List A) → In x (keep test xs) ↔ (In x xs × (test x ≡ true))
  In-keep test x xs = (out xs, λ p. into xs p.0 p.1)
    where
      out : (ys : List A) → In x (keep test ys) → In x ys × (test x ≡ true)
      out [] h = absurd h
      out (y ∷ ys) h = elim (Bool-cases (test y)) [
        | inl e ↦ elim (subst (λ b. In x (if b then y ∷ keep test ys else keep test ys)) e h) [
          | inl same ↦ (inl same, ap test same ∙ e)
          | inr later ↦ (inr (out ys later).0, (out ys later).1)
        ]
        | inr e ↦
            (let q =
                out ys (subst (λ b. In x (if b then y ∷ keep test ys else keep test ys)) e h) in
              (inr q.0, q.1))
      ]

      into : (ys : List A) → In x ys → test x ≡ true → In x (keep test ys)
      into [] h t = absurd h
      into (y ∷ ys) (inl same) t = rw (ap test (sym same) ∙ t) (inl same)
      into (y ∷ ys) (inr later) t = elim (Bool-cases (test y)) [
        | inl e ↦ rw e (inr (into ys later t))
        | inr e ↦ rw e (into ys later t)
      ]

module _ {A : Type 0} where
  pub In-append_at :
      (key k : Text) (b a : A) (d : Dict (List A))
      → In b (list_at k (append_at key a d))
      → In b (list_at k d) ⊎ ((b ≡ a) × (key ≡ k))
  In-append_at key k b a d h = elim (Bool-cases (text_beq key k)) [
    | inl e ↦
        (let same = (text_beq_iff key k).0 e in
          elim (In-append b (list_at key d) (a ∷ []) (
            subst (λ l. In b l)
              (list_at-append_at key k a d
                ∙ ap (λ t. if t then list_at key d ++ a ∷ [] else list_at k d) e)
              h)) [
                | inl old ↦ inl (subst (λ t. In b (list_at t d)) same old)
                | inr (inl new) ↦ inr (new, same)
                | inr (inr none_left) ↦ absurd none_left
              ])
    | inr e ↦ inl (
        subst (λ l. In b l)
          (list_at-append_at key k a d
            ∙ ap (λ t. if t then list_at key d ++ a ∷ [] else list_at k d) e)
          h)
  ]

  pub In-append_at-new :
      (key : Text) (a : A) (d : Dict (List A)) → In a (list_at key (append_at key a d))
  In-append_at-new key a d =
      subst (λ l. In a l) (sym (ap or_empty (lookup-set-here key (list_at key d ++ a ∷ []) d)))
        (In-append-right a (list_at key d) (a ∷ []) (inl refl))

  pub In-append_at-old :
      (key k : Text) (b a : A) (d : Dict (List A))
      → In b (list_at k d)
      → In b (list_at k (append_at key a d))
  In-append_at-old key k b a d h = elim (Bool-cases (text_beq key k)) [
    | inl e ↦
        (let same = (text_beq_iff key k).0 e in
          subst (λ t. In b (list_at t (append_at key a d))) same
            (subst (λ l. In b l)
              (sym (ap or_empty (lookup-set-here key (list_at key d ++ a ∷ []) d)))
              (In-append-left b (list_at key d) (a ∷ [])
                (subst (λ t. In b (list_at t d)) (sym same) h))))
    | inr e ↦
        subst (λ l. In b l)
          (sym (ap or_empty (lookup-set-other key k (list_at key d ++ a ∷ []) d e))) h
  ]

pub has_text_iff : (t : Text) (ts : List Text) → (has_text t ts ≡ true) ↔ In t ts
has_text_iff t [] = (λ e. absurd (true≢false (sym e)), λ h. absurd h)
has_text_iff t (x ∷ xs) =
    (out (Bool-cases (text_beq x t)) (has_text_iff t xs).0, into (has_text_iff t xs).1)
  where
    out :
        (text_beq x t ≡ true) ⊎ (text_beq x t ≡ false)
        → (has_text t xs ≡ true → In t xs)
        → text_beq x t || has_text t xs ≡ true
        → (t ≡ x) ⊎ In t xs
    out (inl e) later h = inl (sym ((text_beq_iff x t).0 e))
    out (inr e) later h = inr (later (ap (λ b. b || has_text t xs) (sym e) ∙ h))

    into :
        (In t xs → has_text t xs ≡ true) → (t ≡ x) ⊎ In t xs → text_beq x t || has_text t xs ≡ true
    into later (inl e) = ap (λ b. b || has_text t xs) ((text_beq_iff x t).1 (sym e))
    into later (inr h) = or_right (text_beq x t) (has_text t xs) (later h)

-- no text twice
abbrev pub AreDistinct : List Text → Type 0
AreDistinct [] = Unit
AreDistinct (t ∷ ts) = (has_text t ts ≡ false) × AreDistinct ts

pub has_text-append :
    (t : Text) (xs ys : List Text) → has_text t (xs ++ ys) ≡ has_text t xs || has_text t ys
has_text-append t [] ys = refl
has_text-append t (x ∷ xs) ys =
    ap (λ b. text_beq x t || b) (has_text-append t xs ys)
    ∙ or_assoc (text_beq x t) (has_text t xs) (has_text t ys)

pub AreDistinct-snoc :
    (t : Text) (ts : List Text)
    → has_text t ts ≡ false
    → AreDistinct ts
    → AreDistinct (ts ++ t ∷ [])
AreDistinct-snoc t [] fresh d = (refl, tt)
AreDistinct-snoc t (x ∷ xs) fresh d =
    let split = or_false (text_beq x t) (has_text t xs) fresh in
    (
      has_text-append x xs (t ∷ [])
          ∙ ap (λ b. b || (text_beq t x || false)) d.0
          ∙ ap (λ b. b || false) (text_beq_sym t x ∙ split.0),
      AreDistinct-snoc t xs split.1 d.1,
    )
