-- ===== src/Prelude/Dicts.antt =====
-- Python dictionaries keyed by text: the entries in the order of insertion.
use mathlib.Core.Bool.{Bool, true, false}
use mathlib.Core.List.{List, [], ◌∷◌, ◌++◌, map}
use mathlib.Core.Option.{Option, none, some, some-ne-none, some_inj}
use mathlib.Core.Path.{◌≡◌, refl, ap, sym, ◌∙◌}
use mathlib.Core.Logic.{◌⊎◌, inl, inr}
use native.Mathlib.Omega.{arith}
use agentic_kgis.Prelude.Lists.{any}
use agentic_kgis.Prelude.Tests.{
  if◌then◌else◌, Text, text_beq, text_beq_iff, text_beq_refl, ◌==◌, text_eq, Bool-cases,
}

-- Equal texts answer every test alike.
pub text_beq_same : (a b x : Text) → text_beq a b ≡ true → text_beq a x ≡ text_beq b x
text_beq_same a b x e = ap (λ t. text_beq t x) ((text_beq_iff a b).0 e)

pub text_beq_join : (a b c : Text) → text_beq a c ≡ true → text_beq b c ≡ true → text_beq a b ≡ true
text_beq_join a b c p q =
    (text_beq_iff a b).1 ((text_beq_iff a c).0 p ∙ sym ((text_beq_iff b c).0 q))

-- `t in ts`
abbrev pub has_text : Text → List Text → Bool
has_text t = any (λ x. x == t)

abbrev pub Dict {ℓ} : Type ℓ → Type ℓ
Dict V = List (Text × V)

module _ {ℓ} {V : Type ℓ} where
  -- `d.get(key)`
  abbrev pub lookup : Text → Dict V → Option V
  lookup key [] = none
  lookup key (entry ∷ d) = if entry.0 == key then some entry.1 else lookup key d

  -- `d[key] = value`: in place for a key that is there, at the end for a new one
  abbrev pub set : Text → V → Dict V → Dict V
  set key value [] = (key, value) ∷ []
  set key value (entry ∷ d) =
      let rest = set key value d in if entry.0 == key then (entry.0, value) ∷ d else entry ∷ rest

  -- `d.values()`
  abbrev pub values : Dict V → List V
  values = map (λ entry. entry.1)

  pub lookup-set :
      (key x : Text) (value : V) (d : Dict V)
      → lookup x (set key value d) ≡ (if key == x then some value else lookup x d)
  lookup-set key x value [] = refl
  lookup-set key x value (entry ∷ d) =
      ground
        (arith, lookup-set key x value d, text_beq_same entry.0 key x, text_beq_join entry.0 key x)

module _ {ℓ} {A : Type ℓ} where
  abbrev pub or_empty : Option (List A) → List A
  or_empty none = []
  or_empty (some xs) = xs

  -- `d.get(key, [])`
  abbrev pub list_at : Text → Dict (List A) → List A
  list_at key d = or_empty (lookup key d)

  -- `d.setdefault(key, []).append(x)`
  abbrev pub append_at : Text → A → Dict (List A) → Dict (List A)
  append_at key x d = set key (list_at key d ++ x ∷ []) d

  pub list_at-append_at :
      (key k : Text) (x : A) (d : Dict (List A))
      → list_at k (append_at key x d) ≡ (if key == k then list_at key d ++ x ∷ [] else list_at k d)
  list_at-append_at key k x d = ground (arith, lookup-set key k (list_at key d ++ x ∷ []) d)

module _ {ℓ} {V : Type ℓ} where
  pub lookup-set-here : (key : Text) (v : V) (d : Dict V) → lookup key (set key v d) ≡ some v
  lookup-set-here key v d =
      lookup-set key key v d ∙ ap (λ b. if b then some v else lookup key d) (text_beq_refl key)

  pub lookup-set-other :
      (key x : Text) (v : V) (d : Dict V)
      → text_beq key x ≡ false
      → lookup x (set key v d) ≡ lookup x d
  lookup-set-other key x v d e = lookup-set key x v d ∙ ap (λ b. if b then some v else lookup x d) e

  pub lookup-set-fresh :
      (key x : Text) (v b : V) (d : Dict V)
      → lookup key d ≡ none
      → lookup x d ≡ some b
      → lookup x (set key v d) ≡ some b
  lookup-set-fresh key x v b d free h = elim (Bool-cases (text_beq key x)) [
    | inl e ↦
        absurd
          (some-ne-none b (sym h ∙ ap (λ t. lookup t d) (sym ((text_beq_iff key x).0 e)) ∙ free))
    | inr e ↦ lookup-set-other key x v d e ∙ h
  ]

  pub lookup-set-cases :
      (key x : Text) (v b : V) (d : Dict V)
      → lookup x (set key v d) ≡ some b
      → ((key ≡ x) × (v ≡ b)) ⊎ (lookup x d ≡ some b)
  lookup-set-cases key x v b d h = elim (Bool-cases (text_beq key x)) [
    | inl e ↦
        (let same = (text_beq_iff key x).0 e in
          inl (
            same,
            some_inj.0 (sym (lookup-set-here key v d) ∙ ap (λ t. lookup t (set key v d)) same ∙ h),
          ))
    | inr e ↦ inr (sym (lookup-set-other key x v d e) ∙ h)
  ]
