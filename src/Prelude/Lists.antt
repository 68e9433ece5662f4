-- ===== src/Prelude/Lists.antt =====
-- Lists measured by native numbers, searched by Boolean tests, and compared as prefixes.
use Prim.Native.Nat.{ℕ, suc, ◌+◌, ◌≤◌}
use mathlib.Core.Bool.{Bool, true, false, ◌&&◌, ◌||◌, true≢false}
use mathlib.Core.List.{List, [], ◌∷◌, ◌++◌, map, append-nil, append_assoc}
use mathlib.Core.Option.{Option, none, some}
use mathlib.Core.Path.{◌≡◌, refl, sym, ap, ◌∙◌}
use native.Mathlib.Omega.{arith}
use agentic_kgis.Prelude.Tests.{if◌then◌else◌, or_assoc}

module _ {ℓ} {A : Type ℓ} where
  abbrev pub length : List A → ℕ
  length [] = 0
  length (x ∷ xs) = suc (length xs)

  -- `any(test(x) for x in xs)`
  abbrev pub any : (A → Bool) → List A → Bool
  any test [] = false
  any test (x ∷ xs) = test x || any test xs

  abbrev pub all : (A → Bool) → List A → Bool
  all test [] = true
  all test (x ∷ xs) = test x && all test xs

  -- `[x for x in xs if test(x)]`
  abbrev pub keep : (A → Bool) → List A → List A
  keep test [] = []
  keep test (x ∷ xs) = if test x then x ∷ keep test xs else keep test xs

  -- the first element that passes
  abbrev pub first : (A → Bool) → List A → Option A
  first test [] = none
  first test (x ∷ xs) = if test x then some x else first test xs

  -- the first answer, or else the second
  abbrev pub or_else : Option A → Option A → Option A
  or_else none other = other
  or_else (some x) other = some x

  pub or_else-none : (o : Option A) → or_else o none ≡ o
  or_else-none none = refl
  or_else-none (some x) = refl

  pub first-append :
      (test : A → Bool) (xs : List A) (y : A)
      → first test (xs ++ y ∷ []) ≡ or_else (first test xs) (if test y then some y else none)
  first-append test [] y = refl
  first-append test (x ∷ xs) y = go (test x) (first-append test xs y)
    where
      go :
          (b : Bool)
          → first test (xs ++ y ∷ []) ≡ or_else (first test xs) (if test y then some y else none)
          → (if b then some x else first test (xs ++ y ∷ []))
            ≡ or_else (if b then some x else first test xs) (if test y then some y else none)
      go true e = refl
      go false e = e

  pub first-any : (test : A → Bool) (xs : List A) → any test xs ≡ false → first test xs ≡ none
  first-any test [] e = refl
  first-any test (x ∷ xs) e = go (test x) e (λ k. first-any test xs k)
    where
      go :
          (b : Bool)
          → b || any test xs ≡ false
          → (any test xs ≡ false → first test xs ≡ none)
          → (if b then some x else first test xs) ≡ none
      go true e rest = absurd (true≢false e)
      go false e rest = rest e

  pub length-append : (xs ys : List A) → length (xs ++ ys) ≡ length xs + length ys
  length-append [] ys = omega arith
  length-append (x ∷ xs) ys = omega (arith, length-append xs ys)

  pub length-keep : (test : A → Bool) (xs : List A) → length (keep test xs) ≤ length xs
  length-keep test [] = omega arith
  length-keep test (x ∷ xs) = go (test x) (length-keep test xs)
    where
      go :
          (b : Bool)
          → length (keep test xs) ≤ length xs
          → length (if b then x ∷ keep test xs else keep test xs) ≤ suc (length xs)
      go true h = omega (arith, h)
      go false h = omega (arith, h)

  pub any-append :
      (test : A → Bool) (xs ys : List A) → any test (xs ++ ys) ≡ any test xs || any test ys
  any-append test [] ys = refl
  any-append test (x ∷ xs) ys =
      ap (λ b. test x || b) (any-append test xs ys) ∙ or_assoc (test x) (any test xs) (any test ys)

  -- `xs` with some further elements behind it
  abbrev pub Extends : List A → List A → Type ℓ
  Extends xs ys = (more : List A) × (ys ≡ xs ++ more)

module _ {ℓ} {A : Type ℓ} where
  pub Extends-refl : (xs : List A) → Extends xs xs
  Extends-refl xs = ([], sym (append-nil xs))

  pub Extends-snoc : (xs : List A) (x : A) → Extends xs (xs ++ x ∷ [])
  Extends-snoc xs x = (x ∷ [], refl)

  pub Extends-trans : (xs ys zs : List A) → Extends xs ys → Extends ys zs → Extends xs zs
  Extends-trans xs ys zs (m, p) (n, q) = (m ++ n, q ∙ ap (λ l. l ++ n) p ∙ append_assoc xs m n)

-- A predicate of every element, as a tuple.
module _ {ℓ κ} {A : Type ℓ} (P : A → Type κ) where
  abbrev pub All : List A → Type κ
  All [] = Unit
  All (a ∷ rest) = P a × All rest

  pub All-append : (front back : List A) → All front → All back → All (front ++ back)
  All-append [] back _ h = h
  All-append (a ∷ front) back h k = (h.0, All-append front back h.1 k)

pub length-map {ℓ κ} :
    {A : Type ℓ} {B : Type κ} (f : A → B) (xs : List A) → length (map f xs) ≡ length xs
length-map f [] = refl
length-map f (x ∷ xs) = ap suc (length-map f xs)
