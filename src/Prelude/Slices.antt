-- ===== src/Prelude/Slices.antt =====
-- Slices of a list by positions, and the search of a text for another: `t[a:b]` and `str.find`.
use Prim.Native.Nat.{ℕ, zero, suc, ◌+◌, ◌-◌, ◌≤◌}
use mathlib.Core.List.{List, [], ◌∷◌, ◌++◌}
use mathlib.Core.Path.{◌≡◌, refl, sym, ap, ◌∙◌}
use native.Mathlib.Omega.{arith}
use agentic_kgis.Prelude.Lists.{length}

module _ {A : Type 0} where
  -- the first elements, and what follows them
  abbrev pub take : ℕ → List A → List A
  take zero xs = []
  take (suc n) [] = []
  take (suc n) (x ∷ xs) = x ∷ take n xs

  abbrev pub drop : ℕ → List A → List A
  drop zero xs = xs
  drop (suc n) [] = []
  drop (suc n) (x ∷ xs) = drop n xs

  -- `xs[start:end]`
  abbrev pub slice : ℕ → ℕ → List A → List A
  slice start end xs = take (end - start) (drop start xs)

  pub take-drop : (n : ℕ) (xs : List A) → take n xs ++ drop n xs ≡ xs
  take-drop zero xs = refl
  take-drop (suc n) [] = refl
  take-drop (suc n) (x ∷ xs) = ap (λ l. x ∷ l) (take-drop n xs)

  pub length-take : (n : ℕ) (xs : List A) → length (take n xs) ≤ n
  length-take zero xs = omega arith
  length-take (suc n) [] = omega arith
  length-take (suc n) (x ∷ xs) = omega (arith, length-take n xs)

  pub length-drop : (n : ℕ) (xs : List A) → length (drop n xs) ≤ length xs
  length-drop zero xs = omega arith
  length-drop (suc n) [] = omega arith
  length-drop (suc n) (x ∷ xs) = omega (arith, length-drop n xs)

  pub length-drop-eq : (n : ℕ) (xs : List A) → length (drop n xs) ≡ length xs - n
  length-drop-eq zero xs = omega arith
  length-drop-eq (suc n) [] = omega arith
  length-drop-eq (suc n) (x ∷ xs) = omega (arith, length-drop-eq n xs)

  pub length-take-le : (n : ℕ) (xs : List A) → n ≤ length xs → length (take n xs) ≡ n
  length-take-le zero xs h = omega arith
  length-take-le (suc n) [] h = absurd (omega (arith, h))
  length-take-le (suc n) (x ∷ xs) h = omega (arith, length-take-le n xs (omega (arith, h)))

  pub take-append : (xs ys : List A) → take (length xs) (xs ++ ys) ≡ xs
  take-append [] ys = refl
  take-append (x ∷ xs) ys = ap (λ l. x ∷ l) (take-append xs ys)

  pub drop-append : (xs ys : List A) → drop (length xs) (xs ++ ys) ≡ ys
  drop-append [] ys = refl
  drop-append (x ∷ xs) ys = drop-append xs ys

  drop-nil : (n : ℕ) → drop n [] ≡ []
  drop-nil zero = refl
  drop-nil (suc n) = refl

  pub drop-drop : (n m : ℕ) (xs : List A) → drop n (drop m xs) ≡ drop (m + n) xs
  drop-drop n zero xs = let e : n ≡ zero + n = omega arith in ap (λ k. drop k xs) e
  drop-drop n (suc m) [] = drop-nil n ∙ sym (drop-nil (suc m + n))
  drop-drop n (suc m) (x ∷ xs) =
      let e : suc (m + n) ≡ suc m + n = omega arith in
      drop-drop n m xs ∙ ap (λ k. drop k (x ∷ xs)) e

  -- a slice is the middle of a list that is put together
  pub slice-append :
      (front middle back : List A) (start end : ℕ)
      → start ≡ length front
      → end ≡ length front + length middle
      → slice start end (front ++ (middle ++ back)) ≡ middle
  slice-append front middle back start end p q =
      let wide : end - start ≡ length middle = omega (arith, p, q) in
      ap (λ n. take n (drop start (front ++ (middle ++ back)))) wide
      ∙ ap (λ n. take (length middle) (drop n (front ++ (middle ++ back)))) p
      ∙ ap (take (length middle)) (drop-append front (middle ++ back))
      ∙ take-append middle back

  -- a slice of a list is the middle of it
  pub slice-splits :
      (start end : ℕ) (xs : List A)
      → xs ≡ take start xs ++ (slice start end xs ++ drop (end - start) (drop start xs))
  slice-splits start end xs =
      sym (take-drop start xs)
      ∙ ap (λ l. take start xs ++ l) (sym (take-drop (end - start) (drop start xs)))
