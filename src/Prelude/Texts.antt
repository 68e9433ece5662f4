-- ===== src/Prelude/Texts.antt =====
-- Python's searches and trims of a text: `find` and `strip`.
use Prim.Native.Nat.{ℕ, zero, suc, ◌+◌, ◌-◌, ◌≤◌, ◌<◌}
use mathlib.Core.Bool.{Bool, true, false, ◌&&◌, ◌||◌, true≢false}
use mathlib.Core.List.{[], ◌∷◌, ◌++◌}
use mathlib.Core.Option.{Option, none, some}
use mathlib.Core.Path.{◌≡◌, refl, sym, ap, ◌∙◌, subst}
use native.Mathlib.Omega.{arith}
use agentic_kgis.Prelude.Tests.{if◌then◌else◌, Text, nat_beq, nat_beq_iff, and_true, leb}
use agentic_kgis.Prelude.Lists.{length, any, All, All-append}
use agentic_kgis.Prelude.Slices.{take, drop, drop-drop, length-drop-eq}

-- `t.startswith(p)`
unfoldable pub starts_with : Text → Text → Bool
starts_with [] t = true
starts_with (c ∷ p) [] = false
starts_with (c ∷ p) (d ∷ t) = nat_beq c d && starts_with p t

-- the position of the first occurrence in a text that begins at `at`
unfoldable pub find_in : Text → Text → ℕ → Option ℕ
find_in q [] at = if starts_with q [] then some at else none
find_in q (c ∷ t) at =
    let rest = find_in q t (suc at) in if starts_with q (c ∷ t) then some at else rest

-- `t.find(q, start)`, with `none` for -1; `start` is no larger than the text
unfoldable pub find : Text → Text → ℕ → Option ℕ
find t q start = find_in q (drop start t) start

-- `t[i:].startswith(q)`
abbrev pub occurs : Text → Text → ℕ → Bool
occurs t q i = starts_with q (drop i t)

-- where a search has looked
abbrev pub Finds : Text → Text → ℕ → Option ℕ → Type 0
Finds q t at none = (k : ℕ) → starts_with q (drop k t) ≡ false
Finds q t at (some i) =
    (k : ℕ) × ((i ≡ at + k)
      × ((starts_with q (drop k t) ≡ true) × ((j : ℕ) → j < k → starts_with q (drop j t) ≡ false)))

-- what holds at the first position and behind it holds everywhere
everywhere : (P : ℕ → Type 0) → P zero → ((k : ℕ) → P (suc k)) → (k : ℕ) → P k
everywhere P h t zero = h
everywhere P h t (suc k) = t k

before :
    (P : ℕ → Type 0) (k : ℕ) → P zero → ((j : ℕ) → j < k → P (suc j)) → (j : ℕ) → j < suc k → P j
before P k h t zero l = h
before P k h t (suc j) l = t j (omega (arith, l))

Finds-cons :
    (q t : Text) (c at : ℕ) (r : Option ℕ)
    → starts_with q (c ∷ t) ≡ false
    → Finds q t (suc at) r
    → Finds q (c ∷ t) at r
Finds-cons q t c at none e h = everywhere (λ k. starts_with q (drop k (c ∷ t)) ≡ false) e h
Finds-cons q t c at (some i) e (k, (p, (here, ahead))) = (
  suc k,
  (omega (arith, p), (here, before (λ j. starts_with q (drop j (c ∷ t)) ≡ false) k e ahead)),
)

Finds-here : (q t : Text) (at : ℕ) → starts_with q t ≡ true → Finds q t at (some at)
Finds-here q t at e = (zero, (omega arith, (e, λ j l. absurd (omega (arith, l)))))

pub find_in-Finds : (a : ℕ) (p t : Text) (at : ℕ) → Finds (a ∷ p) t at (find_in (a ∷ p) t at)
unfolding find_in starts_with
find_in-Finds a p [] at = everywhere (λ k. starts_with (a ∷ p) (drop k []) ≡ false) refl (λ k. refl)
find_in-Finds a p (c ∷ t) at =
    go (starts_with (a ∷ p) (c ∷ t)) refl (find_in (a ∷ p) t (suc at))
      (find_in-Finds a p t (suc at))
  where
    go :
        (b : Bool)
        → starts_with (a ∷ p) (c ∷ t) ≡ b
        → (rest : Option ℕ) → Finds (a ∷ p) t (suc at) rest
        → Finds (a ∷ p) (c ∷ t) at (if b then some at else rest)
    go true e rest h = Finds-here (a ∷ p) (c ∷ t) at e
    go false e rest h = Finds-cons (a ∷ p) t c at rest e h

-- where a search of a text from a position has looked
abbrev pub Found : Text → Text → ℕ → Option ℕ → Type 0
Found q t from none = (j : ℕ) → from ≤ j → occurs t q j ≡ false
Found q t from (some i) =
    (from ≤ i) × ((occurs t q i ≡ true) × ((j : ℕ) → from ≤ j → j < i → occurs t q j ≡ false))

pub find-Found :
    (a : ℕ) (p t : Text) (from : ℕ)
    → (r : Option ℕ) → find t (a ∷ p) from ≡ r
    → Found (a ∷ p) t from r
unfolding find
find-Found a p t from r e =
    go r (subst (Finds (a ∷ p) (drop from t) from) e (find_in-Finds a p (drop from t) from))
  where
    at : (k : ℕ) → starts_with (a ∷ p) (drop k (drop from t)) ≡ occurs t (a ∷ p) (from + k)
    at k = ap (starts_with (a ∷ p)) (drop-drop k from t)

    back :
        (j : ℕ)
        → from ≤ j
        → occurs t (a ∷ p) j ≡ starts_with (a ∷ p) (drop (j - from) (drop from t))
    back j h =
        let same : j ≡ from + (j - from) = omega (arith, h) in
        ap (occurs t (a ∷ p)) same ∙ sym (at (j - from))

    go : (r : Option ℕ) → Finds (a ∷ p) (drop from t) from r → Found (a ∷ p) t from r
    go none h = λ j l. back j l ∙ h (j - from)
    go (some i) (k, (e, (here, ahead))) = (
      omega (arith, e),
      (
        ap (occurs t (a ∷ p)) e ∙ sym (at k) ∙ here,
        λ j l m. back j l ∙ ahead (j - from) (omega (arith, e, l, m)),
      ),
    )

-- An occurrence is the text that it is said to be.
pub starts_with-take : (q t : Text) → starts_with q t ≡ true → take (length q) t ≡ q
unfolding starts_with
starts_with-take [] t e = refl
starts_with-take (c ∷ q) [] e = absurd (true≢false (sym e))
starts_with-take (c ∷ q) (d ∷ t) e =
    let split = and_true (nat_beq c d) (starts_with q t) e in
    ap (λ x. x ∷ take (length q) t) (sym ((nat_beq_iff c d).0 split.0))
    ∙ ap (λ l. c ∷ l) (starts_with-take q t split.1)

pub starts_with-length : (q t : Text) → starts_with q t ≡ true → length q ≤ length t
unfolding starts_with
starts_with-length [] t e = omega arith
starts_with-length (c ∷ q) [] e = absurd (true≢false (sym e))
starts_with-length (c ∷ q) (d ∷ t) e =
    omega (arith, starts_with-length q t (and_true (nat_beq c d) (starts_with q t) e).1)

-- a text that is not empty occurs within the text
pub occurs-within :
    (a : ℕ) (p t : Text) (j : ℕ) → occurs t (a ∷ p) j ≡ true → j + length (a ∷ p) ≤ length t
occurs-within a p t j e = omega (arith, starts_with-length (a ∷ p) (drop j t) e, length-drop-eq j t)

-- the characters that `str.strip` removes
abbrev pub is_space : ℕ → Bool
is_space c =
    (leb 9 c && leb c 13)
    || ((leb 28 c && leb c 32)
        || (any (λ s. nat_beq c s) (133 ∷ 160 ∷ 5760 ∷ 8232 ∷ 8233 ∷ 8239 ∷ 8287 ∷ 12288 ∷ [])
            || (leb 8192 c && leb c 8202)))

abbrev pub strip_left : Text → Text
strip_left [] = []
strip_left (c ∷ t) = let rest = strip_left t in if is_space c then rest else c ∷ t

-- a blank at the end goes with the blanks behind it
abbrev pub strip_end : ℕ → Text → Text
strip_end c [] = if is_space c then [] else c ∷ []
strip_end c (d ∷ t) = c ∷ d ∷ t

abbrev pub strip_right : Text → Text
strip_right [] = []
strip_right (c ∷ t) = strip_end c (strip_right t)

-- `str.strip`
unfoldable pub strip : Text → Text
strip t = strip_right (strip_left t)

-- the text has blanks only
abbrev pub Blank : Text → Type 0
Blank t = All (λ c. is_space c ≡ true) t

abbrev Trimmed : Text → Text → Type 0
Trimmed t rest = (lead : Text) × (Blank lead × (t ≡ lead ++ rest))

strip_left-Trimmed : (t : Text) → Trimmed t (strip_left t)
strip_left-Trimmed [] = ([], (tt, refl))
strip_left-Trimmed (c ∷ t) = go (is_space c) refl (strip_left-Trimmed t)
  where
    go :
        (b : Bool)
        → is_space c ≡ b
        → Trimmed t (strip_left t)
        → Trimmed (c ∷ t) (if b then strip_left t else c ∷ t)
    go true b (lead, (blank, e)) = (c ∷ lead, ((b, blank), ap (λ x. c ∷ x) e))
    go false b h = ([], (tt, refl))

abbrev Ends : Text → Text → Type 0
Ends t front = (trail : Text) × (Blank trail × (t ≡ front ++ trail))

strip_end-Ends : (c : ℕ) (t s : Text) → Ends t s → Ends (c ∷ t) (strip_end c s)
strip_end-Ends c t [] (trail, (blank, e)) = go (is_space c) refl
  where
    go : (b : Bool) → is_space c ≡ b → Ends (c ∷ t) (if b then [] else c ∷ [])
    go true b = (c ∷ t, ((b, subst Blank (sym e) blank), refl))
    go false b = (trail, (blank, ap (λ x. c ∷ x) e))
strip_end-Ends c t (d ∷ s) (trail, (blank, e)) = (trail, (blank, ap (λ x. c ∷ x) e))

strip_right-Ends : (t : Text) → Ends t (strip_right t)
strip_right-Ends [] = ([], (tt, refl))
strip_right-Ends (c ∷ t) = strip_end-Ends c t (strip_right t) (strip_right-Ends t)

-- a text that strips to nothing
pub strip-Blank : (t : Text) → strip t ≡ [] → Blank t
unfolding strip
strip-Blank t e =
    let (lead, (front, p)) = strip_left-Trimmed t in
    let (trail, (back, q)) = strip_right-Ends (strip_left t) in
    let rest = q ∙ ap (λ s. s ++ trail) e in
    subst Blank (sym (p ∙ ap (λ s. lead ++ s) rest)) (All-append _ lead trail front back)

-- a text in front of one that is not blank stays
strip_right-append :
    (lead u : Text) (d : ℕ) (r : Text)
    → strip_right u ≡ d ∷ r
    → (x : ℕ) × ((y : Text) × ((strip_right (lead ++ u) ≡ x ∷ y) × (x ∷ y ≡ lead ++ d ∷ r)))
strip_right-append [] u d r e = (d, (r, (e, refl)))
strip_right-append (c ∷ lead) u d r e =
    let (x, (y, (p, q))) = strip_right-append lead u d r e in
    (c, (x ∷ y, (ap (strip_end c) p, ap (λ l. c ∷ l) q)))

-- The parts of a text that is not blank: what is in front, the stripped text and what is behind.
pub record IsStripped (t s : Text) : Type 0 where
  pub lead : Text
  pub trail : Text
  pub front : Blank lead
  pub back : Blank trail
  pub parts : t ≡ lead ++ (s ++ trail)
  pub left : strip_left t ≡ s ++ trail
  pub right : strip_right t ≡ lead ++ s

pub strip-IsStripped : (t : Text) (d : ℕ) (r : Text) → strip t ≡ d ∷ r → IsStripped t (d ∷ r)
unfolding strip
strip-IsStripped t d r e =
    let front = strip_left-Trimmed t in
    let back = strip_right-Ends (strip_left t) in
    let whole = strip_right-append front.0 (strip_left t) d r e in
    let left = back.1.1 ∙ ap (λ s. s ++ back.0) e in
    record {
      lead = front.0;
      trail = back.0;
      front = front.1.0;
      back = back.1.0;
      parts = front.1.1 ∙ ap (λ s. front.0 ++ s) left;
      left = left;
      right = ap strip_right front.1.1 ∙ whole.1.1.0 ∙ whole.1.1.1;
    }
