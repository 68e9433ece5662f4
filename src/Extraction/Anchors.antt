-- ===== src/Extraction/Anchors.antt =====
-- The occurrence to which `_next_unused_offset` of src/kgis/extraction/parse.py anchors a quote.
use agentic_kgis.Prelude.{
  ℕ, zero, suc, ◌+◌, ◌≤◌, ◌<◌, Bool, true, false, ◌≡◌, refl, sym, ◌∙◌, subst, ◌⊎◌, inl, inr, arith,
  Option, none, some, List, ◌∷◌, Text, length, any, nat_beq, find, find-Found, Found, occurs,
  occurs-within, if◌then◌else◌,
}
use mathlib.Core.Bool.{true≢false}
use agentic_kgis.Extraction.{scan, next_unused_offset}

-- `o in used`
abbrev pub claimed : List ℕ → ℕ → Bool
claimed used o = any (λ u. nat_beq o u) used

-- what the loop has seen from a position on
abbrev Scanned : Text → Text → List ℕ → ℕ → Option ℕ → Type 0
Scanned chunk quote used from none =
    (j : ℕ) → from ≤ j → occurs chunk quote j ≡ true → claimed used j ≡ true
Scanned chunk quote used from (some i) =
    (occurs chunk quote i ≡ true)
    × ((claimed used i ≡ false)
        × ((j : ℕ) → from ≤ j → j < i → occurs chunk quote j ≡ true → claimed used j ≡ true))

-- a position is before the occurrence, at it, or behind it
sides : (from i j : ℕ) → from ≤ j → (j < i) ⊎ ((j ≡ i) ⊎ (i + 1 ≤ j))
sides from i j h = ground arith

scan_lem :
    (fuel a : ℕ) (p chunk : Text) (used : List ℕ) (from : ℕ)
    → length chunk < from + fuel
    → Scanned chunk (a ∷ p) used from (scan fuel chunk (a ∷ p) used from)
unfolding scan
scan_lem zero a p chunk used from f =
    λ j l e. absurd (omega (arith, f, l, occurs-within a p chunk j e))
scan_lem (suc fuel) a p chunk used from f =
    go (find chunk (a ∷ p) from) refl
      (λ i l. scan_lem fuel a p chunk used (i + 1) (omega (arith, f, l)))
  where
    skip :
        (i : ℕ)
        → Found (a ∷ p) chunk from (some i)
        → claimed used i ≡ true
        → (r : Option ℕ) → Scanned chunk (a ∷ p) used (i + 1) r
        → Scanned chunk (a ∷ p) used from r
    skip i (l, (here, ahead)) taken none rest = λ j m e. elim (sides from i j m) [
      | inl before ↦ absurd (true≢false (sym e ∙ ahead j m before))
      | inr (inl same) ↦ subst (λ k. claimed used k ≡ true) (sym same) taken
      | inr (inr behind) ↦ rest j behind e
    ]
    skip i (l, (here, ahead)) taken (some k) (there, (free, between)) = (
      there,
      (
        free,
        λ j m n e. elim (sides from i j m) [
          | inl before ↦ absurd (true≢false (sym e ∙ ahead j m before))
          | inr (inl same) ↦ subst (λ k. claimed used k ≡ true) (sym same) taken
          | inr (inr behind) ↦ between j behind n e
        ],
      ),
    )

    test :
        (i : ℕ)
        → Found (a ∷ p) chunk from (some i)
        → (b : Bool) → claimed used i ≡ b
        → (rest : Option ℕ) → Scanned chunk (a ∷ p) used (i + 1) rest
        → Scanned chunk (a ∷ p) used from (if b then rest else some i)
    test i found true taken rest h = skip i found taken rest h
    test i (l, (here, ahead)) false free rest h =
        (here, (free, λ j m n e. absurd (true≢false (sym e ∙ ahead j m n))))

    go :
        (r : Option ℕ)
        → find chunk (a ∷ p) from ≡ r
        → ((i : ℕ)
            → from ≤ i
            → Scanned chunk (a ∷ p) used (i + 1) (scan fuel chunk (a ∷ p) used (i + 1)))
        → Scanned chunk (a ∷ p) used from (elim r [
          | none ↦ none
          | some found ↦
              (let rest = scan fuel chunk (a ∷ p) used (found + 1) in
                if any (λ o. nat_beq found o) used then rest else some found)
        ])
    go none e rest = λ j l o. absurd (true≢false (sym o ∙ find-Found a p chunk from none e j l))
    go (some i) e rest =
        let found = find-Found a p chunk from (some i) e in
        test i found (claimed used i) refl (scan fuel chunk (a ∷ p) used (i + 1)) (rest i found.0)

-- What an answer says of a position: without an answer the quote does not occur there; an unused
-- answer has no unused occurrence before it; a used one is the first occurrence, and all are used.
abbrev pub Anchors : Text → Text → List ℕ → ℕ → Option ℕ → Type 0
Anchors chunk quote used j none = occurs chunk quote j ≡ false
Anchors chunk quote used j (some i) =
    (occurs chunk quote i ≡ true)
    × (((claimed used i ≡ false)
          × ((occurs chunk quote j ≡ false) ⊎ ((claimed used j ≡ true) ⊎ (i ≤ j))))
        ⊎ ((claimed used i ≡ true)
            × ((occurs chunk quote j ≡ false) ⊎ ((claimed used j ≡ true) × (i ≤ j)))))

-- The anchor of a quote that is not empty, seen from any position j of the chunk: an occurrence
-- that no earlier item has used, with no unused one before it; or the first occurrence where all
-- are used; or none where the quote does not occur.
pub next_unused_offset-Anchors :
    (a : ℕ) (p chunk : Text) (used : List ℕ) (j : ℕ)
    → Anchors chunk (a ∷ p) used j (next_unused_offset chunk (a ∷ p) used)
unfolding next_unused_offset
next_unused_offset-Anchors a p chunk used j =
    go (scan (suc (length chunk)) chunk (a ∷ p) used 0)
      (scan_lem (suc (length chunk)) a p chunk used 0 (omega arith)) (occurs chunk (a ∷ p) j) refl
  where
    first :
        (b : Bool)
        → occurs chunk (a ∷ p) j ≡ b
        → ((k : ℕ) → occurs chunk (a ∷ p) k ≡ true → claimed used k ≡ true)
        → (r : Option ℕ) → Found (a ∷ p) chunk 0 r
        → Anchors chunk (a ∷ p) used j r
    first b e taken none found = found j (omega arith)
    first true e taken (some i) (l, (here, ahead)) = (
      here,
      inr (
        taken i here,
        inr (
          taken j e,
          elim (sides 0 i j (omega arith)) [
            | inl before ↦ absurd (true≢false (sym e ∙ ahead j (omega arith) before))
            | inr (inl same) ↦ omega (arith, same)
            | inr (inr behind) ↦ omega (arith, behind)
          ],
        ),
      ),
    )
    first false e taken (some i) (l, (here, ahead)) = (here, inr (taken i here, inl e))

    go :
        (r : Option ℕ)
        → Scanned chunk (a ∷ p) used 0 r
        → (b : Bool) → occurs chunk (a ∷ p) j ≡ b
        → Anchors chunk
            (a ∷ p)
            used
            j
            (elim r [ none ↦ find chunk (a ∷ p) 0 | some found ↦ some found ])
    go none all b e =
        first b e (λ k. all k (omega arith)) (find chunk (a ∷ p) 0)
          (find-Found a p chunk 0 (find chunk (a ∷ p) 0) refl)
    go (some i) (here, (free, all)) false e = (here, inl (free, inl e))
    go (some i) (here, (free, all)) true e = (
      here,
      inl (
        free,
        inr (elim (sides 0 i j (omega arith)) [
          | inl before ↦ inl (all j (omega arith) before e)
          | inr (inl same) ↦ inr (omega (arith, same))
          | inr (inr behind) ↦ inr (omega (arith, behind))
        ]),
      ),
    )
