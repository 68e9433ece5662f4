-- ===== src/Documents/Windows.antt =====
-- The windows of `FixedWindowChunker.chunk` in src/kgis/extraction/documents.py and the text they
-- reach.
use agentic_kgis.Prelude.{
  ℕ, zero, suc, ◌+◌, ◌-◌, ◌≤◌, ◌<◌, Bool, true, false, ◌&&◌, ◌||◌, ◌≡◌, refl, arith, none, some, [],
  ◌∷◌, length, ltb, leb, any, or_right, Bool-cases, inl, inr, slice, if◌then◌else◌, subst, is_some,
  sym, ap,
}
use Prim.Native.Nat.{min}
use mathlib.Core.Bool.{true≢false}
use mathlib.Core.Option.{some-injective}
use agentic_kgis.Documents.{
  Document, Chunk, chunk_of, FixedWindowChunker, new_window_chunker, windows_from, window_chunks,
}

-- the position lies in the chunk
abbrev pub covers : ℕ → Chunk → Bool
covers p c = leb c.start p && ltb p c.end

-- an overlap less than the window
abbrev Advances : FixedWindowChunker → Type 0
Advances w = w.overlap < w.window

windows_from-covers :
    (fuel : ℕ) (w : FixedWindowChunker) (d : Document) (index start p : ℕ)
    → Advances w
    → start ≤ p
    → p < length d.text
    → length d.text ≤ start + fuel
    → any (covers p) (windows_from fuel w d index start) ≡ true
unfolding windows_from
windows_from-covers zero w d index start p a l h f = absurd (omega (arith, l, h, f))
windows_from-covers (suc fuel) w d index start p a l h f =
    go (ltb start (length d.text)) refl
      (leb (length d.text) (min (start + w.window) (length d.text))) refl
      (λ later.
        windows_from-covers fuel w d (suc index) (start + (w.window - w.overlap)) p a later h
          (omega (arith, a, f)))
  where
    go :
        (b : Bool)
        → ltb start (length d.text) ≡ b
        → (last : Bool) → leb (length d.text) (min (start + w.window) (length d.text)) ≡ last
        → (start + (w.window - w.overlap) ≤ p
            → any (covers p) (windows_from fuel w d (suc index) (start + (w.window - w.overlap)))
              ≡ true)
        → any (covers p) (elim b [
          | false ↦ []
          | true ↦
              (let end = min (start + w.window) (length d.text) in
                chunk_of d index start end (slice start end d.text) ∷ elim last [
                  | true ↦ []
                  | false ↦ windows_from fuel w d (suc index) (start + (w.window - w.overlap))
                ])
        ])
          ≡ true
    go false e last q rest = ground (arith, e, l, h)
    go true e true q rest = ground (arith, e, q, l, h)
    go true e false q rest = elim (Bool-cases (ltb p (start + w.window))) [
      | inl near ↦ ground (arith, near, q, l, h)
      | inr far ↦ or_right _ _ (rest (ground (arith, far, a)))
    ]

none≢some : (w : FixedWindowChunker) → ¬ (none ≡ some w)
none≢some w e = true≢false (sym (ap is_some e))

new_window_chunker-Advances :
    (window overlap : ℕ) (w : FixedWindowChunker)
    → new_window_chunker window overlap ≡ some w
    → Advances w
unfolding new_window_chunker
new_window_chunker-Advances window overlap w e = go (ltb window 1) (leb window overlap) refl e
  where
    go :
        (short wide : Bool)
        → leb window overlap ≡ wide
        → (if short || wide then none else some (record { window = window; overlap = overlap }))
          ≡ some w
        → Advances w
    go true wide q r = absurd (none≢some w r)
    go false true q r = absurd (none≢some w r)
    go false false q r = subst Advances (some-injective _ _ r) (ground (arith, q))

-- The windows of a chunker that its constructor accepts reach every character of a document: each
-- position of the text lies within one of the chunks.
pub window_chunks-covers :
    (window overlap : ℕ) (w : FixedWindowChunker) (d : Document) (p : ℕ)
    → new_window_chunker window overlap ≡ some w
    → p < length d.text
    → any (covers p) (window_chunks w d) ≡ true
unfolding window_chunks
window_chunks-covers window overlap w d p e h =
    windows_from-covers (length d.text) w d 0 0 p (new_window_chunker-Advances window overlap w e)
      (omega arith) h (omega arith)
