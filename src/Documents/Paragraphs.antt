-- ===== src/Documents/Paragraphs.antt =====
-- The text that `ParagraphChunker.chunk` of src/kgis/extraction/documents.py leaves out.
use agentic_kgis.Prelude.{
  ℕ, zero, suc, ◌+◌, ◌-◌, ◌≤◌, ◌<◌, Bool, true, false, ◌&&◌, ◌||◌, ◌≡◌, refl, sym, ap, ◌∙◌, inl,
  inr, arith, Option, none, some, [], ◌∷◌, ◌++◌, Text, length, length-append, ltb, leb, any,
  any-append, take, drop, slice, slice-splits, length-take-le, length-drop-eq, take-drop, find,
  strip, strip_left, strip_right, is_space, Blank, strip-Blank, starts_with-take, Bool-cases,
  or_right,
}
use mathlib.Core.Bool.{true≢false}
use mathlib.Core.List.{append_assoc, head-eq_of_cons-eq}
use agentic_kgis.Documents.{
  Document, blank_line, stripped_chunk, paragraph, paragraphs_from, paragraph_chunks,
}
use agentic_kgis.Documents.Slices.{segment-IsTrimmed, find-bounds}
use agentic_kgis.Documents.Windows.{covers}

-- a position in the blank middle of a text
blanks_hold :
    (a b c : Text) (p x : ℕ) (rest : Text)
    → Blank b
    → length a ≤ p
    → p < length a + length b
    → drop p (a ++ (b ++ c)) ≡ x ∷ rest
    → is_space x ≡ true
blanks_hold (y ∷ a) b c zero x rest blank h k e = absurd (omega (arith, h))
blanks_hold (y ∷ a) b c (suc p) x rest blank h k e =
    blanks_hold a b c p x rest blank (omega (arith, h)) (omega (arith, k)) e
blanks_hold [] [] c p x rest blank h k e = absurd (omega (arith, k))
blanks_hold [] (y ∷ b) c zero x rest blank h k e =
    ap is_space (sym (head-eq_of_cons-eq e)) ∙ blank.0
blanks_hold [] (y ∷ b) c (suc p) x rest blank h k e =
    blanks_hold [] b c p x rest blank.1 (omega arith) (omega (arith, k)) e

-- a character of the document that is not blank
abbrev pub Inked : Document → ℕ → Type 0
Inked d p = (x : ℕ) × ((rest : Text) × ((drop p d.text ≡ x ∷ rest) × (is_space x ≡ false)))

not_blank :
    {G : Type 0}
    → (d : Document) (a b c : Text) (p : ℕ) → Inked d p
    → Blank b
    → d.text ≡ a ++ (b ++ c)
    → length a ≤ p
    → p < length a + length b
    → G
not_blank d a b c p (x, (rest, (e, dark))) blank whole h k =
    absurd
      (true≢false (sym (blanks_hold a b c p x rest blank h k (ap (drop p) (sym whole) ∙ e)) ∙ dark))

within :
    (a b : Bool)
    → ((a ≡ false) → a && b || false ≡ true)
    → ((b ≡ false) → a && b || false ≡ true)
    → a && b || false ≡ true
within true true h k = refl
within true false h k = k refl
within false b h k = h refl

stripped_chunk-covers :
    (d : Document) (index cursor end p : ℕ) (s : Text)
    → Inked d p
    → cursor ≤ p
    → p < end
    → end ≤ length d.text
    → strip (slice cursor end d.text) ≡ s
    → any (covers p) (stripped_chunk d index cursor end (slice cursor end d.text) s) ≡ true
stripped_chunk-covers d index cursor end p [] dark h k l e =
    not_blank d (take cursor d.text) (slice cursor end d.text)
      (drop (end - cursor) (drop cursor d.text)) p dark (strip-Blank (slice cursor end d.text) e)
      (slice-splits cursor end d.text)
      (omega (arith, h, k, l, length-take-le cursor d.text (omega (arith, h, k, l))))
      (omega (
        arith,
        h,
        k,
        l,
        length-take-le cursor d.text (omega (arith, h, k, l)),
        length-take-le (end - cursor) (drop cursor d.text)
            (omega (arith, h, k, l, length-drop-eq cursor d.text)),
      ))
stripped_chunk-covers d index cursor end p (c ∷ t) dark h k l e =
    let v = segment-IsTrimmed d.text cursor end c t (omega (arith, h, k)) l e in
    let first = length-append v.before v.lead in
    let second = length-append (v.before ++ v.lead) (c ∷ t) in
    let far =
      v.whole
      ∙ sym (append_assoc v.before v.lead ((c ∷ t) ++ (v.trail ++ v.after)))
      ∙ sym (append_assoc (v.before ++ v.lead) (c ∷ t) (v.trail ++ v.after)) in
    let segment = slice cursor end d.text in
    let start = cursor + (length segment - length (strip_left segment)) in
    let stop = end - (length segment - length (strip_right segment)) in
    within (leb start p) (ltb p stop)
      (λ low.
        not_blank d v.before v.lead ((c ∷ t) ++ (v.trail ++ v.after)) p dark v.front v.whole
          (omega (arith, h, v.at_cursor)) (ground (arith, low, v.at_cursor, v.at_start)))
      (λ high.
        not_blank d ((v.before ++ v.lead) ++ (c ∷ t)) v.trail v.after p dark v.back far
          (ground (arith, high, first, second, v.at_cursor, v.at_start, v.at_stop))
          (omega (arith, k, first, second, v.at_cursor, v.at_start, v.at_stop, v.at_end)))

-- the loop reaches the position
paragraphs_from-covers :
    (fuel : ℕ) (d : Document) (index cursor p : ℕ)
    → Inked d p
    → cursor ≤ p
    → p < length d.text
    → length d.text ≤ cursor + fuel
    → any (covers p) (paragraphs_from fuel d index cursor) ≡ true
unfolding paragraphs_from paragraph
paragraphs_from-covers zero d index cursor p dark h k f = absurd (omega (arith, h, k, f))
paragraphs_from-covers (suc fuel) d index cursor p dark h k f =
    go (ltb cursor (length d.text)) refl (find d.text blank_line cursor) refl
      (λ i c. paragraphs_from-covers fuel d i c p dark)
  where
    reached :
        (i end : ℕ)
        → p < end
        → end ≤ length d.text
        → any (covers p) (paragraph d i cursor end) ≡ true
    reached i end k l =
        stripped_chunk-covers d i cursor end p (strip (slice cursor end d.text)) dark h k l refl

    go :
        (b : Bool)
        → ltb cursor (length d.text) ≡ b
        → (r : Option ℕ) → find d.text blank_line cursor ≡ r
        → ((i c : ℕ)
            → c ≤ p
            → p < length d.text
            → length d.text ≤ c + fuel
            → any (covers p) (paragraphs_from fuel d i c) ≡ true)
        → any (covers p) (elim b [
          | false ↦ []
          | true ↦ elim r [
            | none ↦ paragraph d index cursor (length d.text)
            | some boundary ↦
                (let found = paragraph d index cursor boundary in
                  found ++ paragraphs_from fuel d (index + length found) (boundary + 2))
          ]
        ])
          ≡ true
    go false e r q rest = ground (arith, e, h, k)
    go true e none q rest = reached index (length d.text) k (omega arith)
    go true e (some boundary) q rest =
        let lands = find-bounds d.text cursor (omega (arith, h, k)) (some boundary) q in
        let found = paragraph d index cursor boundary in
        let tail = paragraphs_from fuel d (index + length found) (boundary + 2) in
        any-append (covers p) found tail ∙ elim (Bool-cases (ltb p boundary)) [
          | inl near ↦
              ap (λ b. b || any (covers p) tail)
                (reached index boundary (ground (arith, near)) (omega (arith, lands.1.0)))
          | inr far ↦ elim (Bool-cases (ltb p (boundary + 2))) [
            | inl line ↦
                not_blank d (take boundary d.text) blank_line (drop 2 (drop boundary d.text)) p dark
                  (refl, (refl, tt))
                  (sym (take-drop boundary d.text)
                    ∙ ap (λ l. take boundary d.text ++ l)
                        (sym (take-drop 2 (drop boundary d.text))
                          ∙ ap (λ l. l ++ drop 2 (drop boundary d.text))
                              (starts_with-take blank_line (drop boundary d.text) lands.1.1)))
                  (ground (arith, far, length-take-le boundary d.text (omega (arith, lands.1.0))))
                  (ground (arith, line, length-take-le boundary d.text (omega (arith, lands.1.0))))
            | inr on ↦ or_right (any (covers p) found) (any (covers p) tail) (
                rest (index + length found) (boundary + 2) (ground (arith, on)) k
                  (omega (arith, f, lands.0)))
          ]
        ]

-- `ParagraphChunker.chunk` leaves out nothing but blanks: each position of a document whose
-- character is not blank lies within one of the chunks.
pub paragraph_chunks-covers :
    (d : Document) (p x : ℕ) (rest : Text)
    → drop p d.text ≡ x ∷ rest
    → is_space x ≡ false
    → any (covers p) (paragraph_chunks d) ≡ true
unfolding paragraph_chunks
paragraph_chunks-covers d p x rest e dark =
    paragraphs_from-covers (length d.text) d 0 0 p (x, (rest, (e, dark))) (omega arith)
      (omega (arith, ap length e, length-drop-eq p d.text)) (omega arith)
