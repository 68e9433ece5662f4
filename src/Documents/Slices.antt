-- ===== src/Documents/Slices.antt =====
-- The chunks of src/kgis/extraction/documents.py are the document's text between their offsets.
use agentic_kgis.Prelude.{
  ℕ, zero, suc, ◌+◌, ◌-◌, ◌≤◌, Bool, true, false, ◌≡◌, refl, sym, ap, ◌∙◌, subst, arith, Option,
  none, some, [], ◌∷◌, ◌++◌, Text, length, length-append, ltb, leb, All, All-append, take, drop,
  slice, slice-append, slice-splits, length-take-le, length-drop-eq, find, find_in-Finds, Finds,
  strip, strip_left, strip_right, Blank, strip-IsStripped, starts_with-length, starts_with,
  drop-drop,
}
use Prim.Native.Nat.{min}
use mathlib.Core.List.{append_assoc, append-nil}
use agentic_kgis.Documents.{
  Document, Chunk, chunk_of, whole_chunks, blank_line, stripped_chunk, paragraph, paragraphs_from,
  paragraph_chunks, FixedWindowChunker, windows_from, window_chunks,
}

-- `document.text[c.start:c.end] == c.text`, within the document
pub record IsSlice (d : Document) (c : Chunk) : Type 0 where
  pub ordered : c.start ≤ c.end
  pub inside : c.end ≤ length d.text
  pub text : slice c.start c.end d.text ≡ c.text

-- A segment that is not blank: the text before it, its parts, and the text behind it.
pub record IsTrimmed (t : Text) (cursor end start stop : ℕ) (s : Text) : Type 0 where
  pub before : Text
  pub lead : Text
  pub trail : Text
  pub after : Text
  pub front : Blank lead
  pub back : Blank trail
  pub whole : t ≡ before ++ (lead ++ (s ++ (trail ++ after)))
  pub at_cursor : cursor ≡ length before
  pub at_start : start ≡ cursor + length lead
  pub at_stop : stop ≡ start + length s
  pub at_end : end ≡ stop + length trail

pub segment-IsTrimmed :
    (text : Text) (cursor end c : ℕ) (t : Text)
    → cursor ≤ end
    → end ≤ length text
    → strip (slice cursor end text) ≡ c ∷ t
    → IsTrimmed text cursor end
        (cursor + (length (slice cursor end text) - length (strip_left (slice cursor end text))))
        (end - (length (slice cursor end text) - length (strip_right (slice cursor end text))))
        (c ∷ t)
segment-IsTrimmed text cursor end c t h k e =
    let v = strip-IsStripped (slice cursor end text) c t e in
    let wide =
      length-take-le (end - cursor) (drop cursor text)
        (omega (arith, h, k, length-drop-eq cursor text)) in
    let first = length-take-le cursor text (omega (arith, h, k)) in
    let parts = ap length v.parts ∙ length-append v.lead ((c ∷ t) ++ v.trail) in
    let middle = length-append (c ∷ t) v.trail in
    let left = ap length v.left in
    let right = ap length v.right ∙ length-append v.lead (c ∷ t) in
    let rest = drop (end - cursor) (drop cursor text) in
    record {
      before = take cursor text;
      lead = v.lead;
      trail = v.trail;
      after = rest;
      front = v.front;
      back = v.back;
      whole =
          slice-splits cursor end text
          ∙ ap (λ l. take cursor text ++ (l ++ rest)) v.parts
          ∙ ap (λ l. take cursor text ++ l)
              (append_assoc v.lead ((c ∷ t) ++ v.trail) rest
                ∙ ap (λ l. v.lead ++ l) (append_assoc (c ∷ t) v.trail rest));
      at_cursor = omega (arith, first);
      at_start = omega (arith, parts, middle, left);
      at_stop = omega (arith, h, wide, parts, middle, left, right);
      at_end = omega (arith, h, wide, parts, middle, left, right);
    }

stripped_chunk-IsSlice :
    (d : Document) (index cursor end : ℕ) (s : Text)
    → cursor ≤ end
    → end ≤ length d.text
    → strip (slice cursor end d.text) ≡ s
    → All (IsSlice d) (stripped_chunk d index cursor end (slice cursor end d.text) s)
stripped_chunk-IsSlice d index cursor end [] h k e = tt
stripped_chunk-IsSlice d index cursor end (c ∷ t) h k e =
    let v = segment-IsTrimmed d.text cursor end c t h k e in
    let whole = v.whole ∙ sym (append_assoc v.before v.lead ((c ∷ t) ++ (v.trail ++ v.after))) in
    let front = length-append v.before v.lead in
    let segment = slice cursor end d.text in
    let start = cursor + (length segment - length (strip_left segment)) in
    let stop = end - (length segment - length (strip_right segment)) in
    (
      record {
        ordered = omega (arith, v.at_stop);
        inside = omega (arith, k, v.at_end);
        text =
            ap (λ l. slice start stop l) whole
            ∙ slice-append (v.before ++ v.lead) (c ∷ t) (v.trail ++ v.after) start stop
                (omega (arith, v.at_start, v.at_cursor, front))
                (omega (arith, v.at_start, v.at_stop, v.at_cursor, front));
      },
      tt,
    )

-- a blank line behind the cursor, within the text
abbrev pub Lands : Text → ℕ → Option ℕ → Type 0
Lands t cursor none = Unit
Lands t cursor (some b) =
    (cursor ≤ b) × ((b + 2 ≤ length t) × (starts_with blank_line (drop b t) ≡ true))

pub find-bounds :
    (t : Text) (cursor : ℕ)
    → cursor ≤ length t
    → (r : Option ℕ) → find t blank_line cursor ≡ r
    → Lands t cursor r
unfolding find
find-bounds t cursor h none e = tt
find-bounds t cursor h (some b) e =
    let (k, (at, (here, before))) =
      subst (Finds blank_line (drop cursor t) cursor) e
        (find_in-Finds 10 (10 ∷ []) (drop cursor t) cursor) in
    let fits = starts_with-length blank_line (drop k (drop cursor t)) here in
    let there = drop-drop k cursor t ∙ ap (λ i. drop i t) (sym at) in
    (
      omega (arith, at),
      (
        omega (arith, h, at, fits, length-drop-eq k (drop cursor t), length-drop-eq cursor t),
        ap (starts_with blank_line) (sym there) ∙ here,
      ),
    )

paragraph-IsSlice :
    (d : Document) (index cursor end : ℕ)
    → cursor ≤ end
    → end ≤ length d.text
    → All (IsSlice d) (paragraph d index cursor end)
unfolding paragraph
paragraph-IsSlice d index cursor end h k =
    stripped_chunk-IsSlice d index cursor end (strip (slice cursor end d.text)) h k refl

paragraphs_from-IsSlice :
    (fuel : ℕ) (d : Document) (index cursor : ℕ)
    → All (IsSlice d) (paragraphs_from fuel d index cursor)
unfolding paragraphs_from
paragraphs_from-IsSlice zero d index cursor = tt
paragraphs_from-IsSlice (suc fuel) d index cursor =
    go (ltb cursor (length d.text)) refl (find d.text blank_line cursor) refl
      (λ i c. paragraphs_from-IsSlice fuel d i c)
  where
    go :
        (b : Bool)
        → ltb cursor (length d.text) ≡ b
        → (r : Option ℕ) → find d.text blank_line cursor ≡ r
        → ((i c : ℕ) → All (IsSlice d) (paragraphs_from fuel d i c))
        → All (IsSlice d) (elim b [
          | false ↦ []
          | true ↦ elim r [
            | none ↦ paragraph d index cursor (length d.text)
            | some boundary ↦
                (let found = paragraph d index cursor boundary in
                  found ++ paragraphs_from fuel d (index + length found) (boundary + 2))
          ]
        ])
    go false e r p rest = tt
    go true e none p rest =
        paragraph-IsSlice d index cursor (length d.text) (ground (arith, e)) (omega arith)
    go true e (some boundary) p rest =
        let lands = find-bounds d.text cursor (ground (arith, e)) (some boundary) p in
        All-append (IsSlice d) (paragraph d index cursor boundary) _
          (paragraph-IsSlice d index cursor boundary lands.0 (omega (arith, lands.1.0)))
          (rest (index + length (paragraph d index cursor boundary)) (boundary + 2))

windows_from-IsSlice :
    (fuel : ℕ) (w : FixedWindowChunker) (d : Document) (index start : ℕ)
    → All (IsSlice d) (windows_from fuel w d index start)
unfolding windows_from
windows_from-IsSlice zero w d index start = tt
windows_from-IsSlice (suc fuel) w d index start =
    go (ltb start (length d.text)) refl
      (leb (length d.text) (min (start + w.window) (length d.text)))
      (windows_from-IsSlice fuel w d (suc index) (start + (w.window - w.overlap)))
  where
    first :
        ltb start (length d.text) ≡ true
        → IsSlice d (
            chunk_of d index start
              (min (start + w.window) (length d.text))
              (slice start (min (start + w.window) (length d.text)) d.text))
    first e = record { ordered = ground (arith, e); inside = ground arith; text = refl }

    go :
        (b : Bool)
        → ltb start (length d.text) ≡ b
        → (last : Bool)
        → All (IsSlice d) (windows_from fuel w d (suc index) (start + (w.window - w.overlap)))
        → All (IsSlice d) (elim b [
          | false ↦ []
          | true ↦
              (let end = min (start + w.window) (length d.text) in
                chunk_of d index start end (slice start end d.text) ∷ elim last [
                  | true ↦ []
                  | false ↦ windows_from fuel w d (suc index) (start + (w.window - w.overlap))
                ])
        ])
    go false e last rest = tt
    go true e true rest = (first e, tt)
    go true e false rest = (first e, rest)

-- Every chunk of the three chunkers lies within the document, its start is not behind its end, and
-- its text is the document's text between the two.
pub chunks-IsSlice :
    (w : FixedWindowChunker) (d : Document)
    → All (IsSlice d) (whole_chunks d)
      × (All (IsSlice d) (paragraph_chunks d) × All (IsSlice d) (window_chunks w d))
unfolding whole_chunks paragraph_chunks window_chunks
chunks-IsSlice w d = (
  (
    record {
      ordered = omega arith;
      inside = omega arith;
      text =
          ap (λ t. slice 0 (length d.text) t) (sym (append-nil d.text))
          ∙ slice-append [] d.text [] 0 (length d.text) refl (omega arith);
    },
    tt,
  ),
  (paragraphs_from-IsSlice (length d.text) d 0 0, windows_from-IsSlice (length d.text) w d 0 0),
)
