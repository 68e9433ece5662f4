-- ===== src/Documents.antt =====
-- Documents and their chunks: src/kgis/extraction/documents.py. A position counts the characters in
-- front of it.
pub mod Paragraphs
pub mod Slices
pub mod Windows
use agentic_kgis.Prelude.{
  ℕ, zero, suc, ◌+◌, ◌-◌, Bool, true, false, ◌||◌, Option, none, some, List, [], ◌∷◌, ◌++◌, Text,
  codes, length, ltb, leb, slice, find, strip, strip_left, strip_right, if◌then◌else◌,
}
use Prim.Native.Nat.{min}
use agentic_kgis.Validation.{SourceCoordinates}
use agentic_kgis.Graph.Apply.{str}

-- `Document`, less its metadata and its hash, which no chunker reads
pub record Document : Type 0 where
  pub doc_id : Text
  pub text : Text
  pub source_type : Text
  pub locator : Option Text

unfoldable pub resolved_locator : Document → Text
resolved_locator d = elim d.locator [ none ↦ d.doc_id | some l ↦ l ]

pub record Chunk : Type 0 where
  pub doc_id : Text
  pub index : ℕ
  pub start : ℕ
  pub end : ℕ
  pub text : Text
  pub source_type : Text
  pub locator : Text

unfoldable pub fragment : Chunk → Text
fragment c =
    codes "chunk:" ++ str c.index ++ codes "@chars:" ++ str c.start ++ codes "-" ++ str c.end

-- `Chunk.coordinates`
unfoldable pub chunk_coordinates : Chunk → SourceCoordinates
chunk_coordinates c = record {
  source_type = c.source_type;
  locator = c.locator;
  fragment = some (fragment c);
  source_version = none;
}

abbrev pub chunk_of : Document → ℕ → ℕ → ℕ → Text → Chunk
chunk_of d index start end text = record {
  doc_id = d.doc_id;
  index = index;
  start = start;
  end = end;
  text = text;
  source_type = d.source_type;
  locator = resolved_locator d;
}

-- `WholeDocumentChunker.chunk`
unfoldable pub whole_chunks : Document → List Chunk
whole_chunks d = chunk_of d 0 0 (length d.text) d.text ∷ []

-- "\n\n"
abbrev pub blank_line : Text
blank_line = 10 ∷ 10 ∷ []

-- the chunk of a segment that strips to the text
abbrev pub stripped_chunk : Document → ℕ → ℕ → ℕ → Text → Text → List Chunk
stripped_chunk d index cursor end segment [] = []
stripped_chunk d index cursor end segment (c ∷ t) =
    chunk_of d index (cursor + (length segment - length (strip_left segment)))
      (end - (length segment - length (strip_right segment))) (c ∷ t)
    ∷ []

-- what a round of `ParagraphChunker.chunk` appends
unfoldable pub paragraph : Document → ℕ → ℕ → ℕ → List Chunk
paragraph d index cursor end =
    stripped_chunk d index cursor end (slice cursor end d.text) (strip (slice cursor end d.text))

-- the loop of `ParagraphChunker.chunk`; each round moves the cursor by two at least
unfoldable pub paragraphs_from : ℕ → Document → ℕ → ℕ → List Chunk
paragraphs_from zero d index cursor = []
paragraphs_from (suc fuel) d index cursor = elim (ltb cursor (length d.text)) [
  | false ↦ []
  | true ↦ elim (find d.text blank_line cursor) [
    | none ↦ paragraph d index cursor (length d.text)
    | some boundary ↦
        (let found = paragraph d index cursor boundary in
          found ++ paragraphs_from fuel d (index + length found) (boundary + 2))
  ]
]

unfoldable pub paragraph_chunks : Document → List Chunk
paragraph_chunks d = paragraphs_from (length d.text) d 0 0

pub record FixedWindowChunker : Type 0 where
  pub window : ℕ
  pub overlap : ℕ

-- `__init__`: `none` where it raises
unfoldable pub new_window_chunker : ℕ → ℕ → Option FixedWindowChunker
new_window_chunker window overlap =
    if ltb window 1 || leb window overlap
    then none
    else some (record { window = window; overlap = overlap })

-- the loop of `FixedWindowChunker.chunk`; each round moves the start by one at least
unfoldable pub windows_from : ℕ → FixedWindowChunker → Document → ℕ → ℕ → List Chunk
windows_from zero w d index start = []
windows_from (suc fuel) w d index start = elim (ltb start (length d.text)) [
  | false ↦ []
  | true ↦
      (let end = min (start + w.window) (length d.text) in
        chunk_of d index start end (slice start end d.text) ∷ elim (leb (length d.text) end) [
          | true ↦ []
          | false ↦ windows_from fuel w d (suc index) (start + (w.window - w.overlap))
        ])
]

unfoldable pub window_chunks : FixedWindowChunker → Document → List Chunk
window_chunks w d = windows_from (length d.text) w d 0 0
