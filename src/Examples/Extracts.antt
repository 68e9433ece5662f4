-- ===== src/Examples/Extracts.antt =====
-- Runs of the chunkers and of the response parser, with percentages for floats.
use agentic_kgis.Prelude.{
  ℕ, true, ◌≡◌, refl, arith, Option, none, some, [], ◌∷◌, ◌++◌, codes, leb, any, All, find, find_in,
  starts_with,
}
use agentic_kgis.Normalization.{ℤ, pos, negsuc}
use agentic_kgis.Documents.{
  Document, Chunk, chunk_of, blank_line, FixedWindowChunker, new_window_chunker, window_chunks,
  paragraph_chunks, whole_chunks,
}
use agentic_kgis.Documents.Slices.{IsSlice, chunks-IsSlice}
use agentic_kgis.Documents.Windows.{covers, window_chunks-covers}
use agentic_kgis.Documents.Paragraphs.{paragraph_chunks-covers}
use agentic_kgis.Extraction.{
  Json, floating, string, array, object, no_elements, element, no_members, member, Floats, parse,
  next_unused_offset, scan,
}
use agentic_kgis.Extraction.Anchors.{Anchors, next_unused_offset-Anchors}
use agentic_kgis.Extraction.Quotes.{AreQuoted, parse-AreQuoted}
use agentic_kgis.Extraction.Responses.{is_ok, is_response, parse-is_ok}

-- two paragraphs, the first with blanks around it
abbrev document : Document
document = record {
  doc_id = codes "d";
  text = codes " ab " ++ blank_line ++ codes "cab";
  source_type = codes "document";
  locator = none;
}

abbrev narrow : FixedWindowChunker
narrow = record { window = 4; overlap = 1 }

chunks-IsSlice_example :
    All (IsSlice document) (whole_chunks document)
    × (All (IsSlice document) (paragraph_chunks document)
        × All (IsSlice document) (window_chunks narrow document))
chunks-IsSlice_example = chunks-IsSlice narrow document

window_chunks-covers_example : any (covers 6) (window_chunks narrow document) ≡ true
unfolding new_window_chunker
window_chunks-covers_example = window_chunks-covers 4 1 narrow document 6 refl (omega arith)

paragraph_chunks-covers_example : any (covers 6) (paragraph_chunks document) ≡ true
paragraph_chunks-covers_example = paragraph_chunks-covers document 6 99 (codes "ab") refl refl

-- both occurrences of "ab", where an earlier item has used the first
next_unused_offset-Anchors_example :
    Anchors
      (codes "ab cab")
      (codes "ab")
      (0 ∷ [])
      2
      (next_unused_offset (codes "ab cab") (codes "ab") (0 ∷ []))
next_unused_offset-Anchors_example =
    next_unused_offset-Anchors 97 (codes "b") (codes "ab cab") (0 ∷ []) 2

second_offset : next_unused_offset (codes "ab cab") (codes "ab") (0 ∷ []) ≡ some 4
unfolding next_unused_offset scan find find_in starts_with
second_offset = refl

abbrev percent : ℤ → Option ℕ
percent (pos n) = some n
percent (negsuc n) = none

abbrev percentages : Floats ℕ
percentages = record { float_of_int = percent; in_unit = λ x. leb x 100 }

-- an item with a quote of the text and one with a paraphrase
abbrev response : Json ℕ
response = object (
    member (codes "items")
      (array (
        element
          (object (
            member (codes "quote") (string (codes "cab"))
              (member (codes "confidence") (floating 70) no_members)))
          (element (object (member (codes "quote") (string (codes "cub")) no_members))
            no_elements)))
      no_members)

abbrev second : Chunk
second = chunk_of document 1 6 9 (codes "cab")

second-IsSlice : IsSlice document second
second-IsSlice = record { ordered = omega arith; inside = omega arith; text = refl }

parse-AreQuoted_example :
    AreQuoted document second second-IsSlice
      (parse percentages (λ t. some response) (codes "cab") 6 (codes "{}"))
parse-AreQuoted_example =
    parse-AreQuoted percentages (λ t. some response) document second second-IsSlice (codes "{}")

parse-is_ok_example :
    is_ok (parse percentages (λ t. some response) (codes "cab") 6 (codes "{}"))
    ≡ is_response percentages (some response)
parse-is_ok_example = parse-is_ok percentages (λ t. some response) (codes "cab") 6 (codes "{}")
