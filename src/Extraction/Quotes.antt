-- ===== src/Extraction/Quotes.antt =====
-- The quotes of the items that src/kgis/extraction/parse.py returns, and the text of the document.
use agentic_kgis.Prelude.{
  ℕ, suc, ◌+◌, ◌-◌, ◌≤◌, Bool, true, false, ◌≡◌, sym, ap, ◌∙◌, arith, Option, none, some, List, [],
  ◌∷◌, ◌++◌, Text, codes, length, All, take, drop, slice, slice-append, slice-splits, take-drop,
  length-append, length-take-le, length-drop-eq, Dict, lookup, occurs, occurs-within,
  starts_with-take, if◌then◌else◌,
}
use mathlib.Core.List.{append_assoc}
use agentic_kgis.Documents.{Document, Chunk}
use agentic_kgis.Documents.Slices.{IsSlice}
use agentic_kgis.Extraction.{
  Json, null, boolean, integer, floating, string, array, object, elements, members, Floats, Parsed,
  ok, raised, ExtractedItem, Lifted, dropped, next_unused_offset, anchor, take_quote, pop_quote,
  accepts, finish_item, read_item, prepend, parse_items, parse_array, parse_payload, parse, without,
  warning, item_of, outside_unit, no_items, pop_confidence,
}
use agentic_kgis.Extraction.Anchors.{Anchors, next_unused_offset-Anchors}

-- a quote, its start and its end are all absent, or the text between the two is the quote
abbrev pub Quotes : Text → Option Text → Option ℕ → Option ℕ → Type 0
Quotes text none none none = Unit
Quotes text (some quote) (some start) (some end) =
    (start ≤ end) × ((end ≤ length text) × (slice start end text ≡ quote))
Quotes text _ _ _ = ⊥

slice-occurs :
    (xs : Text) (start end i a : ℕ) (p : Text)
    → start ≤ end
    → end ≤ length xs
    → occurs (slice start end xs) (a ∷ p) i ≡ true
    → (start + i + length (a ∷ p) ≤ length xs)
      × (slice (start + i) (start + i + length (a ∷ p)) xs ≡ a ∷ p)
slice-occurs xs start end i a p h k e =
    let part = slice start end xs in
    let fits = occurs-within a p part i e in
    let wide =
      length-take-le (end - start) (drop start xs) (omega (arith, h, k, length-drop-eq start xs)) in
    let front = length-take-le start xs (omega (arith, h, k)) in
    let lead = length-take-le i part (omega (arith, fits)) in
    let post = drop (length (a ∷ p)) (drop i part) in
    let rest = drop (end - start) (drop start xs) in
    let middle =
      sym (take-drop i part)
      ∙ ap (λ l. take i part ++ l)
          (sym (take-drop (length (a ∷ p)) (drop i part))
            ∙ ap (λ l. l ++ post) (starts_with-take (a ∷ p) (drop i part) e)) in
    let whole =
      slice-splits start end xs
      ∙ ap (λ l. take start xs ++ (l ++ rest)) middle
      ∙ ap (λ l. take start xs ++ l)
          (append_assoc (take i part) ((a ∷ p) ++ post) rest
            ∙ ap (λ l. take i part ++ l) (append_assoc (a ∷ p) post rest))
      ∙ sym (append_assoc (take start xs) (take i part) ((a ∷ p) ++ (post ++ rest))) in
    let first = length-append (take start xs) (take i part) in
    (
      omega (arith, h, k, fits, wide),
      ap (λ l. slice (start + i) (start + i + length (a ∷ p)) l) whole
          ∙ slice-append (take start xs ++ take i part) (a ∷ p) (post ++ rest) (start + i)
              (start + i + length (a ∷ p)) (omega (arith, first, front, lead))
              (omega (arith, first, front, lead)),
    )

module _ {F : Type 0} (d : Document) (c : Chunk) (s : IsSlice d c) where
  -- the quote that was lifted stands in the document where it is said to
  abbrev IsLifted : Lifted F → Type 0
  IsLifted l = Quotes d.text l.quote l.start l.end

  anchor-IsLifted :
      (position : ℕ) (used : List ℕ) (a : ℕ) (p : Text) (values : Dict (Json F))
      → IsLifted (anchor position c.text c.start used (a ∷ p) values)
  unfolding anchor
  anchor-IsLifted position used a p values =
      go (next_unused_offset c.text (a ∷ p) used) (next_unused_offset-Anchors a p c.text used 0)
    where
      go :
          (r : Option ℕ)
          → Anchors c.text (a ∷ p) used 0 r
          → IsLifted (elim r [
            | none ↦ dropped values used (
                warning position
                  (codes " quote is not an exact substring of the chunk text; quote dropped"))
            | some local ↦ record {
              quote = some (a ∷ p);
              start = some (c.start + local);
              end = some (c.start + local + length (a ∷ p));
              warnings = [];
              values = values;
              used = local ∷ used;
            }
          ])
      go none h = tt
      go (some local) (here, _) =
          let there = ap (λ t. occurs t (a ∷ p) local) s.text ∙ here in
          (omega arith, slice-occurs d.text c.start c.end local a p s.ordered s.inside there)

  take_quote-IsLifted :
      (position : ℕ) (used : List ℕ) (v : Json F) (values : Dict (Json F))
      → IsLifted (take_quote position c.text c.start used v values)
  unfolding take_quote
  take_quote-IsLifted position used (string []) values = tt
  take_quote-IsLifted position used (string (a ∷ p)) values =
      anchor-IsLifted position used a p values
  take_quote-IsLifted position used null values = tt
  take_quote-IsLifted position used (boolean b) values = tt
  take_quote-IsLifted position used (integer n) values = tt
  take_quote-IsLifted position used (floating x) values = tt
  take_quote-IsLifted position used (array es) values = tt
  take_quote-IsLifted position used (object ms) values = tt

  pop_quote-IsLifted :
      (position : ℕ) (used : List ℕ) (values : Dict (Json F))
      → IsLifted (pop_quote position c.text c.start used values)
  unfolding pop_quote
  pop_quote-IsLifted position used values = go (lookup (codes "quote") values)
    where
      go :
          (r : Option (Json F))
          → IsLifted (elim r [
            | none ↦ dropped values used []
            | some raw ↦
                take_quote position c.text c.start used raw (without (codes "quote") values)
          ])
      go none = tt
      go (some raw) = take_quote-IsLifted position used raw (without (codes "quote") values)

  -- an item whose quote stands in the document
  abbrev pub IsQuoted : ExtractedItem F → Type 0
  IsQuoted item = Quotes d.text item.quote item.quote_start item.quote_end

  abbrev ItemIsQuoted : Parsed (ExtractedItem F × List ℕ) → Type 0
  ItemIsQuoted (ok (item, used)) = IsQuoted item
  ItemIsQuoted (raised fault) = Unit

  -- the items of a response that is parsed
  abbrev pub AreQuoted : Parsed (List (ExtractedItem F)) → Type 0
  AreQuoted (ok items) = All IsQuoted items
  AreQuoted (raised fault) = Unit

  read_item-IsQuoted :
      (floats : Floats F) (position : ℕ) (used : List ℕ) (v : Json F)
      → ItemIsQuoted (read_item floats position c.text c.start used v)
  unfolding read_item
  read_item-IsQuoted floats position used (object ms) =
      go (pop_confidence floats position (members ms []))
    where
      go :
          (r : Parsed (Option F × Dict (Json F)))
          → ItemIsQuoted (finish_item floats position c.text c.start used r)
      go (raised fault) = tt
      go (ok (confidence, values)) = test (accepts floats confidence)
        where
          test :
              (b : Bool)
              → ItemIsQuoted (
                  if b
                  then ok (item_of (pop_quote position c.text c.start used values) confidence)
                  else raised outside_unit)
          test true = pop_quote-IsLifted position used values
          test false = tt
  read_item-IsQuoted floats position used null = tt
  read_item-IsQuoted floats position used (boolean b) = tt
  read_item-IsQuoted floats position used (integer n) = tt
  read_item-IsQuoted floats position used (floating x) = tt
  read_item-IsQuoted floats position used (string t) = tt
  read_item-IsQuoted floats position used (array es) = tt

  prepend-AreQuoted :
      (item : ExtractedItem F) (r : Parsed (List (ExtractedItem F)))
      → IsQuoted item
      → AreQuoted r
      → AreQuoted (prepend item r)
  prepend-AreQuoted item (ok items) h k = (h, k)
  prepend-AreQuoted item (raised fault) h k = tt

  parse_items-AreQuoted :
      (floats : Floats F) (position : ℕ) (used : List ℕ) (vs : List (Json F))
      → AreQuoted (parse_items floats position c.text c.start used vs)
  unfolding parse_items
  parse_items-AreQuoted floats position used [] = tt
  parse_items-AreQuoted floats position used (v ∷ vs) =
      go (read_item floats position c.text c.start used v)
        (read_item-IsQuoted floats position used v)
        (λ claimed. parse_items-AreQuoted floats (suc position) claimed vs)
    where
      go :
          (r : Parsed (ExtractedItem F × List ℕ))
          → ItemIsQuoted r
          → ((claimed : List ℕ)
              → AreQuoted (parse_items floats (suc position) c.text c.start claimed vs))
          → AreQuoted (elim r [
            | raised fault ↦ raised fault
            | ok (item, claimed) ↦
                prepend item (parse_items floats (suc position) c.text c.start claimed vs)
          ])
      go (raised fault) h rest = tt
      go (ok (item, claimed)) h rest = prepend-AreQuoted item _ h (rest claimed)

  parse_array-AreQuoted :
      (floats : Floats F) (v : Json F) → AreQuoted (parse_array floats c.text c.start v)
  unfolding parse_array
  parse_array-AreQuoted floats (array es) = parse_items-AreQuoted floats 0 [] (elements es)
  parse_array-AreQuoted floats null = tt
  parse_array-AreQuoted floats (boolean b) = tt
  parse_array-AreQuoted floats (integer n) = tt
  parse_array-AreQuoted floats (floating x) = tt
  parse_array-AreQuoted floats (string t) = tt
  parse_array-AreQuoted floats (object ms) = tt

  parse_payload-AreQuoted :
      (floats : Floats F) (v : Option (Json F)) → AreQuoted (parse_payload floats c.text c.start v)
  unfolding parse_payload
  parse_payload-AreQuoted floats none = tt
  parse_payload-AreQuoted floats (some (array es)) = parse_array-AreQuoted floats (array es)
  parse_payload-AreQuoted floats (some (object ms)) = go (lookup (codes "items") (members ms []))
    where
      go :
          (r : Option (Json F))
          → AreQuoted (elim r [
            | none ↦ raised no_items
            | some null ↦ raised no_items
            | some v ↦ parse_array floats c.text c.start v
          ])
      go none = tt
      go (some null) = tt
      go (some (boolean b)) = parse_array-AreQuoted floats (boolean b)
      go (some (integer n)) = parse_array-AreQuoted floats (integer n)
      go (some (floating x)) = parse_array-AreQuoted floats (floating x)
      go (some (string t)) = parse_array-AreQuoted floats (string t)
      go (some (object ms)) = parse_array-AreQuoted floats (object ms)
      go (some (array es)) = parse_array-AreQuoted floats (array es)
  parse_payload-AreQuoted floats (some null) = tt
  parse_payload-AreQuoted floats (some (boolean b)) = tt
  parse_payload-AreQuoted floats (some (integer n)) = tt
  parse_payload-AreQuoted floats (some (floating x)) = tt
  parse_payload-AreQuoted floats (some (string t)) = tt

-- Of a response to a chunk of the document, every item that `parse` returns either carries no quote
-- and no offsets, or its quote is the document's text between its two offsets, within the document.
pub parse-AreQuoted :
    {F : Type 0} (floats : Floats F) (loads : Text → Option (Json F)) (d : Document) (c : Chunk)
    (s : IsSlice d c) (raw : Text)
    → AreQuoted d c s (parse floats loads c.text c.start raw)
unfolding parse
parse-AreQuoted floats loads d c s raw = parse_payload-AreQuoted d c s floats (loads raw)
