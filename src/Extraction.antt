-- ===== src/Extraction.antt =====
-- The parser of a model's response: src/kgis/extraction/parse.py. `F` is the type of Python's
-- floats; the JSON decoder is an argument of the parser.
pub mod Anchors
pub mod Quotes
pub mod Responses
use agentic_kgis.Prelude.{
  ℕ, zero, suc, ◌+◌, Bool, true, false, not, Option, none, some, List, [], ◌∷◌, ◌++◌, Text, codes,
  ◌==◌, text_eq, nat_beq, length, any, keep, find, Dict, lookup, set, if◌then◌else◌,
}
use agentic_kgis.Normalization.{ℤ}
use agentic_kgis.Graph.Apply.{str}

mutual
  -- what `json.loads` makes of a text
  pub data Json (F : Type 0) : Type 0 where
    null : Json F
    boolean : Bool → Json F
    integer : ℤ → Json F
    floating : F → Json F
    string : Text → Json F
    array : Elements F → Json F
    object : Members F → Json F

  pub data Elements (F : Type 0) : Type 0 where
    no_elements : Elements F
    element : Json F → Elements F → Elements F

  pub data Members (F : Type 0) : Type 0 where
    no_members : Members F
    member : Text → Json F → Members F → Members F

-- `float(n)`, `none` for its OverflowError, and `0.0 <= x <= 1.0`
pub record Floats (F : Type 0) : Type 0 where
  pub float_of_int : ℤ → Option F
  pub in_unit : F → Bool

-- What `parse` raises: ExtractionParseError for each of its reasons, the OverflowError of `float`,
-- and the ValidationError of `ExtractedItem`.
pub data Fault : Type 0 where
  not_json : Fault
  no_items : Fault
  not_container : Text → Fault
  items_not_array : Fault
  not_object : ℕ → Text → Fault
  not_number : ℕ → Text → Text → Fault
  overflow : Fault
  outside_unit : Fault

pub data Parsed (A : Type 0) : Type 0 where
  ok : A → Parsed A
  raised : Fault → Parsed A

pub record ExtractedItem (F : Type 0) : Type 0 where
  pub values : Dict (Json F)
  pub confidence : Option F
  pub quote : Option Text
  pub quote_start : Option ℕ
  pub quote_end : Option ℕ
  pub warnings : List Text

-- `_next_unused_offset`, its loop; a round moves the start of the search by one at least
unfoldable pub scan : ℕ → Text → Text → List ℕ → ℕ → Option ℕ
scan zero chunk quote used from = none
scan (suc fuel) chunk quote used from = elim (find chunk quote from) [
  | none ↦ none
  | some found ↦
      (let rest = scan fuel chunk quote used (found + 1) in
        if any (λ o. nat_beq found o) used then rest else some found)
]

-- `_next_unused_offset`, with `none` for -1
unfoldable pub next_unused_offset : Text → Text → List ℕ → Option ℕ
next_unused_offset chunk quote used = elim (scan (suc (length chunk)) chunk quote used 0) [
  | none ↦ find chunk quote 0
  | some found ↦ some found
]

abbrev pub confidence_keys : List Text
confidence_keys = codes "confidence" ∷ codes "extraction_confidence" ∷ []

-- a note of an item
abbrev pub warning : ℕ → Text → List Text
warning position text = (codes "item " ++ str position ++ text) ∷ []

-- what `_pop_quote` returns, and what it leaves of the values and the set of used offsets
pub record Lifted (F : Type 0) : Type 0 where
  pub quote : Option Text
  pub start : Option ℕ
  pub end : Option ℕ
  pub warnings : List Text
  pub values : Dict (Json F)
  pub used : List ℕ

module _ {F : Type 0} where
  -- `type(value).__name__`
  abbrev pub json_type : Json F → Text
  json_type null = codes "NoneType"
  json_type (boolean b) = codes "bool"
  json_type (integer n) = codes "int"
  json_type (floating x) = codes "float"
  json_type (string t) = codes "str"
  json_type (array es) = codes "list"
  json_type (object ms) = codes "dict"

  abbrev pub elements : Elements F → List (Json F)
  elements no_elements = []
  elements (element v es) = v ∷ elements es

  -- `{str(key): value for key, value in entry.items()}`, in front of which the dictionary stands
  abbrev pub members : Members F → Dict (Json F) → Dict (Json F)
  members no_members d = d
  members (member key v ms) d = members ms (set key v d)

  -- `values.pop(key)`, for its effect
  abbrev pub without : Text → Dict (Json F) → Dict (Json F)
  without key d = keep (λ e. not (e.0 == key)) d

  -- the value of a confidence field
  unfoldable pub confidence_of : Floats F → ℕ → Text → Json F → Parsed F
  confidence_of floats position key (floating x) = ok x
  confidence_of floats position key (integer n) = elim (floats.float_of_int n) [
    | none ↦ raised overflow
    | some x ↦ ok x
  ]
  confidence_of floats position key v = raised (not_number position key (json_type v))

  abbrev pub popped : Text → Dict (Json F) → Parsed F → Parsed (Option F × Dict (Json F))
  popped key values (ok x) = ok (some x, without key values)
  popped key values (raised fault) = raised fault

  -- `_pop_confidence`, its loop over the keys
  unfoldable pub pop_first :
      Floats F → ℕ → List Text → Dict (Json F) → Parsed (Option F × Dict (Json F))
  pop_first floats position [] values = ok (none, values)
  pop_first floats position (key ∷ keys) values = elim (lookup key values) [
    | none ↦ pop_first floats position keys values
    | some raw ↦ popped key values (confidence_of floats position key raw)
  ]

  unfoldable pub pop_confidence : Floats F → ℕ → Dict (Json F) → Parsed (Option F × Dict (Json F))
  pop_confidence floats position values = pop_first floats position confidence_keys values

  abbrev pub dropped : Dict (Json F) → List ℕ → List Text → Lifted F
  dropped values used warnings = record {
    quote = none;
    start = none;
    end = none;
    warnings = warnings;
    values = values;
    used = used;
  }

  -- the end of `_pop_quote`, for a quote that is not empty
  unfoldable pub anchor : ℕ → Text → ℕ → List ℕ → Text → Dict (Json F) → Lifted F
  anchor position chunk chunk_start used quote values = elim (next_unused_offset chunk quote used) [
    | none ↦ dropped values used (
        warning position
          (codes " quote is not an exact substring of the chunk text; quote dropped"))
    | some local ↦ record {
      quote = some quote;
      start = some (chunk_start + local);
      end = some (chunk_start + local + length quote);
      warnings = [];
      values = values;
      used = local ∷ used;
    }
  ]

  -- `_pop_quote`, for the value that it pops
  unfoldable pub take_quote : ℕ → Text → ℕ → List ℕ → Json F → Dict (Json F) → Lifted F
  take_quote position chunk chunk_start used (string []) values =
      dropped values used (warning position (codes " quote is empty; quote dropped"))
  take_quote position chunk chunk_start used (string (c ∷ quote)) values =
      anchor position chunk chunk_start used (c ∷ quote) values
  take_quote position chunk chunk_start used v values = dropped values used (
      warning position
        (codes " quote must be a string, got " ++ json_type v ++ codes "; quote dropped"))

  unfoldable pub pop_quote : ℕ → Text → ℕ → List ℕ → Dict (Json F) → Lifted F
  pop_quote position chunk chunk_start used values = elim (lookup (codes "quote") values) [
    | none ↦ dropped values used []
    | some raw ↦ take_quote position chunk chunk_start used raw (without (codes "quote") values)
  ]

  -- the constructor's check of the confidence
  abbrev pub accepts : Floats F → Option F → Bool
  accepts floats none = true
  accepts floats (some x) = floats.in_unit x

  -- the item of what the two pops leave, with the set of used offsets
  abbrev pub item_of : Lifted F → Option F → ExtractedItem F × List ℕ
  item_of lifted confidence = (
    record {
      values = lifted.values;
      confidence = confidence;
      quote = lifted.quote;
      quote_start = lifted.start;
      quote_end = lifted.end;
      warnings = lifted.warnings;
    },
    lifted.used,
  )

  abbrev pub finish_item :
      Floats F
      → ℕ
      → Text
      → ℕ
      → List ℕ
      → Parsed (Option F × Dict (Json F))
      → Parsed (ExtractedItem F × List ℕ)
  finish_item floats position chunk chunk_start used (raised fault) = raised fault
  finish_item floats position chunk chunk_start used (ok (confidence, values)) =
      if accepts floats confidence
      then ok (item_of (pop_quote position chunk chunk_start used values) confidence)
      else raised outside_unit

  -- a round of the loop of `parse`
  unfoldable pub read_item :
      Floats F → ℕ → Text → ℕ → List ℕ → Json F → Parsed (ExtractedItem F × List ℕ)
  read_item floats position chunk chunk_start used (object ms) =
      finish_item floats position chunk chunk_start used
        (pop_confidence floats position (members ms []))
  read_item floats position chunk chunk_start used v = raised (not_object position (json_type v))

  abbrev pub prepend :
      ExtractedItem F → Parsed (List (ExtractedItem F)) → Parsed (List (ExtractedItem F))
  prepend item (ok items) = ok (item ∷ items)
  prepend item (raised fault) = raised fault

  -- the loop of `parse`
  unfoldable pub parse_items :
      Floats F → ℕ → Text → ℕ → List ℕ → List (Json F) → Parsed (List (ExtractedItem F))
  parse_items floats position chunk chunk_start used [] = ok []
  parse_items floats position chunk chunk_start used (entry ∷ entries) =
      elim (read_item floats position chunk chunk_start used entry) [
        | raised fault ↦ raised fault
        | ok (item, claimed) ↦
            prepend item (parse_items floats (suc position) chunk chunk_start claimed entries)
      ]

  unfoldable pub parse_array : Floats F → Text → ℕ → Json F → Parsed (List (ExtractedItem F))
  parse_array floats chunk chunk_start (array es) =
      parse_items floats 0 chunk chunk_start [] (elements es)
  parse_array floats chunk chunk_start v = raised items_not_array

  -- `JsonItemsParser.parse` of what the decoder makes of the response; an `items` of null is absent
  unfoldable pub parse_payload :
      Floats F → Text → ℕ → Option (Json F) → Parsed (List (ExtractedItem F))
  parse_payload floats chunk chunk_start none = raised not_json
  parse_payload floats chunk chunk_start (some (array es)) =
      parse_array floats chunk chunk_start (array es)
  parse_payload floats chunk chunk_start (some (object ms)) =
      elim (lookup (codes "items") (members ms [])) [
        | none ↦ raised no_items
        | some null ↦ raised no_items
        | some v ↦ parse_array floats chunk chunk_start v
      ]
  parse_payload floats chunk chunk_start (some v) = raised (not_container (json_type v))

  -- `JsonItemsParser.parse`; `loads` answers `none` for a JSONDecodeError
  unfoldable pub parse :
      Floats F → (Text → Option (Json F)) → Text → ℕ → Text → Parsed (List (ExtractedItem F))
  parse floats loads chunk chunk_start raw = parse_payload floats chunk chunk_start (loads raw)
