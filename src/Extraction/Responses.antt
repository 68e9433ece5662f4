-- ===== src/Extraction/Responses.antt =====
-- The responses that src/kgis/extraction/parse.py accepts.
use agentic_kgis.Prelude.{
  ℕ, suc, Bool, true, false, ◌&&◌, ◌≡◌, refl, ap, ◌∙◌, Option, none, some, List, [], ◌∷◌, Text,
  codes, Dict, lookup, if◌then◌else◌,
}
use agentic_kgis.Extraction.{
  Json, null, boolean, integer, floating, string, array, object, elements, members, Floats, Parsed,
  ok, raised, overflow, ExtractedItem, accepts, confidence_of, confidence_keys, popped, pop_first,
  pop_confidence, item_of, pop_quote, finish_item, read_item, prepend, parse_items, parse_array,
  parse_payload, parse, no_items, outside_unit,
}

abbrev pub is_ok : {A : Type 0} → Parsed A → Bool
is_ok (ok x) = true
is_ok (raised fault) = false

module _ {F : Type 0} (floats : Floats F) where
  -- `0.0 <= float(n) <= 1.0` for an integer that has a float
  abbrev in_range : Option F → Bool
  in_range none = false
  in_range (some x) = floats.in_unit x

  -- a number between zero and one
  abbrev is_confidence : Json F → Bool
  is_confidence (floating x) = floats.in_unit x
  is_confidence (integer n) = in_range (floats.float_of_int n)
  is_confidence _ = false

  -- the first of the fields that is there
  abbrev is_scored : List Text → Dict (Json F) → Bool
  is_scored [] values = true
  is_scored (key ∷ keys) values = elim (lookup key values) [
    | none ↦ is_scored keys values
    | some v ↦ is_confidence v
  ]

  abbrev pub is_item : Json F → Bool
  is_item (object ms) = is_scored confidence_keys (members ms [])
  is_item _ = false

  abbrev pub are_items : List (Json F) → Bool
  are_items [] = true
  are_items (v ∷ vs) = is_item v && are_items vs

  abbrev pub is_array : Json F → Bool
  is_array (array es) = are_items (elements es)
  is_array _ = false

  -- an array of objects, or an object that has one under `items`
  abbrev pub is_response : Option (Json F) → Bool
  is_response (some (array es)) = are_items (elements es)
  is_response (some (object ms)) = elim (lookup (codes "items") (members ms [])) [
    | none ↦ false
    | some v ↦ is_array v
  ]
  is_response _ = false

  -- what the pops of a confidence come to
  abbrev scored_well : Parsed (Option F × Dict (Json F)) → Bool
  scored_well (ok (confidence, values)) = accepts floats confidence
  scored_well (raised fault) = false

  popped-scored_well :
      (position : ℕ) (key : Text) (values : Dict (Json F)) (v : Json F)
      → scored_well (popped key values (confidence_of floats position key v)) ≡ is_confidence v
  unfolding confidence_of
  popped-scored_well position key values (floating x) = refl
  popped-scored_well position key values (integer n) = go (floats.float_of_int n)
    where
      go :
          (r : Option F)
          → scored_well (popped key values (elim r [ none ↦ raised overflow | some x ↦ ok x ]))
            ≡ in_range r
      go none = refl
      go (some x) = refl
  popped-scored_well position key values null = refl
  popped-scored_well position key values (boolean b) = refl
  popped-scored_well position key values (string t) = refl
  popped-scored_well position key values (array es) = refl
  popped-scored_well position key values (object ms) = refl

  pop_first-scored_well :
      (position : ℕ) (keys : List Text) (values : Dict (Json F))
      → scored_well (pop_first floats position keys values) ≡ is_scored keys values
  unfolding pop_first
  pop_first-scored_well position [] values = refl
  pop_first-scored_well position (key ∷ keys) values =
      go (lookup key values) (pop_first-scored_well position keys values)
    where
      go :
          (r : Option (Json F))
          → scored_well (pop_first floats position keys values) ≡ is_scored keys values
          → scored_well (elim r [
            | none ↦ pop_first floats position keys values
            | some raw ↦ popped key values (confidence_of floats position key raw)
          ])
            ≡ elim r [ none ↦ is_scored keys values | some v ↦ is_confidence v ]
      go none h = h
      go (some v) h = popped-scored_well position key values v

  finish_item-is_ok :
      (position : ℕ) (chunk : Text) (start : ℕ) (used : List ℕ)
      (r : Parsed (Option F × Dict (Json F)))
      → is_ok (finish_item floats position chunk start used r) ≡ scored_well r
  finish_item-is_ok position chunk start used (raised fault) = refl
  finish_item-is_ok position chunk start used (ok (confidence, values)) =
      go (accepts floats confidence)
        (item_of (pop_quote position chunk start used values) confidence)
    where
      go :
          (b : Bool) (item : ExtractedItem F × List ℕ)
          → is_ok (if b then ok item else raised outside_unit) ≡ b
      go true item = refl
      go false item = refl

  read_item-is_ok :
      (position : ℕ) (chunk : Text) (start : ℕ) (used : List ℕ) (v : Json F)
      → is_ok (read_item floats position chunk start used v) ≡ is_item v
  unfolding read_item pop_confidence
  read_item-is_ok position chunk start used (object ms) =
      finish_item-is_ok position chunk start used (pop_confidence floats position (members ms []))
      ∙ pop_first-scored_well position confidence_keys (members ms [])
  read_item-is_ok position chunk start used null = refl
  read_item-is_ok position chunk start used (boolean b) = refl
  read_item-is_ok position chunk start used (string t) = refl
  read_item-is_ok position chunk start used (array es) = refl
  read_item-is_ok position chunk start used (integer n) = refl
  read_item-is_ok position chunk start used (floating x) = refl

  prepend-is_ok :
      (item : ExtractedItem F) (r : Parsed (List (ExtractedItem F)))
      → is_ok (prepend item r) ≡ is_ok r
  prepend-is_ok item (ok items) = refl
  prepend-is_ok item (raised fault) = refl

  parse_items-is_ok :
      (position : ℕ) (chunk : Text) (start : ℕ) (used : List ℕ) (vs : List (Json F))
      → is_ok (parse_items floats position chunk start used vs) ≡ are_items vs
  unfolding parse_items
  parse_items-is_ok position chunk start used [] = refl
  parse_items-is_ok position chunk start used (v ∷ vs) =
      go (read_item floats position chunk start used v)
        (λ claimed. parse_items-is_ok (suc position) chunk start claimed vs)
      ∙ ap (λ b. b && are_items vs) (read_item-is_ok position chunk start used v)
    where
      go :
          (r : Parsed (ExtractedItem F × List ℕ))
          → ((claimed : List ℕ)
              → is_ok (parse_items floats (suc position) chunk start claimed vs) ≡ are_items vs)
          → is_ok (elim r [
            | raised fault ↦ raised fault
            | ok (item, claimed) ↦
                prepend item (parse_items floats (suc position) chunk start claimed vs)
          ])
            ≡ is_ok r && are_items vs
      go (raised fault) rest = refl
      go (ok (item, claimed)) rest = prepend-is_ok item _ ∙ rest claimed

  parse_array-is_ok :
      (chunk : Text) (start : ℕ) (v : Json F)
      → is_ok (parse_array floats chunk start v) ≡ is_array v
  unfolding parse_array
  parse_array-is_ok chunk start (array es) = parse_items-is_ok 0 chunk start [] (elements es)
  parse_array-is_ok chunk start null = refl
  parse_array-is_ok chunk start (boolean b) = refl
  parse_array-is_ok chunk start (string t) = refl
  parse_array-is_ok chunk start (object ms) = refl
  parse_array-is_ok chunk start (integer n) = refl
  parse_array-is_ok chunk start (floating x) = refl

  parse_payload-is_ok :
      (chunk : Text) (start : ℕ) (v : Option (Json F))
      → is_ok (parse_payload floats chunk start v) ≡ is_response v
  unfolding parse_payload
  parse_payload-is_ok chunk start none = refl
  parse_payload-is_ok chunk start (some (array es)) = parse_array-is_ok chunk start (array es)
  parse_payload-is_ok chunk start (some (object ms)) = go (lookup (codes "items") (members ms []))
    where
      go :
          (r : Option (Json F))
          → is_ok (elim r [
            | none ↦ raised no_items
            | some null ↦ raised no_items
            | some v ↦ parse_array floats chunk start v
          ])
            ≡ elim r [ none ↦ false | some v ↦ is_array v ]
      go none = refl
      go (some null) = refl
      go (some (boolean b)) = parse_array-is_ok chunk start (boolean b)
      go (some (integer n)) = parse_array-is_ok chunk start (integer n)
      go (some (floating x)) = parse_array-is_ok chunk start (floating x)
      go (some (string t)) = parse_array-is_ok chunk start (string t)
      go (some (object ms)) = parse_array-is_ok chunk start (object ms)
      go (some (array es)) = parse_array-is_ok chunk start (array es)
  parse_payload-is_ok chunk start (some null) = refl
  parse_payload-is_ok chunk start (some (boolean b)) = refl
  parse_payload-is_ok chunk start (some (integer n)) = refl
  parse_payload-is_ok chunk start (some (floating x)) = refl
  parse_payload-is_ok chunk start (some (string t)) = refl

  -- `parse` returns items, whatever the quotes are, exactly for an array of objects, or an object
  -- with such an array under `items`, in which every object's first confidence field, if it has one,
  -- is a number between zero and one; it raises for every other response.
  pub parse-is_ok :
      (loads : Text → Option (Json F)) (chunk : Text) (start : ℕ) (raw : Text)
      → is_ok (parse floats loads chunk start raw) ≡ is_response (loads raw)
  unfolding parse
  parse-is_ok loads chunk start raw = parse_payload-is_ok chunk start (loads raw)
