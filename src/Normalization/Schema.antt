-- ===== src/Normalization/Schema.antt =====
-- `PassthroughNormalizer` and `SchemaNormalizer` of src/kgis/normalize.py.
use agentic_kgis.Prelude.{
  strip, Bool, true, false, not, ◌&&◌, Option, none, some, List, [], ◌∷◌, ◌++◌, Text, codes, ◌==◌,
  text_eq, keep, is_some, Dict, lookup, set, if◌then◌else◌,
}
use agentic_kgis.Validation.{RecordIssue, error, SourceRecord, NormalizedRecord}
use agentic_kgis.Normalization.{
  Value, text, integer, floating, boolean, datetime, other_value, Runtime, FieldSpec, Coerced,
  coerced, raised, coerce,
}

unfoldable pub passthrough_normalize : {V : Type 0} → SourceRecord V → NormalizedRecord V
passthrough_normalize r = record {
  index = r.index;
  coordinates = r.coordinates;
  values = r.data_;
  extras = [];
  issues = r.issues;
}

abbrev pub source_keys : {F : Type 0} → FieldSpec F → List Text
source_keys spec = spec.name ∷ spec.aliases

-- what the loop over the fields has gathered
pub record Fields (F : Type 0) : Type 0 where
  pub values : Dict (Option (Value F))
  pub issues : List RecordIssue

module _ {F : Type 0} (py : Runtime F) where
  -- `_match_key`
  unfoldable pub match_key : Text → Text
  match_key key = py.casefold (strip key)

  abbrev claimed_by_other : Option Text → Text → Bool
  claimed_by_other none name = false
  claimed_by_other (some owner) name = not (owner == name)

  unfoldable pub claim_keys : Text → List Text → Dict Text → Option (Dict Text)
  claim_keys name [] claimed = some claimed
  claim_keys name (k ∷ ks) claimed =
      let rest = claim_keys name ks (set (match_key k) name claimed) in
      if claimed_by_other (lookup (match_key k) claimed) name then none else rest

  -- `SchemaNormalizer.__init__`: `none` where it raises
  unfoldable pub claim_fields : List (FieldSpec F) → Dict Text → Option (Dict Text)
  claim_fields [] claimed = some claimed
  claim_fields (spec ∷ specs) claimed = elim (claim_keys spec.name (source_keys spec) claimed) [
    | none ↦ none
    | some claimed' ↦ claim_fields specs claimed'
  ]

  -- the record's data by their comparison keys, where a later key replaces an earlier one
  unfoldable pub match_data :
      Dict (Option (Value F)) → Dict (Option (Value F)) → Dict (Option (Value F))
  match_data [] table = table
  match_data (entry ∷ d) table = match_data d (set (match_key entry.0) entry.1 table)

  abbrev pub first_of :
      Option (Option (Value F)) → Option (Option (Value F)) → Option (Option (Value F))
  first_of none rest = rest
  first_of (some v) rest = some v

  -- `_lookup`
  unfoldable pub lookup_first : List Text → Dict (Option (Value F)) → Option (Option (Value F))
  lookup_first [] table = none
  lookup_first (k ∷ ks) table = first_of (lookup (match_key k) table) (lookup_first ks table)

  abbrev pub is_blank : Value F → Bool
  is_blank (text t) = elim (strip t) [ [] ↦ true | c ∷ rest ↦ false ]
  is_blank (integer n) = false
  is_blank (floating x) = false
  is_blank (boolean b) = false
  is_blank (datetime d) = false
  is_blank (other_value name) = false

  -- a value to coerce, or none where the field is missing or `_is_absent`
  unfoldable pub present_value : FieldSpec F → Option (Option (Value F)) → Option (Value F)
  present_value spec none = none
  present_value spec (some none) = none
  present_value spec (some (some raw)) =
      if spec.empty_as_null && is_blank raw then none else some raw

  abbrev pub missing_issue : FieldSpec F → RecordIssue
  missing_issue spec = record {
    code = codes "missing_required";
    message = codes "required field " ++ py.repr_text spec.name ++ codes " is missing or empty";
    severity = error;
    field_name = some spec.name;
  }

  abbrev add_issue : Option RecordIssue → List RecordIssue → List RecordIssue
  add_issue none is = is
  add_issue (some i) is = is ++ i ∷ []

  unfoldable pub fill_absent : FieldSpec F → Fields F → Fields F
  fill_absent spec f = record {
    values = set spec.name spec.default f.values;
    issues = if spec.required then f.issues ++ missing_issue spec ∷ [] else f.issues;
  }

  unfoldable pub fill_coerced : FieldSpec F → Coerced F → Fields F → Option (Fields F)
  fill_coerced spec raised f = none
  fill_coerced spec (coerced v issue) f =
      some (record { values = set spec.name v f.values; issues = add_issue issue f.issues })

  -- one round of the loop of `normalize`
  unfoldable pub fill_field : FieldSpec F → Option (Value F) → Fields F → Option (Fields F)
  fill_field spec none f = some (fill_absent spec f)
  fill_field spec (some raw) f = fill_coerced spec (coerce py raw spec) f

  unfoldable pub fill_fields :
      Dict (Option (Value F)) → List (FieldSpec F) → Fields F → Option (Fields F)
  fill_fields table [] f = some f
  fill_fields table (spec ∷ specs) f =
      elim (fill_field spec (present_value spec (lookup_first (source_keys spec) table)) f) [
        | none ↦ none
        | some f' ↦ fill_fields table specs f'
      ]

  abbrev pub finish :
      Dict Text → SourceRecord (Value F) → Option (Fields F) → Option (NormalizedRecord (Value F))
  finish claimed r none = none
  finish claimed r (some f) = some (record {
    index = r.index;
    coordinates = r.coordinates;
    values = f.values;
    extras = keep (λ entry. not (is_some (lookup (match_key entry.0) claimed))) r.data_;
    issues = f.issues;
  })

  -- `SchemaNormalizer.normalize`: `none` where an exception leaves it
  unfoldable pub schema_normalize :
      List (FieldSpec F) → Dict Text → SourceRecord (Value F) → Option (NormalizedRecord (Value F))
  schema_normalize specs claimed r =
      finish claimed r
        (fill_fields (match_data r.data_ []) specs (record { values = []; issues = r.issues }))
