-- ===== src/Validation.antt =====
-- Records between the reader and the builder, and the validators of records: src/kgis/records.py
-- and src/kgis/validate.py. `V` is the type of the values that are not None; `repr` prints a text
-- for a message.
pub mod Composite
pub mod Terms
use agentic_kgis.Prelude.{
  ℕ, Bool, true, false, not, ◌&&◌, ◌||◌, Option, none, some, List, [], ◌∷◌, ◌++◌, map, Text, codes,
  any, keep, is_some, Dict, lookup, has_text, if◌then◌else◌,
}
use agentic_kgis.Candidates.{Candidate, Variant, entity, relation, attribute_assertion, other}

pub data FailureKind : Type 0 where
  bad_data unsupported_ontology transient_fault : FailureKind

pub data IssueSeverity : Type 0 where
  error warning : IssueSeverity

pub record RecordIssue : Type 0 where
  pub code : Text
  pub message : Text
  pub severity : IssueSeverity
  pub field_name : Option Text

pub record SourceCoordinates : Type 0 where
  pub source_type : Text
  pub locator : Text
  pub fragment : Option Text
  pub source_version : Option Text

pub record SourceRecord (V : Type 0) : Type 0 where
  pub index : ℕ
  pub coordinates : SourceCoordinates
  pub data_ : Dict (Option V)
  pub issues : List RecordIssue

pub record NormalizedRecord (V : Type 0) : Type 0 where
  pub index : ℕ
  pub coordinates : SourceCoordinates
  pub values : Dict (Option V)
  pub extras : Dict (Option V)
  pub issues : List RecordIssue

abbrev location : Option Text → Text
location none = []
location (some name) = codes " [" ++ name ++ codes "]"

-- `RecordIssue.render`
unfoldable pub render : RecordIssue → Text
render i = i.code ++ location i.field_name ++ codes ": " ++ i.message

abbrev pub is_error : RecordIssue → Bool
is_error i = elim i.severity [ error ↦ true | warning ↦ false ]

unfoldable pub has_errors : {V : Type 0} → NormalizedRecord V → Bool
has_errors r = any is_error r.issues

unfoldable pub errors : {V : Type 0} → NormalizedRecord V → List RecordIssue
errors r = keep is_error r.issues

unfoldable pub warnings : {V : Type 0} → NormalizedRecord V → List RecordIssue
warnings r = keep (λ i. not (is_error i)) r.issues

pub record RecordValidation : Type 0 where
  pub index : ℕ
  pub coordinates : SourceCoordinates
  pub valid : Bool
  pub failure_kind : Option FailureKind
  pub reasons : List Text
  pub warnings : List Text
  pub policy_version : Text

-- the validator of `RecordValidation`: a failure has a kind, and nothing else has
unfoldable pub failure_kind_matches : Bool → Option FailureKind → Bool
failure_kind_matches valid kind =
    if not valid && not (is_some kind) then false else not (valid && is_some kind)

abbrev pub default_policy_version : Text
default_policy_version = codes "1"

pub record RecordValidator (V : Type 0) : Type 0 where
  pub policy_version : Text
  pub validate : NormalizedRecord V → RecordValidation

abbrev pub accepting : {V : Type 0} → NormalizedRecord V → List Text → Text → RecordValidation
accepting r ws version = record {
  index = r.index;
  coordinates = r.coordinates;
  valid = true;
  failure_kind = none;
  reasons = [];
  warnings = ws;
  policy_version = version;
}

abbrev pub rejecting :
    {V : Type 0} → NormalizedRecord V → List Text → List Text → Text → RecordValidation
rejecting r rs ws version = record {
  index = r.index;
  coordinates = r.coordinates;
  valid = false;
  failure_kind = some bad_data;
  reasons = rs;
  warnings = ws;
  policy_version = version;
}

unfoldable pub issue_validator : {V : Type 0} → Text → RecordValidator V
issue_validator version = record {
  policy_version = version;
  validate = λ r.
      if has_errors r
      then rejecting r (map render (errors r)) (map render (warnings r)) version
      else accepting r (map render (warnings r)) version;
}

-- `record.values.get(name) is None`: a missing key or a null
abbrev pub is_null : {V : Type 0} → Option (Option V) → Bool
is_null none = true
is_null (some none) = true
is_null (some (some v)) = false

unfoldable pub missing_fields : {V : Type 0} → List Text → NormalizedRecord V → List Text
missing_fields fields r = keep (λ name. is_null (lookup name r.values)) fields

abbrev settle_missing :
    {V : Type 0} → (Text → Text) → Text → NormalizedRecord V → List Text → RecordValidation
settle_missing repr version r [] = accepting r [] version
settle_missing repr version r (m ∷ ms) =
    rejecting r (map (λ name. codes "required_value: " ++ repr name ++ codes " is null") (m ∷ ms))
      [] version

unfoldable pub required_values_validator :
    {V : Type 0} → (Text → Text) → List Text → Text → RecordValidator V
required_values_validator repr fields version = record {
  policy_version = version;
  validate = λ r. settle_missing repr version r (missing_fields fields r);
}

-- `_dedupe`: the values not seen so far, in order
unfoldable pub dedupe_from : List Text → List Text → List Text
dedupe_from seen [] = []
dedupe_from seen (v ∷ vs) =
    let rest = dedupe_from (v ∷ seen) vs in
    if has_text v seen then dedupe_from seen vs else v ∷ rest

unfoldable pub dedupe : List Text → List Text
dedupe vs = dedupe_from [] vs

-- what the loop of the composite validator has gathered
pub record Merged : Type 0 where
  pub reasons : List Text
  pub warnings : List Text
  pub failure_kind : Option FailureKind

abbrev pub nothing_merged : Merged
nothing_merged = record { reasons = []; warnings = []; failure_kind = none }

abbrev pub first_kind : Option FailureKind → Option FailureKind → Option FailureKind
first_kind none new = new
first_kind (some old) new = some old

unfoldable pub merge_one : RecordValidation → Merged → Merged
merge_one d m =
    if not d.valid
    then record {
      reasons = m.reasons ++ d.reasons;
      warnings = m.warnings ++ d.warnings;
      failure_kind = first_kind m.failure_kind d.failure_kind;
    }
    else record m { warnings = m.warnings ++ d.warnings }

unfoldable pub merge_all :
    {V : Type 0} → NormalizedRecord V → List (RecordValidator V) → Merged → Merged
merge_all r [] m = m
merge_all r (v ∷ vs) m = merge_all r vs (merge_one (v.validate r) m)

-- `"+".join(...)`
abbrev join_versions : {V : Type 0} → List (RecordValidator V) → Text
join_versions [] = []
join_versions (v ∷ []) = v.policy_version
join_versions (v ∷ w ∷ vs) = v.policy_version ++ codes "+" ++ join_versions (w ∷ vs)

-- `a or b`: an empty text counts as absent
abbrev or_else : Text → Text → Text
or_else [] b = b
or_else (c ∷ t) b = c ∷ t

abbrev or_text : Option Text → Text → Text
or_text none b = b
or_text (some a) b = or_else a b

unfoldable pub composite_record_validator :
    {V : Type 0} → List (RecordValidator V) → Option Text → RecordValidator V
composite_record_validator vs version = record {
  policy_version = or_text version (or_else (join_versions vs) default_policy_version);
  validate = λ r.
      let m = merge_all r vs nothing_merged in
      record {
        index = r.index;
        coordinates = r.coordinates;
        valid = not (is_some m.failure_kind);
        failure_kind = m.failure_kind;
        reasons = dedupe m.reasons;
        warnings = dedupe m.warnings;
        policy_version = or_text version (or_else (join_versions vs) default_policy_version);
      };
}

pub record ValidationDecision : Type 0 where
  pub candidate_id : Text
  pub valid : Bool
  pub failure_kind : Option FailureKind
  pub reasons : List Text
  pub policy_version : Text
  pub trace_id : Text
