-- ===== src/Examples/Fields.antt =====
-- Runs of the schema normalizer, with whole numbers for floats.
use agentic_kgis.Prelude.{
  strip, ℕ, Bool, true, ◌≡◌, refl, Option, none, some, List, [], ◌∷◌, Text, codes, ◌==◌, text_eq,
  text_beq, if◌then◌else◌,
}
use agentic_kgis.Validation.{SourceRecord, NormalizedRecord}
use agentic_kgis.Normalization.{
  ℤ, pos, negsuc, Value, text, integer, Runtime, FieldSpec, int, coerced, coerce, coerce_int,
}
use agentic_kgis.Normalization.Schema.{schema_normalize}
use agentic_kgis.Normalization.Records.{IsTyped, schema_normalize-IsTyped}
use agentic_kgis.Examples.Pipelines.{coordinates}

abbrev whole : ℤ → Option ℕ
whole (pos n) = some n
whole (negsuc n) = none

abbrev runtime : Runtime ℕ
runtime = record {
  casefold = λ t. t;
  parse_int = λ t. if t == codes "42" then some (pos 42) else none;
  parse_float = λ t. none;
  parse_datetime = λ t. none;
  int_of_float = λ n. some (pos n);
  float_of_int = whole;
  show_int = λ n. some (codes "n");
  show_float = λ n. codes "x";
  isoformat = λ d. codes "d";
  repr = λ v. some (codes "v");
  repr_text = λ t. t;
}

abbrev field : Text → Bool → FieldSpec ℕ
field name required = record {
  name = name;
  field_type = int;
  required = required;
  aliases = codes "years" ∷ [];
  default = none;
  empty_as_null = true;
}

abbrev specs : List (FieldSpec ℕ)
specs = field (codes "age") true ∷ []

abbrev source : SourceRecord (Value ℕ)
source = record {
  index = 0;
  coordinates = coordinates;
  data_ = (codes " years ", some (text (codes " 42 "))) ∷ (codes "note", none) ∷ [];
  issues = [];
}

text_is_coerced :
    coerce runtime (text (codes " 42 ")) (field (codes "age") true)
    ≡ coerced (some (integer (pos 42))) none
unfolding coerce coerce_int strip text_beq
text_is_coerced = refl

schema_normalize-IsTyped_example :
    (out : NormalizedRecord (Value ℕ)) × ((schema_normalize runtime specs [] source ≡ some out)
      × IsTyped specs out.values out.issues)
schema_normalize-IsTyped_example = schema_normalize-IsTyped runtime specs [] source (refl, (tt, tt))
