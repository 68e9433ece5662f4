-- ===== src/Normalization.antt =====
-- The coercions of src/kgis/normalize.py. A value is text, an integer, a float, a boolean, a
-- datetime or something else by the name of its type; None is the absence of a value. What the
-- code asks of Python's float, Unicode and datetime tables is a field of `Runtime`.
pub mod Schema
pub mod Types
pub mod Records
use agentic_kgis.Prelude.{
  ℕ, Bool, true, false, not, ◌&&◌, ◌||◌, Option, none, some, List, [], ◌∷◌, ◌++◌, Text, codes, ◌==◌,
  nat_eq, strip, has_text, if◌then◌else◌,
}
use agentic_kgis.Validation.{RecordIssue, error, warning}

pub data ℤ : Type 0 where
  pos negsuc : ℕ → ℤ

pub record Datetime : Type 0 where
  pub instant : ℕ
  pub is_aware : Bool

pub data Value (F : Type 0) : Type 0 where
  text : Text → Value F
  integer : ℤ → Value F
  floating : F → Value F
  boolean : Bool → Value F
  datetime : Datetime → Value F
  other_value : Text → Value F

-- `int(t)`, `float(t)` and `datetime.fromisoformat(t)` answer `none` for a ValueError, as do `str(n)`
-- and `repr(v)`, which refuse an integer of more than 4300 digits; `float_of_int` answers it for the
-- OverflowError of `float(n)`, and `int_of_float` where `is_integer` fails.
pub record Runtime (F : Type 0) : Type 0 where
  pub casefold : Text → Text
  pub parse_int : Text → Option ℤ
  pub parse_float : Text → Option F
  pub parse_datetime : Text → Option Datetime
  pub int_of_float : F → Option ℤ
  pub float_of_int : ℤ → Option F
  pub show_int : ℤ → Option Text
  pub show_float : F → Text
  pub isoformat : Datetime → Text
  pub repr : Value F → Option Text
  pub repr_text : Text → Text

pub data FieldType : Type 0 where
  str int float bool datetime_type : FieldType

abbrev pub field_type_name : FieldType → Text
field_type_name str = codes "str"
field_type_name int = codes "int"
field_type_name float = codes "float"
field_type_name bool = codes "bool"
field_type_name datetime_type = codes "datetime"

-- `type(raw).__name__`
abbrev pub type_name : {F : Type 0} → Value F → Text
type_name (text t) = codes "str"
type_name (integer n) = codes "int"
type_name (floating x) = codes "float"
type_name (boolean b) = codes "bool"
type_name (datetime d) = codes "datetime"
type_name (other_value name) = name

pub record FieldSpec (F : Type 0) : Type 0 where
  pub name : Text
  pub field_type : FieldType
  pub required : Bool
  pub aliases : List Text
  pub default : Option (Value F)
  pub empty_as_null : Bool

-- a value or None with an issue, or an exception that leaves the coercion
pub data Coerced (F : Type 0) : Type 0 where
  coerced : Option (Value F) → Option RecordIssue → Coerced F
  raised : Coerced F

abbrev true_strings : List Text
true_strings = codes "true" ∷ codes "t" ∷ codes "yes" ∷ codes "y" ∷ codes "1" ∷ []

abbrev false_strings : List Text
false_strings = codes "false" ∷ codes "f" ∷ codes "no" ∷ codes "n" ∷ codes "0" ∷ []

module _ {F : Type 0} (py : Runtime F) where
  -- the issue that `_failed` makes, with the printed value
  abbrev pub failure_issue : Text → FieldSpec F → Text → RecordIssue
  failure_issue shown spec why = record {
    code = codes "coercion_failed";
    message =
        codes "cannot read "
        ++ shown
        ++ codes " as "
        ++ field_type_name spec.field_type
        ++ codes ": "
        ++ why;
    severity = error;
    field_name = some spec.name;
  }

  abbrev pub failed_as : Option Text → FieldSpec F → Text → Coerced F
  failed_as none spec why = raised
  failed_as (some shown) spec why = coerced none (some (failure_issue shown spec why))

  -- `_failed`
  unfoldable pub failed : Value F → FieldSpec F → Text → Coerced F
  failed raw spec why = failed_as (py.repr raw) spec why

  abbrev pub done : Value F → Coerced F
  done v = coerced (some v) none

  abbrev pub not_a : Text → Value F → FieldSpec F → Coerced F
  not_a what raw spec = failed raw spec (type_name raw ++ codes " is not a " ++ what)

  abbrev pub or_raised : {A : Type 0} → (A → Value F) → Option A → Coerced F
  or_raised wrap none = raised
  or_raised wrap (some a) = done (wrap a)

  unfoldable pub coerce_str : Value F → FieldSpec F → Coerced F
  coerce_str (text t) spec = done (text (strip t))
  coerce_str (boolean b) spec =
      failed (boolean b) spec (codes "a boolean has no unambiguous string form")
  coerce_str (integer n) spec = or_raised text (py.show_int n)
  coerce_str (floating x) spec = done (text (py.show_float x))
  coerce_str (datetime d) spec = not_a (codes "scalar") (datetime d) spec
  coerce_str (other_value name) spec = not_a (codes "scalar") (other_value name) spec

  abbrev pub or_failed :
      {A : Type 0} → (A → Value F) → Text → Value F → FieldSpec F → Option A → Coerced F
  or_failed wrap why raw spec none = failed raw spec why
  or_failed wrap why raw spec (some a) = done (wrap a)

  unfoldable pub coerce_int : Value F → FieldSpec F → Coerced F
  coerce_int (boolean b) spec = failed (boolean b) spec (codes "a boolean is not an integer")
  coerce_int (integer n) spec = done (integer n)
  coerce_int (floating x) spec =
      or_failed integer (codes "would lose the fractional part") (floating x) spec
        (py.int_of_float x)
  coerce_int (text t) spec =
      or_failed integer (codes "not an integer literal") (text t) spec (py.parse_int (strip t))
  coerce_int (datetime d) spec = not_a (codes "number") (datetime d) spec
  coerce_int (other_value name) spec = not_a (codes "number") (other_value name) spec

  unfoldable pub coerce_float : Value F → FieldSpec F → Coerced F
  coerce_float (boolean b) spec = failed (boolean b) spec (codes "a boolean is not a number")
  coerce_float (integer n) spec = or_raised floating (py.float_of_int n)
  coerce_float (floating x) spec = done (floating x)
  coerce_float (text t) spec =
      or_failed floating (codes "not a number") (text t) spec (py.parse_float (strip t))
  coerce_float (datetime d) spec = not_a (codes "number") (datetime d) spec
  coerce_float (other_value name) spec = not_a (codes "number") (other_value name) spec

  abbrev pub bool_of_int : ℤ → Option Bool
  bool_of_int (pos n) = if n == 0 then some false else if n == 1 then some true else none
  bool_of_int (negsuc n) = none

  abbrev pub bool_of_text : Text → Option Bool
  bool_of_text t =
      if has_text t true_strings
      then some true
      else if has_text t false_strings
      then some false
      else none

  unfoldable pub coerce_bool : Value F → FieldSpec F → Coerced F
  coerce_bool (boolean b) spec = done (boolean b)
  coerce_bool (integer n) spec =
      or_failed boolean (codes "only 0 and 1 are boolean") (integer n) spec (bool_of_int n)
  coerce_bool (text t) spec =
      or_failed boolean
        (codes "expected one of ['0', '1', 'f', 'false', 'n', 'no', 't', 'true', 'y', 'yes']")
        (text t) spec (bool_of_text (py.casefold (strip t)))
  coerce_bool (floating x) spec = not_a (codes "boolean") (floating x) spec
  coerce_bool (datetime d) spec = not_a (codes "boolean") (datetime d) spec
  coerce_bool (other_value name) spec = not_a (codes "boolean") (other_value name) spec

  -- `_ensure_aware`
  unfoldable pub ensure_aware : Datetime → FieldSpec F → Coerced F
  ensure_aware d spec =
      if d.is_aware
      then done (datetime d)
      else coerced (some (datetime (record d { is_aware = true }))) (
          some (record {
            code = codes "assumed_utc";
            message = py.isoformat d ++ codes " has no timezone; assuming UTC";
            severity = warning;
            field_name = some spec.name;
          }))

  abbrev pub or_aware : Value F → FieldSpec F → Option Datetime → Coerced F
  or_aware raw spec none = failed raw spec (codes "not an ISO-8601 datetime")
  or_aware raw spec (some d) = ensure_aware d spec

  unfoldable pub coerce_datetime : Value F → FieldSpec F → Coerced F
  coerce_datetime (datetime d) spec = ensure_aware d spec
  coerce_datetime (text t) spec = or_aware (text t) spec (py.parse_datetime (strip t))
  coerce_datetime (integer n) spec = not_a (codes "datetime") (integer n) spec
  coerce_datetime (floating x) spec = not_a (codes "datetime") (floating x) spec
  coerce_datetime (boolean b) spec = not_a (codes "datetime") (boolean b) spec
  coerce_datetime (other_value name) spec = not_a (codes "datetime") (other_value name) spec

  abbrev pub coerce_as : FieldType → Value F → FieldSpec F → Coerced F
  coerce_as str raw spec = coerce_str raw spec
  coerce_as int raw spec = coerce_int raw spec
  coerce_as float raw spec = coerce_float raw spec
  coerce_as bool raw spec = coerce_bool raw spec
  coerce_as datetime_type raw spec = coerce_datetime raw spec

  unfoldable pub coerce : Value F → FieldSpec F → Coerced F
  coerce raw spec = coerce_as spec.field_type raw spec
