-- ===== src/Normalization/Types.antt =====
-- The types that the coercions of src/kgis/normalize.py give, and when they answer at all.
use agentic_kgis.Prelude.{
  strip, Bool, true, false, not, ◌||◌, ◌≡◌, refl, sym, ap, ◌∙◌, Option, none, some, Text, is_some,
  or_false, Bool-cases, Option-cases, inl, inr,
}
use mathlib.Core.Bool.{true≢false}
use agentic_kgis.Validation.{error, warning}
use agentic_kgis.Normalization.{
  Datetime, Value, text, integer, floating, boolean, datetime, other_value, Runtime, FieldType, str,
  int, float, bool, datetime_type, FieldSpec, Coerced, coerced, raised, failed, or_raised,
  or_failed, or_aware, bool_of_int, bool_of_text, coerce_str, coerce_int, coerce_float, coerce_bool,
  ensure_aware, coerce_datetime, coerce_as, coerce,
}

-- a value of the type, a datetime with its time zone
abbrev pub has_type : {F : Type 0} → FieldType → Value F → Bool
has_type str (text t) = true
has_type int (integer n) = true
has_type float (floating x) = true
has_type bool (boolean b) = true
has_type datetime_type (datetime d) = d.is_aware
has_type _ _ = false

-- A coercion answers: a value of the type, with a warning at most, or None with an error.
abbrev pub IsCoerced : {F : Type 0} → FieldType → Coerced F → Type 0
IsCoerced t (coerced none none) = ⊥
IsCoerced t (coerced none (some i)) = i.severity ≡ error
IsCoerced t (coerced (some v) none) = has_type t v ≡ true
IsCoerced t (coerced (some v) (some i)) = (has_type t v ≡ true) × (i.severity ≡ warning)
IsCoerced t raised = ⊥

module _ {F : Type 0} (py : Runtime F) where
  abbrev refuses_int : Value F → Bool
  refuses_int (integer n) = not (is_some (py.show_int n)) || not (is_some (py.float_of_int n))
  refuses_int (text t) = false
  refuses_int (floating x) = false
  refuses_int (boolean b) = false
  refuses_int (datetime d) = false
  refuses_int (other_value name) = false

  -- the values that Python will not print, or an integer that it will not turn into a float
  abbrev pub refuses : Value F → Bool
  refuses raw = not (is_some (py.repr raw)) || refuses_int raw

  module _ (spec : FieldSpec F) where
    failed-IsCoerced :
        (t : FieldType) (raw : Value F) (why : Text)
        → refuses raw ≡ false
        → IsCoerced t (failed py raw spec why)
    unfolding failed
    failed-IsCoerced t raw why h = elim (Option-cases (py.repr raw)) [
      | inl e ↦ absurd (true≢false (sym (ap (λ o. not (is_some o) || refuses_int raw) e) ∙ h))
      | inr (shown, e) ↦ rw e refl
    ]

    or_failed-IsCoerced :
        {A : Type 0} (t : FieldType) (wrap : A → Value F) (raw : Value F) (why : Text)
        (o : Option A)
        → ((a : A) → has_type t (wrap a) ≡ true)
        → refuses raw ≡ false
        → IsCoerced t (or_failed py wrap why raw spec o)
    or_failed-IsCoerced t wrap raw why none typed h = failed-IsCoerced t raw why h
    or_failed-IsCoerced t wrap raw why (some a) typed h = typed a

    or_raised-IsCoerced :
        {A : Type 0} (t : FieldType) (wrap : A → Value F) (o : Option A)
        → ((a : A) → has_type t (wrap a) ≡ true)
        → not (is_some o) ≡ false
        → IsCoerced t (or_raised py wrap o)
    or_raised-IsCoerced t wrap none typed h = absurd (true≢false h)
    or_raised-IsCoerced t wrap (some a) typed h = typed a

    coerce_str-IsCoerced :
        (raw : Value F) → refuses raw ≡ false → IsCoerced str (coerce_str py raw spec)
    unfolding coerce_str
    coerce_str-IsCoerced (text t) h = refl
    coerce_str-IsCoerced (boolean b) h = failed-IsCoerced str (boolean b) _ h
    coerce_str-IsCoerced (integer n) h =
        or_raised-IsCoerced str text (py.show_int n) (λ a. refl)
          (or_false (not (is_some (py.show_int n))) (not (is_some (py.float_of_int n)))
            (or_false (not (is_some (py.repr (integer n)))) (refuses_int (integer n)) h).1).0
    coerce_str-IsCoerced (floating x) h = refl
    coerce_str-IsCoerced (datetime d) h = failed-IsCoerced str (datetime d) _ h
    coerce_str-IsCoerced (other_value name) h = failed-IsCoerced str (other_value name) _ h

    coerce_int-IsCoerced :
        (raw : Value F) → refuses raw ≡ false → IsCoerced int (coerce_int py raw spec)
    unfolding coerce_int
    coerce_int-IsCoerced (boolean b) h = failed-IsCoerced int (boolean b) _ h
    coerce_int-IsCoerced (integer n) h = refl
    coerce_int-IsCoerced (floating x) h =
        or_failed-IsCoerced int integer (floating x) _ (py.int_of_float x) (λ a. refl) h
    coerce_int-IsCoerced (text t) h =
        or_failed-IsCoerced int integer (text t) _ (py.parse_int (strip t)) (λ a. refl) h
    coerce_int-IsCoerced (datetime d) h = failed-IsCoerced int (datetime d) _ h
    coerce_int-IsCoerced (other_value name) h = failed-IsCoerced int (other_value name) _ h

    coerce_float-IsCoerced :
        (raw : Value F) → refuses raw ≡ false → IsCoerced float (coerce_float py raw spec)
    unfolding coerce_float
    coerce_float-IsCoerced (boolean b) h = failed-IsCoerced float (boolean b) _ h
    coerce_float-IsCoerced (integer n) h =
        or_raised-IsCoerced float floating (py.float_of_int n) (λ a. refl)
          (or_false (not (is_some (py.show_int n))) (not (is_some (py.float_of_int n)))
            (or_false (not (is_some (py.repr (integer n)))) (refuses_int (integer n)) h).1).1
    coerce_float-IsCoerced (floating x) h = refl
    coerce_float-IsCoerced (text t) h =
        or_failed-IsCoerced float floating (text t) _ (py.parse_float (strip t)) (λ a. refl) h
    coerce_float-IsCoerced (datetime d) h = failed-IsCoerced float (datetime d) _ h
    coerce_float-IsCoerced (other_value name) h = failed-IsCoerced float (other_value name) _ h

    coerce_bool-IsCoerced :
        (raw : Value F) → refuses raw ≡ false → IsCoerced bool (coerce_bool py raw spec)
    unfolding coerce_bool
    coerce_bool-IsCoerced (boolean b) h = refl
    coerce_bool-IsCoerced (integer n) h =
        or_failed-IsCoerced bool boolean (integer n) _ (bool_of_int py n) (λ a. refl) h
    coerce_bool-IsCoerced (text t) h =
        or_failed-IsCoerced bool boolean (text t) _ (bool_of_text py (py.casefold (strip t)))
          (λ a. refl) h
    coerce_bool-IsCoerced (floating x) h = failed-IsCoerced bool (floating x) _ h
    coerce_bool-IsCoerced (datetime d) h = failed-IsCoerced bool (datetime d) _ h
    coerce_bool-IsCoerced (other_value name) h = failed-IsCoerced bool (other_value name) _ h

    ensure_aware-IsCoerced : (d : Datetime) → IsCoerced datetime_type (ensure_aware py d spec)
    unfolding ensure_aware
    ensure_aware-IsCoerced d = elim (Bool-cases d.is_aware) [
      | inl e ↦ rw e refl
      | inr e ↦ rw e (refl, refl)
    ]

    or_aware-IsCoerced :
        (raw : Value F) (o : Option Datetime)
        → refuses raw ≡ false
        → IsCoerced datetime_type (or_aware py raw spec o)
    or_aware-IsCoerced raw none h = failed-IsCoerced datetime_type raw _ h
    or_aware-IsCoerced raw (some d) h = ensure_aware-IsCoerced d

    coerce_datetime-IsCoerced :
        (raw : Value F)
        → refuses raw ≡ false
        → IsCoerced datetime_type (coerce_datetime py raw spec)
    unfolding coerce_datetime
    coerce_datetime-IsCoerced (datetime d) h = ensure_aware-IsCoerced d
    coerce_datetime-IsCoerced (text t) h =
        or_aware-IsCoerced (text t) (py.parse_datetime (strip t)) h
    coerce_datetime-IsCoerced (integer n) h = failed-IsCoerced datetime_type (integer n) _ h
    coerce_datetime-IsCoerced (floating x) h = failed-IsCoerced datetime_type (floating x) _ h
    coerce_datetime-IsCoerced (boolean b) h = failed-IsCoerced datetime_type (boolean b) _ h
    coerce_datetime-IsCoerced (other_value name) h =
        failed-IsCoerced datetime_type (other_value name) _ h

    coerce_as-IsCoerced :
        (t : FieldType) (raw : Value F)
        → refuses raw ≡ false
        → IsCoerced t (coerce_as py t raw spec)
    coerce_as-IsCoerced str raw h = coerce_str-IsCoerced raw h
    coerce_as-IsCoerced int raw h = coerce_int-IsCoerced raw h
    coerce_as-IsCoerced float raw h = coerce_float-IsCoerced raw h
    coerce_as-IsCoerced bool raw h = coerce_bool-IsCoerced raw h
    coerce_as-IsCoerced datetime_type raw h = coerce_datetime-IsCoerced raw h

    -- Every value that Python can print, and turn into a float where it is an integer, is coerced
    -- without an exception: to a value of the field's type, or to None with an error.
    pub coerce-IsCoerced :
        (raw : Value F) → refuses raw ≡ false → IsCoerced spec.field_type (coerce py raw spec)
    unfolding coerce
    coerce-IsCoerced raw h = coerce_as-IsCoerced spec.field_type raw h
