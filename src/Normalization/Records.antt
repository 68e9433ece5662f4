-- ===== src/Normalization/Records.antt =====
-- What `SchemaNormalizer.normalize`, src/kgis/normalize.py, makes of a record.
use agentic_kgis.Prelude.{
  Bool, true, false, ◌&&◌, ◌||◌, ◌≡◌, refl, sym, ap, ◌∙◌, subst, ◌⊎◌, inl, inr, Option, none, some,
  List, [], ◌∷◌, ◌++◌, Text, any, any-append, In, All, Dict, lookup, set, lookup-set-cases,
  or_right, if◌then◌else◌, Bool-cases,
}
use mathlib.Core.Option.{some-ne-none}
use agentic_kgis.Validation.{
  RecordIssue, IssueSeverity, error, warning, is_error, SourceRecord, NormalizedRecord,
}
use agentic_kgis.Normalization.{Value, Runtime, FieldSpec, Coerced, coerced, raised, coerce}
use agentic_kgis.Normalization.Types.{has_type, IsCoerced, refuses, coerce-IsCoerced}
use agentic_kgis.Normalization.Schema.{
  Fields, source_keys, match_key, match_data, lookup_first, first_of, present_value, fill_absent,
  fill_coerced, fill_field, fill_fields, schema_normalize, missing_issue, is_blank, finish,
}

-- `issue.severity == "error"`
abbrev severe : IssueSeverity → Bool
severe s = elim s [ error ↦ true | warning ↦ false ]

module _ {F : Type 0} where
  -- a field's value: its default, or a value of its type
  abbrev pub IsExplained : List (FieldSpec F) → Text → Option (Value F) → Type 0
  IsExplained specs name v =
      (spec : FieldSpec F) × (In spec specs
        × ((spec.name ≡ name)
            × ((v ≡ spec.default)
                ⊎ ((w : Value F) × ((v ≡ some w) × (has_type spec.field_type w ≡ true))))))

  -- Values that are all explained, unless an error says that one is not.
  abbrev pub IsTyped : List (FieldSpec F) → Dict (Option (Value F)) → List RecordIssue → Type 0
  IsTyped specs values issues =
      (any is_error issues ≡ true)
      ⊎ ((name : Text) (v : Option (Value F))
          → lookup name values ≡ some v
          → IsExplained specs name v)

  -- one more field
  set-IsTyped :
      (specs : List (FieldSpec F)) (spec : FieldSpec F) (v : Option (Value F))
      (values : Dict (Option (Value F))) (issues : List RecordIssue)
      → In spec specs
      → (v ≡ spec.default) ⊎ ((w : Value F) × ((v ≡ some w) × (has_type spec.field_type w ≡ true)))
      → IsTyped specs values issues
      → IsTyped specs (set spec.name v values) issues
  set-IsTyped specs spec v values issues here why (inl e) = inl e
  set-IsTyped specs spec v values issues here why (inr known) = inr (λ name u h.
      elim (lookup-set-cases spec.name name v u values h) [
        | inl (same, value) ↦ (
          spec,
          (
            here,
            (
              same,
              subst
                  (λ x.
                    (x ≡ spec.default)
                    ⊎ ((w : Value F) × ((x ≡ some w) × (has_type spec.field_type w ≡ true))))
                  value why,
            ),
          ),
        )
        | inr old ↦ known name u old
      ])

  snoc-IsTyped :
      (specs : List (FieldSpec F)) (values : Dict (Option (Value F))) (issues : List RecordIssue)
      (i : RecordIssue)
      → IsTyped specs values issues
      → IsTyped specs values (issues ++ i ∷ [])
  snoc-IsTyped specs values issues i (inl e) =
      inl (any-append is_error issues (i ∷ []) ∙ ap (λ b. b || (is_error i || false)) e)
  snoc-IsTyped specs values issues i (inr known) = inr known

  -- what a step of the loop owes
  abbrev Answers : List (FieldSpec F) → Option (Fields F) → Type 0
  Answers specs none = ⊥
  Answers specs (some f) = IsTyped specs f.values f.issues

  fill_coerced-IsTyped :
      (py : Runtime F) (specs : List (FieldSpec F)) (spec : FieldSpec F) (c : Coerced F)
      (f : Fields F)
      → In spec specs
      → IsCoerced spec.field_type c
      → IsTyped specs f.values f.issues
      → Answers specs (fill_coerced py spec c f)
  unfolding fill_coerced
  fill_coerced-IsTyped py specs spec raised f here h t = absurd h
  fill_coerced-IsTyped py specs spec (coerced none none) f here h t = absurd h
  fill_coerced-IsTyped py specs spec (coerced none (some i)) f here h t = inl (
      any-append is_error f.issues (i ∷ [])
      ∙ or_right (any is_error f.issues) (is_error i || false) (ap (λ s. severe s || false) h))
  fill_coerced-IsTyped py specs spec (coerced (some v) none) f here h t =
      set-IsTyped specs spec (some v) f.values f.issues here (inr (v, (refl, h))) t
  fill_coerced-IsTyped py specs spec (coerced (some v) (some i)) f here h t =
      snoc-IsTyped specs (set spec.name (some v) f.values) f.issues i
        (set-IsTyped specs spec (some v) f.values f.issues here (inr (v, (refl, h.0))) t)

  fill_absent-IsTyped :
      (py : Runtime F) (specs : List (FieldSpec F)) (spec : FieldSpec F) (f : Fields F)
      → In spec specs
      → IsTyped specs f.values f.issues
      → IsTyped specs (fill_absent py spec f).values (fill_absent py spec f).issues
  unfolding fill_absent
  fill_absent-IsTyped py specs spec f here t =
      let filled = set-IsTyped specs spec spec.default f.values f.issues here (inl refl) t in
      elim (Bool-cases spec.required) [
        | inl e ↦ rw e (
            snoc-IsTyped specs (set spec.name spec.default f.values) f.issues
              (missing_issue py spec) filled)
        | inr e ↦ rw e filled
      ]

either_way : {A : Type 0} (P : A → Type 0) (b : Bool) {x y : A} → P x → P y → P (if b then x else y)
either_way P true hx hy = hx
either_way P false hx hy = hy

module _ {F : Type 0} (py : Runtime F) where
  -- None, or a value that Python prints and, where it is an integer, turns into a float
  abbrev pub IsCalm : Option (Value F) → Type 0
  IsCalm none = Unit
  IsCalm (some raw) = refuses py raw ≡ false

  abbrev CalmTable : Dict (Option (Value F)) → Type 0
  CalmTable table = (k : Text) (v : Option (Value F)) → lookup k table ≡ some v → IsCalm v

  match_data-CalmTable :
      (d table : Dict (Option (Value F)))
      → All (λ entry. IsCalm entry.1) d
      → CalmTable table
      → CalmTable (match_data py d table)
  unfolding match_data
  match_data-CalmTable [] table h t = t
  match_data-CalmTable (entry ∷ d) table h t =
      match_data-CalmTable d (set (match_key py entry.0) entry.1 table) h.1 (λ k v found.
        elim (lookup-set-cases (match_key py entry.0) k entry.1 v table found) [
          | inl (same, value) ↦ subst (λ x. IsCalm x) value h.0
          | inr old ↦ t k v old
        ])

  abbrev CalmFound : Option (Option (Value F)) → Type 0
  CalmFound none = Unit
  CalmFound (some v) = IsCalm v

  first_of-CalmFound :
      (o rest : Option (Option (Value F)))
      → ((v : Option (Value F)) → o ≡ some v → IsCalm v)
      → CalmFound rest
      → CalmFound (first_of py o rest)
  first_of-CalmFound none rest t h = h
  first_of-CalmFound (some v) rest t h = t v refl

  lookup_first-CalmFound :
      (ks : List Text) (table : Dict (Option (Value F)))
      → CalmTable table
      → CalmFound (lookup_first py ks table)
  unfolding lookup_first
  lookup_first-CalmFound [] table t = tt
  lookup_first-CalmFound (k ∷ ks) table t =
      first_of-CalmFound (lookup (match_key py k) table) (lookup_first py ks table)
        (t (match_key py k)) (lookup_first-CalmFound ks table t)

  present_value-IsCalm :
      (spec : FieldSpec F) (o : Option (Option (Value F)))
      → CalmFound o
      → IsCalm (present_value py spec o)
  unfolding present_value
  present_value-IsCalm spec none h = tt
  present_value-IsCalm spec (some none) h = tt
  present_value-IsCalm spec (some (some raw)) h =
      either_way IsCalm (spec.empty_as_null && is_blank py raw) tt h

  fill_field-IsTyped :
      (specs : List (FieldSpec F)) (spec : FieldSpec F) (o : Option (Value F)) (f : Fields F)
      → In spec specs
      → IsCalm o
      → IsTyped specs f.values f.issues
      → Answers specs (fill_field py spec o f)
  unfolding fill_field
  fill_field-IsTyped specs spec none f here h t = fill_absent-IsTyped py specs spec f here t
  fill_field-IsTyped specs spec (some raw) f here h t =
      fill_coerced-IsTyped py specs spec (coerce py raw spec) f here
        (coerce-IsCoerced py spec raw h) t

  fill_fields-IsTyped :
      (table : Dict (Option (Value F))) (specs rest : List (FieldSpec F)) (f : Fields F)
      → CalmTable table
      → ((spec : FieldSpec F) → In spec rest → In spec specs)
      → IsTyped specs f.values f.issues
      → Answers specs (fill_fields py table rest f)
  unfolding fill_fields
  fill_fields-IsTyped table specs [] f c inside t = t
  fill_fields-IsTyped table specs (spec ∷ rest) f c inside t =
      go (fill_field py spec (present_value py spec (lookup_first py (source_keys spec) table)) f)
        (fill_field-IsTyped specs spec
          (present_value py spec (lookup_first py (source_keys spec) table)) f
          (inside spec (inl refl))
          (present_value-IsCalm spec (lookup_first py (source_keys spec) table)
            (lookup_first-CalmFound (source_keys spec) table c))
          t)
        (λ f'. fill_fields-IsTyped table specs rest f' c (λ s h. inside s (inr h)))
    where
      go :
          (o : Option (Fields F))
          → Answers specs o
          → ((f' : Fields F)
              → IsTyped specs f'.values f'.issues
              → Answers specs (fill_fields py table rest f'))
          → Answers specs (elim o [ none ↦ none | some f' ↦ fill_fields py table rest f' ])
      go none w next = w
      go (some f') w next = next f' w

  -- A record whose values Python prints, and turns into floats where they are integers, is
  -- normalized without an exception; and unless the outcome carries an error, each of its values is
  -- the default of a declared field of that name, or a value of the field's type.
  pub schema_normalize-IsTyped :
      (specs : List (FieldSpec F)) (claimed : Dict Text) (r : SourceRecord (Value F))
      → All (λ entry. IsCalm entry.1) r.data_
      → (out : NormalizedRecord (Value F)) × ((schema_normalize py specs claimed r ≡ some out)
          × IsTyped specs out.values out.issues)
  unfolding schema_normalize
  schema_normalize-IsTyped specs claimed r h =
      go
        (fill_fields py (match_data py r.data_ []) specs
          (record { values = []; issues = r.issues }))
        (fill_fields-IsTyped (match_data py r.data_ []) specs specs
          (record { values = []; issues = r.issues })
          (match_data-CalmTable r.data_ [] h (λ k v e. absurd (some-ne-none v (sym e))))
          (λ s here. here) (inr (λ name v e. absurd (some-ne-none v (sym e)))))
    where
      go :
          (o : Option (Fields F))
          → Answers specs o
          → (out : NormalizedRecord (Value F)) × ((finish py claimed r o ≡ some out)
              × IsTyped specs out.values out.issues)
      go none w = absurd w
      go (some f) w = (_, (refl, w))
