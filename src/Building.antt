-- ===== src/Building.antt =====
-- The candidate builders of src/kgis/builders.py, with the constructors of the references and
-- candidates in src/kg_contracts/identity.py and candidates.py. `V` is the type of the values that
-- are not None; of a candidate only the fields of its model are built.
pub mod Facts
use agentic_kgis.Prelude.{
  ℕ, Bool, true, false, not, ◌&&◌, ◌||◌, Option, none, some, List, [], ◌∷◌, ◌++◌, Text, codes, ◌==◌,
  text_eq, nat_beq, leb, all, is_some, strip, has_text, Dict, lookup, if◌then◌else◌,
}
use agentic_kgis.Evidence.{Time, ValidPeriod, period_ordered}
use agentic_kgis.Policy.{CandidateScores}
use agentic_kgis.Candidates.{
  EntityRef, SubjectRef, alias, Variant, entity, relation, attribute_assertion, Candidate,
}
use agentic_kgis.Validation.{NormalizedRecord}

-- What the builders ask of Python and of pydantic: `str(v)`, with `none` for its ValueError,
-- the text of a value in a candidate, whether `json.dumps` takes a value or raises, `str.lower`, the
-- reading of a value as a datetime, with `none` for a ValidationError, whether two datetimes can be
-- compared or raise a TypeError, as one with a zone and one without do, and `isoformat`.
pub record Texts (V : Type 0) : Type 0 where
  pub show : V → Option Text
  pub dump : V → Text
  pub hashes : V → Bool
  pub lower : Text → Text
  pub read_time : V → Option Time
  pub comparable : Time → Time → Bool
  pub isoformat : Time → Text

-- the facts of a run, with the ids that its strategy gives to a kind and a key
pub record BuildContext : Type 0 where
  pub graph_id : Text
  pub producer : Text
  pub scores : CandidateScores
  pub now : Time
  pub candidate_id : Text → Text → Text → Text
  pub trace_id : Text → Text → Text → Text

-- a value, or what is raised: a RecordDataError or ValidationError, or another exception
pub data Attempt (A : Type 0) : Type 0 where
  done : A → Attempt A
  refused : Text → Attempt A
  crashed : Attempt A

abbrev pub then_try : {A B : Type 0} → Attempt A → (A → Attempt B) → Attempt B
then_try (done x) f = f x
then_try (refused message) f = refused message
then_try crashed f = crashed

abbrev is_upper : ℕ → Bool
is_upper c = leb 65 c && leb c 90

abbrev is_lower : ℕ → Bool
is_lower c = leb 97 c && leb c 122

abbrev is_digit : ℕ → Bool
is_digit c = leb 48 c && leb c 57

-- `^[A-Z][A-Za-z0-9]*$`, `^[a-z][a-z0-9_.-]*$` and `[A-Z][A-Z0-9_]*`
unfoldable pub is_entity_type : Text → Bool
is_entity_type [] = false
is_entity_type (c ∷ t) = is_upper c && all (λ d. is_upper d || (is_lower d || is_digit d)) t

unfoldable pub is_namespace : Text → Bool
is_namespace [] = false
is_namespace (c ∷ t) =
    is_lower c
    && all (λ d. is_lower d || (is_digit d || (nat_beq d 95 || (nat_beq d 46 || nat_beq d 45)))) t

unfoldable pub is_relation_type : Text → Bool
is_relation_type [] = false
is_relation_type (c ∷ t) = is_upper c && all (λ d. is_upper d || (is_digit d || nat_beq d 95)) t

abbrev pub not_empty : Text → Bool
not_empty [] = false
not_empty (c ∷ t) = true

-- the constructor of `EntityRef`
unfoldable pub new_entity_ref : Text → Text → Text → Attempt EntityRef
new_entity_ref entity_type namespace key =
    if is_entity_type entity_type && (is_namespace namespace && not_empty (strip key))
    then done (record { entity_type = entity_type; namespace = namespace; key = key })
    else refused (codes "EntityRef")

-- `EntityRef.render`
unfoldable pub render_ref : EntityRef → Text
render_ref r = r.entity_type ++ codes ":" ++ r.namespace ++ codes ":" ++ r.key

module _ {V : Type 0} (texts : Texts V) where
  -- `record.values.get(field)`
  abbrev pub value_at : NormalizedRecord V → Text → Option V
  value_at r name = elim (lookup name r.values) [ none ↦ none | some v ↦ v ]

  abbrev text_or_none : Text → Option Text
  text_or_none [] = none
  text_or_none (c ∷ t) = some (c ∷ t)

  abbrev text_of : Option V → Attempt (Option Text)
  text_of none = done none
  text_of (some v) = elim (texts.show v) [ none ↦ crashed | some t ↦ done (text_or_none (strip t)) ]

  -- `_text`
  unfoldable pub field_text : NormalizedRecord V → Text → Attempt (Option Text)
  field_text r name = text_of (value_at r name)

  -- a text that the builder raises RecordDataError without
  unfoldable pub needed_text : NormalizedRecord V → Text → Attempt Text
  needed_text r name =
      then_try (field_text r name) (λ t. elim t [ none ↦ refused name | some s ↦ done s ])

  abbrev optional_value : NormalizedRecord V → Option Text → Option V
  optional_value r none = none
  optional_value r (some name) = value_at r name

  abbrev ends_compare : Option Time → Option Time → Bool
  ends_compare (some from) (some to) = texts.comparable from to
  ends_compare _ _ = true

  abbrev ordered_period : ValidPeriod → Attempt (Option ValidPeriod)
  ordered_period p = if period_ordered p then done (some p) else refused (codes "ValidPeriod")

  -- `ValidPeriod`, built of its ends: its validator compares two that are there
  unfoldable pub new_period : Option Time → Option Time → Attempt (Option ValidPeriod)
  new_period from to =
      if ends_compare from to
      then ordered_period (record { valid_from = from; valid_to = to })
      else crashed

  abbrev read_end : Option V → Attempt (Option Time)
  read_end none = done none
  read_end (some v) = elim (texts.read_time v) [
    | none ↦ refused (codes "ValidPeriod")
    | some at ↦ done (some at)
  ]

  abbrev period_between : Option V → Option V → Attempt (Option ValidPeriod)
  period_between none none = done none
  period_between from to =
      then_try (read_end from) (λ a. then_try (read_end to) (λ b. new_period a b))

  -- `_valid_period`; no field gives no value
  unfoldable pub valid_period_of :
      NormalizedRecord V → Option Text → Option Text → Attempt (Option ValidPeriod)
  valid_period_of r from to = period_between (optional_value r from) (optional_value r to)

  -- `_period_suffix`
  unfoldable pub period_suffix : Option ValidPeriod → Text
  period_suffix none = []
  period_suffix (some p) = elim p.valid_from [
    | none ↦ []
    | some at ↦ codes "@" ++ texts.isoformat at
  ]

  unfoldable pub entity_semantic_key : EntityRef → Text
  entity_semantic_key r =
      texts.lower r.entity_type ++ codes "/" ++ r.namespace ++ codes "/" ++ r.key

  -- the envelope of a candidate
  abbrev pub envelope : BuildContext → Text → Text → Variant → Candidate
  envelope ctx kind key variant = record {
    candidate_id = ctx.candidate_id ctx.graph_id kind key;
    graph_id = ctx.graph_id;
    producer = ctx.producer;
    semantic_key = key;
    evidence_refs = [];
    scores = ctx.scores;
    trace_id = ctx.trace_id ctx.graph_id kind key;
    created_at = ctx.now;
    variant = variant;
  }

-- a fixed type for the source, or the field that has it
pub data TypeSource : Type 0 where
  fixed_type : Text → TypeSource
  type_field : Text → TypeSource

pub record EntityBuilder : Type 0 where
  pub namespace : Text
  pub key_field : Text
  pub type_source : TypeSource
  pub display_name_field : Option Text

-- the constructor of `EntityCandidateBuilder`: `none` for its ConfigurationError
unfoldable pub new_entity_builder :
    Text → Text → Option Text → Option Text → Option Text → Option EntityBuilder
new_entity_builder namespace key_field (some entity_type) none display = some (record {
  namespace = namespace;
  key_field = key_field;
  type_source = fixed_type entity_type;
  display_name_field = display;
})
new_entity_builder namespace key_field none (some name) display = some (record {
  namespace = namespace;
  key_field = key_field;
  type_source = type_field name;
  display_name_field = display;
})
new_entity_builder namespace key_field _ _ display = none

pub record AttributeBuilder : Type 0 where
  pub subject : EntityBuilder
  pub attribute_fields : List Text
  pub valid_from_field : Option Text
  pub valid_to_field : Option Text

pub record RelationBuilder : Type 0 where
  pub relation_type : Text
  pub subject_type : Text
  pub subject_namespace : Text
  pub subject_key_field : Text
  pub object_type : Text
  pub object_namespace : Text
  pub object_key_field : Text
  pub valid_from_field : Option Text
  pub valid_to_field : Option Text

pub data Builder : Type 0 where
  entities : EntityBuilder → Builder
  attributes : AttributeBuilder → Builder
  relations : RelationBuilder → Builder

abbrev pub entity_fields : EntityBuilder → List Text
entity_fields b = elim b.type_source [
  | fixed_type t ↦ b.key_field ∷ []
  | type_field name ↦ b.key_field ∷ name ∷ []
]

-- `required_fields` of each builder
unfoldable pub required_fields : Builder → List Text
required_fields (entities b) = entity_fields b
required_fields (attributes b) = entity_fields b.subject
required_fields (relations b) = b.subject_key_field ∷ b.object_key_field ∷ []

module _ {V : Type 0} (texts : Texts V) where
  -- `_resolve_entity_type`
  unfoldable pub resolve_entity_type : EntityBuilder → NormalizedRecord V → Attempt Text
  resolve_entity_type b r = elim b.type_source [
    | fixed_type t ↦ done t
    | type_field name ↦ needed_text texts r name
  ]

  unfoldable pub entity_ref : EntityBuilder → NormalizedRecord V → Attempt EntityRef
  entity_ref b r =
      then_try (needed_text texts r b.key_field)
        (λ key. then_try (resolve_entity_type b r) (λ t. new_entity_ref t b.namespace key))

  abbrev display_name : EntityBuilder → NormalizedRecord V → Attempt (Option Text)
  display_name b r = elim b.display_name_field [
    | none ↦ done none
    | some name ↦ field_text texts r name
  ]

  -- `EntityCandidateBuilder.build`
  unfoldable pub entity_build :
      EntityBuilder → NormalizedRecord V → BuildContext → Attempt (List Candidate)
  entity_build b r ctx = then_try (entity_ref b r) (λ ref. then_try (display_name b r) (λ shown.
      done (
        envelope texts ctx (codes "entity") (entity_semantic_key texts ref) (entity ref.entity_type)
        ∷ [])))

  -- the semantic key of a fact
  unfoldable pub fact_key : EntityRef → Option ValidPeriod → Text → Text
  fact_key ref period attribute =
      entity_semantic_key texts ref ++ (codes "/" ++ (attribute ++ period_suffix texts period))

  abbrev pub fact : BuildContext → EntityRef → Option ValidPeriod → Text → V → Candidate
  fact ctx ref period attribute v =
      envelope texts ctx (codes "attribute_assertion") (fact_key ref period attribute)
        (attribute_assertion (alias ref) attribute (texts.dump v) period)

  -- the next fact of the loop: its hash is taken first, and its constructor refuses an empty name
  abbrev pub add_fact : Text → V → Candidate → Attempt (List Candidate) → Attempt (List Candidate)
  add_fact attribute v c rest =
      if not (texts.hashes v)
      then crashed
      else if not_empty attribute
      then then_try rest (λ cs. done (c ∷ cs))
      else refused (codes "AttributeAssertionCandidate")

  -- the loop of `AttributeCandidateBuilder.build`
  unfoldable pub facts :
      BuildContext
      → EntityRef
      → Option ValidPeriod
      → NormalizedRecord V
      → List Text
      → Attempt (List Candidate)
  facts ctx ref period r [] = done []
  facts ctx ref period r (attribute ∷ rest) = elim (value_at texts r attribute) [
    | none ↦ facts ctx ref period r rest
    | some v ↦ add_fact attribute v (fact ctx ref period attribute v) (facts ctx ref period r rest)
  ]

  -- `AttributeCandidateBuilder.build`
  unfoldable pub attribute_build :
      AttributeBuilder → NormalizedRecord V → BuildContext → Attempt (List Candidate)
  attribute_build b r ctx = then_try (entity_ref b.subject r) (λ ref.
      then_try (valid_period_of texts r b.valid_from_field b.valid_to_field)
        (λ period. facts ctx ref period r b.attribute_fields))

  -- `RelationCandidateBuilder._ref`
  unfoldable pub endpoint : NormalizedRecord V → Text → Text → Text → Attempt EntityRef
  endpoint r name entity_type namespace =
      then_try (needed_text texts r name) (λ key. new_entity_ref entity_type namespace key)

  -- `RelationCandidateBuilder.build`
  unfoldable pub relation_build :
      RelationBuilder → NormalizedRecord V → BuildContext → Attempt (List Candidate)
  relation_build b r ctx =
      then_try (endpoint r b.subject_key_field b.subject_type b.subject_namespace) (λ subject.
        then_try (endpoint r b.object_key_field b.object_type b.object_namespace) (λ target.
          then_try (valid_period_of texts r b.valid_from_field b.valid_to_field) (λ period.
            if is_relation_type b.relation_type
            then done (
                envelope texts ctx (codes "relation")
                  (entity_semantic_key texts subject
                    ++ codes "/"
                    ++ b.relation_type
                    ++ codes "/"
                    ++ entity_semantic_key texts target
                    ++ period_suffix texts period)
                  (relation b.relation_type (alias subject) (alias target) period)
                ∷ [])
            else refused (codes "RelationCandidate"))))

  unfoldable pub build : Builder → NormalizedRecord V → BuildContext → Attempt (List Candidate)
  build (entities b) r ctx = entity_build b r ctx
  build (attributes b) r ctx = attribute_build b r ctx
  build (relations b) r ctx = relation_build b r ctx

  -- `CompositeCandidateBuilder.build`
  unfoldable pub composite_build :
      List Builder → NormalizedRecord V → BuildContext → Attempt (List Candidate)
  composite_build [] r ctx = done []
  composite_build (b ∷ bs) r ctx =
      then_try (build b r ctx)
        (λ cs. then_try (composite_build bs r ctx) (λ more. done (cs ++ more)))
