-- ===== src/Building/Facts.antt =====
-- The facts that the attribute builder of src/kgis/builders.py makes of a record.
use agentic_kgis.Prelude.{
  Bool, true, false, not, ◌||◌, ◌≡◌, refl, ap, ◌∙◌, arith, Option, none, some, List, [], ◌∷◌, ◌++◌,
  Text, codes, map, any, or_right, length, length-append, All, if◌then◌else◌,
}
use mathlib.Core.List.{tail-eq_of_cons-eq, head-eq_of_cons-eq}
use agentic_kgis.Evidence.{ValidPeriod}
use agentic_kgis.Candidates.{EntityRef, alias, Variant, attribute_assertion, Candidate}
use agentic_kgis.Validation.{NormalizedRecord}
use agentic_kgis.Building.{
  Texts, BuildContext, Attempt, done, refused, crashed, then_try, AttributeBuilder, value_at,
  valid_period_of, period_suffix, entity_semantic_key, entity_ref, fact_key, fact, add_fact,
  not_empty, facts, attribute_build,
}

module _ {V : Type 0} (texts : Texts V) where
  abbrev with_value : Text → Option V → List (Text × V) → List (Text × V)
  with_value name none rest = rest
  with_value name (some v) rest = (name, v) ∷ rest

  -- the fields that have a value, each with it
  abbrev pub present_fields : NormalizedRecord V → List Text → List (Text × V)
  present_fields r [] = []
  present_fields r (name ∷ names) =
      let rest = present_fields r names in with_value name (value_at texts r name) rest

  -- what the fact of a field says
  abbrev stated : EntityRef → Option ValidPeriod → Text × V → Variant
  stated ref period field = attribute_assertion (alias ref) field.0 (texts.dump field.1) period

  -- the key of the fact of a field: the entity, the name and the beginning of the period
  abbrev key_stated : EntityRef → Option ValidPeriod → Text × V → Text
  key_stated ref period field =
      entity_semantic_key texts ref ++ (codes "/" ++ (field.0 ++ period_suffix texts period))

  abbrev IsOf : BuildContext → Candidate → Type 0
  IsOf ctx c =
      (c.graph_id ≡ ctx.graph_id)
      × ((c.producer ≡ ctx.producer) × ((c.scores ≡ ctx.scores) × (c.created_at ≡ ctx.now)))

  abbrev IsTaken : Text × V → Type 0
  IsTaken field = (texts.hashes field.1 ≡ true) × (not_empty field.0 ≡ true)

  -- the candidates are the facts of the fields, in order
  pub record AreFacts (ctx : BuildContext) (ref : EntityRef) (period : Option ValidPeriod)
      (fields : List (Text × V)) (cs : List Candidate) : Type 0 where
    pub variants : map (λ c. c.variant) cs ≡ map (stated ref period) fields
    pub keys : map (λ c. c.semantic_key) cs ≡ map (key_stated ref period) fields
    pub contexts : All (IsOf ctx) cs
    pub taken : All IsTaken fields

  -- what the loop over the fields comes to
  abbrev pub FactsOf :
      BuildContext
      → EntityRef
      → Option ValidPeriod
      → List (Text × V)
      → Attempt (List Candidate)
      → Type 0
  FactsOf ctx ref period fields (done cs) = AreFacts ctx ref period fields cs
  FactsOf ctx ref period fields (refused m) =
      (m ≡ codes "AttributeAssertionCandidate")
      × (any (λ field. not (not_empty field.0)) fields ≡ true)
  FactsOf ctx ref period fields crashed = any (λ field. not (texts.hashes field.1)) fields ≡ true

  -- what the builder comes to, by its reading of the reference and of the period
  abbrev pub Describes :
      BuildContext
      → List (Text × V)
      → Attempt EntityRef
      → Attempt (Option ValidPeriod)
      → Attempt (List Candidate)
      → Type 0
  Describes ctx fields (done ref) (done period) result = FactsOf ctx ref period fields result
  Describes ctx fields (done ref) (refused m) result = result ≡ refused m
  Describes ctx fields (done ref) crashed result = result ≡ crashed
  Describes ctx fields (refused m) period result = result ≡ refused m
  Describes ctx fields crashed period result = result ≡ crashed

  module _ (ctx : BuildContext) (ref : EntityRef) (period : Option ValidPeriod) where
    add_fact-FactsOf :
        (name : Text) (v : V) (fields : List (Text × V)) (rest : Attempt (List Candidate))
        → FactsOf ctx ref period fields rest
        → FactsOf ctx ref period
            ((name, v) ∷ fields)
            (add_fact texts name v (fact texts ctx ref period name v) rest)
    unfolding fact_key
    add_fact-FactsOf name v fields rest h = go (texts.hashes v) refl (not_empty name) refl rest h
      where
        go :
            (b : Bool)
            → texts.hashes v ≡ b
            → (n : Bool) → not_empty name ≡ n
            → (rest : Attempt (List Candidate)) → FactsOf ctx ref period fields rest
            → FactsOf ctx ref period ((name, v) ∷ fields) (
                if not b
                then crashed
                else if n
                then then_try rest (λ cs. done (fact texts ctx ref period name v ∷ cs))
                else refused (codes "AttributeAssertionCandidate"))
        go false e n f rest h =
            ap (λ b. not b || any (λ field. not (texts.hashes field.1)) fields) e
        go true e false f rest h =
            (refl, ap (λ b. not b || any (λ field. not (not_empty field.0)) fields) f)
        go true e true f (done cs) h = record {
          variants = ap (λ l. stated ref period (name, v) ∷ l) h.variants;
          keys = ap (λ l. key_stated ref period (name, v) ∷ l) h.keys;
          contexts = ((refl, (refl, (refl, refl))), h.contexts);
          taken = ((e, f), h.taken);
        }
        go true e true f (refused m) h = (h.0, or_right (not (not_empty name)) _ h.1)
        go true e true f crashed h = or_right (not (texts.hashes v)) _ h

    facts-FactsOf :
        (r : NormalizedRecord V) (names : List Text)
        → FactsOf ctx ref period (present_fields r names) (facts texts ctx ref period r names)
    unfolding facts
    facts-FactsOf r [] = record { variants = refl; keys = refl; contexts = tt; taken = tt }
    facts-FactsOf r (name ∷ names) = go (value_at texts r name) (facts-FactsOf r names)
      where
        go :
            (o : Option V)
            → FactsOf ctx ref period (present_fields r names) (facts texts ctx ref period r names)
            → FactsOf ctx ref period (with_value name o (present_fields r names)) (elim o [
              | none ↦ facts texts ctx ref period r names
              | some v ↦
                  add_fact texts name v
                    (fact texts ctx ref period name v)
                    (facts texts ctx ref period r names)
            ])
        go none h = h
        go (some v) h = add_fact-FactsOf name v (present_fields r names) _ h

  -- Where the reading of the reference or else of the period is refused or raises, the attribute
  -- builder does the same. Otherwise it either makes exactly one fact for each of its fields that
  -- has a value, in the fields' order, with the reference, the name, the value's text, the period,
  -- the key that these give, and the envelope of the run, all their values hashable and their names
  -- not empty; or it refuses, and one of these fields has no name; or it raises, and one of these
  -- values cannot be hashed.
  pub attribute_build-Describes :
      (b : AttributeBuilder) (r : NormalizedRecord V) (ctx : BuildContext)
      → Describes ctx
          (present_fields r b.attribute_fields)
          (entity_ref texts b.subject r)
          (valid_period_of texts r b.valid_from_field b.valid_to_field)
          (attribute_build texts b r ctx)
  unfolding attribute_build
  attribute_build-Describes b r ctx =
      go (entity_ref texts b.subject r)
        (valid_period_of texts r b.valid_from_field b.valid_to_field)
    where
      go :
          (e : Attempt EntityRef) (p : Attempt (Option ValidPeriod))
          → Describes ctx (present_fields r b.attribute_fields) e p (
              then_try e
                (λ ref. then_try p (λ period. facts texts ctx ref period r b.attribute_fields)))
      go (done ref) (done period) = facts-FactsOf ctx ref period r b.attribute_fields
      go (done ref) (refused m) = refl
      go (done ref) crashed = refl
      go (refused m) p = refl
      go crashed p = refl

cancel_left : (x a b : Text) → x ++ a ≡ x ++ b → a ≡ b
cancel_left [] a b e = e
cancel_left (c ∷ x) a b e = cancel_left x a b (tail-eq_of_cons-eq e)

cancel_right : (s a b : Text) → a ++ s ≡ b ++ s → a ≡ b
cancel_right s [] [] e = refl
cancel_right s (c ∷ a) (d ∷ b) e =
    ap (λ x. x ∷ a) (head-eq_of_cons-eq e)
    ∙ ap (λ l. d ∷ l) (cancel_right s a b (tail-eq_of_cons-eq e))
cancel_right s [] (d ∷ b) e = absurd (omega (arith, ap length e, length-append b s))
cancel_right s (c ∷ a) [] e = absurd (omega (arith, ap length e, length-append a s))

-- The facts of one record about one entity and one period have semantic keys of their own: two
-- with the same key are about the same field.
pub fact_key-injective :
    {V : Type 0} (texts : Texts V) (ref : EntityRef) (period : Option ValidPeriod) (a b : Text)
    → fact_key texts ref period a ≡ fact_key texts ref period b
    → a ≡ b
unfolding fact_key
fact_key-injective texts ref period a b e =
    cancel_right (period_suffix texts period) a b
      (cancel_left (codes "/") _ _ (cancel_left (entity_semantic_key texts ref) _ _ e))
