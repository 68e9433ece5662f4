-- ===== src/Examples/Builds.antt =====
-- Runs of the candidate builders, on texts and without times.
use agentic_kgis.Prelude.{true, none, some, [], ◌∷◌, ◌++◌, Text, codes}
use agentic_kgis.Validation.{NormalizedRecord}
use agentic_kgis.Building.{
  Texts, BuildContext, EntityBuilder, fixed_type, AttributeBuilder, entity_ref, valid_period_of,
  attribute_build,
}
use agentic_kgis.Building.Facts.{Describes, present_fields, attribute_build-Describes}
use agentic_kgis.Examples.{scores}
use agentic_kgis.Examples.Pipelines.{coordinates}

abbrev texts : Texts Text
texts = record {
  show = λ t. some t;
  dump = λ t. t;
  hashes = λ t. true;
  lower = λ t. t;
  read_time = λ t. none;
  comparable = λ a b. true;
  isoformat = λ n. codes "";
}

abbrev context : BuildContext
context = record {
  graph_id = codes "g";
  producer = codes "p";
  scores = scores;
  now = 3;
  candidate_id = λ g kind key. kind ++ key;
  trace_id = λ g kind key. key;
}

-- a player with a height and no weight
abbrev player : NormalizedRecord Text
player = record {
  index = 0;
  coordinates = coordinates;
  values =
      (codes "id", some (codes "42"))
      ∷ (codes "height", some (codes "180"))
      ∷ (codes "weight", none)
      ∷ [];
  extras = [];
  issues = [];
}

abbrev players : EntityBuilder
players = record {
  namespace = codes "usssa";
  key_field = codes "id";
  type_source = fixed_type (codes "Player");
  display_name_field = none;
}

abbrev measures : AttributeBuilder
measures = record {
  subject = players;
  attribute_fields = codes "weight" ∷ codes "height" ∷ [];
  valid_from_field = none;
  valid_to_field = none;
}

attribute_build-Describes_example :
    Describes texts context
      (present_fields texts player measures.attribute_fields)
      (entity_ref texts players player)
      (valid_period_of texts player none none)
      (attribute_build texts measures player context)
attribute_build-Describes_example = attribute_build-Describes texts measures player context
