-- ===== src/Evaluation/Gold.antt =====
-- The gold set of src/kg_eval/goldset.py and the keys of src/kg_eval/matching.py. The value of an
-- attribute is the text that `norm_value` makes of it.
use agentic_kgis.Prelude.{
  ℕ, Bool, true, false, not, ◌&&◌, Option, List, [], ◌∷◌, Text, codes, any, keep, map,
}
use agentic_kgis.Candidates.{
  SubjectRef, alias, identity, Variant, entity, relation, attribute_assertion, other, Candidate,
}
use agentic_kgis.Building.{render_ref}
use agentic_kgis.Evaluation.{MatchKey, key_beq, CategoryMatch, match}

pub record EvidenceSpan : Type 0 where
  pub source_locator : Text
  pub quote : Option Text
  pub start : Option ℕ
  pub end : Option ℕ

-- `GoldEntity`, less its display name, which is not graded
pub record GoldEntity : Type 0 where
  pub entity_type : Text
  pub semantic_key : Text
  pub evidence : Option EvidenceSpan

pub record GoldRelation : Type 0 where
  pub relation_type : Text
  pub subject : Text
  pub object : Text
  pub evidence : Option EvidenceSpan

pub record GoldAttribute : Type 0 where
  pub subject : Text
  pub attribute : Text
  pub value : Text
  pub evidence : Option EvidenceSpan

-- what grading reads of a gold set
pub record GoldSet : Type 0 where
  pub attempted : Option ℕ
  pub entities : List GoldEntity
  pub relations : List GoldRelation
  pub attributes : List GoldAttribute

-- `match_key` of each kind of item
unfoldable pub entity_key_gold : GoldEntity → MatchKey
entity_key_gold g = codes "entity" ∷ g.entity_type ∷ g.semantic_key ∷ []

unfoldable pub relation_key_gold : GoldRelation → MatchKey
relation_key_gold g = codes "relation" ∷ g.relation_type ∷ g.subject ∷ g.object ∷ []

unfoldable pub attribute_key_gold : GoldAttribute → MatchKey
attribute_key_gold g = codes "attribute" ∷ g.subject ∷ g.attribute ∷ g.value ∷ []

-- the key is among some keys
abbrev pub has_key : MatchKey → List MatchKey → Bool
has_key key keys = any (λ k. key_beq key k) keys

-- the loop of `_check_unique_keys` over the items of a kind
unfoldable pub unique_keys : List MatchKey → List MatchKey → Bool
unique_keys seen [] = true
unique_keys seen (key ∷ keys) =
    let rest = unique_keys (key ∷ seen) keys in not (has_key key seen) && rest

-- the categories that are graded
pub data Category : Type 0 where
  entity_items relation_items attribute_items : Category

-- the keys of the gold items of a category, each with its evidence
unfoldable pub gold_items : Category → GoldSet → List (MatchKey × Option EvidenceSpan)
gold_items entity_items gold = map (λ g. (entity_key_gold g, g.evidence)) gold.entities
gold_items relation_items gold = map (λ g. (relation_key_gold g, g.evidence)) gold.relations
gold_items attribute_items gold = map (λ g. (attribute_key_gold g, g.evidence)) gold.attributes

abbrev pub gold_keys : Category → GoldSet → List MatchKey
gold_keys category gold = map (λ g. g.0) (gold_items category gold)

-- `_check_unique_keys`: whether a gold set is accepted
unfoldable pub accepted_gold : GoldSet → Bool
accepted_gold gold =
    unique_keys [] (gold_keys entity_items gold)
    && (unique_keys [] (gold_keys relation_items gold)
        && unique_keys [] (gold_keys attribute_items gold))

unfoldable pub canon_ref : SubjectRef → Text
canon_ref (alias r) = render_ref r
canon_ref (identity id) = id

-- the key of a candidate, by its kind; the others are not graded
unfoldable pub candidate_key : Candidate → MatchKey
candidate_key c = elim c.variant [
  | entity t ↦ codes "entity" ∷ t ∷ c.semantic_key ∷ []
  | relation t s o _ ↦ codes "relation" ∷ t ∷ canon_ref s ∷ canon_ref o ∷ []
  | attribute_assertion s a v _ ↦ codes "attribute" ∷ canon_ref s ∷ a ∷ v ∷ []
  | other _ ↦ []
]

-- `isinstance` of the category's class
unfoldable pub in_category : Category → Variant → Bool
in_category entity_items (entity _) = true
in_category relation_items (relation _ _ _ _) = true
in_category attribute_items (attribute_assertion _ _ _ _) = true
in_category _ _ = false

abbrev pub of_category : Category → List Candidate → List Candidate
of_category category cs = keep (λ c. in_category category c.variant) cs

-- `match_entities`, `match_relations` and `match_attributes`
unfoldable pub match_category : Category → List Candidate → GoldSet → CategoryMatch
match_category category cs gold =
    match (gold_keys category gold) (map candidate_key (of_category category cs))
