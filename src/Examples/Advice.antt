-- ===== src/Examples/Advice.antt =====
-- Runs of the advisor with three scores: 0 for -1.0, 1 for 0.0 and 2 for 1.0. A quotient or a mean
-- below one is rounded to zero.
use agentic_kgis.Prelude.{
  ℕ, ◌+◌, ◌*◌, Bool, true, false, ◌&&◌, ◌≡◌, refl, none, some, List, [], ◌∷◌, Text, codes, any, ltb,
  leb, nat_beq, length, text_beq, strip, if◌then◌else◌,
}
use agentic_kgis.Advisor.{
  Arithmetic, memory, RegisteredGraph, IncomingDataProfile, AdvisorConfig, attribute_types,
}
use agentic_kgis.Advisor.Factors.{automated_factors}
use agentic_kgis.Advisor.Scoring.{
  recommend, score_graph, score_factors, exceeds, classify, mean, jaccard, class_match, bool_attr,
  score_identity, score_ontology, score_tenancy, score_lifecycle, score_coupling, neg_name_above,
}
use agentic_kgis.Advisor.Contract.{to_contract, in_unit, IsScoring}
use agentic_kgis.Advisor.Minors.{aims_at, marked, recommend-marked}
use agentic_kgis.Advisor.Projections.{Projects, recommend-Projects}

abbrev total : List ℕ → ℕ
total [] = 0
total (x ∷ xs) = x + total xs

abbrev round_down : Bool → ℕ
round_down b = if b then 2 else 1

abbrev coarse : Arithmetic ℕ
coarse = record {
  zero_score = 1;
  one_score = 2;
  minus_one = 0;
  ratio = λ a b. round_down (leb b a);
  sum = total;
  over = λ s n. round_down (leb (2 * n) s);
  at_least = λ x y. leb y x;
  same = nat_beq;
  above = λ x y. ltb y x;
  lower = λ t. t;
}

round_down-in_unit : (b : Bool) → in_unit coarse (round_down b) ≡ true
round_down-in_unit true = refl
round_down-in_unit false = refl

coarse-IsScoring : IsScoring coarse
coarse-IsScoring = record {
  zero_fits = refl;
  one_fits = refl;
  ratio_fits = λ a b h k. round_down-in_unit (leb b a);
  mean_fits = λ x xs h. round_down-in_unit (leb (2 * length (x ∷ xs)) (total (x ∷ xs)));
}

abbrev config : AdvisorConfig ℕ
config = record {
  extend_threshold = 2;
  shared_logical_threshold = 2;
  shared_identity_threshold = 2;
  tenancy_floor = 2;
  coupling_floor = 2;
  min_scored_factors = 2;
}

-- computed outputs on minors
abbrev profile : IncomingDataProfile
profile = record {
  domain = none;
  identity_authority = none;
  identity_keys = [];
  node_types = codes "Player" ∷ [];
  edge_types = [];
  attribute_types = [];
  tenancy_class = some (codes "youth");
  contains_minors_data = some true;
  lifecycle_class = none;
  retention_class = none;
  is_computed_output = some true;
}

abbrev pub graph : Text → List (Text × Text) → RegisteredGraph
graph name attributes = record {
  descriptor = record {
    name = name;
    owner = codes "o";
    domain = codes "sports";
    tags = [];
    backend = memory;
    connection_ref = none;
    node_types = codes "Player" ∷ [];
    edge_types = [];
    ontology_version = none;
    policy_ref = none;
    created_by = codes "c";
    decision_record = none;
  };
  version = 1;
  attributes = attributes;
}

-- a graph without marks, and one that is marked
abbrev snapshot : List RegisteredGraph
snapshot =
    graph (codes "a") []
    ∷ graph (codes "b") (
        (codes "contains_minors_data", codes "yes")
        ∷ (codes "is_computed_output", codes "1")
        ∷ (codes "tenancy_class", codes "youth")
        ∷ [])
    ∷ []

recommend-marked_example :
    any
      (λ g.
        aims_at (recommend coarse config profile snapshot).target_graph g
        && marked coarse profile g)
      snapshot
    ≡ true
unfolding recommend score_graph score_factors exceeds classify mean jaccard class_match bool_attr
    score_identity score_ontology score_tenancy score_lifecycle score_coupling automated_factors
    attribute_types text_beq strip
recommend-marked_example = recommend-marked coarse config profile snapshot refl refl refl

recommend-Projects_example :
    Projects snapshot
      (recommend coarse config profile snapshot).outcome
      (to_contract coarse (recommend coarse config profile snapshot))
recommend-Projects_example = recommend-Projects coarse config profile snapshot coarse-IsScoring

-- Between a name and its own beginning the longer one wins the tie.
longer_name_first : neg_name_above (codes "ab") (codes "a") ≡ true
unfolding neg_name_above
longer_name_first = refl
