-- ===== src/Advisor/Factors.antt =====
-- The factors of an extend-or-create decision: FACTORS and SCORED_FACTORS_V1 of
-- src/kgis/registry/models.py and src/kg_contracts/registry.py.
use agentic_kgis.Prelude.{
  ℕ, Bool, true, false, not, Option, none, some, List, [], ◌∷◌, ◌++◌, Text, codes, keep, map, ◌≡◌,
  refl,
}
use agentic_kgis.Graph.Apply.{str}

-- a factor that the advisor scores, by its key in the contract
pub data ScoredFactor : Type 0 where
  identity_value ontology_compatibility tenancy lifecycle computational_coupling : ScoredFactor

abbrev pub factor_name : ScoredFactor → Text
factor_name identity_value = codes "identity_value"
factor_name ontology_compatibility = codes "ontology_compatibility"
factor_name tenancy = codes "tenancy"
factor_name lifecycle = codes "lifecycle"
factor_name computational_coupling = codes "computational_coupling"

-- SCORED_FACTORS_V1
abbrev pub scored_factors : List Text
scored_factors =
    codes "identity_value"
    ∷ codes "ontology_compatibility"
    ∷ codes "tenancy"
    ∷ codes "lifecycle"
    ∷ codes "computational_coupling"
    ∷ []

pub record Factor : Type 0 where
  pub number : ℕ
  pub factor_id : Text
  pub title : Text
  pub automated : Bool
  pub checklist_prompt : Text
  pub contract_key : Option ScoredFactor

abbrev factor_1 : Factor
factor_1 = record {
  number = 1;
  factor_id = codes "shared_identity_value";
  title = codes "Shared identity value";
  automated = true;
  checklist_prompt =
      codes "Who is the identity authority, and is shared identity a reason to "
      ++ codes "join or a reason to stay apart?";
  contract_key = some identity_value;
}

abbrev factor_2 : Factor
factor_2 = record {
  number = 2;
  factor_id = codes "ontology_compatibility";
  title = codes "Ontology compatibility";
  automated = true;
  checklist_prompt =
      codes "Do concepts, relationship semantics, cardinality, identity rules, and "
      ++ codes "governance authority actually agree?";
  contract_key = some ontology_compatibility;
}

abbrev factor_3 : Factor
factor_3 = record {
  number = 3;
  factor_id = codes "assertion_evidence_semantics";
  title = codes "Assertion and evidence semantics";
  automated = false;
  checklist_prompt = codes "Do the two sides mean the same thing by an assertion and its evidence?";
  contract_key = none;
}

abbrev factor_4 : Factor
factor_4 = record {
  number = 4;
  factor_id = codes "temporal_model_compatibility";
  title = codes "Temporal-model compatibility";
  automated = false;
  checklist_prompt = codes "Are the bitemporal / validity models compatible?";
  contract_key = none;
}

abbrev factor_5 : Factor
factor_5 = record {
  number = 5;
  factor_id = codes "tenancy_privacy_access";
  title = codes "Tenancy, privacy, and access";
  automated = true;
  checklist_prompt =
      codes "Tenancy, privacy, access — including minors' data, purpose "
      ++ codes "limitation, and inference leakage through traversal or embeddings.";
  contract_key = some tenancy;
}

abbrev factor_6 : Factor
factor_6 = record {
  number = 6;
  factor_id = codes "lifecycle_retention";
  title = codes "Lifecycle and retention";
  automated = true;
  checklist_prompt = codes "Do the lifecycle and retention regimes match?";
  contract_key = some lifecycle;
}

abbrev factor_7 : Factor
factor_7 = record {
  number = 7;
  factor_id = codes "workload_backend_compatibility";
  title = codes "Workload and backend compatibility";
  automated = false;
  checklist_prompt = codes "Are the workload profile and storage backend compatible?";
  contract_key = none;
}

abbrev factor_8 : Factor
factor_8 = record {
  number = 8;
  factor_id = codes "governance_stewardship";
  title = codes "Governance and stewardship";
  automated = false;
  checklist_prompt = codes "Is there a single accountable steward, or two that would collide?";
  contract_key = none;
}

abbrev factor_9 : Factor
factor_9 = record {
  number = 9;
  factor_id = codes "failure_blast_radius";
  title = codes "Failure / blast-radius requirements";
  automated = false;
  checklist_prompt = codes "Would joining widen the blast radius of a failure unacceptably?";
  contract_key = none;
}

abbrev factor_10 : Factor
factor_10 = record {
  number = 10;
  factor_id = codes "cross_domain_traversal_value";
  title = codes "Cross-domain traversal value";
  automated = false;
  checklist_prompt =
      codes "Is there real cross-domain traversal value, or overlap without "
      ++ codes "cross-domain questions (cost without benefit)?";
  contract_key = none;
}

abbrev factor_11 : Factor
factor_11 = record {
  number = 11;
  factor_id = codes "computational_model_coupling";
  title = codes "Computational-model coupling";
  automated = true;
  checklist_prompt =
      codes "Would joining cause one domain's computed outputs to be read as "
      ++ codes "another's canonical facts?";
  contract_key = some computational_coupling;
}

abbrev factor_12 : Factor
factor_12 = record {
  number = 12;
  factor_id = codes "rebuild_deletion_boundaries";
  title = codes "Rebuild and deletion boundaries";
  automated = false;
  checklist_prompt =
      codes "Regenerable data vs. irreplaceable human curation — do the boundaries "
      ++ codes "align?";
  contract_key = none;
}

-- FACTORS
abbrev pub factors : List Factor
factors =
    factor_1 ∷ factor_2 ∷ factor_3 ∷ factor_4 ∷ factor_5 ∷ factor_6 ∷ factor_7 ∷ factor_8 ∷ factor_9
    ∷ factor_10 ∷ factor_11 ∷ factor_12 ∷ []

-- AUTOMATED_FACTORS, each by its key in the contract, and HUMAN_FACTORS
abbrev contract_keys : List Factor → List ScoredFactor
contract_keys [] = []
contract_keys (f ∷ fs) = elim f.contract_key [
  | none ↦ contract_keys fs
  | some key ↦ key ∷ contract_keys fs
]

unfoldable pub automated_factors : List ScoredFactor
automated_factors = contract_keys (keep (λ f. f.automated) factors)

unfoldable pub human_factors : List Factor
human_factors = keep (λ f. not f.automated) factors

pub record ChecklistItem : Type 0 where
  pub number : ℕ
  pub factor_id : Text
  pub title : Text
  pub prompt : Text

-- `ChecklistItem.render`
unfoldable pub render_item : ChecklistItem → Text
render_item i = str i.number ++ codes ". " ++ i.title ++ codes ": " ++ i.prompt

abbrev checklist_item : Factor → ChecklistItem
checklist_item f = record {
  number = f.number;
  factor_id = f.factor_id;
  title = f.title;
  prompt = f.checklist_prompt;
}

-- `GraphAdvisor._checklist`
unfoldable pub checklist_items : List ChecklistItem
checklist_items = map checklist_item human_factors

-- The automated factors are the five that the contract knows, each once, in the order of FACTORS.
pub automated_factors_lem :
    automated_factors
    ≡ identity_value ∷ ontology_compatibility ∷ tenancy ∷ lifecycle ∷ computational_coupling ∷ []
unfolding automated_factors
automated_factors_lem = refl
