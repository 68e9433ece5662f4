-- ===== src/Advisor/Projections.antt =====
-- What the contract is given of a recommendation: src/kgis/registry/advisor.py and models.py.
use agentic_kgis.Prelude.{
  Bool, true, false, not, ◌&&◌, ◌≡◌, refl, sym, ap, ◌∙◌, ◌⊎◌, inl, inr, Option, none, some, List,
  [], ◌∷◌, any, map, length, lookup, codes, ltb, text_beq_refl, if◌then◌else◌, ◌==◌, text_eq,
}
use mathlib.Core.Bool.{true≢false}
use agentic_kgis.Advisor.{
  Arithmetic, RegisteredGraph, IncomingDataProfile, AdvisorConfig, Outcome, extend_same_physical,
  shared_logical_separate_physical, separate_shared_identity, fully_isolated,
  insufficient_information,
}
use agentic_kgis.Advisor.Factors.{automated_factors, checklist_items}
use agentic_kgis.Advisor.Scoring.{
  Reason, registry_is_empty, best_match, above_extend_threshold, tenancy_below_floor,
  nothing_argues_for_joining, reaches, identity_reaches, identity_reason, ScoredGraph, best_of,
  score_graph, exceeds, classify, unknown, recommendation, settle, recommend,
}
use agentic_kgis.Advisor.Contract.{
  extend, create, Recommendation, Projection, absent, projected, rejected, is_insufficient,
  has_reasons, scores_pass, new_recommendation, to_contract, IsScoring, score_factors-passes,
}
use agentic_kgis.Advisor.Minors.{and_both, best_of-In, In-map, In-any, aims_at}

-- What is said of a recommendation for a snapshot: nothing, exactly for insufficient information;
-- otherwise to create a graph that is not named, or to extend one of the snapshot.
abbrev pub Projects : {F : Type 0} → List RegisteredGraph → Outcome → Projection F → Type 0
Projects snapshot outcome absent = is_insufficient outcome ≡ true
Projects snapshot outcome (projected r) =
    (is_insufficient outcome ≡ false)
    × (((r.action ≡ create) × (r.graph_name ≡ none))
        ⊎ ((r.action ≡ extend) × (any (aims_at r.graph_name) snapshot ≡ true)))
Projects snapshot outcome rejected = ⊥

chosen :
    {F : Type 0} (P : Projection F → Type 0) (b : Bool) (r : Recommendation F)
    → b ≡ true
    → P (projected r)
    → P (if b then projected r else rejected)
chosen P true r e h = h
chosen P false r e h = absurd (true≢false (sym e))

-- the reasons of a verdict are there
abbrev reasons_of : {F : Type 0} → Outcome × List (Reason F) → Bool
reasons_of r = has_reasons r.1

module _ {F : Type 0} (floats : Arithmetic F) (snapshot : List RegisteredGraph) where
  recommendation-Projects :
      (best : ScoredGraph F) (scored : List (ScoredGraph F))
      → scores_pass floats best.factor_scores ≡ true
      → any (aims_at (some best.graph_name)) snapshot ≡ true
      → (outcome : Outcome) (reasons : List (Reason F)) → has_reasons reasons ≡ true
      → Projects snapshot outcome
          (to_contract floats (recommendation floats best scored (outcome, reasons)))
  unfolding to_contract new_recommendation
  recommendation-Projects best scored pass here insufficient_information reasons full = refl
  recommendation-Projects best scored pass here extend_same_physical reasons full =
      chosen (Projects snapshot extend_same_physical) _ _ (and_both _ _ pass full)
        (refl, inr (refl, here))
  recommendation-Projects best scored pass here shared_logical_separate_physical reasons full =
      chosen (Projects snapshot shared_logical_separate_physical) _ _ (and_both _ _ pass full)
        (refl, inr (refl, here))
  recommendation-Projects best scored pass here separate_shared_identity reasons full =
      chosen (Projects snapshot separate_shared_identity) _ _ (and_both _ _ pass full)
        (refl, inl (refl, refl))
  recommendation-Projects best scored pass here fully_isolated reasons full =
      chosen (Projects snapshot fully_isolated) _ _ (and_both _ _ pass full)
        (refl, inl (refl, refl))

  -- every verdict of `_classify` has its reasons
  classify-has_reasons :
      (cfg : AdvisorConfig F) (best : ScoredGraph F) (a : F)
      → has_reasons (classify floats cfg best a).1 ≡ true
  unfolding classify
  classify-has_reasons cfg best a =
      (let tenancy_ok =
          reaches floats cfg.tenancy_floor (lookup (codes "tenancy") best.factor_scores) in
        let coupling_ok =
          reaches floats cfg.coupling_floor
            (lookup (codes "computational_coupling") best.factor_scores) in
        let identity = lookup (codes "identity_value") best.factor_scores in
        let base = best_match best.graph_name a (length best.factor_scores) in
        pick (floats.at_least a cfg.extend_threshold && (tenancy_ok && coupling_ok))
          (floats.at_least a cfg.shared_logical_threshold && not tenancy_ok)
          (identity_reaches floats cfg.shared_identity_threshold identity)
          (extend_same_physical, base ∷ above_extend_threshold cfg.extend_threshold ∷ [])
          (shared_logical_separate_physical, base ∷ tenancy_below_floor ∷ [])
          (separate_shared_identity, base ∷ identity_reason floats cfg identity)
          (fully_isolated, base ∷ nothing_argues_for_joining ∷ []) refl refl refl refl)
    where
      pick :
          (a b c : Bool) (r1 r2 r3 r4 : Outcome × List (Reason F))
          → has_reasons r1.1 ≡ true
          → has_reasons r2.1 ≡ true
          → has_reasons r3.1 ≡ true
          → has_reasons r4.1 ≡ true
          → reasons_of (if a then r1 else if b then r2 else if c then r3 else r4) ≡ true
      pick true b c r1 r2 r3 r4 h1 h2 h3 h4 = h1
      pick false true c r1 r2 r3 r4 h1 h2 h3 h4 = h2
      pick false false true r1 r2 r3 r4 h1 h2 h3 h4 = h3
      pick false false false r1 r2 r3 r4 h1 h2 h3 h4 = h4

  settle-Projects :
      (cfg : AdvisorConfig F) (best : ScoredGraph F) (scored : List (ScoredGraph F))
      → scores_pass floats best.factor_scores ≡ true
      → any (aims_at (some best.graph_name)) snapshot ≡ true
      → (o : Option F)
      → Projects snapshot
          (settle floats cfg best scored o).outcome
          (to_contract floats (settle floats cfg best scored o))
  settle-Projects cfg best scored pass here none =
      recommendation-Projects best scored pass here insufficient_information _ refl
  settle-Projects cfg best scored pass here (some a) =
      go (ltb (length best.factor_scores) cfg.min_scored_factors)
    where
      go :
          (few : Bool)
          → (let r =
                recommendation floats best scored
                  (if few then unknown floats cfg best else classify floats cfg best a) in
              Projects snapshot r.outcome (to_contract floats r))
      go true = recommendation-Projects best scored pass here insufficient_information _ refl
      go false = given (classify floats cfg best a) (classify-has_reasons cfg best a)
        where
          given :
              (r : Outcome × List (Reason F))
              → has_reasons r.1 ≡ true
              → Projects snapshot
                  (recommendation floats best scored r).outcome
                  (to_contract floats (recommendation floats best scored r))
          given (outcome, reasons) full =
              recommendation-Projects best scored pass here outcome reasons full

-- the recommendation for a registry without graphs
alone :
    {F : Type 0} (floats : Arithmetic F)
    → Projects [] fully_isolated (
        to_contract floats (record {
          outcome = fully_isolated;
          target_graph = none;
          factor_scores = [];
          unscored_factors = [];
          checklist = checklist_items;
          per_graph = [];
          reasons = registry_is_empty ∷ [];
        }))
unfolding to_contract new_recommendation
alone floats = (refl, inl (refl, refl))

-- The contract's constructor accepts every recommendation that the advisor makes: the projection is
-- None exactly for insufficient information, and otherwise either to create a graph, with no name,
-- or to extend one, with the name of a graph of the snapshot.
pub recommend-Projects :
    {F : Type 0} (floats : Arithmetic F) (cfg : AdvisorConfig F) (p : IncomingDataProfile)
    (snapshot : List RegisteredGraph)
    → IsScoring floats
    → Projects snapshot
        (recommend floats cfg p snapshot).outcome
        (to_contract floats (recommend floats cfg p snapshot))
unfolding recommend score_graph
recommend-Projects floats cfg p [] laws = alone floats
recommend-Projects floats cfg p (g ∷ gs) laws =
    let best = best_of (exceeds floats) (score_graph floats p g) (map (score_graph floats p) gs) in
    let (x, (l, same)) =
      In-map (score_graph floats p) best (g ∷ gs)
        (best_of-In (exceeds floats) (score_graph floats p g) (map (score_graph floats p) gs)) in
    settle-Projects floats (g ∷ gs) cfg best _
      (ap (λ s. scores_pass floats s.factor_scores) same
        ∙ score_factors-passes floats laws automated_factors p x)
      (In-any (aims_at (some best.graph_name)) x (g ∷ gs) l
        (ap (λ s. s.graph_name == x.descriptor.name) same ∙ text_beq_refl x.descriptor.name))
      best.aggregate
