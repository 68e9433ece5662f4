-- ===== src/Advisor/Minors.antt =====
-- What a recommendation of src/kgis/registry/advisor.py to extend a graph rests on.
use agentic_kgis.Prelude.{
  Bool, true, false, not, ◌&&◌, ◌||◌, ◌≡◌, refl, sym, ap, ◌∙◌, inl, inr, Option, none, some, List,
  [], ◌∷◌, Text, codes, ◌==◌, text_eq, text_beq, text_beq_refl, any, or_right, In, lookup, length,
  map, ltb, Dict, if◌then◌else◌,
}
use mathlib.Core.Bool.{true≢false}
use agentic_kgis.Advisor.{
  Arithmetic, RegisteredGraph, IncomingDataProfile, AdvisorConfig, Outcome, extend_same_physical,
  shared_logical_separate_physical, separate_shared_identity, fully_isolated,
}
use agentic_kgis.Advisor.Factors.{
  ScoredFactor, identity_value, ontology_compatibility, tenancy, lifecycle, computational_coupling,
  factor_name, automated_factors,
}
use agentic_kgis.Advisor.Scoring.{
  Reason, recommendation, ScoredGraph, is_true, best_of, graph_minors, graph_computed,
  score_tenancy, score_coupling, score_of, put_score, coupling_of, score_factors, score_graph,
  exceeds, reaches, classify, unknown, settle, recommend,
}

-- the choice is one of the elements
pub best_of-In :
    {A : Type 0} (more : A → A → Bool) (best : A) (xs : List A)
    → In (best_of more best xs) (best ∷ xs)
best_of-In more best [] = inl refl
best_of-In more best (x ∷ xs) = go (more x best) (λ b. best_of-In more b xs)
  where
    go :
        (b : Bool)
        → ((y : _) → In (best_of more y xs) (y ∷ xs))
        → In (best_of more (if b then x else best) xs) (best ∷ x ∷ xs)
    go true h = inr (h x)
    go false h = elim (h best) [ inl e ↦ inl e | inr l ↦ inr (inr l) ]

pub In-map :
    {A B : Type 0} (f : A → B) (y : B) (xs : List A)
    → In y (map f xs)
    → (x : A) × (In x xs × (y ≡ f x))
In-map f y [] h = absurd h
In-map f y (x ∷ xs) (inl e) = (x, (inl refl, e))
In-map f y (x ∷ xs) (inr h) = let (z, (l, e)) = In-map f y xs h in (z, (inr l, e))

pub and_both : (a b : Bool) → a ≡ true → b ≡ true → a && b ≡ true
and_both true b h k = k
and_both false b h k = absurd (true≢false (sym h))

pub In-any :
    {A : Type 0} (test : A → Bool) (x : A) (xs : List A)
    → In x xs
    → test x ≡ true
    → any test xs ≡ true
In-any test x [] h t = absurd h
In-any test x (y ∷ xs) (inl e) t = ap (λ b. b || any test xs) (ap test (sym e) ∙ t)
In-any test x (y ∷ xs) (inr h) t = or_right (test y) (any test xs) (In-any test x xs h t)

module _ {F : Type 0} (floats : Arithmetic F) (p : IncomingDataProfile) (g : RegisteredGraph) where
  scores-skip :
      (key : Text) (f : ScoredFactor) (fs : List ScoredFactor)
      → text_beq (factor_name f) key ≡ false
      → lookup key (score_factors floats (f ∷ fs) p g).0
        ≡ lookup key (score_factors floats fs p g).0
  unfolding score_factors
  scores-skip key f fs e = go (score_of floats f p g) (score_factors floats fs p g)
    where
      go :
          (o : Option F) (rest : Dict F × List Text)
          → lookup key (put_score floats f o rest).0 ≡ lookup key rest.0
      go none rest = refl
      go (some x) rest = ap (λ b. if b then some x else lookup key rest.0) e

  scores-here :
      (f : ScoredFactor) (fs : List ScoredFactor)
      → lookup (factor_name f) (score_factors floats fs p g).0 ≡ none
      → lookup (factor_name f) (score_factors floats (f ∷ fs) p g).0 ≡ score_of floats f p g
  unfolding score_factors
  scores-here f fs e = go (score_of floats f p g) (score_factors floats fs p g) e
    where
      go :
          (o : Option F) (rest : Dict F × List Text)
          → lookup (factor_name f) rest.0 ≡ none
          → lookup (factor_name f) (put_score floats f o rest).0 ≡ o
      go none rest e = e
      go (some x) rest e =
          ap (λ b. if b then some x else lookup (factor_name f) rest.0)
            (text_beq_refl (factor_name f))

  -- the scores of the factors that keep a graph apart
  tenancy_score :
      lookup (codes "tenancy") (score_graph floats p g).factor_scores ≡ score_tenancy floats p g
  unfolding score_graph automated_factors text_beq score_factors
  tenancy_score =
      let last = lifecycle ∷ computational_coupling ∷ [] in
      scores-skip (codes "tenancy") identity_value (ontology_compatibility ∷ tenancy ∷ last) refl
      ∙ scores-skip (codes "tenancy") ontology_compatibility (tenancy ∷ last) refl
      ∙ scores-here tenancy last (
          scores-skip (codes "tenancy") lifecycle (computational_coupling ∷ []) refl
          ∙ scores-skip (codes "tenancy") computational_coupling [] refl)

  coupling_score :
      lookup (codes "computational_coupling") (score_graph floats p g).factor_scores
      ≡ score_coupling floats p g
  unfolding score_graph automated_factors text_beq score_factors
  coupling_score =
      let key = codes "computational_coupling" in
      let last = computational_coupling ∷ [] in
      scores-skip key identity_value (ontology_compatibility ∷ tenancy ∷ lifecycle ∷ last) refl
      ∙ scores-skip key ontology_compatibility (tenancy ∷ lifecycle ∷ last) refl
      ∙ scores-skip key tenancy (lifecycle ∷ last) refl
      ∙ scores-skip key lifecycle last refl
      ∙ scores-here computational_coupling [] refl

  -- the graph is marked for what the incoming data is
  abbrev pub marked : Bool
  marked =
      (not (is_true p.contains_minors_data) || is_true (graph_minors floats g))
      && (not (is_true p.is_computed_output) || is_true (graph_computed floats g))

  tenancy-marked :
      (floor : F)
      → floats.at_least floats.zero_score floor ≡ false
      → reaches floats floor (score_tenancy floats p g) ≡ true
      → not (is_true p.contains_minors_data) || is_true (graph_minors floats g) ≡ true
  unfolding score_tenancy
  tenancy-marked floor low h =
      go (is_true p.contains_minors_data) (is_true (graph_minors floats g)) _ h
    where
      go :
          (minors : Bool) (graph : Bool) (o : Option F)
          → reaches floats floor (if minors && not graph then some floats.zero_score else o) ≡ true
          → not minors || graph ≡ true
      go true true o h = refl
      go true false o h = absurd (true≢false (sym h ∙ low))
      go false b o h = refl

  coupling-marked :
      (floor : F)
      → floats.at_least floats.zero_score floor ≡ false
      → reaches floats floor (score_coupling floats p g) ≡ true
      → not (is_true p.is_computed_output) || is_true (graph_computed floats g) ≡ true
  unfolding score_coupling
  coupling-marked floor low h = go p.is_computed_output (graph_computed floats g) h
    where
      go :
          (computed : Option Bool) (graph : Option Bool)
          → reaches floats floor
              (elim computed [ none ↦ none | some c ↦ coupling_of floats c graph ])
            ≡ true
          → not (is_true computed) || is_true graph ≡ true
      go none graph h = refl
      go (some false) graph h = refl
      go (some true) (some true) h = refl
      go (some true) (some false) h = absurd (true≢false (sym h ∙ low))
      go (some true) none h = absurd (true≢false (sym h ∙ low))

-- the graph has the target's name
abbrev pub aims_at : Option Text → RegisteredGraph → Bool
aims_at none g = false
aims_at (some name) g = name == g.descriptor.name

abbrev extends : Outcome → Bool
extends extend_same_physical = true
extends _ = false

module _ {F : Type 0} (floats : Arithmetic F) (cfg : AdvisorConfig F) where
  abbrev first_extends : Outcome × List (Reason F) → Bool
  first_extends r = extends r.0

  -- what `_classify` asks of the scores for the first outcome
  classify-reaches :
      (best : ScoredGraph F) (a : F)
      → extends (classify floats cfg best a).0 ≡ true
      → (reaches floats cfg.tenancy_floor (lookup (codes "tenancy") best.factor_scores) ≡ true)
        × (reaches floats cfg.coupling_floor
              (lookup (codes "computational_coupling") best.factor_scores)
            ≡ true)
  unfolding classify
  classify-reaches best a h =
      go (floats.at_least a cfg.extend_threshold) _ _ (_ && not _) _ _ _ _ _ h
    where
      go :
          (enough t c other identity : Bool) (r1 r2 r3 r4 : List (Reason F))
          → first_extends (
              if enough && (t && c)
              then (extend_same_physical, r1)
              else if other
              then (shared_logical_separate_physical, r2)
              else if identity
              then (separate_shared_identity, r3)
              else (fully_isolated, r4))
            ≡ true
          → (t ≡ true) × (c ≡ true)
      go true true true other identity r1 r2 r3 r4 h = (refl, refl)
      go true true false true identity r1 r2 r3 r4 h = absurd (true≢false (sym h))
      go true true false false true r1 r2 r3 r4 h = absurd (true≢false (sym h))
      go true true false false false r1 r2 r3 r4 h = absurd (true≢false (sym h))
      go true false c true identity r1 r2 r3 r4 h = absurd (true≢false (sym h))
      go true false c false true r1 r2 r3 r4 h = absurd (true≢false (sym h))
      go true false c false false r1 r2 r3 r4 h = absurd (true≢false (sym h))
      go false t c true identity r1 r2 r3 r4 h = absurd (true≢false (sym h))
      go false t c false true r1 r2 r3 r4 h = absurd (true≢false (sym h))
      go false t c false false r1 r2 r3 r4 h = absurd (true≢false (sym h))

  settle-reaches :
      (best : ScoredGraph F) (scored : List (ScoredGraph F)) (o : Option F)
      → extends (settle floats cfg best scored o).outcome ≡ true
      → (reaches floats cfg.tenancy_floor (lookup (codes "tenancy") best.factor_scores) ≡ true)
        × (reaches floats cfg.coupling_floor
              (lookup (codes "computational_coupling") best.factor_scores)
            ≡ true)
  settle-reaches best scored none h = absurd (true≢false (sym h))
  settle-reaches best scored (some a) h =
      go (ltb (length best.factor_scores) cfg.min_scored_factors) h
    where
      go :
          (few : Bool)
          → extends
              (recommendation floats best scored
                (if few then unknown floats cfg best else classify floats cfg best a)).outcome
            ≡ true
          → (reaches floats cfg.tenancy_floor (lookup (codes "tenancy") best.factor_scores) ≡ true)
            × (reaches floats cfg.coupling_floor
                  (lookup (codes "computational_coupling") best.factor_scores)
                ≡ true)
      go true h = absurd (true≢false (sym h))
      go false h =
          classify-reaches best a (ap extends (outcome_of (classify floats cfg best a)) ∙ h)
        where
          outcome_of :
              (r : Outcome × List (Reason F)) → r.0 ≡ (recommendation floats best scored r).outcome
          outcome_of r = refl

  best-marked :
      (p : IncomingDataProfile) (g : RegisteredGraph) (gs : List RegisteredGraph)
      → floats.at_least floats.zero_score cfg.tenancy_floor ≡ false
      → floats.at_least floats.zero_score cfg.coupling_floor ≡ false
      → (best : ScoredGraph F) → In best (score_graph floats p g ∷ map (score_graph floats p) gs)
      → extends
          (settle floats cfg best
            (score_graph floats p g ∷ map (score_graph floats p) gs)
            best.aggregate).outcome
        ≡ true
      → any (λ x. aims_at (some best.graph_name) x && marked floats p x) (g ∷ gs) ≡ true
  unfolding score_graph
  best-marked p g gs low_t low_c best h e =
      let (x, (l, same)) = In-map (score_graph floats p) best (g ∷ gs) h in
      let (t, c) = settle-reaches best _ best.aggregate e in
      let tenancy_ok =
        ap (reaches floats cfg.tenancy_floor) (
          sym (tenancy_score floats p x)
          ∙ ap (λ s. lookup (codes "tenancy") s.factor_scores) (sym same))
        ∙ t in
      let coupling_ok =
        ap (reaches floats cfg.coupling_floor) (
          sym (coupling_score floats p x)
          ∙ ap (λ s. lookup (codes "computational_coupling") s.factor_scores) (sym same))
        ∙ c in
      In-any (λ x. aims_at (some best.graph_name) x && marked floats p x) x (g ∷ gs) l
        (and_both _ _
          (ap (λ s. s.graph_name == x.descriptor.name) same ∙ text_beq_refl x.descriptor.name)
          (and_both _ _ (tenancy-marked floats p x cfg.tenancy_floor low_t tenancy_ok)
            (coupling-marked floats p x cfg.coupling_floor low_c coupling_ok)))

-- Under a configuration whose floors of tenancy and coupling are above a score of zero, a
-- recommendation to extend one physical graph aims at a graph of the snapshot that is marked for
-- minors' data if the incoming data contains any, and for computed outputs if it is one.
pub recommend-marked :
    {F : Type 0} (floats : Arithmetic F) (cfg : AdvisorConfig F) (p : IncomingDataProfile)
    (snapshot : List RegisteredGraph)
    → floats.at_least floats.zero_score cfg.tenancy_floor ≡ false
    → floats.at_least floats.zero_score cfg.coupling_floor ≡ false
    → (recommend floats cfg p snapshot).outcome ≡ extend_same_physical
    → any
        (λ g. aims_at (recommend floats cfg p snapshot).target_graph g && marked floats p g)
        snapshot
      ≡ true
unfolding recommend
recommend-marked floats cfg p [] low_t low_c e = absurd (true≢false (sym (ap extends e)))
recommend-marked floats cfg p (g ∷ gs) low_t low_c e =
    let best = best_of (exceeds floats) (score_graph floats p g) (map (score_graph floats p) gs) in
    ap (λ t. any (λ x. aims_at t x && marked floats p x) (g ∷ gs)) (target_of best _ best.aggregate)
    ∙ best-marked floats cfg p g gs low_t low_c best
        (best_of-In (exceeds floats) (score_graph floats p g) (map (score_graph floats p) gs))
        (ap extends e)
  where
    target_of :
        (best : ScoredGraph _) (scored : List (ScoredGraph _)) (o : Option _)
        → (settle floats cfg best scored o).target_graph ≡ some best.graph_name
    target_of best scored none = refl
    target_of best scored (some a) = go (
        if ltb (length best.factor_scores) cfg.min_scored_factors
        then unknown floats cfg best
        else classify floats cfg best a)
      where
        go : (r : _) → (recommendation floats best scored r).target_graph ≡ some best.graph_name
        go (outcome, reasons) = refl
