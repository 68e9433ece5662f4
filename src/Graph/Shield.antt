-- ===== src/Graph/Shield.antt =====
-- The revocation shield of `MemoryGraphStore`: what its readers answer while an identity is revoked.
-- src/kg_contracts/testing/memory.py.
use agentic_kgis.Prelude.{
  ℕ, zero, suc, Bool, true, false, not, ◌&&◌, ◌≡◌, refl, sym, ap, ◌∙◌, Option, none, some, List, [],
  ◌∷◌, Text, text_beq_iff, ◌==◌, text_eq, keep, lookup, has_text, list_at, values, All, All-append,
  and_true, if◌then◌else◌,
}
use mathlib.Core.Bool.{true≢false}
use agentic_kgis.Candidates.{EntityRef}
use agentic_kgis.Graph.{
  CurationStatus, active, superseded, revoked, CanonicalEntity, Assertion, revoke_identity,
  GraphState,
}
use agentic_kgis.Graph.Apply.{is_revoked, with_status, apply}
use agentic_kgis.Graph.Reads.{
  GraphReadOptions, within_epoch, is_visible, if_entity, entity_shield, subject_visible, get_entity,
  find_entities, assertion_shown, assertions_for, if_assertion, get_assertion, Search, reach,
  follow_to, follow_assertions, hop, hops_from, neighborhood,
}
use agentic_kgis.Graph.Restore.{only, revoke_alone, lookup-restatus}

abbrev IsLive : CanonicalEntity → Type 0
IsLive c = is_revoked c.status ≡ false

-- an assertion, if there is one, is of another subject
abbrev pub IsApart : Text → Option Assertion → Type 0
IsApart id none = Unit
IsApart id (some a) = (a.subject_identity == id) ≡ false

-- What the readers answer about an identity that is hidden from them.
pub record IsHidden (id : Text) (o : GraphReadOptions) (s : GraphState) : Type 0 where
  pub no_entity : get_entity id o s ≡ none
  pub none_listed :
      (entity_type : Option Text) (alias : Option EntityRef)
      → All IsLive (find_entities entity_type alias o s)
  pub no_assertions : assertions_for id o s ≡ []
  pub no_assertion : (assertion_id : Text) → IsApart id (get_assertion assertion_id o s)
  pub no_neighbors : (hops : ℕ) → neighborhood id hops o s ≡ []
  pub none_reached : (from : Text) (hops : ℕ) → All IsLive (neighborhood from hops o s)

module _ (o : GraphReadOptions) (shut : o.include_revoked ≡ false) where
  is_visible-IsLive :
      (n : ℕ) (status : CurationStatus) → is_visible n status o ≡ true → is_revoked status ≡ false
  unfolding is_visible
  is_visible-IsLive n active h = refl
  is_visible-IsLive n superseded h = refl
  is_visible-IsLive n revoked h = go (within_epoch o.curation_epoch n) h
    where
      go :
          (b : Bool)
          → (if not b then false else o.include_revoked) ≡ true
          → is_revoked revoked ≡ false
      go true e = absurd (true≢false (sym e ∙ shut))
      go false e = absurd (true≢false (sym e))

  keep-IsLive :
      (test : CanonicalEntity → Bool) (cs : List CanonicalEntity)
      → All IsLive (keep (λ c. is_visible c.curation_epoch c.status o && test c) cs)
  keep-IsLive test [] = tt
  keep-IsLive test (c ∷ cs) =
      go (is_visible c.curation_epoch c.status o && test c) refl (keep-IsLive test cs)
    where
      go :
          (b : Bool)
          → (is_visible c.curation_epoch c.status o && test c) ≡ b
          → All IsLive (keep (λ c. is_visible c.curation_epoch c.status o && test c) cs)
          → All IsLive (
              if b
              then c ∷ keep (λ c. is_visible c.curation_epoch c.status o && test c) cs
              else keep (λ c. is_visible c.curation_epoch c.status o && test c) cs)
      go true e h = (is_visible-IsLive c.curation_epoch c.status (and_true _ (test c) e).0, h)
      go false e h = h

  abbrev FoundLive : Option CanonicalEntity → Type 0
  FoundLive none = Unit
  FoundLive (some e) = IsLive e

  get_entity-IsLive : (id : Text) (s : GraphState) → FoundLive (get_entity id o s)
  unfolding get_entity
  get_entity-IsLive id s = found (lookup id s.entities)
    where
      found : (held : Option CanonicalEntity) → FoundLive (if_entity held o)
      found none = tt
      found (some e) = go (is_visible e.curation_epoch e.status o) refl
        where
          go :
              (b : Bool)
              → is_visible e.curation_epoch e.status o ≡ b
              → FoundLive (if b then some e else none)
          go true h = is_visible-IsLive e.curation_epoch e.status h
          go false h = tt

  module _ (s : GraphState) where
    follow_to-IsLive :
        (target : Option Text) (f : Search)
        → All IsLive f.result
        → All IsLive (follow_to target o s f).result
    follow_to-IsLive none f h = h
    follow_to-IsLive (some target) f h =
        go (has_text target f.visited) (get_entity target o s) (get_entity-IsLive target s)
      where
        go :
            (b : Bool) (found : Option CanonicalEntity)
            → FoundLive found
            → All IsLive (if b then f else reach target found f).result
        go true found k = h
        go false none k = h
        go false (some e) k = All-append IsLive f.result (e ∷ []) h (k, tt)

    follow_assertions-IsLive :
        (as_ : List Assertion) (f : Search)
        → All IsLive f.result
        → All IsLive (follow_assertions as_ o s f).result
    unfolding follow_assertions
    follow_assertions-IsLive [] f h = h
    follow_assertions-IsLive (a ∷ as_) f h =
        follow_assertions-IsLive as_ (follow_to a.object_identity o s f)
          (follow_to-IsLive a.object_identity f h)

    hop-IsLive :
        (frontier : List Text) (f : Search)
        → All IsLive f.result
        → All IsLive (hop frontier o s f).result
    unfolding hop
    hop-IsLive [] f h = h
    hop-IsLive (subject ∷ rest) f h =
        hop-IsLive rest (follow_assertions (assertions_for subject o s) o s f)
          (follow_assertions-IsLive (assertions_for subject o s) f h)

    hops_from-IsLive : (n : ℕ) (f : Search) → All IsLive f.result → All IsLive (hops_from n o s f)
    unfolding hops_from
    hops_from-IsLive zero f h = h
    hops_from-IsLive (suc n) f h =
        hops_from-IsLive n (hop f.next_frontier o s (record f { next_frontier = [] }))
          (hop-IsLive f.next_frontier (record f { next_frontier = [] }) h)

    -- a search with no frontier finds no more
    hops_from-still : (n : ℕ) (f : Search) → f.next_frontier ≡ [] → hops_from n o s f ≡ f.result
    unfolding hops_from hop
    hops_from-still zero f e = refl
    hops_from-still (suc n) f e =
        ap (λ l. hops_from n o s (hop l o s (record f { next_frontier = [] }))) e
        ∙ hops_from-still n (record f { next_frontier = [] }) refl

    module _ (id : Text) (e : CanonicalEntity) (held : lookup id s.entities ≡ some e)
        (gone : is_revoked e.status ≡ true) where
      shielded : subject_visible id o s ≡ false
      unfolding subject_visible
      shielded = ap (λ r. entity_shield r o) held ∙ go e.status gone
        where
          go :
              (status : CurationStatus)
              → is_revoked status ≡ true
              → (elim status [ revoked ↦ o.include_revoked | active ↦ true | superseded ↦ true ])
                ≡ false
          go active h = absurd (true≢false (sym h))
          go superseded h = absurd (true≢false (sym h))
          go revoked h = shut

      unseen : get_entity id o s ≡ none
      unfolding get_entity
      unseen = ap (λ r. if_entity r o) held ∙ go (is_visible e.curation_epoch e.status o) refl
        where
          go :
              (b : Bool)
              → is_visible e.curation_epoch e.status o ≡ b
              → (if b then some e else none) ≡ none
          go false h = refl
          go true h = absurd (true≢false (sym gone ∙ is_visible-IsLive e.curation_epoch e.status h))

      unasserted : assertions_for id o s ≡ []
      unfolding assertions_for
      unasserted =
          ap (λ b. if not b then [] else keep (assertion_shown o) (list_at id s.assertions))
            shielded

      apart : (found : Option Assertion) → IsApart id (if_assertion found o s)
      apart none = tt
      apart (some a) =
          go (a.subject_identity == id) refl (subject_visible a.subject_identity o s) refl
        where
          shown :
              (b : Bool)
              → (a.subject_identity == id) ≡ false
              → IsApart id (if b then some a else none)
          shown true h = h
          shown false h = tt

          go :
              (same : Bool)
              → (a.subject_identity == id) ≡ same
              → (b : Bool) → subject_visible a.subject_identity o s ≡ b
              → IsApart id (if not b then none else if assertion_shown o a then some a else none)
          go same h false v = tt
          go false h true v = shown (assertion_shown o a) h
          go true h true v = absurd (
              true≢false (
                sym v
                ∙ ap (λ t. subject_visible t o s) ((text_beq_iff a.subject_identity id).0 h)
                ∙ shielded))

      alone : (hops : ℕ) → neighborhood id hops o s ≡ []
      unfolding neighborhood hops_from hop follow_assertions
      alone zero = refl
      alone (suc n) =
          ap
            (λ l. hops_from n o s (
              follow_assertions l o s
                (record { visited = id ∷ []; next_frontier = []; result = [] })))
            unasserted
          ∙ hops_from-still n (record { visited = id ∷ []; next_frontier = []; result = [] }) refl

      hidden : IsHidden id o s
      unfolding find_entities get_assertion neighborhood
      hidden = record {
        no_entity = unseen;
        none_listed = λ t a. keep-IsLive _ (values s.entities);
        no_assertions = unasserted;
        no_assertion = λ k. apart (lookup k s.assertions_by_id);
        no_neighbors = alone;
        none_reached = λ from hops.
            hops_from-IsLive hops
              (record { visited = from ∷ []; next_frontier = from ∷ []; result = [] }) tt;
      }

-- Once a live identity has been revoked, and in every later state that still holds it as the
-- revocation left it, a reader that does not ask for revoked records gets nothing of it:
-- `get_entity` and `assertions_for` find nothing under it, `get_assertion` returns no assertion of
-- which it is the subject, its neighborhood is empty, and neither `find_entities` nor the
-- neighborhood of any identity contains a revoked entity.
pub revoke_identity-IsHidden :
    (id : Text) (e : CanonicalEntity) (s later : GraphState) (o : GraphReadOptions)
    → lookup id s.entities ≡ some e
    → e.identity_id ≡ id
    → is_revoked e.status ≡ false
    → lookup id later.entities ≡ lookup id (apply (only revoke_identity id) [] s).1.entities
    → o.include_revoked ≡ false
    → IsHidden id o later
revoke_identity-IsHidden id e s later o held named live still shut =
    hidden o shut later id (with_status revoked e)
      (still
        ∙ ap (λ t. lookup id t.entities) (revoke_alone id e s held live)
        ∙ lookup-restatus revoked e id s named)
      refl
