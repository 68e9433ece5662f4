-- ===== src/Evaluation/Signals.antt =====
-- What the signals of a comparison in src/kg_eval/matching.py stand for.
use agentic_kgis.Prelude.{
  ℕ, ◌-◌, Bool, true, false, not, ◌&&◌, ◌||◌, ◌≡◌, refl, sym, ap, ◌∙◌, arith, Option, none, some,
  List, [], ◌∷◌, ◌++◌, nat_beq, any, map, is_some, and_true, if◌then◌else◌,
}
use mathlib.Core.List.{append_assoc, append-nil}
use agentic_kgis.Candidates.{Candidate}
use agentic_kgis.Evaluation.Gold.{
  has_key, unique_keys, GoldSet, Category, entity_items, relation_items, attribute_items, gold_keys,
  accepted_gold, candidate_key, of_category, match_category,
}
use agentic_kgis.Evaluation.Hits.{
  key_beq_iff, bit, found_in, first_hits, hits_cong, found_in-absent, has_key-index, mark-found_in,
  IsConsumed, seen_more,
}
use agentic_kgis.Evaluation.{
  MatchKey, key_beq, gold_index, mark, Matching, miss, hit, match_at, match_keys, start_match,
  match,
}

start_match-IsConsumed : (gold : List MatchKey) → IsConsumed gold [] (start_match gold)
start_match-IsConsumed gold = record { at_index = λ key i e. refl }

-- a key that was seen changes no signal
found_in-seen :
    (key : MatchKey) (keys gold : List MatchKey)
    → has_key key keys ≡ true
    → found_in (key ∷ keys) gold ≡ found_in keys gold
found_in-seen key keys gold e =
    hits_cong (λ g. key_beq g key || has_key g keys) (λ g. has_key g keys) gold
      (λ g. same g (key_beq g key) refl)
  where
    same : (g : MatchKey) (b : Bool) → key_beq g key ≡ b → b || has_key g keys ≡ has_key g keys
    same g true x = sym (ap (λ k. has_key k keys) ((key_beq_iff g key).0 x) ∙ e)
    same g false x = refl

match_at-found_in :
    (gold seen : List MatchKey) (m : Matching) (key : MatchKey) (o : Option ℕ)
    → unique_keys [] gold ≡ true
    → gold_index 0 gold key ≡ o
    → IsConsumed gold seen m
    → m.gold_hits ≡ found_in seen gold
    → (match_at o m).gold_hits ≡ found_in (key ∷ seen) gold
match_at-found_in gold seen m key none u e c h =
    h ∙ sym (found_in-absent key seen gold (has_key-index 0 gold key ∙ ap is_some e))
match_at-found_in gold seen m key (some j) u e c h = go (any (λ k. nat_beq j k) m.consumed) refl
  where
    go :
        (b : Bool)
        → any (λ k. nat_beq j k) m.consumed ≡ b
        → (if b then miss m else hit j m).gold_hits ≡ found_in (key ∷ seen) gold
    go true x = h ∙ sym (found_in-seen key seen gold (sym (c.at_index key j e) ∙ x))
    go false x =
        let whole : j ≡ j - 0 = omega arith in
        ap (mark j) h
        ∙ ap (λ n. mark n (found_in seen gold)) whole
        ∙ mark-found_in 0 j [] gold key seen u e

match_keys-found_in :
    (gold keys seen : List MatchKey) (m : Matching)
    → unique_keys [] gold ≡ true
    → IsConsumed gold seen m
    → m.gold_hits ≡ found_in seen gold
    → (match_keys gold keys m).gold_hits ≡ map (λ g. bit (has_key g keys || has_key g seen)) gold
unfolding match_keys
match_keys-found_in gold [] seen m u c h = h
match_keys-found_in gold (key ∷ keys) seen m u c h =
    match_keys-found_in gold keys (key ∷ seen) (match_at (gold_index 0 gold key) m) u
      (seen_more gold seen m key (gold_index 0 gold key) refl c)
      (match_at-found_in gold seen m key (gold_index 0 gold key) u refl c h)
    ∙ hits_cong _ _ gold (λ g. swap (has_key g keys) (key_beq g key) (has_key g seen))
  where
    swap : (a b c : Bool) → a || (b || c) ≡ (b || a) || c
    swap a b c = ground arith

-- In a gold set that repeats no key, the signal of an item is one when some candidate has its key,
-- and zero when none has.
match-found_in :
    (gold candidates : List MatchKey)
    → unique_keys [] gold ≡ true
    → (match gold candidates).gold_hits ≡ found_in candidates gold
unfolding match
match-found_in gold candidates u =
    match_keys-found_in gold candidates [] (start_match gold) u (start_match-IsConsumed gold) refl
    ∙ hits_cong _ _ gold (λ g. last (has_key g candidates))
  where
    last : (a : Bool) → a || false ≡ a
    last a = ground arith

match_at-first_hits :
    (gold seen : List MatchKey) (m : Matching) (key : MatchKey) (o : Option ℕ)
    → gold_index 0 gold key ≡ o
    → IsConsumed gold seen m
    → (match_at o m).candidate_hits
      ≡ m.candidate_hits ++ bit (has_key key gold && not (has_key key seen)) ∷ []
match_at-first_hits gold seen m key none e c =
    ap (λ b. m.candidate_hits ++ bit (b && not (has_key key seen)) ∷ [])
      (sym (has_key-index 0 gold key ∙ ap is_some e))
match_at-first_hits gold seen m key (some j) e c =
    go (any (λ k. nat_beq j k) m.consumed) (c.at_index key j e)
    ∙ ap (λ b. m.candidate_hits ++ bit (b && not (has_key key seen)) ∷ [])
        (sym (has_key-index 0 gold key ∙ ap is_some e))
  where
    go :
        (b : Bool)
        → b ≡ has_key key seen
        → (if b then miss m else hit j m).candidate_hits
          ≡ m.candidate_hits ++ bit (not (has_key key seen)) ∷ []
    go true x = ap (λ b. m.candidate_hits ++ bit (not b) ∷ []) x
    go false x = ap (λ b. m.candidate_hits ++ bit (not b) ∷ []) x

match_keys-first_hits :
    (gold keys seen : List MatchKey) (m : Matching)
    → IsConsumed gold seen m
    → (match_keys gold keys m).candidate_hits ≡ m.candidate_hits ++ first_hits gold seen keys
unfolding match_keys
match_keys-first_hits gold [] seen m c = sym (append-nil m.candidate_hits)
match_keys-first_hits gold (key ∷ keys) seen m c =
    match_keys-first_hits gold keys (key ∷ seen) (match_at (gold_index 0 gold key) m)
      (seen_more gold seen m key (gold_index 0 gold key) refl c)
    ∙ ap (λ l. l ++ first_hits gold (key ∷ seen) keys)
        (match_at-first_hits gold seen m key (gold_index 0 gold key) refl c)
    ∙ append_assoc m.candidate_hits _ _

-- The signal of a candidate is one when its key is gold and no candidate before it has the same
-- key, and zero otherwise: a repeat of a right candidate is a miss.
match-first_hits :
    (gold candidates : List MatchKey)
    → (match gold candidates).candidate_hits ≡ first_hits gold [] candidates
unfolding match
match-first_hits gold candidates =
    match_keys-first_hits gold candidates [] (start_match gold) (start_match-IsConsumed gold)

accepted_gold_unique :
    (category : Category) (gold : GoldSet)
    → accepted_gold gold ≡ true
    → unique_keys [] (gold_keys category gold) ≡ true
unfolding accepted_gold
accepted_gold_unique entity_items gold h = (and_true _ _ h).0
accepted_gold_unique relation_items gold h = (and_true _ _ (and_true _ _ h).1).0
accepted_gold_unique attribute_items gold h = (and_true _ _ (and_true _ _ h).1).1

-- For an accepted gold set and each category: the signal of a gold item is one when a candidate of
-- the category has its key, and zero when none has; the signal of a candidate is one when its key
-- is that of a gold item and no candidate of the category before it has the same key, and zero
-- otherwise.
pub match_category-found_in :
    (category : Category) (cs : List Candidate) (gold : GoldSet)
    → accepted_gold gold ≡ true
    → (let produced = map candidate_key (of_category category cs) in
        let m = match_category category cs gold in
        (m.gold_hits ≡ found_in produced (gold_keys category gold))
        × (m.candidate_hits ≡ first_hits (gold_keys category gold) [] produced))
unfolding match_category
match_category-found_in category cs gold h =
    let keys = gold_keys category gold in
    let produced = map candidate_key (of_category category cs) in
    (
      match-found_in keys produced (accepted_gold_unique category gold h),
      match-first_hits keys produced,
    )
