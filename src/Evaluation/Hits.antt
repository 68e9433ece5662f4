-- ===== src/Evaluation/Hits.antt =====
-- The per-item signals of a comparison in src/kg_eval/matching.py, against their description.
use agentic_kgis.Prelude.{
  ℕ, suc, ◌-◌, ◌<◌, Bool, true, false, not, ◌&&◌, ◌||◌, ◌≡◌, refl, sym, ap, ◌∙◌, ◌↔◌, arith, Option,
  none, some, List, [], ◌∷◌, text_eq, text_beq_iff, nat_beq, nat_beq_iff, any, map, is_some,
  and_true, or_right, or_false, if◌then◌else◌,
}
use mathlib.Core.Bool.{true≢false}
use mathlib.Core.Option.{some-injective}
use agentic_kgis.Evaluation.Tallies.{gold_index-within}
use agentic_kgis.Evaluation.Gold.{has_key, unique_keys}
use agentic_kgis.Evaluation.{MatchKey, key_beq, gold_index, mark, Matching, miss, hit, match_at}

pub key_beq_iff : (a b : MatchKey) → (key_beq a b ≡ true) ↔ (a ≡ b)
unfolding key_beq
key_beq_iff [] [] = ground arith
key_beq_iff [] (y ∷ b) = ground arith
key_beq_iff (x ∷ a) [] = ground arith
key_beq_iff (x ∷ a) (y ∷ b) = ground (arith, key_beq_iff a b, text_beq_iff x y)

abbrev pub bit : Bool → ℕ
bit b = if b then 1 else 0

-- one for each gold item whose key is among the keys
abbrev pub found_in : List MatchKey → List MatchKey → List ℕ
found_in keys gold = map (λ g. bit (has_key g keys)) gold

-- one for each candidate that is the first of its key, and whose key is gold
abbrev pub first_hits : List MatchKey → List MatchKey → List MatchKey → List ℕ
first_hits gold seen [] = []
first_hits gold seen (key ∷ keys) =
    bit (has_key key gold && not (has_key key seen)) ∷ first_hits gold (key ∷ seen) keys

or_cong : (a b c d : Bool) → a ≡ c → b ≡ d → a || b ≡ c || d
or_cong a b c d e f = ap (λ x. x || b) e ∙ ap (λ x. c || x) f

key_beq_refl : (k : MatchKey) → key_beq k k ≡ true
key_beq_refl k = (key_beq_iff k k).1 refl

key_beq_sym : (a b : MatchKey) → key_beq a b ≡ key_beq b a
key_beq_sym a b = ground (arith, key_beq_iff a b, key_beq_iff b a)

-- A key that is found has the index of no other key, and of itself.
index_lem :
    (start : ℕ) (gold : List MatchKey) (a b : MatchKey) (i j : ℕ)
    → gold_index start gold a ≡ some i
    → gold_index start gold b ≡ some j
    → nat_beq i j ≡ key_beq a b
unfolding gold_index
index_lem start [] a b i j e f = absurd (true≢false (sym (ap is_some e)))
index_lem start (g ∷ gs) a b i j e f =
    go (key_beq g a) refl (key_beq g b) refl e f (λ h k. index_lem (suc start) gs a b i j h k)
  where
    apart : (m n : ℕ) → m < n → (nat_beq m n ≡ false) × (nat_beq n m ≡ false)
    apart m n h = (ground (arith, h), ground (arith, h))

    go :
        (x : Bool)
        → key_beq g a ≡ x
        → (y : Bool) → key_beq g b ≡ y
        → (if x then some start else gold_index (suc start) gs a) ≡ some i
        → (if y then some start else gold_index (suc start) gs b) ≡ some j
        → (gold_index (suc start) gs a ≡ some i
            → gold_index (suc start) gs b ≡ some j
            → nat_beq i j ≡ key_beq a b)
        → nat_beq i j ≡ key_beq a b
    go true x true y e f rest =
        let same = sym (some-injective start i e) ∙ some-injective start j f in
        let keys = sym ((key_beq_iff g a).0 x) ∙ (key_beq_iff g b).0 y in
        (nat_beq_iff i j).1 same ∙ sym ((key_beq_iff a b).1 keys)
    go true x false y e f rest =
        let later = (gold_index-within (suc start) gs b j f).0 in
        (apart i j (omega (arith, sym (some-injective start i e), later))).0
        ∙ sym (ap (λ k. key_beq k b) (sym ((key_beq_iff g a).0 x)) ∙ y)
    go false x true y e f rest =
        let later = (gold_index-within (suc start) gs a i e).0 in
        (apart j i (omega (arith, sym (some-injective start j f), later))).1
        ∙ sym (key_beq_sym a b ∙ ap (λ k. key_beq k a) (sym ((key_beq_iff g b).0 y)) ∙ x)
    go false x false y e f rest = rest e f

pub has_key-index :
    (start : ℕ) (gold : List MatchKey) (key : MatchKey)
    → has_key key gold ≡ is_some (gold_index start gold key)
unfolding gold_index
has_key-index start [] key = refl
has_key-index start (g ∷ gs) key =
    go (key_beq g key) (key_beq_sym key g) (has_key-index (suc start) gs key)
  where
    go :
        (b : Bool)
        → key_beq key g ≡ b
        → has_key key gs ≡ is_some (gold_index (suc start) gs key)
        → key_beq key g || has_key key gs
          ≡ is_some (if b then some start else gold_index (suc start) gs key)
    go true e rest = ap (λ b. b || has_key key gs) e
    go false e rest = ap (λ b. b || has_key key gs) e ∙ rest

-- signals of tests that agree on every item
pub hits_cong :
    (P Q : MatchKey → Bool) (gold : List MatchKey)
    → ((g : MatchKey) → P g ≡ Q g)
    → map (λ g. bit (P g)) gold ≡ map (λ g. bit (Q g)) gold
hits_cong P Q [] h = refl
hits_cong P Q (g ∷ gs) h =
    ap (λ b. bit b ∷ map (λ g. bit (P g)) gs) (h g) ∙ ap (λ l. bit (Q g) ∷ l) (hits_cong P Q gs h)

-- a key that no item has changes no signal
pub found_in-absent :
    (key : MatchKey) (keys gold : List MatchKey)
    → has_key key gold ≡ false
    → found_in (key ∷ keys) gold ≡ found_in keys gold
found_in-absent key keys [] e = refl
found_in-absent key keys (g ∷ gs) e =
    let parts = or_false (key_beq key g) (has_key key gs) e in
    ap (λ b. bit (b || has_key g keys) ∷ found_in (key ∷ keys) gs) (key_beq_sym g key ∙ parts.0)
    ∙ ap (λ l. bit (has_key g keys) ∷ l) (found_in-absent key keys gs parts.1)

-- in a gold set without repeats, no item comes again
unique_keys-fresh :
    (seen gold : List MatchKey) (key : MatchKey)
    → unique_keys seen gold ≡ true
    → has_key key seen ≡ true
    → has_key key gold ≡ false
unfolding unique_keys
unique_keys-fresh seen [] key u h = refl
unique_keys-fresh seen (g ∷ gs) key u h =
    let parts = and_true (not (has_key g seen)) (unique_keys (g ∷ seen) gs) u in
    ap (λ b. b || has_key key gs) (other (key_beq key g) refl parts.0)
    ∙ unique_keys-fresh (g ∷ seen) gs key parts.1 (or_right (key_beq key g) (has_key key seen) h)
  where
    other : (b : Bool) → key_beq key g ≡ b → not (has_key g seen) ≡ true → key_beq key g ≡ false
    other true e n =
        let same = ap (λ k. has_key k seen) (sym ((key_beq_iff key g).0 e)) ∙ h in
        absurd (true≢false (sym n ∙ ap not same))
    other false e n = e

-- in a gold set without repeats, marking the index of a key adds the key
pub mark-found_in :
    (start k : ℕ) (seen gold : List MatchKey) (key : MatchKey) (keys : List MatchKey)
    → unique_keys seen gold ≡ true
    → gold_index start gold key ≡ some k
    → mark (k - start) (found_in keys gold) ≡ found_in (key ∷ keys) gold
unfolding gold_index mark unique_keys
mark-found_in start k seen [] key keys u e = absurd (true≢false (sym (ap is_some e)))
mark-found_in start k seen (g ∷ gs) key keys u e =
    let rest = and_true (not (has_key g seen)) (unique_keys (g ∷ seen) gs) u in
    go (key_beq g key) refl e rest.1 (mark-found_in (suc start) k (g ∷ seen) gs key keys rest.1)
  where
    go :
        (b : Bool)
        → key_beq g key ≡ b
        → (if b then some start else gold_index (suc start) gs key) ≡ some k
        → unique_keys (g ∷ seen) gs ≡ true
        → (gold_index (suc start) gs key ≡ some k
            → mark (k - suc start) (found_in keys gs) ≡ found_in (key ∷ keys) gs)
        → mark (k - start) (bit (has_key g keys) ∷ found_in keys gs)
          ≡ bit (key_beq g key || has_key g keys) ∷ found_in (key ∷ keys) gs
    go true x e u rest =
        let first : k - start ≡ 0 = omega (arith, some-injective start k e) in
        let alone =
          unique_keys-fresh (g ∷ seen) gs key u
            (ap (λ b. b || has_key key seen) (key_beq_sym key g ∙ x)) in
        ap (λ n. mark n (bit (has_key g keys) ∷ found_in keys gs)) first
        ∙ ap (λ b. bit (b || has_key g keys) ∷ found_in keys gs) (sym x)
        ∙ ap (λ l. bit (key_beq g key || has_key g keys) ∷ l)
            (sym (found_in-absent key keys gs alone))
    go false x e u rest =
        let later = (gold_index-within (suc start) gs key k e).0 in
        let next : k - start ≡ suc (k - suc start) = omega (arith, later) in
        ap (λ n. mark n (bit (has_key g keys) ∷ found_in keys gs)) next
        ∙ ap (λ b. bit (b || has_key g keys) ∷ mark (k - suc start) (found_in keys gs)) (sym x)
        ∙ ap (λ l. bit (key_beq g key || has_key g keys) ∷ l) (rest e)

-- What the loop knows of the keys that it has seen: the indices of those that are gold are consumed.
pub record IsConsumed (gold seen : List MatchKey) (m : Matching) : Type 0 where
  pub at_index :
      (key : MatchKey) (i : ℕ)
      → gold_index 0 gold key ≡ some i
      → any (λ c. nat_beq i c) m.consumed ≡ has_key key seen

-- another key, of which one index is known
pub seen_more :
    (gold seen : List MatchKey) (m : Matching) (key : MatchKey) (o : Option ℕ)
    → gold_index 0 gold key ≡ o
    → IsConsumed gold seen m
    → IsConsumed gold (key ∷ seen) (match_at o m)
seen_more gold seen m key none e h = record {
  at_index = λ k i f.
      h.at_index k i f ∙ ap (λ b. b || has_key k seen) (sym (differ k i f (key_beq k key) refl));
}
  where
    differ :
        (k : MatchKey) (i : ℕ)
        → gold_index 0 gold k ≡ some i
        → (b : Bool) → key_beq k key ≡ b
        → key_beq k key ≡ false
    differ k i f true x = absurd (
        true≢false (
          sym (ap is_some (ap (gold_index 0 gold) (sym ((key_beq_iff k key).0 x)) ∙ f))
          ∙ ap is_some e))
    differ k i f false x = x
seen_more gold seen m key (some j) e h = go (any (λ c. nat_beq j c) m.consumed) refl
  where
    absorbed : (b c : Bool) → (b ≡ true → c ≡ true) → c ≡ b || c
    absorbed true c i = i refl
    absorbed false c i = refl

    go :
        (b : Bool)
        → any (λ c. nat_beq j c) m.consumed ≡ b
        → IsConsumed gold (key ∷ seen) (if b then miss m else hit j m)
    go true c = record {
      at_index = λ k i f.
          h.at_index k i f
          ∙ absorbed (key_beq k key) (has_key k seen) (λ x.
            ap (λ k. has_key k seen) ((key_beq_iff k key).0 x) ∙ sym (h.at_index key j e) ∙ c);
    }
    go false c = record {
      at_index = λ k i f. or_cong _ _ _ _ (index_lem 0 gold k key i j f e) (h.at_index k i f);
    }
