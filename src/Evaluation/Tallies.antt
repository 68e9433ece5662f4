-- ===== src/Evaluation/Tallies.antt =====
-- The counts of a comparison with the gold set: src/kg_eval/matching.py.
use agentic_kgis.Prelude.{
  ℕ, zero, suc, ◌+◌, ◌≤◌, ◌<◌, Bool, true, false, is_some, or_false, All, subst, ◌≡◌, refl, sym, ap,
  ◌∙◌, arith, Option, none, some, List, [], ◌∷◌, ◌++◌, nat_beq, any, length, length-append,
  if◌then◌else◌,
}
use mathlib.Core.Bool.{true≢false}
use mathlib.Core.Option.{some-injective}
use agentic_kgis.Evaluation.{
  MatchKey, key_beq, gold_index, mark, Matching, miss, hit, match_at, match_keys, no_hits,
  start_match, match,
}

abbrev pub total : List ℕ → ℕ
total [] = 0
total (x ∷ xs) = x + total xs

-- the hit at an index, and one behind the end
abbrev hit_at : List ℕ → ℕ → ℕ
hit_at [] i = 1
hit_at (h ∷ hs) zero = h
hit_at (h ∷ hs) (suc i) = hit_at hs i

total-append : (xs : List ℕ) (y : ℕ) → total (xs ++ y ∷ []) ≡ total xs + y
total-append [] y = omega arith
total-append (x ∷ xs) y = omega (arith, total-append xs y)

mark_lem :
    (i : ℕ) (hs : List ℕ)
    → hit_at hs i ≡ 0
    → (total (mark i hs) ≡ suc (total hs)) × (length (mark i hs) ≡ length hs)
unfolding mark
mark_lem i [] e = absurd (omega (arith, e))
mark_lem zero (h ∷ hs) e = (omega (arith, e), refl)
mark_lem (suc i) (h ∷ hs) e = let rest = mark_lem i hs e in (omega (arith, rest.0), ap suc rest.1)

mark-hit_at : (i j : ℕ) (hs : List ℕ) → nat_beq j i ≡ false → hit_at (mark i hs) j ≡ hit_at hs j
unfolding mark
mark-hit_at i j [] e = refl
mark-hit_at zero zero (h ∷ hs) e = absurd (ground (arith, e))
mark-hit_at zero (suc j) (h ∷ hs) e = refl
mark-hit_at (suc i) zero (h ∷ hs) e = refl
mark-hit_at (suc i) (suc j) (h ∷ hs) e = mark-hit_at i j hs (ground (arith, e))

-- an index that is found lies within the keys
pub gold_index-within :
    (start : ℕ) (gold : List MatchKey) (key : MatchKey) (i : ℕ)
    → gold_index start gold key ≡ some i
    → (start ≤ i) × (i < start + length gold)
unfolding gold_index
gold_index-within start [] key i e = absurd (true≢false (sym (ap is_some e)))
gold_index-within start (g ∷ gs) key i e =
    go (key_beq g key) e (λ k. gold_index-within (suc start) gs key i k)
  where
    go :
        (b : Bool)
        → (if b then some start else gold_index (suc start) gs key) ≡ some i
        → (gold_index (suc start) gs key ≡ some i → (suc start ≤ i) × (i < suc start + length gs))
        → (start ≤ i) × (i < start + suc (length gs))
    go true e rest =
        let same = some-injective start i e in (omega (arith, same), omega (arith, same))
    go false e rest = let later = rest e in (omega (arith, later.0), omega (arith, later.1))

-- hits are zero or one
abbrev Small : List ℕ → Type 0
Small hs = All (λ h. h ≤ 1) hs

mark-Small : (i : ℕ) (hs : List ℕ) → Small hs → Small (mark i hs)
unfolding mark
mark-Small i [] h = tt
mark-Small zero (x ∷ hs) h = (omega arith, h.1)
mark-Small (suc i) (x ∷ hs) h = (h.0, mark-Small i hs h.1)

total-Small : (hs : List ℕ) → Small hs → total hs ≤ length hs
total-Small [] h = omega arith
total-Small (x ∷ hs) h = omega (arith, h.0, total-Small hs h.1)

abbrev claimed : List ℕ → ℕ → Bool
claimed consumed j = any (λ c. nat_beq j c) consumed

-- What the loop keeps: as many hits on both sides as gold items are consumed, and none on an item
-- that is not.
record IsTallied (gold : List MatchKey) (seen : ℕ) (m : Matching) : Type 0 where
  pub golden : total m.gold_hits ≡ length m.consumed
  pub produced : total m.candidate_hits ≡ length m.consumed
  pub width : length m.gold_hits ≡ length gold
  pub height : length m.candidate_hits ≡ seen
  pub small : Small m.gold_hits
  pub below : length m.consumed ≤ seen
  pub open_items :
      (j : ℕ) → j < length gold → claimed m.consumed j ≡ false → hit_at m.gold_hits j ≡ 0

miss-IsTallied :
    (gold : List MatchKey) (seen : ℕ) (m : Matching)
    → IsTallied gold seen m
    → IsTallied gold (suc seen) (miss m)
miss-IsTallied gold seen m h = record {
  golden = h.golden;
  produced = omega (arith, total-append m.candidate_hits 0, h.produced);
  width = h.width;
  height = omega (arith, length-append m.candidate_hits (0 ∷ []), h.height);
  small = h.small;
  below = omega (arith, h.below);
  open_items = h.open_items;
}

hit-IsTallied :
    (gold : List MatchKey) (seen i : ℕ) (m : Matching)
    → i < length gold
    → claimed m.consumed i ≡ false
    → IsTallied gold seen m
    → IsTallied gold (suc seen) (hit i m)
hit-IsTallied gold seen i m l free h =
    let marked = mark_lem i m.gold_hits (h.open_items i l free) in
    record {
      golden = omega (arith, marked.0, h.golden);
      produced = omega (arith, total-append m.candidate_hits 1, h.produced);
      width = omega (arith, marked.1, h.width);
      height = omega (arith, length-append m.candidate_hits (1 ∷ []), h.height);
      small = mark-Small i m.gold_hits h.small;
      below = omega (arith, h.below);
      open_items = λ j k e.
          let apart = or_false (nat_beq j i) (claimed m.consumed j) e in
          mark-hit_at i j m.gold_hits apart.0 ∙ h.open_items j k apart.1;
    }

match_at-IsTallied :
    (gold : List MatchKey) (seen : ℕ) (m : Matching) (o : Option ℕ)
    → (key : MatchKey) → gold_index 0 gold key ≡ o
    → IsTallied gold seen m
    → IsTallied gold (suc seen) (match_at o m)
match_at-IsTallied gold seen m none key e h = miss-IsTallied gold seen m h
match_at-IsTallied gold seen m (some i) key e h = go (claimed m.consumed i) refl
  where
    go :
        (b : Bool)
        → claimed m.consumed i ≡ b
        → IsTallied gold (suc seen) (if b then miss m else hit i m)
    go true c = miss-IsTallied gold seen m h
    go false c =
        hit-IsTallied gold seen i m (omega (arith, (gold_index-within 0 gold key i e).1)) c h

match_keys-IsTallied :
    (gold : List MatchKey) (keys : List MatchKey) (seen : ℕ) (m : Matching)
    → IsTallied gold seen m
    → IsTallied gold (seen + length keys) (match_keys gold keys m)
unfolding match_keys
match_keys-IsTallied gold [] seen m h =
    let same : seen ≡ seen + 0 = omega arith in subst (λ n. IsTallied gold n m) same h
match_keys-IsTallied gold (key ∷ keys) seen m h =
    let same : suc seen + length keys ≡ seen + suc (length keys) = omega arith in
    subst (λ n. IsTallied gold n (match_keys gold keys (match_at (gold_index 0 gold key) m))) same
      (match_keys-IsTallied gold keys (suc seen) (match_at (gold_index 0 gold key) m)
        (match_at-IsTallied gold seen m (gold_index 0 gold key) key refl h))

start_lem :
    (gold : List MatchKey)
    → (total (no_hits gold) ≡ 0)
      × ((length (no_hits gold) ≡ length gold)
          × (Small (no_hits gold) × ((j : ℕ) → j < length gold → hit_at (no_hits gold) j ≡ 0)))
start_lem [] = (refl, (refl, (tt, λ j l. absurd (omega (arith, l)))))
start_lem (g ∷ gs) =
    let (a, (b, (c, d))) = start_lem gs in (omega (arith, a), (ap suc b, ((omega arith, c), at d)))
  where
    at :
        ((j : ℕ) → j < length gs → hit_at (no_hits gs) j ≡ 0)
        → (j : ℕ) → j < suc (length gs)
        → hit_at (0 ∷ no_hits gs) j ≡ 0
    at d zero l = refl
    at d (suc j) l = d j (omega (arith, l))

-- The counts of a comparison: the true positives are the hits on the gold side and the hits on the
-- candidates' side; with the false negatives they make up the gold items, with the false positives
-- the candidates; and there is one signal for each gold item and for each candidate.
pub match-tp :
    (gold candidates : List MatchKey)
    → (let m = match gold candidates in
        ((m.tp ≡ total m.gold_hits) × (m.tp ≡ total m.candidate_hits))
        × (((m.tp + m.fn ≡ length gold) × (m.tp + m.fp ≡ length candidates))
            × ((length m.gold_hits ≡ length gold) × (length m.candidate_hits ≡ length candidates))))
unfolding match
match-tp gold candidates =
    let (a, (b, (c, d))) = start_lem gold in
    let h = match_keys-IsTallied gold candidates 0 (start_match gold) (record {
      golden = a;
      produced = refl;
      width = b;
      height = refl;
      small = c;
      below = omega arith;
      open_items = λ j l e. d j l;
    }) in
    let all_hits = total-Small _ h.small in
    (
      (sym h.golden, sym h.produced),
      (
        (omega (arith, all_hits, h.golden, h.width), omega (arith, h.below)),
        (h.width, omega (arith, h.height)),
      ),
    )
