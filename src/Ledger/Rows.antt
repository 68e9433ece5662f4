-- ===== src/Ledger/Rows.antt =====
-- Lemmas on the rows of the ledger: what an insertion and an update do to lookups and to the two
-- uniqueness constraints.
use agentic_kgis.Prelude.{
  true, false, ◌&&◌, ◌||◌, ◌≡◌, refl, none, some, List, [], ◌∷◌, ◌++◌, Text, ◌==◌, text_eq,
  text_beq_iff, arith, All, Bool-cases, inl, inr, subst, if◌then◌else◌,
}
use agentic_kgis.Tables.{LedgerRow, is_live}
use agentic_kgis.Ledger.{find_row, has_id, has_live_key, update_row}

-- no two rows share a candidate id: the primary key
abbrev pub DistinctIds : List LedgerRow → Type 0
DistinctIds [] = Unit
DistinctIds (r ∷ rs) = (has_id r.candidate_id rs ≡ false) × DistinctIds rs

-- no two live rows share a deduplication key: the partial index
abbrev pub DistinctKeys : List LedgerRow → Type 0
DistinctKeys [] = Unit
DistinctKeys (r ∷ rs) = ((is_live r && has_live_key r.dedup_key rs) ≡ false) × DistinctKeys rs

-- An update that keeps the id and the key of a row and revives none.
pub record IsTame (f : LedgerRow → LedgerRow) : Type 0 where
  pub keeps_id : (r : LedgerRow) → (f r).candidate_id ≡ r.candidate_id
  pub keeps_key : (r : LedgerRow) → (f r).dedup_key ≡ r.dedup_key
  pub revives_none : (r : LedgerRow) → is_live (f r) ≡ true → is_live r ≡ true

pub has_id-append :
    (x : Text) (rs : List LedgerRow) (r : LedgerRow)
    → has_id x (rs ++ r ∷ []) ≡ (has_id x rs || r.candidate_id == x)
has_id-append x [] r = ground arith
has_id-append x (s ∷ rs) r = ground (arith, has_id-append x rs r)

pub has_live_key-append :
    (k : Text) (rs : List LedgerRow) (r : LedgerRow)
    → has_live_key k (rs ++ r ∷ []) ≡ (has_live_key k rs || (r.dedup_key == k && is_live r))
has_live_key-append k [] r = ground arith
has_live_key-append k (s ∷ rs) r = ground (arith, has_live_key-append k rs r)

pub DistinctIds-append :
    (rs : List LedgerRow) (r : LedgerRow)
    → has_id r.candidate_id rs ≡ false
    → DistinctIds rs
    → DistinctIds (rs ++ r ∷ [])
DistinctIds-append [] r fresh d = (refl, tt)
DistinctIds-append (s ∷ rs) r fresh d = ground (
  arith,
  DistinctIds-append rs r,
  has_id-append s.candidate_id rs r,
  text_beq_iff r.candidate_id s.candidate_id,
  text_beq_iff s.candidate_id r.candidate_id,
)

pub DistinctKeys-append :
    (rs : List LedgerRow) (r : LedgerRow)
    → (is_live r && has_live_key r.dedup_key rs) ≡ false
    → DistinctKeys rs
    → DistinctKeys (rs ++ r ∷ [])
DistinctKeys-append [] r fresh d = ground arith
DistinctKeys-append (s ∷ rs) r fresh d = ground (
  arith,
  DistinctKeys-append rs r,
  has_live_key-append s.dedup_key rs r,
  text_beq_iff r.dedup_key s.dedup_key,
  text_beq_iff s.dedup_key r.dedup_key,
)

module _ (id : Text) (f : LedgerRow → LedgerRow) (tame : IsTame f) where
  pub has_id-update : (x : Text) (rs : List LedgerRow) → has_id x (update_row id f rs) ≡ has_id x rs
  has_id-update x [] = refl
  has_id-update x (r ∷ rs) = ground (arith, has_id-update x rs, tame.keeps_id r)

  pub has_live_key-update :
      (k : Text) (rs : List LedgerRow)
      → has_live_key k rs ≡ false
      → has_live_key k (update_row id f rs) ≡ false
  has_live_key-update k [] h = refl
  has_live_key-update k (r ∷ rs) h =
      ground (arith, has_live_key-update k rs, tame.keeps_key r, tame.revives_none r)

  pub DistinctIds-update : (rs : List LedgerRow) → DistinctIds rs → DistinctIds (update_row id f rs)
  DistinctIds-update [] d = tt
  DistinctIds-update (r ∷ rs) d =
      ground (arith, DistinctIds-update rs, tame.keeps_id r, has_id-update r.candidate_id rs)

  pub DistinctKeys-update :
      (rs : List LedgerRow) → DistinctKeys rs → DistinctKeys (update_row id f rs)
  DistinctKeys-update [] d = tt
  DistinctKeys-update (r ∷ rs) d = ground (
    arith,
    DistinctKeys-update rs,
    tame.keeps_key r,
    tame.revives_none r,
    has_live_key-update r.dedup_key rs,
  )

  -- an updated row is found under its id, and the others as before
  pub find_row-update :
      (x : Text) (rs : List LedgerRow) {r : LedgerRow}
      → find_row x rs ≡ some r
      → find_row x (update_row id f rs) ≡ some (if x == id then f r else r)
  find_row-update x [] h = cc
  find_row-update x (s ∷ rs) {r} h = ground (
    arith,
    find_row-update x rs {r = r},
    tame.keeps_id s,
    text_beq_iff s.candidate_id id,
    text_beq_iff s.candidate_id x,
    text_beq_iff x id,
  )

-- a row is found exactly if there is one
pub has_id-find_row : (x : Text) (rs : List LedgerRow) → find_row x rs ≡ none → has_id x rs ≡ false
has_id-find_row x [] h = refl
has_id-find_row x (r ∷ rs) h = ground (arith, has_id-find_row x rs)

pub find_row-candidate_id :
    (x : Text) (rs : List LedgerRow) {r : LedgerRow} → find_row x rs ≡ some r → r.candidate_id ≡ x
find_row-candidate_id x [] h = cc
find_row-candidate_id x (s ∷ rs) {r} h =
    ground (arith, find_row-candidate_id x rs {r = r}, text_beq_iff s.candidate_id x)

pub All-find_row {κ} :
    (P : LedgerRow → Type κ) (x : Text) (rs : List LedgerRow) {r : LedgerRow}
    → All P rs
    → find_row x rs ≡ some r
    → P r
All-find_row P x [] a h = cc
All-find_row P x (s ∷ rs) {r} a h = elim (Bool-cases (s.candidate_id == x)) [
  | inl here ↦ (let e : s ≡ r = ground arith in subst P e a.0)
  | inr there ↦ All-find_row P x rs a.1 (ground arith)
]

pub find_row-has_id :
    (x : Text) (rs : List LedgerRow) {r : LedgerRow} → find_row x rs ≡ some r → has_id x rs ≡ true
find_row-has_id x [] h = cc
find_row-has_id x (s ∷ rs) {r} h = ground (arith, find_row-has_id x rs {r = r})
