-- ===== src/Catalog/Versions.antt =====
-- What registering a graph does to the readers of src/kgis/registry/store.py.
use agentic_kgis.Prelude.{
  ℕ, ◌<◌, Bool, true, false, ◌&&◌, ◌||◌, ◌≡◌, refl, sym, ap, ◌∙◌, arith, Option, none, some, List,
  [], ◌∷◌, ◌++◌, Text, ◌==◌, text_eq, nat_beq, nat_beq_iff, text_beq_iff, ltb, leb, any, first,
  first-append, first-any, or_else, or_else-none, and_true, Dict, if◌then◌else◌,
}
use mathlib.Core.Bool.{true≢false}
use mathlib.Core.List.{append-nil}
use agentic_kgis.Advisor.{GraphDescriptor}
use agentic_kgis.Catalog.{
  VersionRow, CatalogTables, larger, later, max_version, or_zero, rows_named, next_version, merged,
  version_row, is_version, insert_version, register_rows, latest, descriptor_of, get,
  latest_version, get_version,
}

larger-bounds : (a n : ℕ) (m : Option ℕ) → or_zero (larger a m) < n → (a < n) × (or_zero m < n)
larger-bounds a n none h = (h, omega (arith, h))
larger-bounds a n (some v) h = go (ltb v a) refl h
  where
    go : (b : Bool) → ltb v a ≡ b → (if b then a else v) < n → (a < n) × (v < n)
    go true e k = (k, ground (arith, e, k))
    go false e k = (ground (arith, e, k), k)

-- a version above the others of its name
max_version-above :
    (rs : List VersionRow) (x : VersionRow)
    → or_zero (max_version rs) < x.version
    → (max_version (rs ++ x ∷ []) ≡ some x.version) × (latest (rs ++ x ∷ []) ≡ some x)
unfolding max_version latest
max_version-above [] x h = (refl, refl)
max_version-above (r ∷ rs) x h =
    let below = larger-bounds r.version x.version (max_version rs) h in
    let rest = max_version-above rs x below.1 in
    (
      ap (larger r.version) rest.0 ∙ number (ltb x.version r.version) refl below.0,
      ap (later r) rest.1 ∙ row (leb r.version x.version) refl below.0,
    )
  where
    number :
        (b : Bool)
        → ltb x.version r.version ≡ b
        → r.version < x.version
        → some (if b then r.version else x.version) ≡ some x.version
    number true e h = absurd (ground (arith, e, h))
    number false e h = refl

    row :
        (b : Bool)
        → leb r.version x.version ≡ b
        → r.version < x.version
        → some (if b then x else r) ≡ some x
    row true e h = refl
    row false e h = absurd (ground (arith, e, h))

-- no row has the name and a version above the others
fresh :
    (name : Text) (n : ℕ) (rs : List VersionRow)
    → or_zero (max_version (rows_named name rs)) < n
    → any (is_version name n) rs ≡ false
unfolding rows_named max_version
fresh name n [] h = refl
fresh name n (r ∷ rs) h = go (r.name == name) h (λ k. fresh name n rs k)
  where
    apart : (a b : ℕ) → a < b → nat_beq a b ≡ false
    apart a b h = ground (arith, h)

    go :
        (b : Bool)
        → or_zero (max_version (if b then r ∷ rows_named name rs else rows_named name rs)) < n
        → (or_zero (max_version (rows_named name rs)) < n → any (is_version name n) rs ≡ false)
        → b && nat_beq r.version n || any (is_version name n) rs ≡ false
    go false h rest = rest h
    go true h rest =
        let below = larger-bounds r.version n (max_version (rows_named name rs)) h in
        ap (λ b. b || any (is_version name n) rs) (apart r.version n below.0) ∙ rest below.1

rows_named-append :
    (name : Text) (rs : List VersionRow) (x : VersionRow)
    → rows_named name (rs ++ x ∷ []) ≡ rows_named name rs ++ (if x.name == name then x ∷ [] else [])
unfolding rows_named
rows_named-append name [] x = refl
rows_named-append name (r ∷ rs) x = go (r.name == name) (rows_named-append name rs x)
  where
    go :
        (b : Bool)
        → rows_named name (rs ++ x ∷ [])
          ≡ rows_named name rs ++ (if x.name == name then x ∷ [] else [])
        → (if b then r ∷ rows_named name (rs ++ x ∷ []) else rows_named name (rs ++ x ∷ []))
          ≡ (if b then r ∷ rows_named name rs else rows_named name rs)
            ++ (if x.name == name then x ∷ [] else [])
    go true e = ap (λ l. r ∷ l) e
    go false e = e

-- what a reader gets of the tables before and after: the new graph where the test holds, and what
-- it got before elsewhere
abbrev pub Updates : {A : Type 0} → Bool → A → A → A → Type 0
Updates here new before after = after ≡ (if here then new else before)

-- What the readers answer after a registration, for any name and version.
abbrev pub Registers : GraphDescriptor → CatalogTables → Text → ℕ → Option CatalogTables → Type 0
Registers d t name version none = ⊥
Registers d t name version (some after) =
    Updates (d.name == name) (some d) (get name t) (get name after)
    × (Updates (d.name == name) (some (next_version d.name t)) (latest_version name t)
          (latest_version name after)
        × Updates (d.name == name && nat_beq (next_version d.name t) version) (some d)
            (get_version name version t) (get_version name version after))

module _ (d : GraphDescriptor) (t : CatalogTables) (row : VersionRow) where
  named-Updates :
      (name : Text)
      → row.name ≡ d.name
      → row.version ≡ next_version d.name t
      → row.descriptor ≡ d
      → Updates
          (d.name == name)
          (some d)
          (get name t)
          (descriptor_of (latest (rows_named name (t.versions ++ row ∷ []))))
        × Updates
            (d.name == name)
            (some (next_version d.name t))
            (latest_version name t)
            (max_version (rows_named name (t.versions ++ row ∷ [])))
  unfolding get latest_version next_version
  named-Updates name n v same = go (d.name == name) refl
    where
      rows :
          (b : Bool)
          → (d.name == name) ≡ b
          → rows_named name (t.versions ++ row ∷ [])
            ≡ rows_named name t.versions ++ (if b then row ∷ [] else [])
      rows b e =
          rows_named-append name t.versions row
          ∙ ap (λ b. rows_named name t.versions ++ (if b then row ∷ [] else []))
              (ap (λ x. x == name) n ∙ e)

      go :
          (b : Bool)
          → (d.name == name) ≡ b
          → Updates b
              (some d)
              (get name t)
              (descriptor_of (latest (rows_named name (t.versions ++ row ∷ []))))
            × Updates b
                (some (next_version d.name t))
                (latest_version name t)
                (max_version (rows_named name (t.versions ++ row ∷ [])))
      go false e =
          let same_rows = rows false e ∙ append-nil (rows_named name t.versions) in
          (ap (λ l. descriptor_of (latest l)) same_rows, ap max_version same_rows)
      go true e =
          let here = (text_beq_iff d.name name).0 e in
          let top =
            max_version-above (rows_named name t.versions) row
              (omega (arith, v, ap (λ x. or_zero (max_version (rows_named x t.versions))) here)) in
          (
            ap (λ l. descriptor_of (latest l)) (rows true e)
                ∙ ap descriptor_of top.1
                ∙ ap some same,
            ap max_version (rows true e) ∙ top.0 ∙ ap some v,
          )

  unused : any (is_version d.name (next_version d.name t)) t.versions ≡ false
  unfolding next_version
  unused = fresh d.name (next_version d.name t) t.versions (omega arith)

  version-Updates :
      (name : Text) (version : ℕ)
      → row.name ≡ d.name
      → row.version ≡ next_version d.name t
      → row.descriptor ≡ d
      → Updates
          (d.name == name && nat_beq (next_version d.name t) version)
          (some d)
          (get_version name version t)
          (descriptor_of (first (is_version name version) (t.versions ++ row ∷ [])))
  unfolding get_version
  version-Updates name version n v same =
      ap descriptor_of (first-append (is_version name version) t.versions row)
      ∙ ap
          (λ b.
            descriptor_of
              (or_else (first (is_version name version) t.versions) (if b then some row else none)))
          (ap (λ x. x == name && nat_beq row.version version) n
            ∙ ap (λ k. d.name == name && nat_beq k version) v)
      ∙ go (d.name == name && nat_beq (next_version d.name t) version) refl
    where
      go :
          (b : Bool)
          → (d.name == name && nat_beq (next_version d.name t) version) ≡ b
          → Updates b (some d) (descriptor_of (first (is_version name version) t.versions)) (
              descriptor_of (
                or_else
                  (first (is_version name version) t.versions)
                  (if b then some row else none)))
      go false e = ap descriptor_of (or_else-none (first (is_version name version) t.versions))
      go true e =
          let both = and_true (d.name == name) (nat_beq (next_version d.name t) version) e in
          let here = (text_beq_iff d.name name).0 both.0 in
          let there = (nat_beq_iff (next_version d.name t) version).0 both.1 in
          ap (λ o. descriptor_of (or_else o (some row)))
            (first-any (is_version name version) t.versions (
              ap (λ x. any (is_version x version) t.versions) (sym here)
              ∙ ap (λ k. any (is_version d.name k) t.versions) (sym there)
              ∙ unused))
          ∙ ap some same

-- The insertion of a version never meets its primary key, and the readers answer as follows, for any name and version:
-- `get` the new descriptor under its name, `latest_version` one more than the largest version of
-- the name so far, and `get_version` the new descriptor at that version, while every other name,
-- and every version that was there, is read as before.
pub register_rows-Registers :
    (now : ℕ) (d : GraphDescriptor) (attributes : Dict Text) (backend_ref : Option Text)
    (t : CatalogTables) (name : Text) (version : ℕ)
    → Registers d t name version (register_rows now d attributes backend_ref t)
unfolding register_rows insert_version get latest_version get_version
register_rows-Registers now d attributes backend_ref t name version =
    let row = version_row now d (merged attributes backend_ref) (next_version d.name t) in
    go (any (is_version d.name (next_version d.name t)) t.versions) (unused d t row)
  where
    go :
        (b : Bool)
        → b ≡ false
        → (let row = version_row now d (merged attributes backend_ref) (next_version d.name t) in
            Registers d t name version
              (if b then none else some (record t { versions = t.versions ++ row ∷ [] })))
    go true e = absurd (true≢false e)
    go false e =
        let row = version_row now d (merged attributes backend_ref) (next_version d.name t) in
        let named = named-Updates d t row name refl refl refl in
        (named.0, (named.1, version-Updates d t row name version refl refl refl))
