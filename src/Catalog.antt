-- ===== src/Catalog.antt =====
-- The registry of graphs and its corpus of decisions: src/kgis/registry/store.py. A table is the
-- list of its rows in the order of insertion. An instant is a number, a stored recommendation its
-- JSON text, and stored attributes are the dictionary that is read back.
pub mod Versions
pub mod Decisions
pub mod Connections
pub mod Registration
use agentic_kgis.Prelude.{
  ℕ, zero, suc, ◌+◌, Bool, true, false, ◌&&◌, ◌||◌, Option, none, some, List, [], ◌∷◌, ◌++◌, Text,
  codes, ◌==◌, text_eq, nat_eq, nat_beq, ltb, leb, any, keep, first, map, is_some, Dict, set,
  if◌then◌else◌,
}
use agentic_kgis.Listing.{text_leb}
use agentic_kgis.Advisor.{GraphDescriptor, RegisteredGraph}

-- a row of `graph_versions`
pub record VersionRow : Type 0 where
  pub name : Text
  pub version : ℕ
  pub descriptor : GraphDescriptor
  pub attributes : Dict Text
  pub registered_at : ℕ

-- a row of `decisions`
pub record DecisionRow : Type 0 where
  pub decision_id : Text
  pub graph_name : Option Text
  pub recommendation_json : Text
  pub chosen_outcome : Text
  pub decided_by : Text
  pub rationale : Text
  pub decided_at : ℕ
  pub outcome_label : Option Text
  pub outcome_note : Option Text
  pub outcome_recorded_at : Option ℕ

pub record CatalogTables : Type 0 where
  pub versions : List VersionRow
  pub decisions : List DecisionRow

abbrev pub larger : ℕ → Option ℕ → Option ℕ
larger version none = some version
larger version (some v) = some (if ltb v version then version else v)

-- `MAX(version)` of some rows, with `none` for NULL
unfoldable pub max_version : List VersionRow → Option ℕ
max_version [] = none
max_version (r ∷ rs) = larger r.version (max_version rs)

abbrev pub or_zero : Option ℕ → ℕ
or_zero none = 0
or_zero (some v) = v

-- `WHERE name = ?`
unfoldable pub rows_named : Text → List VersionRow → List VersionRow
rows_named name rows = keep (λ r. r.name == name) rows

-- `row[0] or 0` plus one
unfoldable pub next_version : Text → CatalogTables → ℕ
next_version name t = suc (or_zero (max_version (rows_named name t.versions)))

-- the attributes with the open backend identifier
abbrev pub merged : Dict Text → Option Text → Dict Text
merged attributes none = attributes
merged attributes (some backend) = set (codes "backend.open_id") backend attributes

abbrev pub version_row : ℕ → GraphDescriptor → Dict Text → ℕ → VersionRow
version_row now d attributes version = record {
  name = d.name;
  version = version;
  descriptor = d;
  attributes = attributes;
  registered_at = now;
}

abbrev pub is_version : Text → ℕ → VersionRow → Bool
is_version name version r = r.name == name && nat_beq r.version version

-- the INSERT of a version, which the primary key may refuse
unfoldable pub insert_version : VersionRow → CatalogTables → Option CatalogTables
insert_version row t =
    if any (is_version row.name row.version) t.versions
    then none
    else some (record t { versions = t.versions ++ row ∷ [] })

-- what `register` does in its transaction, at an instant; `none` for an IntegrityError
unfoldable pub register_rows :
    ℕ → GraphDescriptor → Dict Text → Option Text → CatalogTables → Option CatalogTables
register_rows now d attributes backend_ref t =
    insert_version (version_row now d (merged attributes backend_ref) (next_version d.name t)) t

abbrev pub later : VersionRow → Option VersionRow → Option VersionRow
later r none = some r
later r (some x) = some (if leb r.version x.version then x else r)

-- `ORDER BY version DESC LIMIT 1`
unfoldable pub latest : List VersionRow → Option VersionRow
latest [] = none
latest (r ∷ rs) = later r (latest rs)

abbrev pub descriptor_of : Option VersionRow → Option GraphDescriptor
descriptor_of none = none
descriptor_of (some r) = some r.descriptor

abbrev attributes_of : Option VersionRow → Dict Text
attributes_of none = []
attributes_of (some r) = r.attributes

unfoldable pub get : Text → CatalogTables → Option GraphDescriptor
get name t = descriptor_of (latest (rows_named name t.versions))

unfoldable pub latest_version : Text → CatalogTables → Option ℕ
latest_version name t = max_version (rows_named name t.versions)

unfoldable pub get_version : Text → ℕ → CatalogTables → Option GraphDescriptor
get_version name version t = descriptor_of (first (is_version name version) t.versions)

unfoldable pub attributes_for : Text → Option ℕ → CatalogTables → Dict Text
attributes_for name none t = attributes_of (latest (rows_named name t.versions))
attributes_for name (some version) t = attributes_of (first (is_version name version) t.versions)

-- `ORDER BY`, by an order of the elements
unfoldable pub insert_by : {A : Type 0} → (A → A → Bool) → A → List A → List A
insert_by before x [] = x ∷ []
insert_by before x (y ∷ ys) =
    let rest = insert_by before x ys in if before x y then x ∷ y ∷ ys else y ∷ rest

unfoldable pub order_by : {A : Type 0} → (A → A → Bool) → List A → List A
order_by before [] = []
order_by before (x ∷ xs) = insert_by before x (order_by before xs)

unfoldable pub versions : Text → CatalogTables → List ℕ
versions name t = order_by leb (map (λ r. r.version) (rows_named name t.versions))

abbrev is_latest : List VersionRow → VersionRow → Bool
is_latest rows r = nat_beq r.version (or_zero (max_version (rows_named r.name rows)))

abbrev registered : VersionRow → RegisteredGraph
registered r = record { descriptor = r.descriptor; version = r.version; attributes = r.attributes }

unfoldable pub snapshot : CatalogTables → List RegisteredGraph
snapshot t =
    map registered
      (order_by (λ a b. text_leb a.name b.name) (keep (is_latest t.versions) t.versions))

unfoldable pub all_graphs : CatalogTables → List GraphDescriptor
all_graphs t = map (λ g. g.descriptor) (snapshot t)

-- the answers of `record_decision`: its record, the ValidationError of a record without a decider or
-- a rationale, and DecisionConflictError
pub data Recorded : Type 0 where
  recorded : DecisionRow → Recorded
  invalid_record : Recorded
  conflict : Recorded

unfoldable pub decision : Text → CatalogTables → Option DecisionRow
decision id t = first (λ r. r.decision_id == id) t.decisions

abbrev pub option_beq : Option Text → Option Text → Bool
option_beq none none = true
option_beq (some a) (some b) = a == b
option_beq _ _ = false

-- the columns that the INSERT names
unfoldable pub same_decision : DecisionRow → DecisionRow → Bool
same_decision a b =
    a.decision_id == b.decision_id
    && (option_beq a.graph_name b.graph_name
        && (a.recommendation_json == b.recommendation_json
            && (a.chosen_outcome == b.chosen_outcome
                && (a.decided_by == b.decided_by
                    && (a.rationale == b.rationale && nat_beq a.decided_at b.decided_at)))))

-- `INSERT ... ON CONFLICT(decision_id) DO NOTHING`, where the id has a row or has none
abbrev pub insert_unless : DecisionRow → CatalogTables → Option DecisionRow → CatalogTables
insert_unless row t none = record t { decisions = t.decisions ++ row ∷ [] }
insert_unless row t (some stored) = t

unfoldable pub insert_decision : DecisionRow → CatalogTables → CatalogTables
insert_decision row t = insert_unless row t (decision row.decision_id t)

-- the comparison with the row that is read back, which is there after the INSERT
abbrev pub compare_stored : DecisionRow → Option DecisionRow → Recorded
compare_stored row none = conflict
compare_stored row (some stored) = if same_decision stored row then recorded row else conflict

abbrev pub is_empty : Text → Bool
is_empty [] = true
is_empty (c ∷ t) = false

-- the answer for the tables after the INSERT
abbrev pub answered : DecisionRow → CatalogTables → Recorded × CatalogTables
answered row inserted = (compare_stored row (decision row.decision_id inserted), inserted)

-- `record_decision`, for the row that it makes
unfoldable pub store_decision : DecisionRow → CatalogTables → Recorded × CatalogTables
store_decision row t =
    if is_empty row.decided_by || is_empty row.rationale
    then (invalid_record, t)
    else answered row (insert_decision row t)

abbrev or_target : Option Text → Option Text → Option Text
or_target none target = target
or_target (some name) target = some name

abbrev text_or : Option Text → Text
text_or none = []
text_or (some t) = t

abbrev given_or : Option Text → Text → Text
given_or none derived = derived
given_or (some id) derived = if is_empty id then derived else id

-- `record_decision`; `derive` gives the id that stands for an absent or empty one
unfoldable pub record_decision :
    (Text → Text → Text → ℕ → Text)
    → ℕ
    → Text
    → Option Text
    → Text
    → Text
    → Text
    → Option Text
    → Option Text
    → CatalogTables
    → Recorded × CatalogTables
record_decision derive now json target chosen decided_by rationale graph_name id t =
    let named = or_target graph_name target in
    store_decision
      (record {
        decision_id = given_or id (derive decided_by chosen (text_or named) now);
        graph_name = named;
        recommendation_json = json;
        chosen_outcome = chosen;
        decided_by = decided_by;
        rationale = rationale;
        decided_at = now;
        outcome_label = none;
        outcome_note = none;
        outcome_recorded_at = none;
      })
      t

abbrev pub labelled : ℕ → Text → Option Text → DecisionRow → DecisionRow
labelled now label note r = record r {
  outcome_label = some label;
  outcome_note = note;
  outcome_recorded_at = some now;
}

abbrev pub relabel : ℕ → Text → Text → Option Text → DecisionRow → DecisionRow
relabel now id label note r = if r.decision_id == id then labelled now label note r else r

-- the UPDATE of an outcome
abbrev pub label_all : ℕ → Text → Text → Option Text → List DecisionRow → List DecisionRow
label_all now id label note rows = map (relabel now id label note) rows

-- `record_outcome`: `none` for its KeyError
unfoldable pub record_outcome : ℕ → Text → Text → Option Text → CatalogTables → Option CatalogTables
record_outcome now id label note t = elim (decision id t) [
  | none ↦ none
  | some found ↦ some (record t { decisions = label_all now id label note t.decisions })
]

abbrev decides_for : Option Text → DecisionRow → Bool
decides_for none r = true
decides_for (some name) r = option_beq r.graph_name (some name)

-- `decisions`
unfoldable pub decisions : Option Text → CatalogTables → List DecisionRow
decisions graph_name t =
    order_by
      (λ a b.
        ltb a.decided_at b.decided_at
        || (nat_beq a.decided_at b.decided_at && text_leb a.decision_id b.decision_id))
      (keep (decides_for graph_name) t.decisions)
