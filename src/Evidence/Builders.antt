-- ===== src/Evidence/Builders.antt =====
-- The constructors of evidence: `present_evidence`, `absent_evidence` and `error_evidence` of
-- src/kg_contracts/evidence.py. The id that they draw where none is given is an argument, and
-- `none` stands for the `ValidationError` of the model.
use agentic_kgis.Prelude.{
  true, ◌≡◌, ◌↔◌, refl, Option, none, some, Text, arith, if◌then◌else◌, is_some,
}
use agentic_kgis.Evidence.{
  Time, ValidPeriod, TextSpan, EvidenceAvailability, present, absent, error, AbsenceReason,
  Evidence, well_shaped,
}

-- what the three constructors share
pub record Source : Type 0 where
  pub evidence_id : Option Text
  pub fresh_id : Text
  pub source_type : Text
  pub source_locator : Text
  pub observed_at : Time
  pub valid_time : Option ValidPeriod

abbrev id_or : Option Text → Text → Text
id_or none fresh = fresh
id_or (some id) fresh = id

abbrev blank_item : Source → EvidenceAvailability → Evidence
blank_item s a = record {
  evidence_id = id_or s.evidence_id s.fresh_id;
  source_type = s.source_type;
  source_locator = s.source_locator;
  observed_at = s.observed_at;
  valid_time = s.valid_time;
  availability = a;
  absence_reason = none;
  payload_hash = none;
  content = none;
  error_message = none;
  span = none;
}

-- the model validator
unfoldable pub checked : Evidence → Option Evidence
checked e = if well_shaped e then some e else none

unfoldable pub present_evidence :
    Source → Option Text → Option Text → Option TextSpan → Option Evidence
present_evidence s content payload_hash span =
    checked (record (blank_item s present) {
      content = content;
      payload_hash = payload_hash;
      span = span;
    })

unfoldable pub absent_evidence : Source → AbsenceReason → Option Evidence
absent_evidence s reason = checked (record (blank_item s absent) { absence_reason = some reason })

unfoldable pub error_evidence : Source → Text → Option Evidence
error_evidence s message = checked (record (blank_item s error) { error_message = some message })

-- The constructor of present evidence raises exactly when neither a content nor a payload hash is
-- given, even where one of them is the empty text; the other two constructors never raise.
pub builders_raise_iff :
    (s : Source) (content payload_hash : Option Text) (span : Option TextSpan)
    (reason : AbsenceReason) (message : Text)
    → ((present_evidence s content payload_hash span ≡ none)
        ↔ ((content ≡ none) × (payload_hash ≡ none)))
      × (is_some (absent_evidence s reason) ≡ true)
      × (is_some (error_evidence s message) ≡ true)
unfolding present_evidence absent_evidence error_evidence checked well_shaped
builders_raise_iff s content payload_hash span reason message = (ground arith, refl, refl)
