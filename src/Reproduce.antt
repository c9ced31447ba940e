-- ===== src/Reproduce.antt =====
-- scripts/forensic/reproduce.py: the comparison of an original bundle root with a reproduced one.
-- The reasons, classes and verdicts, strings in the source, are data types here, and a note is the
-- constructor for its text with the fields that the text joins.
pub mod Compare
pub mod Verified
pub mod Snapshot
pub mod Drift
mod Examples
use text.Mathlib.Text.{◌==◌ as str_eq}
use protocol_robustness_fram.Prelude.{
  ℕ, String, Bool, true, false, not, ◌&&◌, ◌||◌, List, [], ◌∷◌, ◌++◌, map, Option, none, some, any,
  filter, is_empty, length, ltb, ◌==◌, if◌then◌else◌,
}
use protocol_robustness_fram.Json.{Json}
use protocol_robustness_fram.Json.Equality.{same_value, is_null}

pub data Reason : Type 0 where
  matched missing_original_field missing_reproduced_field missing_algorithm_field : Reason
  algorithm_mismatch source_changed legacy_algorithm non_deterministic unexplained : Reason

pub data Classification : Type 0 where
  core diagnostic : Classification

pub record SourceStatus : Type 0 where
  pub source_match : Option Bool
  pub source_reason : Reason

-- One entry of the list of checks.
pub record Check : Type 0 where
  pub label : String
  pub classification : Classification
  pub original : Json
  pub reproduced : Json
  pub outcome : Option Bool
  pub reason : Reason

-- The keys of `FIELD_CLASSIFICATION`, all of them "core".
abbrev pub core_fields : List String
core_fields =
    "bundle/hash" ∷ "overview/overview-hash" ∷ "execution/summary/status"
    ∷ "execution/summary/totals/total" ∷ "execution/summary/totals/passed"
    ∷ "execution/summary/totals/failed" ∷ "execution/summary/totals/expected-failed"
    ∷ "execution/summary/totals/unexpected-failed" ∷ "source/tree-hash"
    ∷ "protocol/state-hashes/force-authorisations/hash"
    ∷ "protocol/state-hashes/force-authorisations/consumed-hash" ∷ []

unfoldable pub classify_field : String → Classification
classify_field label = if any (λ f. str_eq label f) core_fields then core else diagnostic

-- `not value` on an optional string.
abbrev pub is_absent : Option String → Bool
is_absent none = true
is_absent (some s) = str_eq s ""

abbrev pub text_of : Option String → String
text_of none = ""
text_of (some s) = s

unfoldable pub classify_source_precheck :
    Option String → Option String → String → String → SourceStatus
classify_source_precheck bundle_hash bundle_algorithm current_hash current_algorithm =
    let same = str_eq current_hash (text_of bundle_hash) in
    if is_absent bundle_hash
    then record { source_match = none; source_reason = missing_original_field }
    else if is_absent bundle_algorithm
    then record { source_match = none; source_reason = missing_algorithm_field }
    else if not (str_eq (text_of bundle_algorithm) current_algorithm)
    then record { source_match = none; source_reason = algorithm_mismatch }
    else record {
      source_match = some same;
      source_reason = if same then matched else source_changed;
    }

-- `source_status.get("match")` and the test of its reason, where the status may be None.
abbrev pub source_matches : Option SourceStatus → Option Bool
source_matches none = none
source_matches (some s) = s.source_match

abbrev pub is_legacy : Option SourceStatus → Bool
is_legacy none = false
is_legacy (some s) = elim s.source_reason [
  | missing_algorithm_field ↦ true
  | algorithm_mismatch ↦ true
  | _ ↦ false
]

-- The reason for two values that are both present and differ.
unfoldable pub classify_difference : String → Option SourceStatus → Reason
classify_difference label status =
    if str_eq label "source/tree-hash"
    then (if is_legacy status then legacy_algorithm else elim (source_matches status) [
      | some false ↦ source_changed
      | some true ↦ non_deterministic
      | none ↦ unexplained
    ])
    else if str_eq label "source/tree-hash-algorithm"
    then (if is_legacy status then legacy_algorithm else unexplained)
    else elim (source_matches status) [ some false ↦ source_changed | _ ↦ unexplained ]

unfoldable pub classify_mismatch : String → Json → Json → Option SourceStatus → Reason
unfolding classify_difference
classify_mismatch label orig new status =
    if same_value orig new && not (is_null orig)
    then matched
    else if is_null orig && is_null new
    then matched
    else if is_null orig
    then missing_original_field
    else if is_null new
    then missing_reproduced_field
    else classify_difference label status

pub data Verdict : Type 0 where
  verified diverged inconclusive reproduce_failed invalid_original_bundle : Verdict
  reproduced_with_legacy_gaps reproduced_with_explained_drift : Verdict

pub data Note : Type 0 where
  no_bundle no_reproduced_bundle all_fields_unknown no_core_fields : Note
  core_diverged core_explained legacy_limited core_unknown diagnostic_differ : List String → Note

abbrev pub is_core : Check → Bool
is_core c = elim c.classification [ core ↦ true | diagnostic ↦ false ]

abbrev pub differs : Check → Bool
differs c = elim c.outcome [ some false ↦ true | _ ↦ false ]

abbrev pub is_unknown : Check → Bool
is_unknown c = elim c.outcome [ none ↦ true | _ ↦ false ]

-- `reason.startswith("expected-drift/")`
abbrev pub is_expected : Check → Bool
is_expected c = elim c.reason [ source_changed ↦ true | _ ↦ false ]

abbrev pub is_legacy_mismatch : Check → Bool
is_legacy_mismatch c = elim c.reason [ legacy_algorithm ↦ true | _ ↦ false ]

abbrev pub labels : List Check → List String
labels cs = map (λ c. c.label) cs

-- The verdict from the lists of core checks: all, the unknown and, of those that differ, the
-- expected, the legacy and the unexpected ones.
unfoldable pub judge :
    List Check
    → List Check
    → List Check
    → List Check
    → List Check
    → List Check
    → Verdict × List Note
judge cores unknown expected legacy unexpected diag =
    let explained = if is_empty expected then [] else core_explained (labels expected) ∷ [] in
    if is_empty cores
    then (inconclusive, no_core_fields ∷ [])
    else if not (is_empty unexpected)
    then (diverged, core_diverged (labels unexpected) ∷ [])
    else if not (is_empty legacy) && is_empty expected
    then (reproduced_with_legacy_gaps, explained ++ legacy_limited (labels legacy) ∷ [])
    else if not (is_empty unknown) && is_empty expected && is_empty unexpected
    then (reproduced_with_legacy_gaps, explained ++ core_unknown (labels unknown) ∷ [])
    else if not (is_empty expected)
    then (reproduced_with_explained_drift, explained)
    else (verified, if is_empty diag then [] else diagnostic_differ (labels diag) ∷ [])

-- The lists of checks that the verdict is about.
unfoldable pub judge_checks : List Check → Verdict × List Note
judge_checks checks =
    let cores = filter is_core checks in
    let mismatch = filter differs cores in
    judge cores (filter is_unknown cores) (filter is_expected mismatch)
      (filter is_legacy_mismatch mismatch)
      (filter (λ c. not (is_expected c) && not (is_legacy_mismatch c)) mismatch)
      (filter (λ c. differs c && not (is_core c)) checks)

unfoldable pub compute_verdict : List Check → Bool → Bool → Verdict × List Note
compute_verdict checks bundle_a_ok bundle_b_ok =
    if not bundle_a_ok && not bundle_b_ok
    then (reproduce_failed, no_bundle ∷ [])
    else if not bundle_b_ok
    then (reproduce_failed, no_reproduced_bundle ∷ [])
    else if ltb 0 (length checks) && length checks == length (filter is_unknown checks)
    then (invalid_original_bundle, all_fields_unknown ∷ [])
    else judge_checks checks
