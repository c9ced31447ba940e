-- ===== src/Consensus.antt =====
-- scripts/forensic/consensus.py: the summary of a bundle, the agreement of the submissions field by
-- field, the verdict and the agreed hash. A submission without a summary has the empty one. Python's
-- `str`, which turns a value of a summary into the text that is counted, is a parameter.
pub mod Threshold
pub mod Flat
mod Examples
use Prim.Native.String.{◌++◌ as join}
use text.Mathlib.Text.{◌==◌ as str_eq}
use protocol_robustness_fram.Prelude.{
  ℕ, ◌-◌, max, String, Bool, true, false, not, ◌&&◌, List, [], ◌∷◌, ◌++◌, map, Option, none, some,
  all, any, filter, length, leb, if◌then◌else◌,
}
use protocol_robustness_fram.Prelude.Int.{ℤ, pos, eqb_ℤ}
use protocol_robustness_fram.Prelude.Sorted.{sorted_set}
use protocol_robustness_fram.Json.{Json, null, obj, Fields, end, field, get, keys}
use protocol_robustness_fram.Json.Equality.{is_null}
use protocol_robustness_fram.Counting.{tally, most_common}
use protocol_robustness_fram.Quorum.{split_field}

-- `CONSENSUS_FIELDS`
abbrev pub consensus_fields : List String
consensus_fields =
    "bundle/hash" ∷ "overview/hash" ∷ "execution/summary/status" ∷ "execution/summary/totals/total"
    ∷ "execution/summary/totals/passed" ∷ "execution/summary/totals/failed"
    ∷ "execution/summary/totals/expected-failed" ∷ "execution/summary/totals/unexpected-failed"
    ∷ "source/tree-hash" ∷ "source/tree-hash-algorithm" ∷ []

-- The loop of `_deep_get` over the parts of the path.
unfoldable pub get_parts : Json → List String → Json
get_parts current [] = current
get_parts (obj fs) (p ∷ ps) = get_parts (get p fs) ps
get_parts _ (p ∷ ps) = null

unfoldable pub deep_get : Fields → String → Json
deep_get bundle path = get_parts (obj bundle) (split_field path)

-- `summary[name] = value` if the value is not None, before the entries of the later fields.
unfoldable pub keep_value : String → Json → Fields → Fields
keep_value name value later = if is_null value then later else field name value later

unfoldable pub snapshot_entries : Fields → Fields
unfolding keep_value
snapshot_entries end = end
snapshot_entries (field k v fs) = keep_value (join "registry/snapshot/" k) v (snapshot_entries fs)

unfoldable pub summary_entries : Fields → List String → Fields → Fields
unfolding keep_value deep_get
summary_entries bundle [] snapshot = snapshot
summary_entries bundle (name ∷ names) snapshot =
    keep_value name (deep_get bundle name) (summary_entries bundle names snapshot)

unfoldable pub build_summary : Fields → Fields
unfolding summary_entries snapshot_entries deep_get
build_summary bundle =
    summary_entries bundle consensus_fields
      (elim (deep_get bundle "registry/snapshot") [ obj fs ↦ snapshot_entries fs | _ ↦ end ])

pub record Submission : Type 0 where
  pub runner_id : String
  pub summary : Fields

pub data AgreementStatus : Type 0 where
  agreed diverging : AgreementStatus

pub record Agreement : Type 0 where
  pub name : String
  pub status : AgreementStatus
  pub winner : String
  pub agreement_count : ℕ

-- `threshold`, with its default.
abbrev pub threshold_of : Option ℕ → ℕ → ℕ
threshold_of none n = max 2 (n - 1)
threshold_of (some t) n = t

-- The names of all fields of all summaries.
abbrev pub all_fields : List Submission → List String
all_fields [] = []
all_fields (s ∷ ss) = keys s.summary ++ all_fields ss

-- The entry for a field from its winner, if it has a value.
unfoldable pub field_result : String → ℕ → Option (String × ℕ) → Option Agreement
field_result name threshold none = none
field_result name threshold (some (value, count)) = some (record {
  name = name;
  status = if leb threshold count then agreed else diverging;
  winner = value;
  agreement_count = count;
})

-- `results.append(...)`, or `continue` without a value.
unfoldable pub add_result : Option Agreement → List Agreement → List Agreement
add_result none rest = rest
add_result (some a) rest = a ∷ rest

module _ (str_of : Json → String) where
  -- `values`, the texts of a field over the submissions.
  unfoldable pub values_of : String → List Submission → List String
  values_of name [] = []
  values_of name (s ∷ ss) =
      let rest = values_of name ss in
      if is_null (get name s.summary) then rest else str_of (get name s.summary) ∷ rest

  unfoldable pub field_agreement : String → List Submission → ℕ → Option Agreement
  unfolding values_of field_result
  field_agreement name submissions threshold =
      field_result name threshold (most_common (tally str_eq (values_of name submissions)))

  -- The loop over the sorted fields.
  unfoldable pub field_agreements : List String → List Submission → ℕ → List Agreement
  unfolding field_agreement add_result
  field_agreements [] submissions threshold = []
  field_agreements (name ∷ names) submissions threshold =
      add_result (field_agreement name submissions threshold)
        (field_agreements names submissions threshold)

  unfoldable pub compute_agreement : List Submission → Option ℕ → List Agreement
  compute_agreement [] threshold = []
  compute_agreement (s ∷ ss) threshold =
      field_agreements (sorted_set (all_fields (s ∷ ss))) (s ∷ ss)
        (threshold_of threshold (length (s ∷ ss)))

pub data ConsensusVerdict : Type 0 where
  consensus_confirmed confirmed_with_failures consensus_diverged no_consensus : ConsensusVerdict

abbrev pub is_diverging : Agreement → Bool
is_diverging a = elim a.status [ agreed ↦ false | diverging ↦ true ]

unfoldable pub consensus_verdict : List Agreement → List ℤ → ConsensusVerdict
consensus_verdict [] exit_codes = no_consensus
consensus_verdict (a ∷ agreement) exit_codes =
    if all is_diverging (a ∷ agreement)
    then consensus_diverged
    else if any is_diverging (a ∷ agreement)
    then consensus_diverged
    else if any (λ ec. not (eqb_ℤ ec (pos 0))) exit_codes
    then confirmed_with_failures
    else consensus_confirmed

unfoldable pub agreed_hash : List Agreement → Option String
agreed_hash [] = none
agreed_hash (a ∷ agreement) =
    let later = agreed_hash agreement in
    if str_eq a.name "overview/hash" && not (is_diverging a) then some a.winner else later
