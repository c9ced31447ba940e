-- ===== src/Quorum/Examples.antt =====
-- Three runs, one of which has a snapshot key that the others do not have.
use mathlib.Core.List.{Memᴰ}
use protocol_robustness_fram.Prelude.{
  ◌≤◌, ◌≡◌, ◌↔◌, ◌⊎◌, refl, true, false, List, [], ◌∷◌, Option, some, all, is_empty, is_some,
  length,
}
use protocol_robustness_fram.Prelude.Result.{ok}
use protocol_robustness_fram.Json.{str, obj, Fields, end, field}
use protocol_robustness_fram.Counting.{bump, tally_from, tally, most_common}
use protocol_robustness_fram.Json.Keys.{Key, word}
use protocol_robustness_fram.Quorum.{
  hash_key, hash_keys, navigate, find_prefix, extract_field, present_values, FieldAgreement,
  confirmed, field_status, agree_on, compute_field_agreement, collect_snapshot_fields,
  all_snapshot_fields, agreements, quorum_confirmed, quorum_status, quorum,
}
use protocol_robustness_fram.Quorum.Agreement.{field_agreement-confirmed, quorum-confirmed}

abbrev bundle : Fields → Fields
bundle snapshot = field "bundle/hash" (str "h") (field "registry/snapshot" (obj snapshot) end)

abbrev runs : List (Option Fields)
runs = some (bundle (field "claims" (str "c") end)) ∷ some (bundle end) ∷ some (bundle end) ∷ []

abbrev hash_agreement : FieldAgreement
hash_agreement = record {
  name = "bundle/hash";
  status = confirmed;
  winner = some (word "h");
  agreement_count = 3;
  total_runs = 3;
}

-- One run out of three has this field, and it is confirmed.
abbrev claims_agreement : FieldAgreement
claims_agreement = record {
  name = "registry/snapshot/claims";
  status = confirmed;
  winner = some (word "c");
  agreement_count = 1;
  total_runs = 3;
}

claims_value : hash_keys (present_values runs "registry/snapshot/claims") ≡ ok (word "c" ∷ [])
unfolding hash_keys hash_key present_values extract_field find_prefix navigate
claims_value = refl

claims_confirmed : compute_field_agreement runs "registry/snapshot/claims" 2 ≡ ok claims_agreement
unfolding compute_field_agreement hash_keys hash_key present_values extract_field find_prefix
    navigate agree_on field_status tally tally_from bump most_common
claims_confirmed = refl

confirmed_runs : quorum runs 2 ≡ ok (quorum_confirmed, hash_agreement ∷ claims_agreement ∷ [])
unfolding quorum quorum_status agreements all_snapshot_fields collect_snapshot_fields
    compute_field_agreement hash_keys hash_key present_values extract_field find_prefix navigate
    agree_on field_status tally tally_from bump most_common
confirmed_runs = refl

field_agreement-confirmed_example : (confirmed ≡ confirmed) ↔ (
    (k : Key) × (◌≡◌ {A = Option Key} (some (word "c")) (some k))
    × ((2 ≤ 1) ⊎ (claims_agreement.agreement_count ≡ length (word "c" ∷ []))))
field_agreement-confirmed_example =
    field_agreement-confirmed runs "registry/snapshot/claims" 2 {ks = word "c" ∷ []}
      {a = claims_agreement} claims_value claims_confirmed

quorum-confirmed_example :
    (all is_some runs ≡ true)
    × (is_empty (hash_agreement ∷ claims_agreement ∷ []) ≡ false)
    × ((a : FieldAgreement)
        → Memᴰ a (hash_agreement ∷ claims_agreement ∷ [])
        → a.status ≡ confirmed)
quorum-confirmed_example =
    quorum-confirmed runs 2 {results = hash_agreement ∷ claims_agreement ∷ []} confirmed_runs
