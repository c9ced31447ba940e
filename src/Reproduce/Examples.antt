-- ===== src/Reproduce/Examples.antt =====
-- Two bundle roots that differ only in a registry snapshot hash, and one with another tree hash.
use mathlib.Core.List.{Memᴰ}
use mathlib.Core.List.Memᴰ
use protocol_robustness_fram.Prelude.{
  ◌≡◌, ◌≢◌, refl, ap, true, false, List, [], ◌∷◌, Option, none, some, is_empty, filter, inl, inr,
}
use protocol_robustness_fram.Prelude.Result.{ok}
use protocol_robustness_fram.Json.{Json, str, Fields, end, field, obj, get}
use protocol_robustness_fram.Json.Equality.{same_value}
use protocol_robustness_fram.Reproduce.{
  Check, SourceStatus, source_changed, is_absent, text_of, classify_field, classify_mismatch,
  classify_difference, classify_source_precheck, is_core, judge, judge_checks, compute_verdict,
  verified, diagnostic_differ,
}
use protocol_robustness_fram.Reproduce.Compare.{
  add_check, as_dict, get_dict, get_or_empty, compare_bundle_fields,
}
use protocol_robustness_fram.Reproduce.Verified.{verified-matches, matches-verified}
use protocol_robustness_fram.Reproduce.Snapshot.{Agree, verified-hashes}
use protocol_robustness_fram.Reproduce.Drift.{explained_drift-hashes}

abbrev bundle : Json → Json → Fields
bundle hash entry = field "bundle/hash" hash (
    field "overview/hash" (str "o") (
      field "execution/summary" (obj (field "status" (str "pass") end))
        (field "registry/snapshot" (obj (field "claims" entry end)) end)))

abbrev original : Fields
original = bundle (str "h") (str "c1")

abbrev same_hash : Fields
same_hash = bundle (str "h") (str "c2")

abbrev checks_of : Fields → Fields → Option SourceStatus → List Check
checks_of orig new status =
    add_check "bundle/hash" (get "bundle/hash" orig) (get "bundle/hash" new) status
    ∷ add_check "bundle/schema-version" Json.null Json.null status
    ∷ add_check "overview/overview-hash" (str "o") (str "o") status
    ∷ add_check "execution/summary/status" (str "pass") (str "pass") status
    ∷ add_check "registry/snapshot/claims" (str "c1") (str "c2") status
    ∷ []

compared : compare_bundle_fields original same_hash none ≡ ok (checks_of original same_hash none)
unfolding compare_bundle_fields get_dict get_or_empty as_dict
compared = refl

judged :
    compute_verdict (checks_of original same_hash none) true true
    ≡ (verified, diagnostic_differ ("registry/snapshot/claims" ∷ []) ∷ [])
unfolding compute_verdict judge_checks judge add_check classify_field classify_mismatch
    classify_difference same_value
judged = refl

verified-matches_example :
    (true ≡ true)
    × (is_empty (filter is_core (checks_of original same_hash none)) ≡ false)
    × ((c : Check)
        → Memᴰ c (checks_of original same_hash none)
        → is_core c ≡ true
        → c.outcome ≡ some true)
verified-matches_example =
    verified-matches (checks_of original same_hash none) true true (ap (λ r. r.0) judged)

abbrev hash_check : Check
hash_check = add_check "bundle/hash" (str "h") (str "h") none

only_hash_check : (c : Check) → Memᴰ c (hash_check ∷ []) → is_core c ≡ true → c.outcome ≡ some true
unfolding add_check same_value
only_hash_check c m core_c = elim (Memᴰ.cases_cons m) [
  | inl first ↦ ap (λ (x : Check). x.outcome) first
  | inr later ↦ elim later [ ]
]

matches-verified_example : (compute_verdict (hash_check ∷ []) true true).0 ≡ verified
unfolding add_check classify_field same_value
matches-verified_example =
    matches-verified (hash_check ∷ []) true {core_check = hash_check} (Memᴰ.head refl) refl
      only_hash_check

verified-hashes_example : Agree (str "h") (str "h") × Agree (str "o") (str "o")
verified-hashes_example =
    verified-hashes original same_hash none {checks = checks_of original same_hash none} true true
      compared (ap (λ r. r.0) judged)

abbrev changed : Fields
changed = bundle (str "g") (str "c1")

abbrev drifted : SourceStatus
drifted = record { source_match = some false; source_reason = source_changed }

drift_status : classify_source_precheck (some "t1") (some "v1") "t2" "v1" ≡ drifted
unfolding classify_source_precheck
drift_status = refl

explained_drift-hashes_example :
    (is_absent (some "t1") ≡ false) × (text_of (some "v1") ≡ "v1") × ("t2" ≢ text_of (some "t1"))
unfolding compare_bundle_fields get_dict get_or_empty as_dict compute_verdict judge_checks judge
    add_check classify_field classify_mismatch classify_difference same_value
    classify_source_precheck
explained_drift-hashes_example =
    explained_drift-hashes original changed (some "t1") (some "v1") "t2" "v1" {checks = _} true true
      refl refl
