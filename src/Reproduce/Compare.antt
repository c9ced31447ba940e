-- ===== src/Reproduce/Compare.antt =====
-- scripts/forensic/reproduce.py: `compare_bundle_fields`. The two bundle roots are objects, and
-- `execution/summary`, its totals and the two maps of hashes are objects or, where the source has
-- `or {}`, falsy; any other value, on which Python fails at its first use as a dict, fails here at once.
use Prim.Native.String.{◌++◌ as join}
use protocol_robustness_fram.Prelude.{
  String, not, ◌||◌, List, [], ◌∷◌, ◌++◌, map, Option, none, some, is_some, filter, if◌then◌else◌,
}
use protocol_robustness_fram.Prelude.Sorted.{sorted_set}
use protocol_robustness_fram.Prelude.Result.{Result, ok, err, ◌>>=◌}
use protocol_robustness_fram.Json.{Json, obj, Fields, end, lookup, get, keys}
use protocol_robustness_fram.Json.Equality.{same_value, is_null, is_truthy}
use protocol_robustness_fram.Reproduce.{Check, SourceStatus, classify_field, classify_mismatch}

-- AttributeError or TypeError on a value that is no dict.
pub data AttributeError : Type 0 where
  not_a_dict : AttributeError

unfoldable pub add_check : String → Json → Json → Option SourceStatus → Check
unfolding classify_field classify_mismatch
add_check label ov nv status = record {
  label = label;
  classification = classify_field label;
  original = ov;
  reproduced = nv;
  outcome = if is_null ov || is_null nv then none else some (same_value ov nv);
  reason = classify_mismatch label ov nv status;
}

unfoldable pub as_dict : Json → Result AttributeError Fields
as_dict (obj fs) = ok fs
as_dict _ = err not_a_dict

-- `d.get(key, {})`
unfoldable pub get_dict : String → Fields → Result AttributeError Fields
unfolding as_dict
get_dict key d = elim (lookup key d) [ none ↦ ok end | some v ↦ as_dict v ]

-- `d.get(key) or {}`
unfoldable pub get_or_empty : String → Fields → Result AttributeError Fields
unfolding as_dict
get_or_empty key d = if is_truthy (get key d) then as_dict (get key d) else ok end

-- A loop over the keys of two objects, with the prefix of their labels.
abbrev pub compare_keys : String → List String → Fields → Fields → Option SourceStatus → List Check
compare_keys prefix ks a b status =
    map (λ k. add_check (join prefix k) (get k a) (get k b) status) ks

abbrev pub total_keys : List String
total_keys = "total" ∷ "passed" ∷ "failed" ∷ "expected-failed" ∷ "unexpected-failed" ∷ []

-- The loops over the totals, over the union of the keys of two maps of hashes, and over the source
-- provenance.
abbrev pub total_checks : Fields → Fields → Option SourceStatus → List Check
total_checks a b status =
    compare_keys "execution/summary/totals/"
      (filter (λ k. is_some (lookup k a) || is_some (lookup k b)) total_keys) a b status

abbrev pub hash_checks : String → Fields → Fields → Option SourceStatus → List Check
hash_checks prefix a b status = compare_keys prefix (sorted_set (keys a ++ keys b)) a b status

abbrev pub provenance_checks : Fields → Fields → Option SourceStatus → List Check
provenance_checks orig new status =
    compare_keys ""
      (filter (λ k. not (is_null (get k orig)) || not (is_null (get k new)))
        ("source/tree-hash" ∷ "source/tree-hash-algorithm" ∷ []))
      orig new status

unfoldable pub compare_bundle_fields :
    Fields → Fields → Option SourceStatus → Result AttributeError (List Check)
compare_bundle_fields orig new status = do
  summary_a ← get_dict "execution/summary" orig
  summary_b ← get_dict "execution/summary" new
  totals_a ← get_or_empty "totals" summary_a
  totals_b ← get_or_empty "totals" summary_b
  snapshot_a ← get_or_empty "registry/snapshot" orig
  snapshot_b ← get_or_empty "registry/snapshot" new
  states_a ← get_or_empty "protocol/state-hashes" orig
  states_b ← get_or_empty "protocol/state-hashes" new
  ok (
      add_check "bundle/hash" (get "bundle/hash" orig) (get "bundle/hash" new) status
        ∷ add_check "bundle/schema-version" (get "bundle/schema-version" orig)
            (get "bundle/schema-version" new) status
        ∷ add_check "overview/overview-hash" (get "overview/hash" orig) (get "overview/hash" new)
            status
        ∷ add_check "execution/summary/status" (get "status" summary_a) (get "status" summary_b)
            status
        ∷ total_checks totals_a totals_b status
      ++ hash_checks "registry/snapshot/" snapshot_a snapshot_b status
      ++ hash_checks "protocol/state-hashes/" states_a states_b status
      ++ provenance_checks orig new status)
