-- ===== src/Quorum.antt =====
-- scripts/forensic/quorum.py: the agreement of repeated local runs, field by field.
-- A bundle is None or an object; `registry/snapshot` is an object or falsy. The texts of the winning
-- values in the report are not built: a winner is the key that the Counter holds, of which the report
-- has the first 40 characters of the text, and None if it is falsy.
pub mod Agreement
mod Examples
use Prim.Native.Char.{Char, code}
use Prim.Native.String.{[], ◌∷◌ as ◌∷ₛ◌, ◌++◌ as join}
use text.Mathlib.Text.{◌==◌ as str_eq}
use text.Mathlib.TextEquality.{eq_iff}
use protocol_robustness_fram.Prelude.{
  ℕ, zero, suc, ◌-◌, ◌≡◌, refl, ap, ◌↔◌, String, Bool, true, false, not, ◌&&◌, List, [], ◌∷◌, ◌++◌,
  map, Option, none, some, arith, all, filter, is_empty, is_some, take, drop, length, ltb, leb,
  ◌==◌, if◌then◌else◌,
}
use protocol_robustness_fram.Prelude.Int.{ℤ, pos, eqb_ℤ, eqb_ℤ→eq, eqb_ℤ_refl}
use protocol_robustness_fram.Prelude.Result.{Result, ok, err, ◌>>=◌}
use protocol_robustness_fram.Prelude.Sorted.{sorted_set}
use protocol_robustness_fram.Json.{
  Json, null, bool, int, str, arr, obj, Fields, end, lookup, get, keys,
}
use protocol_robustness_fram.Json.Equality.{bool_value, is_null, is_truthy}
use protocol_robustness_fram.Json.Keys.{Key, nothing, number, word, same_key}
use protocol_robustness_fram.Counting.{tally, most_common}

-- `field.split("/")`
abbrev push_char : Char → List String → List String
push_char c [] = (c ∷ₛ "") ∷ []
push_char c (p ∷ ps) = (c ∷ₛ p) ∷ ps

abbrev pub split_field : String → List String
split_field [] = "" ∷ []
split_field (c ∷ₛ s) =
    let rest = split_field s in if code c == 47 then "" ∷ rest else push_char c rest

-- `"/".join(parts)`
abbrev pub join_field : List String → String
join_field [] = ""
join_field (p ∷ ps) = elim ps [ [] ↦ p | q ∷ qs ↦ join p (join "/" (join_field ps)) ]

pub data RunError : Type 0 where
  unhashable not_a_dict : RunError

-- `val.get(p)` for each further part, and None on a value that is no dict.
unfoldable pub navigate : Json → List String → Json
navigate v [] = v
navigate (obj fs) (p ∷ ps) = navigate (get p fs) ps
navigate _ (p ∷ ps) = null

-- The loop over the prefixes, from the longest.
unfoldable pub find_prefix : Fields → List String → ℕ → Json
unfolding navigate
find_prefix bundle parts zero = null
find_prefix bundle parts (suc n) =
    let shorter = find_prefix bundle parts n in
    elim (lookup (join_field (take (suc n) parts)) bundle) [
      | some v ↦ navigate v (drop (suc n) parts)
      | none ↦ shorter
    ]

unfoldable pub extract_field : Fields → String → Json
unfolding find_prefix
extract_field bundle field =
    let parts = split_field field in
    elim (lookup field bundle) [ some v ↦ v | none ↦ find_prefix bundle parts (length parts - 1) ]

-- A hashable value as the key of a Counter: `True` and `1` are one key.
unfoldable pub hash_key : Json → Result RunError Key
hash_key null = ok nothing
hash_key (bool b) = ok (number (bool_value b))
hash_key (int n) = ok (number n)
hash_key (str s) = ok (word s)
hash_key (arr xs) = err unhashable
hash_key (obj fs) = err unhashable

unfoldable pub hash_keys : List Json → Result RunError (List Key)
unfolding hash_key
hash_keys [] = ok []
hash_keys (v ∷ vs) = do k ← hash_key v; ks ← hash_keys vs; ok (k ∷ ks)

pub data FieldStatus : Type 0 where
  confirmed insufficient_data insufficient_agreement : FieldStatus

pub record FieldAgreement : Type 0 where
  pub name : String
  pub status : FieldStatus
  pub winner : Option Key
  pub agreement_count : ℕ
  pub total_runs : ℕ

-- The present values of a field over the runs.
unfoldable pub present_values : List (Option Fields) → String → List Json
unfolding extract_field
present_values bundles field =
    filter (λ v. not (is_null v))
      (map (λ b. elim b [ none ↦ null | some fs ↦ extract_field fs field ]) bundles)

unfoldable pub field_status : ℕ → ℕ → List Key → FieldStatus
field_status winning_count threshold ks =
    if leb threshold winning_count
    then confirmed
    else if winning_count == length ks
    then confirmed
    else if length (tally same_key ks) == 1
    then confirmed
    else insufficient_agreement

unfoldable pub agree_on : String → ℕ → ℕ → List Key → FieldAgreement
unfolding field_status
agree_on field total threshold ks = elim (most_common (tally same_key ks)) [
  | none ↦ record {
    name = field;
    status = insufficient_data;
    winner = none;
    agreement_count = 0;
    total_runs = total;
  }
  | some (k, n) ↦ record {
    name = field;
    status = field_status n threshold ks;
    winner = some k;
    agreement_count = n;
    total_runs = total;
  }
]

unfoldable pub compute_field_agreement :
    List (Option Fields) → String → ℕ → Result RunError FieldAgreement
compute_field_agreement bundles field threshold = do
  ks ← hash_keys (present_values bundles field)
  ok (agree_on field (length bundles) threshold ks)

-- `QUORUM_FIELDS`
abbrev pub quorum_fields : List String
quorum_fields =
    "bundle/hash" ∷ "overview/hash" ∷ "execution/summary/status" ∷ "execution/summary/totals/total"
    ∷ "execution/summary/totals/passed" ∷ "execution/summary/totals/failed"
    ∷ "execution/summary/totals/expected-failed" ∷ "execution/summary/totals/unexpected-failed"
    ∷ "source/tree-hash" ∷ "source/tree-hash-algorithm" ∷ []

unfoldable pub collect_snapshot_fields : Fields → Result RunError (List String)
collect_snapshot_fields bundle =
    if is_truthy (get "registry/snapshot" bundle)
    then elim (get "registry/snapshot" bundle) [
      | obj fs ↦ ok (map (λ k. join "registry/snapshot/" k) (keys fs))
      | _ ↦ err not_a_dict
    ]
    else ok []

-- The snapshot fields of every bundle that is there.
unfoldable pub all_snapshot_fields : List (Option Fields) → Result RunError (List String)
unfolding collect_snapshot_fields
all_snapshot_fields [] = ok []
all_snapshot_fields (none ∷ bundles) = all_snapshot_fields bundles
all_snapshot_fields (some b ∷ bundles) = do
  ks ← collect_snapshot_fields b
  rest ← all_snapshot_fields bundles
  ok (ks ++ rest)

abbrev pub is_insufficient_data : FieldAgreement → Bool
is_insufficient_data a = elim a.status [ insufficient_data ↦ true | _ ↦ false ]

abbrev pub is_insufficient : FieldAgreement → Bool
is_insufficient a = elim a.status [ insufficient_agreement ↦ true | _ ↦ false ]

abbrev pub is_confirmed : FieldAgreement → Bool
is_confirmed a = elim a.status [ confirmed ↦ true | _ ↦ false ]

-- The loop over the fields, which leaves out those without data.
unfoldable pub agreements :
    List (Option Fields) → ℕ → List String → Result RunError (List FieldAgreement)
agreements bundles threshold [] = ok []
agreements bundles threshold (field ∷ fields) = do
  a ← compute_field_agreement bundles field threshold
  rest ← agreements bundles threshold fields
  ok (if is_insufficient_data a then rest else a ∷ rest)

pub data QuorumStatus : Type 0 where
  quorum_confirmed quorum_failed non_deterministic inconclusive : QuorumStatus

unfoldable pub quorum_status : Bool → List FieldAgreement → QuorumStatus
quorum_status all_executed results =
    let confirmed_fields = length (filter is_confirmed results) in
    let total_compared = length results in
    if not all_executed
    then quorum_failed
    else if ltb 0 (length (filter is_insufficient results))
    then non_deterministic
    else if confirmed_fields == total_compared && ltb 0 total_compared
    then quorum_confirmed
    else inconclusive

-- `quorum`, from the bundles that the runs left.
unfoldable pub quorum :
    List (Option Fields) → ℕ → Result RunError (QuorumStatus × List FieldAgreement)
quorum bundles threshold = do
  snapshot_fields ← all_snapshot_fields bundles
  results ← agreements bundles threshold (quorum_fields ++ sorted_set snapshot_fields)
  ok (quorum_status (all is_some bundles) results, results)
