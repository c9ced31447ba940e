-- ===== src/Identity.antt =====
-- scripts/forensic/identity.py: `IdentityRegistry`. An entry is a dict; the registry keeps the
-- entries by runner id and by public key, in two dicts whose keys are hashable values. `json.loads`
-- is a parameter.
pub mod Registered
use protocol_robustness_fram.Prelude.{
  ℕ, String, Bool, false, List, [], ◌∷◌, Option, none, some, length, if◌then◌else◌,
}
use protocol_robustness_fram.Prelude.Result.{Result, ok, err, ◌>>=◌}
use protocol_robustness_fram.Json.{
  Json, null, bool, int, str, arr, obj, Items, Fields, end, field, lookup, get, items,
}
use protocol_robustness_fram.Json.Equality.{bool_value, same_scalar, is_truthy}
use protocol_robustness_fram.Json.Keys.{Key, nothing, number, word, same_key}

pub data Failure : Type 0 where
  not_json not_a_dict not_iterable unhashable not_text malformed_key : Failure
  unknown_schema unknown_key_type : Json → Failure

-- The value as a key of a dict.
unfoldable pub hashable : Json → Result Failure Key
hashable null = ok nothing
hashable (bool b) = ok (number (bool_value b))
hashable (int n) = ok (number n)
hashable (str s) = ok (word s)
hashable (arr xs) = err unhashable
hashable (obj fs) = err unhashable

abbrev pub Index : Type 0
Index = List (Key × Fields)

-- `index[key] = entry`
unfoldable pub index_entry : Key → Fields → Index → Index
index_entry k e [] = (k, e) ∷ []
index_entry k e ((j, d) ∷ index) =
    let rest = index_entry k e index in if same_key j k then (j, e) ∷ index else (j, d) ∷ rest

-- `index.get(key)`
unfoldable pub find_entry : Key → Index → Option Fields
find_entry k [] = none
find_entry k ((j, e) ∷ index) =
    let rest = find_entry k index in if same_key j k then some e else rest

pub record IdentityRegistry : Type 0 where
  pub by_id : Index
  pub by_key : Index

abbrev pub empty_registry : IdentityRegistry
empty_registry = record { by_id = []; by_key = [] }

-- `if rid: self._by_id[rid] = entry`, and the same for the key.
unfoldable pub index_by : Json → Fields → Index → Result Failure Index
unfolding index_entry hashable
index_by v e index =
    if is_truthy v then (do k ← hashable v; ok (index_entry k e index)) else ok index

unfoldable pub add : IdentityRegistry → Fields → Result Failure IdentityRegistry
unfolding index_by
add r e = do
  ids ← index_by (get "runner/id" e) e r.by_id
  keyed ← index_by (get "runner/public-key" e) e r.by_key
  ok (record { by_id = ids; by_key = keyed })

-- The constructor's loop: an entry that is not a dict has no `get`.
unfoldable pub add_all : IdentityRegistry → List Json → Result Failure IdentityRegistry
unfolding add
add_all r [] = ok r
add_all r (e ∷ es) = elim e [
  | obj fs ↦ add r fs >>= (λ extended. add_all extended es)
  | _ ↦ err not_a_dict
]

unfoldable pub from_runners : Json → Result Failure IdentityRegistry
unfolding add_all
from_runners runners =
    if is_truthy runners
    then elim runners [
      | arr es ↦ add_all empty_registry (items es)
      | str s ↦ err not_a_dict
      | obj fs ↦ err not_a_dict
      | _ ↦ err not_iterable
    ]
    else ok empty_registry

abbrev pub registry_schema_version : String
registry_schema_version = "runner-identity-registry.v1"

-- `IdentityRegistry.load` on the text of the file. A missing list of runners is empty.
unfoldable pub load : (String → Option Json) → String → Result Failure IdentityRegistry
unfolding from_runners
load loads text = elim (loads text) [
  | none ↦ err not_json
  | some v ↦ elim v [
    | obj contents ↦
        if same_scalar (get "identity-registry/schema-version" contents)
          (str registry_schema_version)
        then from_runners (get "runners" contents)
        else err (unknown_schema (get "identity-registry/schema-version" contents))
    | _ ↦ err not_a_dict
  ]
]

unfoldable pub lookup_by_id : IdentityRegistry → Json → Result Failure (Option Fields)
unfolding hashable find_entry
lookup_by_id r v = do k ← hashable v; ok (find_entry k r.by_id)

unfoldable pub lookup_by_key : IdentityRegistry → Json → Result Failure (Option Fields)
unfolding hashable find_entry
lookup_by_key r v = do k ← hashable v; ok (find_entry k r.by_key)

-- `if value: entry = find(value)`
unfoldable pub lookup_if :
    Json → (Json → Result Failure (Option Fields)) → Result Failure (Option Fields)
lookup_if v find = if is_truthy v then find v else ok none

-- `if not entry`: an entry without fields counts as none.
abbrev pub has_entry : Option Fields → Bool
has_entry none = false
has_entry (some e) = is_truthy (obj e)

-- `entry.get("runner/status", "unknown")`
unfoldable pub entry_status : Option Fields → Json
entry_status none = str "unknown"
entry_status (some e) =
    if is_truthy (obj e)
    then elim (lookup "runner/status" e) [ none ↦ str "unknown" | some s ↦ s ]
    else str "unknown"

unfoldable pub status : IdentityRegistry → Json → Json → Result Failure Json
unfolding lookup_by_id lookup_by_key lookup_if entry_status
status r runner_id public_key = do
  named ← lookup_if runner_id (lookup_by_id r)
  entry ← (if has_entry named then ok named else lookup_if public_key (lookup_by_key r))
  ok (entry_status entry)

-- The texts that grade a check; the registry never gives `info`.
pub data Severity : Type 0 where
  pass warn fail info : Severity

-- `STATUS_SEVERITY.get(s, "warn")`
unfoldable pub severity : Json → Severity
severity s =
    if same_scalar s (str "trusted")
    then pass
    else if same_scalar s (str "unknown")
    then warn
    else if same_scalar s (str "inactive")
    then fail
    else if same_scalar s (str "revoked")
    then fail
    else warn

unfoldable pub status_severity : IdentityRegistry → Json → Json → Result Failure Severity
unfolding status severity hashable
status_severity r runner_id public_key = do
  s ← status r runner_id public_key
  k ← hashable s
  ok (severity s)

unfoldable pub registered_key : Option Fields → Json
registered_key none = null
registered_key (some e) = if is_truthy (obj e) then get "runner/public-key" e else null

unfoldable pub public_key : IdentityRegistry → Json → Result Failure Json
unfolding lookup_by_id registered_key
public_key r runner_id = do entry ← lookup_by_id r runner_id; ok (registered_key entry)

-- `len(self._by_id)`
abbrev pub runner_count : IdentityRegistry → ℕ
runner_count r = length r.by_id

unfoldable pub make_registry : Items → Fields
make_registry runners =
    field "identity-registry/schema-version" (str registry_schema_version)
      (field "runners" (arr runners) end)
