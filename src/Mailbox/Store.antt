-- ===== src/Mailbox/Store.antt =====
-- scripts/forensic/mailbox.py: the content-addressed objects. The files of a mailbox are a map from
-- paths to texts; directories are created where they are missing and are not modelled.
pub mod RoundTrip
use Prim.Native.String.{[], ◌∷◌ as ◌∷ₛ◌, ◌++◌ as join}
use text.Mathlib.Text.{◌==◌ as str_eq}
use protocol_robustness_fram.Prelude.{
  ℕ, zero, suc, String, Bool, ◌&&◌, not, List, [], ◌∷◌, ◌++◌, Option, none, some, if◌then◌else◌,
}
use protocol_robustness_fram.Json.{
  Json, null, str, obj, Fields, end, field, lookup, get, keys, elem,
}
use protocol_robustness_fram.Json.Equality.{same_scalar, is_truthy}
use protocol_robustness_fram.Json.Dict.{without, put, set_default}
use protocol_robustness_fram.Signatures.{Libraries}

abbrev pub Files : Type 0
Files = List (String × String)

unfoldable pub write_text : String → String → Files → Files
write_text path text [] = (path, text) ∷ []
write_text path text ((p, t) ∷ files) =
    let rest = write_text path text files in
    if str_eq p path then (p, text) ∷ files else (p, t) ∷ rest

unfoldable pub read_text : String → Files → Option String
read_text path [] = none
read_text path ((p, t) ∷ files) =
    let rest = read_text path files in if str_eq p path then some t else rest

unfoldable pub canonical_json_bytes : Libraries → List String → Fields → String
canonical_json_bytes lib [] fs = lib.dumps fs
canonical_json_bytes lib (k ∷ ks) fs = lib.dumps (without (k ∷ ks) fs)

unfoldable pub self_hash : Libraries → List String → Fields → String
unfolding canonical_json_bytes
self_hash lib exclude fs = lib.sha256_hex (canonical_json_bytes lib exclude fs)

-- `s[:n]`
abbrev pub prefix : ℕ → String → String
prefix zero s = ""
prefix (suc n) [] = ""
prefix (suc n) (c ∷ₛ s) = c ∷ₛ prefix n s

unfoldable pub object_path : String → String → String
object_path root h =
    join root (join "/objects/sha256/" (join (prefix 2 h) (join "/" (join h ".json"))))

abbrev pub object_schema_version : String
object_schema_version = "mailbox-object.v1"

abbrev pub object_hash_algorithm : String
object_hash_algorithm = "sha256-json-canonical-v1"

unfoldable pub stamp_object : Fields → Fields
stamp_object fs = set_default "object/hash" null (
    set_default "object/hash-algorithm" (str object_hash_algorithm)
      (set_default "object/schema-version" (str object_schema_version) fs))

-- `set(exclude_keys or []) | {"object/hash"}`; only membership in it counts.
abbrev pub object_exclude : List String → List String
object_exclude exclude = "object/hash" ∷ exclude

unfoldable pub object_hash : Libraries → List String → Fields → String
unfolding stamp_object self_hash
object_hash lib exclude fs = self_hash lib (object_exclude exclude) (stamp_object fs)

unfoldable pub stored_object : Libraries → List String → Fields → Fields
unfolding object_hash stamp_object
stored_object lib exclude fs =
    put "object/hash" (str (object_hash lib exclude fs)) (stamp_object fs)

-- The hash that `write_object` returns, and the files after it.
unfoldable pub write_object : Libraries → String → List String → Fields → Files → String × Files
unfolding object_hash stored_object object_path write_text
write_object lib root exclude fs files =
    let h = object_hash lib exclude fs in
    (h, write_text (object_path root h) (lib.dumps (stored_object lib exclude fs)) files)

unfoldable pub accept_algorithm : Fields → Option Fields
accept_algorithm contents =
    if is_truthy (get "object/hash-algorithm" contents)
      && not (same_scalar (get "object/hash-algorithm" contents) (str object_hash_algorithm))
    then none
    else some contents

unfoldable pub read_object : Libraries → String → String → Files → Option Fields
unfolding object_path read_text accept_algorithm
read_object lib root h files = elim (read_text (object_path root h) files) [
  | none ↦ none
  | some text ↦ elim (lib.loads text) [
    | none ↦ none
    | some v ↦ elim v [ obj contents ↦ accept_algorithm contents | _ ↦ none ]
  ]
]

-- `for k in exclude: if k in stamped: stamped[k] = h`
unfoldable pub set_present : List String → Json → Fields → Fields
set_present [] v fs = fs
set_present (k ∷ ks) v fs =
    let present = set_present ks v (put k v fs) in
    let missing = set_present ks v fs in if elem k (keys fs) then present else missing

unfoldable pub write_self_addressed :
    Libraries → String → List String → Fields → Files → String × Files
unfolding self_hash set_present write_object
write_self_addressed lib root exclude fs files =
    let h = self_hash lib exclude fs in
    (h, (write_object lib root exclude (set_present exclude (str h) fs) files).1)

-- `if certificate:`; an output that is None or empty is not written.
unfoldable pub write_output : Libraries → String → Option Fields → Files → Files
unfolding write_text
write_output lib path none files = files
write_output lib path (some fs) files =
    if is_truthy (obj fs) then write_text path (lib.dumps fs) files else files

unfoldable pub store_output : Libraries → String → List String → Option Fields → Files → Files
unfolding write_object
store_output lib root exclude none files = files
store_output lib root exclude (some fs) files =
    if is_truthy (obj fs) then (write_object lib root exclude fs files).1 else files

unfoldable pub write_consensus_outputs :
    Libraries → String → String → Option Fields → Option Fields → Option Fields → Files → Files
unfolding write_output store_output
write_consensus_outputs lib root run_request_hash certificate disagreement evidence files =
    let dir = join root (join "/runs/" (join run_request_hash "/consensus/")) in
    let with_certificate =
      write_output lib (join dir "consensus-certificate.json") certificate files in
    let with_report =
      write_output lib (join dir "disagreement-report.json") disagreement with_certificate in
    let with_evidence = write_output lib (join dir "evidence-node.json") evidence with_report in
    let stored_certificate =
      store_output lib root ("consensus-certificate/hash" ∷ "consensus-certificate/signature" ∷ [])
        certificate with_evidence in
    let stored_report =
      store_output lib root ("disagreement/hash" ∷ []) disagreement stored_certificate in
    store_output lib root [] evidence stored_report
