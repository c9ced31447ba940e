-- ===== src/Mailbox/Outputs.antt =====
-- scripts/forensic/mailbox.py: what `validate_mailbox` checks of the consensus outputs and of the
-- object store. A file is absent, no JSON, or a JSON value.
pub mod Certificate
use Prim.Native.Char.{code}
use Prim.Native.String.{[], ◌∷◌ as ◌∷ₛ◌}
use text.Mathlib.Text.{◌==◌ as str_eq, starts_with}
use protocol_robustness_fram.Prelude.{
  String, Bool, true, false, ◌&&◌, ◌||◌, not, List, [], ◌∷◌, ◌++◌, Option, none, some, is_empty,
  if◌then◌else◌,
}
use protocol_robustness_fram.Prelude.Result.{Result, ok, err}
use protocol_robustness_fram.Json.{Json, null, str, arr, obj, Fields, end, field, lookup, get}
use protocol_robustness_fram.Json.Equality.{same_scalar, is_truthy}
use protocol_robustness_fram.Identity.{Failure, IdentityRegistry, pass, warn, fail, info, Severity}
use protocol_robustness_fram.Signatures.{
  Libraries, Outcome, valid_trusted, valid_unknown, Verification, verify_message,
}
use protocol_robustness_fram.Mailbox.Store.{
  self_hash, prefix, object_hash_algorithm, object_schema_version,
}
use protocol_robustness_fram.Mailbox.Submission.{
  CheckResult, check, unless_same, certificate_hash, certificate_signature,
  certificate_no_abs_paths, certificate_parse, disagreement_exists, evidence_node_exists,
  evidence_node_execution_id, evidence_node_parse, consensus_dir, object_store, object_count,
  object_hash, object_algorithm, object_schema, object_parse,
}

pub data File : Type 0 where
  absent unparsable : File
  parsed : Json → File

-- `marker in text`
abbrev pub contains : String → String → Bool
contains marker [] = starts_with marker ""
contains marker (c ∷ₛ s) = starts_with marker (c ∷ₛ s) || contains marker s

unfoldable pub has_absolute_path : String → Bool
has_absolute_path text = contains "/tmp/" text || contains "/var/" text || contains "/home/" text

abbrev pub certificate_exclude : List String
certificate_exclude = "consensus-certificate/hash" ∷ "consensus-certificate/signature" ∷ []

unfoldable pub certificate_hash_checks : Libraries → Fields → List CheckResult
unfolding self_hash
certificate_hash_checks lib cert =
    let ch = get "consensus-certificate/hash" cert in
    if is_truthy ch
    then check
        (if same_scalar ch (str (self_hash lib certificate_exclude cert)) then pass else fail)
        certificate_hash
      ∷ []
    else []

abbrev pub is_valid : Outcome → Bool
is_valid valid_trusted = true
is_valid valid_unknown = true
is_valid _ = false

-- The message that is made of the certificate's signature and hash to verify it.
abbrev pub certificate_message : Fields → Fields
certificate_message cert =
    field "runner-message/signature" (get "consensus-certificate/signature" cert)
      (field "runner-message/hash" (get "consensus-certificate/hash" cert) end)

abbrev pub abs_path_check : Libraries → Fields → CheckResult
abs_path_check lib cert =
    check (if has_absolute_path (lib.dumps_plain cert) then warn else pass) certificate_no_abs_paths

-- The rest of the `try` block after the signature; if verifying raises, so does the block.
unfoldable pub after_verifying : Libraries → Fields → Result Failure Verification → List CheckResult
unfolding has_absolute_path
after_verifying lib cert (err e) = check fail certificate_parse ∷ []
after_verifying lib cert (ok v) =
    check (if is_valid v.outcome then pass else fail) certificate_signature
    ∷ abs_path_check lib cert
    ∷ []

unfoldable pub certificate_signature_checks :
    Libraries → Option IdentityRegistry → Fields → List CheckResult
unfolding after_verifying has_absolute_path
certificate_signature_checks lib registry cert =
    if is_truthy (get "consensus-certificate/signature" cert)
    then after_verifying lib cert (verify_message lib (certificate_message cert) registry)
    else abs_path_check lib cert ∷ []

unfoldable pub certificate_checks : Libraries → Option IdentityRegistry → File → List CheckResult
unfolding certificate_hash_checks certificate_signature_checks
certificate_checks lib registry absent = []
certificate_checks lib registry unparsable = check fail certificate_parse ∷ []
certificate_checks lib registry (parsed v) = elim v [
  | obj cert ↦ certificate_hash_checks lib cert ++ certificate_signature_checks lib registry cert
  | _ ↦ check fail certificate_parse ∷ []
]

unfoldable pub disagreement_checks : File → List CheckResult
disagreement_checks absent = []
disagreement_checks _ = check pass disagreement_exists ∷ []

-- `ev.get("execution", {}).get("execution-id")`, where it does not raise.
unfoldable pub execution_id : Json → Option Json
execution_id (obj ev) = elim (lookup "execution" ev) [
  | none ↦ some null
  | some v ↦ elim v [ obj execution ↦ some (get "execution-id" execution) | _ ↦ none ]
]
execution_id _ = none

unfoldable pub evidence_checks : File → List CheckResult
unfolding execution_id
evidence_checks absent = check info evidence_node_exists ∷ []
evidence_checks unparsable = check fail evidence_node_parse ∷ []
evidence_checks (parsed v) = elim (execution_id v) [
  | none ↦ check fail evidence_node_parse ∷ []
  | some eid ↦
      check (if same_scalar eid (str "execution/consensus") then pass else warn)
        evidence_node_execution_id
      ∷ []
]

pub record Consensus : Type 0 where
  pub certificate : File
  pub disagreement : File
  pub evidence : File

unfoldable pub consensus_checks :
    Libraries → Option IdentityRegistry → Option Consensus → List CheckResult
unfolding certificate_checks disagreement_checks evidence_checks
consensus_checks lib registry none = check info consensus_dir ∷ []
consensus_checks lib registry (some c) =
    certificate_checks lib registry c.certificate
    ++ disagreement_checks c.disagreement
    ++ evidence_checks c.evidence

-- `o_hash[:16]` does not raise: on a text or a list.
abbrev pub is_sliceable : Json → Bool
is_sliceable (str s) = true
is_sliceable (arr xs) = true
is_sliceable _ = false

unfoldable pub object_checks : String → Fields → List CheckResult
object_checks name contents =
    let h = get "object/hash" contents in
    let later =
      unless_same (get "object/hash-algorithm" contents) object_hash_algorithm
        (check warn (object_algorithm (prefix 16 name)))
      ++ unless_same (get "object/schema-version" contents) object_schema_version
          (check warn (object_schema (prefix 16 name))) in
    if is_truthy h && not (same_scalar h (str name))
    then (if is_sliceable h
        then check fail (object_hash (prefix 16 name)) ∷ later
        else check warn (object_parse (prefix 16 name)) ∷ [])
    else later

-- A file of the store by the stem of its name, `none` where it is no JSON.
unfoldable pub object_file_checks : String → Option Json → List CheckResult
unfolding object_checks
object_file_checks name none = check warn (object_parse (prefix 16 name)) ∷ []
object_file_checks name (some v) = elim v [
  | obj contents ↦ object_checks name contents
  | _ ↦ check warn (object_parse (prefix 16 name)) ∷ []
]

unfoldable pub all_object_checks : List (String × Option Json) → List CheckResult
unfolding object_file_checks
all_object_checks [] = []
all_object_checks ((name, v) ∷ files) = object_file_checks name v ++ all_object_checks files

unfoldable pub store_checks : Option (List (String × Option Json)) → List CheckResult
unfolding all_object_checks
store_checks none = check info object_store ∷ []
store_checks (some files) =
    all_object_checks files ++ (if is_empty files then check info object_count ∷ [] else [])
