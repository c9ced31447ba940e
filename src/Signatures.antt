-- ===== src/Signatures.antt =====
-- scripts/forensic/signatures.py: signing and verifying runner messages, and the key files. `json`,
-- `hashlib`, PyNaCl and the clock are the record `Libraries`, a parameter. Texts stand for the bytes
-- of their UTF-8 encoding. The detail texts of an outcome are not built, and generating a key, which
-- only draws random bytes, is not modelled.
pub mod Laws
pub mod Accepted
pub mod Vouching
pub mod Trust
pub mod Intact
pub mod Keyless
pub mod Examples
use protocol_robustness_fram.Prelude.{
  String, Bool, true, false, ◌&&◌, not, List, [], ◌∷◌, Option, none, some, if◌then◌else◌,
}
use protocol_robustness_fram.Prelude.Result.{Result, ok, err, ◌>>=◌}
use protocol_robustness_fram.Json.{Json, null, str, obj, Fields, end, field, get}
use protocol_robustness_fram.Json.Equality.{same_scalar, same_value, is_truthy}
use protocol_robustness_fram.Json.Dict.{without, put, set_default}
use protocol_robustness_fram.Identity.{
  Failure, not_json, not_a_dict, malformed_key, unknown_schema, unknown_key_type, IdentityRegistry,
  lookup_by_key, public_key, status,
}

-- What `VerifyKey(key).verify(payload, signature)` does: it returns, raises BadSignatureError, or
-- raises another exception.
pub data SignatureCheck : Type 0 where
  verifies bad_signature raises : SignatureCheck

-- `dumps` is `json.dumps(indent=2, sort_keys=True)` and `dumps_plain` is `json.dumps`; `verify_key` is the public key of a seed, `none`
-- where `SigningKey` raises. Keys and signatures are in Base64.
pub record Libraries : Type 0 where
  pub dumps : Fields → String
  pub dumps_plain : Fields → String
  pub loads : String → Option Json
  pub sha256_hex : String → String
  pub verify_key : String → Option String
  pub sign : String → String → String
  pub verify : String → String → String → SignatureCheck

abbrev pub signature_schema_version : String
signature_schema_version = "runner-signature.v1"

abbrev pub hash_exclude_keys : List String
hash_exclude_keys = "runner-message/hash" ∷ "runner-message/signature" ∷ []

abbrev pub sign_exclude_keys : List String
sign_exclude_keys = "runner-message/signature" ∷ []

unfoldable pub canonical_json : Libraries → List String → Fields → String
canonical_json lib [] msg = lib.dumps msg
canonical_json lib (k ∷ ks) msg = lib.dumps (without (k ∷ ks) msg)

unfoldable pub message_hash : Libraries → Fields → String
unfolding canonical_json
message_hash lib msg = lib.sha256_hex (canonical_json lib hash_exclude_keys msg)

abbrev pub key_file_schema_version : String
key_file_schema_version = "runner-key.v1"

-- The text that `write_key_file` writes; its dict is not sorted, so the serializer is another.
unfoldable pub key_file : (Fields → String) → String → String → String → String
key_file dumps runner_id seed_b64 pub_b64 = dumps (
    field "runner-key/schema-version" (str key_file_schema_version) (
      field "runner-key/type" (str "ed25519-seed") (
        field "runner-key/runner-id" (str runner_id) (
          field "runner-key/private-seed-b64" (str seed_b64)
            (field "runner-key/public-key-b64" (str pub_b64) end)))))

unfoldable pub check_key_file : Fields → Result Failure Fields
check_key_file key =
    if not (same_scalar (get "runner-key/schema-version" key) (str key_file_schema_version))
    then err (unknown_schema (get "runner-key/schema-version" key))
    else if not (same_scalar (get "runner-key/type" key) (str "ed25519-seed"))
    then err (unknown_key_type (get "runner-key/type" key))
    else ok key

unfoldable pub read_key_file : (String → Option Json) → String → Result Failure Fields
unfolding check_key_file
read_key_file loads text = elim (loads text) [
  | none ↦ err not_json
  | some v ↦ elim v [ obj key ↦ check_key_file key | _ ↦ err not_a_dict ]
]

unfoldable pub signature_field : String → String → String → Json
signature_field public_key value signed_at = obj (
    field "runner-signature/schema-version" (str signature_schema_version) (
      field "runner-signature/algorithm" (str "ed25519") (
        field "runner-signature/public-key" (str public_key) (
          field "runner-signature/value" (str value)
            (field "runner-signature/signed-at" (str signed_at) end)))))

-- The message with its hash, where it has no such key yet.
unfoldable pub with_hash : Libraries → Fields → Fields
unfolding message_hash
with_hash lib msg = set_default "runner-message/hash" (str (message_hash lib msg)) msg

unfoldable pub sign_message : Libraries → String → Fields → String → Result Failure Fields
unfolding with_hash canonical_json signature_field
sign_message lib now msg seed =
    let hashed = with_hash lib msg in
    elim (lib.verify_key seed) [
      | none ↦ err malformed_key
      | some key ↦ ok (
          put "runner-message/signature"
            (signature_field key (lib.sign seed (canonical_json lib sign_exclude_keys hashed)) now)
            hashed)
    ]

pub data Outcome : Type 0 where
  unsigned malformed hash_mismatch invalid_signature registry_key_mismatch : Outcome
  valid_trusted valid_unknown valid_inactive valid_revoked : Outcome

pub record Verification : Type 0 where
  pub outcome : Outcome
  pub runner_id : Json
  pub public_key : Json

-- The checks on the parts of the signature field.
unfoldable pub is_complete : Fields → Bool
is_complete sig =
    same_scalar (get "runner-signature/schema-version" sig) (str signature_schema_version)
    && same_scalar (get "runner-signature/algorithm" sig) (str "ed25519")
    && is_truthy (get "runner-signature/public-key" sig)
    && is_truthy (get "runner-signature/value" sig)

-- A key or a signature that is no text makes the decoding raise.
unfoldable pub check_signature : Libraries → Json → String → Json → SignatureCheck
check_signature lib key payload value = elim key [
  | str k ↦ elim value [ str v ↦ lib.verify k payload v | _ ↦ raises ]
  | _ ↦ raises
]

-- The registry binds the runner to another key.
unfoldable pub has_other_key : IdentityRegistry → Json → Json → Result Failure Bool
has_other_key r runner key =
    if is_truthy runner
    then (do k ← public_key r runner; ok (is_truthy k && not (same_value k key)))
    else ok false

unfoldable pub is_entry_of_other : Option Fields → Json → Bool
is_entry_of_other none runner = false
is_entry_of_other (some e) runner =
    is_truthy (obj e)
    && is_truthy (get "runner/id" e)
    && is_truthy runner
    && not (same_value (get "runner/id" e) runner)

-- The registry binds the key to another runner.
unfoldable pub has_other_runner : IdentityRegistry → Json → Json → Result Failure Bool
unfolding is_entry_of_other
has_other_runner r runner key =
    if is_truthy key
    then (do e ← lookup_by_key r key; ok (is_entry_of_other e runner))
    else ok false

unfoldable pub status_outcome : Json → Outcome
status_outcome s =
    if same_scalar s (str "trusted")
    then valid_trusted
    else if same_scalar s (str "unknown")
    then valid_unknown
    else if same_scalar s (str "inactive")
    then valid_inactive
    else if same_scalar s (str "revoked")
    then valid_revoked
    else valid_unknown

unfoldable pub unless_mismatch : Bool → Result Failure Outcome → Result Failure Outcome
unless_mismatch true next = ok registry_key_mismatch
unless_mismatch false next = next

-- The outcome for a signature that verifies.
unfoldable pub registry_outcome : Option IdentityRegistry → Json → Json → Result Failure Outcome
unfolding has_other_key has_other_runner status_outcome unless_mismatch
registry_outcome none runner key = ok valid_unknown
registry_outcome (some r) runner key = do
  other_key ← has_other_key r runner key
  unless_mismatch other_key (do
    other_runner ← has_other_runner r runner key
    unless_mismatch other_runner (do s ← status r runner key; ok (status_outcome s)))

abbrev pub outcome_record : Json → Json → Outcome → Verification
outcome_record runner key o = record { outcome = o; runner_id = runner; public_key = key }

-- `msg_hash and msg_hash != expected_hash`
abbrev pub hash_changed : Json → String → Bool
hash_changed hash expected = is_truthy hash && not (same_scalar hash (str expected))

unfoldable pub after_check : SignatureCheck → Result Failure Outcome → Result Failure Outcome
after_check verifies next = next
after_check bad_signature next = ok invalid_signature
after_check raises next = ok malformed

-- From the hash check on, for a complete signature field.
unfoldable pub verify_complete :
    Libraries → Fields → Fields → Option IdentityRegistry → Result Failure Outcome
unfolding message_hash check_signature canonical_json registry_outcome after_check
verify_complete lib msg sig registry =
    let key = get "runner-signature/public-key" sig in
    let value = get "runner-signature/value" sig in
    if hash_changed (get "runner-message/hash" msg) (message_hash lib msg)
    then ok hash_mismatch
    else after_check (check_signature lib key (canonical_json lib sign_exclude_keys msg) value)
        (registry_outcome registry (get "runner-message/runner-id" msg) key)

unfoldable pub verify_dict :
    Libraries → Fields → Fields → Option IdentityRegistry → Result Failure Verification
unfolding verify_complete is_complete
verify_dict lib msg sig registry =
    let runner = get "runner-message/runner-id" msg in
    if is_complete sig
    then (do
      o ← verify_complete lib msg sig registry
      ok (outcome_record runner (get "runner-signature/public-key" sig) o))
    else ok (outcome_record runner null malformed)

unfoldable pub verify_field :
    Libraries → Fields → Json → Option IdentityRegistry → Result Failure Verification
unfolding verify_dict
verify_field lib msg (obj sig) registry = verify_dict lib msg sig registry
verify_field lib msg _ registry =
    ok (outcome_record (get "runner-message/runner-id" msg) null malformed)

unfoldable pub verify_message :
    Libraries → Fields → Option IdentityRegistry → Result Failure Verification
unfolding verify_field
verify_message lib msg registry =
    if is_truthy (get "runner-message/signature" msg)
    then verify_field lib msg (get "runner-message/signature" msg) registry
    else ok (outcome_record (get "runner-message/runner-id" msg) null unsigned)
