-- ===== src/Signatures/Examples.antt =====
-- A library whose signatures are the key before the payload, and a registry of two runners.
use Prim.Native.String.{[], ◌∷◌ as ◌∷ₛ◌, ◌++◌ as join}
use text.Mathlib.Text.{◌==◌ as str_eq}
use text.Mathlib.TextEquality.{eq_iff}
use protocol_robustness_fram.Prelude.{
  ◌≡◌, refl, inl, inr, Bool-cases, String, false, List, [], ◌∷◌, none, some, arith, if◌then◌else◌,
}
use protocol_robustness_fram.Prelude.Result.{ok}
use protocol_robustness_fram.Json.{Json, str, obj, Fields, end, field}
use protocol_robustness_fram.Json.Equality.{same_value}
use protocol_robustness_fram.Json.Dict.{without, put, set_default}
use protocol_robustness_fram.Json.Keys.{word}
use protocol_robustness_fram.Identity.{
  IdentityRegistry, hashable, index_entry, find_entry, index_by, add, add_all, empty_registry,
  lookup_by_id, lookup_by_key, lookup_if, entry_status, status, registered_key, public_key,
}
use protocol_robustness_fram.Identity.Registered.{add_all-last}
use protocol_robustness_fram.Signatures.{
  Libraries, verifies, bad_signature, canonical_json, with_hash, sign_message, has_other_key,
  is_entry_of_other, has_other_runner, status_outcome, unless_mismatch, registry_outcome,
  outcome_record, verify_message, valid_trusted,
}
use protocol_robustness_fram.Signatures.Laws.{signed, sign_message-verify_message}
use protocol_robustness_fram.Signatures.Keyless.{registry_outcome-keyless}

abbrev pub text_of_value : Json → String
text_of_value (str s) = s
text_of_value _ = "-"

abbrev pub print : Fields → String
print end = ""
print (field k v fs) = join k (join "=" (join (text_of_value v) (join ";" (print fs))))

abbrev pub toy : Libraries
toy = record {
  dumps = print;
  dumps_plain = print;
  loads = λ text. none;
  sha256_hex = λ text. text;
  verify_key = λ seed. some seed;
  sign = λ seed payload. "s" ∷ₛ join seed payload;
  verify = λ key payload value.
      if str_eq value ("s" ∷ₛ join key payload) then verifies else bad_signature;
}

pub toy_law : (seed payload : String) → toy.verify seed payload (toy.sign seed payload) ≡ verifies
toy_law seed payload = ground (arith, eq_iff ("s" ∷ₛ join seed payload) ("s" ∷ₛ join seed payload))

starts_text : (s : String) → ◌≡◌ {A = String} ("s" ∷ₛ s) "" → ⊥
starts_text s e = cc

pub toy_text : (seed payload : String) → str_eq (toy.sign seed payload) "" ≡ false
toy_text seed payload = elim (Bool-cases (str_eq (toy.sign seed payload) "")) [
  | inl empty ↦
      absurd (starts_text (join seed payload) ((eq_iff (toy.sign seed payload) "").0 empty))
  | inr other ↦ other
]

abbrev pub alice : Fields
alice =
    field "runner/id" (str "alice")
      (field "runner/public-key" (str "k") (field "runner/status" (str "trusted") end))

abbrev pub bob : Fields
bob = field "runner/id" (str "bob") (field "runner/status" (str "trusted") end)

abbrev pub runners : List Json
runners = obj alice ∷ obj bob ∷ []

abbrev pub registry : IdentityRegistry
registry = record {
  by_id = (word "alice", alice) ∷ (word "bob", bob) ∷ [];
  by_key = (word "k", alice) ∷ [];
}

registered : add_all empty_registry runners ≡ ok registry
unfolding add_all add index_by hashable index_entry
registered = refl

add_all-last_example :
    (find_entry (word "bob") registry.by_id ≡ some bob)
    × (find_entry (word "bob") registry.by_key ≡ none)
unfolding hashable find_entry
add_all-last_example = add_all-last empty_registry registry runners registered (word "bob")

abbrev pub message : Fields
message = field "runner-message/runner-id" (str "alice") end

sign_message-verify_message_example :
    (sign_message toy "t" message "k" ≡ ok (signed toy "t" "k" "k" message))
    × (verify_message toy (signed toy "t" "k" "k" message) (some registry)
        ≡ ok (outcome_record (str "alice") (str "k") valid_trusted))
unfolding registry_outcome has_other_key has_other_runner is_entry_of_other status_outcome
    unless_mismatch status public_key lookup_by_id lookup_by_key lookup_if entry_status
    registered_key hashable find_entry canonical_json without with_hash set_default put same_value
sign_message-verify_message_example =
    sign_message-verify_message toy "t" "k" "k" message (some registry) refl (toy_law "k") refl refl
      (inl refl)

registry_outcome-keyless_example :
    registry_outcome (some registry) (str "bob") (str "stolen") ≡ ok valid_trusted
unfolding find_entry
registry_outcome-keyless_example =
    registry_outcome-keyless registry "bob" "stolen" {e = bob} refl refl refl refl refl refl
