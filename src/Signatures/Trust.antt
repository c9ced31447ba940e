-- ===== src/Signatures/Trust.antt =====
-- What a message and a registry contain if the outcome of `verify_message` is `valid-trusted`, in the
-- fields of the message, the call of the library and the entries of the registry.
use protocol_robustness_fram.Prelude.{◌≡◌, ◌≢◌, ◌⊎◌, String, false, [], ◌∷◌, Option, some}
use protocol_robustness_fram.Json.{Json, str, obj, Fields, get}
use protocol_robustness_fram.Json.Equality.{is_truthy}
use protocol_robustness_fram.Json.Dict.{without}
use protocol_robustness_fram.Identity.{IdentityRegistry}
use protocol_robustness_fram.Signatures.{Libraries, verifies}
use protocol_robustness_fram.Signatures.Vouching.{BoundKey, BoundRunner, Vouched}

pub record Trusted (lib : Libraries) (msg : Fields) (registry : Option IdentityRegistry)
    : Type 0 where
  pub signature : Fields
  pub key : String
  pub value : String
  pub registered : IdentityRegistry
  pub in_message : get "runner-message/signature" msg ≡ obj signature
  pub schema : get "runner-signature/schema-version" signature ≡ str "runner-signature.v1"
  pub algorithm : get "runner-signature/algorithm" signature ≡ str "ed25519"
  pub has_key : get "runner-signature/public-key" signature ≡ str key
  pub has_value : get "runner-signature/value" signature ≡ str value
  pub not_empty : (key ≢ "") × (value ≢ "")
  pub hash_intact :
      (is_truthy (get "runner-message/hash" msg) ≡ false)
      ⊎ (get "runner-message/hash" msg
          ≡ str (
              lib.sha256_hex (
                lib.dumps (without ("runner-message/hash" ∷ "runner-message/signature" ∷ []) msg))))
  pub verified :
      lib.verify key (lib.dumps (without ("runner-message/signature" ∷ []) msg)) value ≡ verifies
  pub in_registry : registry ≡ some registered
  pub bound_key : BoundKey registered (get "runner-message/runner-id" msg) key
  pub bound_runner : BoundRunner registered (get "runner-message/runner-id" msg) key
  pub vouched : Vouched registered (get "runner-message/runner-id" msg) key
