-- ===== src/Signatures/Laws.antt =====
-- Signing and verifying: what was signed verifies, and what an accepted message has.
use protocol_robustness_fram.Prelude.{
  ◌≡◌, refl, sym, ap, ◌∙◌, ◌⊎◌, inl, inr, Option-cases, String, true, false, Option, none, some,
  arith,
}
use text.Mathlib.Text.{◌==◌ as str_eq}
use text.Mathlib.TextEquality.{eq_iff}
use protocol_robustness_fram.Prelude.Result.{ok, ◌>>=◌}
use protocol_robustness_fram.Json.{Json, str, obj, Fields, lookup, get}
use protocol_robustness_fram.Json.Equality.{same_scalar, is_truthy}
use protocol_robustness_fram.Json.Dict.{
  put, without-put, without-set_default, get-put_self, get-put_other, get-set_default_missing,
  get-set_default_other, set_default-present,
}
use protocol_robustness_fram.Identity.{IdentityRegistry}
use protocol_robustness_fram.Signatures.{
  Libraries, verifies, canonical_json, message_hash, hash_exclude_keys, sign_exclude_keys,
  signature_field, with_hash, sign_message, is_complete, check_signature, after_check,
  registry_outcome, outcome_record, verify_complete, verify_dict, verify_field, verify_message,
}

module _ (lib : Libraries) where
  -- Neither the signature nor the hash is part of what is hashed.
  pub message_hash-signed :
      (v : Json) (msg : Fields)
      → message_hash lib (put "runner-message/signature" v (with_hash lib msg))
        ≡ message_hash lib msg
  unfolding message_hash canonical_json with_hash
  message_hash-signed v msg =
      ap (λ (fs : Fields). lib.sha256_hex (lib.dumps fs))
        (without-put "runner-message/signature" v hash_exclude_keys _ refl
          ∙ without-set_default "runner-message/hash" _ hash_exclude_keys msg refl)

  canonical_json-signed :
      (v : Json) (msg : Fields)
      → canonical_json lib sign_exclude_keys (put "runner-message/signature" v msg)
        ≡ canonical_json lib sign_exclude_keys msg
  unfolding canonical_json
  canonical_json-signed v msg =
      ap lib.dumps (without-put "runner-message/signature" v sign_exclude_keys msg refl)

  get-with_hash :
      (msg : Fields)
      → (lookup "runner-message/hash" msg ≡ none)
        ⊎ (get "runner-message/hash" msg ≡ str (message_hash lib msg))
      → get "runner-message/hash" (with_hash lib msg) ≡ str (message_hash lib msg)
  unfolding with_hash
  get-with_hash msg (inl missing) =
      get-set_default_missing "runner-message/hash" (str (message_hash lib msg)) msg missing
  get-with_hash msg (inr present) = elim (Option-cases (lookup "runner-message/hash" msg)) [
    | inl missing ↦
        get-set_default_missing "runner-message/hash" (str (message_hash lib msg)) msg missing
    | inr (hash, found) ↦
        ap (get "runner-message/hash")
          (set_default-present "runner-message/hash" (str (message_hash lib msg)) msg found)
        ∙ present
  ]

  same_hash : (h : Json) (t : String) → h ≡ str t → same_scalar h (str t) ≡ true
  same_hash h t e = ground (arith, e, eq_iff t t)

  module _ (msg sig : Fields) (registry : Option IdentityRegistry) where
    verify_message-dict :
        get "runner-message/signature" msg ≡ obj sig
        → is_truthy (obj sig) ≡ true
        → verify_message lib msg registry ≡ verify_dict lib msg sig registry
    unfolding verify_message verify_field
    verify_message-dict s t = ground (arith, s, t)

    verify_complete-registry :
        get "runner-message/hash" msg ≡ str (message_hash lib msg)
        → check_signature lib
            (get "runner-signature/public-key" sig)
            (canonical_json lib sign_exclude_keys msg)
            (get "runner-signature/value" sig)
          ≡ verifies
        → verify_complete lib msg sig registry
          ≡ registry_outcome registry
              (get "runner-message/runner-id" msg)
              (get "runner-signature/public-key" sig)
    unfolding verify_complete after_check
    verify_complete-registry h v = ground (arith, v, same_hash _ _ h)

    -- A complete signature over an unchanged message is judged by the registry.
    verify_message-registry :
        get "runner-message/signature" msg ≡ obj sig
        → is_truthy (obj sig) ≡ true
        → is_complete sig ≡ true
        → get "runner-message/hash" msg ≡ str (message_hash lib msg)
        → check_signature lib
            (get "runner-signature/public-key" sig)
            (canonical_json lib sign_exclude_keys msg)
            (get "runner-signature/value" sig)
          ≡ verifies
        → verify_message lib msg registry ≡ (do
          o ←
              registry_outcome registry
                (get "runner-message/runner-id" msg)
                (get "runner-signature/public-key" sig)
          ok (
              outcome_record
                (get "runner-message/runner-id" msg)
                (get "runner-signature/public-key" sig)
                o))
    unfolding verify_dict
    verify_message-registry s t c h v =
        verify_message-dict s t ∙ ground (arith, c, verify_complete-registry h v)

  module _ (now seed key : String) (msg : Fields) where
    abbrev signed_value : String
    signed_value = lib.sign seed (canonical_json lib sign_exclude_keys (with_hash lib msg))

    abbrev pub signed : Fields
    signed =
        put "runner-message/signature" (signature_field key signed_value now) (with_hash lib msg)

    sign_message-signed : lib.verify_key seed ≡ some key → sign_message lib now msg seed ≡ ok signed
    unfolding sign_message
    sign_message-signed k = ground (arith, k)

    get-signed : get "runner-message/signature" signed ≡ signature_field key signed_value now
    get-signed =
        get-put_self "runner-message/signature" (signature_field key signed_value now)
          (with_hash lib msg)

    get-signed_hash :
        (lookup "runner-message/hash" msg ≡ none)
          ⊎ (get "runner-message/hash" msg ≡ str (message_hash lib msg))
        → get "runner-message/hash" signed ≡ str (message_hash lib signed)
    get-signed_hash h =
        get-put_other "runner-message/hash" "runner-message/signature"
          (signature_field key signed_value now) (with_hash lib msg) refl
        ∙ get-with_hash msg h
        ∙ ap str (sym (message_hash-signed (signature_field key signed_value now) msg))

    get-signed_runner : get "runner-message/runner-id" signed ≡ get "runner-message/runner-id" msg
    unfolding with_hash
    get-signed_runner =
        get-put_other "runner-message/runner-id" "runner-message/signature"
          (signature_field key signed_value now) (with_hash lib msg) refl
        ∙ get-set_default_other "runner-message/runner-id" "runner-message/hash"
            (str (message_hash lib msg)) msg refl

    -- A signed message verifies and is judged by the registry, if its hash was absent or right,
    -- the key and the signature are not empty and the library verifies what it signed.
    pub sign_message-verify_message :
        (registry : Option IdentityRegistry)
        → lib.verify_key seed ≡ some key
        → ((payload : String) → lib.verify key payload (lib.sign seed payload) ≡ verifies)
        → str_eq key "" ≡ false
        → str_eq signed_value "" ≡ false
        → (lookup "runner-message/hash" msg ≡ none)
          ⊎ (get "runner-message/hash" msg ≡ str (message_hash lib msg))
        → (sign_message lib now msg seed ≡ ok signed)
          × (verify_message lib signed registry ≡ (do
            o ← registry_outcome registry (get "runner-message/runner-id" msg) (str key)
            ok (outcome_record (get "runner-message/runner-id" msg) (str key) o)))
    unfolding signature_field is_complete check_signature
    sign_message-verify_message registry k law key_text value_text h = (
      sign_message-signed k,
      verify_message-registry signed _ registry get-signed refl
            (ground (arith, key_text, value_text)) (get-signed_hash h)
            (ap (λ (payload : String). lib.verify key payload signed_value)
                (canonical_json-signed (signature_field key signed_value now) (with_hash lib msg))
              ∙ law (canonical_json lib sign_exclude_keys (with_hash lib msg)))
          ∙ ap
              (λ (runner : Json). (do
                o ← registry_outcome registry runner (str key)
                ok (outcome_record runner (str key) o)))
              get-signed_runner,
    )
