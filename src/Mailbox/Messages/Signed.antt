-- ===== src/Mailbox/Messages/Signed.antt =====
-- The messages of the mailbox carry their hash, and verify once they are signed.
use text.Mathlib.Text.{◌==◌ as str_eq}
use protocol_robustness_fram.Prelude.{◌≡◌, refl, sym, ap, ◌∙◌, inr, String, false, Option, some}
use protocol_robustness_fram.Prelude.Result.{ok, ◌>>=◌}
use protocol_robustness_fram.Json.{str, Fields, get}
use protocol_robustness_fram.Json.Dict.{without-put, get-put_self}
use protocol_robustness_fram.Identity.{IdentityRegistry}
use protocol_robustness_fram.Signatures.{
  Libraries, verifies, canonical_json, message_hash, hash_exclude_keys, registry_outcome,
  outcome_record, sign_message, verify_message,
}
use protocol_robustness_fram.Signatures.Laws.{signed, sign_message-verify_message}
use protocol_robustness_fram.Mailbox.Store.{canonical_json_bytes, self_hash}
use protocol_robustness_fram.Mailbox.Messages.{unhashed_message, make_message}

module _ (lib : Libraries) where
  -- The two modules compute one hash.
  pub message_hash-self_hash :
      (msg : Fields) → message_hash lib msg ≡ self_hash lib hash_exclude_keys msg
  unfolding message_hash canonical_json self_hash canonical_json_bytes
  message_hash-self_hash msg = refl

  module _ (now type runner_id : String) (extra : Fields) where
    pub make_message-hash :
        get "runner-message/hash" (make_message lib now type runner_id extra)
        ≡ str (message_hash lib (make_message lib now type runner_id extra))
    unfolding make_message message_hash canonical_json self_hash canonical_json_bytes
    make_message-hash =
        let msg = unhashed_message now type runner_id extra in
        get-put_self "runner-message/hash" _ msg
        ∙ ap (λ (kept : Fields). str (lib.sha256_hex (lib.dumps kept)))
            (sym (without-put "runner-message/hash" _ hash_exclude_keys msg refl))

    -- A message as the mailbox makes it, whatever its further fields, verifies when it was signed
    -- and is judged by the registry, if the library verifies what it signed and no key or
    -- signature is empty.
    pub make_message-verify_message :
        (registry : Option IdentityRegistry) (at seed key : String)
        → lib.verify_key seed ≡ some key
        → ((payload : String) → lib.verify key payload (lib.sign seed payload) ≡ verifies)
        → str_eq key "" ≡ false
        → ((payload : String) → str_eq (lib.sign seed payload) "" ≡ false)
        → let msg = make_message lib now type runner_id extra in
          (sign_message lib at msg seed ≡ ok (signed lib at seed key msg))
          × (verify_message lib (signed lib at seed key msg) registry ≡ (do
            o ← registry_outcome registry (get "runner-message/runner-id" msg) (str key)
            ok (outcome_record (get "runner-message/runner-id" msg) (str key) o)))
    make_message-verify_message registry at seed key k law key_text value_text =
        sign_message-verify_message lib at seed key (make_message lib now type runner_id extra)
          registry k law key_text (value_text _) (inr make_message-hash)
