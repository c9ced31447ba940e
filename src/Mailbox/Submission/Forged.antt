-- ===== src/Mailbox/Submission/Forged.antt =====
-- A result in the name of a registered runner, signed with another key than the registered one.
use text.Mathlib.Text.{◌==◌ as str_eq}
use protocol_robustness_fram.Prelude.{
  ◌≡◌, refl, ap, ◌∙◌, ◌⊎◌, String, true, false, [], ◌∷◌, none, some, arith,
}
use protocol_robustness_fram.Prelude.Result.{Result, ok, ◌>>=◌}
use protocol_robustness_fram.Json.{Json, str, obj, Fields, end, field, lookup, get}
use protocol_robustness_fram.Json.Equality.{is_truthy, same_value}
use protocol_robustness_fram.Json.Keys.{word}
use protocol_robustness_fram.Json.Dict.{get-put_other, get-set_default_other}
use protocol_robustness_fram.Identity.{
  Failure, IdentityRegistry, pass, hashable, find_entry, lookup_by_id, registered_key, public_key,
}
use protocol_robustness_fram.Signatures.{
  Libraries, Outcome, Verification, verifies, hash_exclude_keys, message_hash, with_hash,
  has_other_key, unless_mismatch, registry_outcome, registry_key_mismatch, outcome_record,
  verify_message,
}
use protocol_robustness_fram.Signatures.Laws.{signed, sign_message-verify_message}
use protocol_robustness_fram.Mailbox.Store.{self_hash}
use protocol_robustness_fram.Mailbox.Submission.{
  Submission, check, submission_hash, short_hash, submission_checks,
}
use protocol_robustness_fram.Mailbox.Submission.Severities.{submission_checks-mismatch}

module _ (registry : IdentityRegistry) (runner own key : String) {e : Fields} where
  registry_outcome-other_key :
      str_eq runner "" ≡ false
      → find_entry (word runner) registry.by_id ≡ some e
      → get "runner/public-key" e ≡ str own
      → str_eq own "" ≡ false
      → str_eq own key ≡ false
      → is_truthy (obj e) ≡ true
      → registry_outcome (some registry) (str runner) (str key) ≡ ok registry_key_mismatch
  unfolding registry_outcome has_other_key unless_mismatch public_key lookup_by_id registered_key
      hashable same_value
  registry_outcome-other_key named listed registered given other present =
      ground (arith, named, listed, registered, given, other, present)

has_fields :
    (e : Fields) (own : String) → get "runner/public-key" e ≡ str own → is_truthy (obj e) ≡ true
has_fields end own h = cc
has_fields (field k v fs) own h = refl

module _ (lib : Libraries) (at seed key : String) (msg : Fields) where
  abbrev pub submission_of : String → Submission
  submission_of timestamp = record {
    contents = signed lib at seed key msg;
    hash = self_hash lib hash_exclude_keys (signed lib at seed key msg);
    timestamp = timestamp;
  }

  get-signed_other :
      (k : String)
      → str_eq "runner-message/signature" k ≡ false
      → str_eq "runner-message/hash" k ≡ false
      → get k (signed lib at seed key msg) ≡ get k msg
  unfolding with_hash
  get-signed_other k s h =
      get-put_other k "runner-message/signature" _ (with_hash lib msg) s
      ∙ get-set_default_other k "runner-message/hash" _ msg h

  -- A message with the right schema and run request in the name of a runner that the registry
  -- lists under another key, signed with the signer's own key, gets as a submission the one passed
  -- check of its hash, though signatures are required, if the library verifies what it signed, the
  -- message had no hash yet or the right one, and no runner, key, signature or hash is empty.
  pub submission_checks-forged :
      (rrh : String) (registry : IdentityRegistry) (runner own timestamp : String) {e : Fields}
      → lib.verify_key seed ≡ some key
      → ((payload : String) → lib.verify key payload (lib.sign seed payload) ≡ verifies)
      → str_eq key "" ≡ false
      → ((payload : String) → str_eq (lib.sign seed payload) "" ≡ false)
      → (lookup "runner-message/hash" msg ≡ none)
        ⊎ (get "runner-message/hash" msg ≡ str (message_hash lib msg))
      → is_truthy (str (submission_of timestamp).hash) ≡ true
      → get "runner-message/runner-id" msg ≡ str runner
      → get "runner-message/schema-version" msg ≡ str "runner-message.v1"
      → get "runner-message/run-request-hash" msg ≡ str rrh
      → str_eq runner "" ≡ false
      → find_entry (word runner) registry.by_id ≡ some e
      → get "runner/public-key" e ≡ str own
      → str_eq own "" ≡ false
      → str_eq own key ≡ false
      → submission_checks lib rrh (some registry) true (submission_of timestamp)
        ≡ ok (check pass (submission_hash (short_hash (submission_of timestamp).hash)) ∷ [])
  submission_checks-forged rrh registry runner own timestamp {e} k law given text hash present from
        schema request named listed registered own_given other =
      let judged =
        registry_outcome-other_key registry runner own key named listed registered own_given other
          (has_fields e own registered) in
      let outcome : Result Failure Outcome → Result Failure Verification =
        λ r. (do o ← r; ok (outcome_record (str runner) (str key) o)) in
      let verified =
        (sign_message-verify_message lib at seed key msg (some registry) k law given (text _)
          hash).1 in
      let refused : verify_message lib (signed lib at seed key msg) (some registry)
          ≡ ok (outcome_record (str runner) (str key) registry_key_mismatch) =
        verified
        ∙ ap
            (λ (j : Json). (do
              o ← registry_outcome (some registry) j (str key)
              ok (outcome_record j (str key) o)))
            from
        ∙ ap outcome judged in
      submission_checks-mismatch lib rrh (some registry) (submission_of timestamp) present refl
        (get-signed_other "runner-message/schema-version" refl refl ∙ schema)
        (get-signed_other "runner-message/run-request-hash" refl refl ∙ request) refused refl
