-- ===== src/Mailbox/Submission/Severities.antt =====
-- How the outcomes of a signature are graded.
use text.Mathlib.TextEquality.{eq_iff}
use protocol_robustness_fram.Prelude.{◌≡◌, String, Bool, true, [], ◌∷◌, Option, some, arith}
use protocol_robustness_fram.Prelude.Result.{ok}
use protocol_robustness_fram.Json.{Json, str, get}
use protocol_robustness_fram.Json.Equality.{is_truthy}
use protocol_robustness_fram.Identity.{IdentityRegistry, severity, pass}
use protocol_robustness_fram.Signatures.{
  Libraries, hash_exclude_keys, Verification, status_outcome, registry_key_mismatch, verify_message,
}
use protocol_robustness_fram.Mailbox.Store.{self_hash}
use protocol_robustness_fram.Mailbox.Messages.{message_schema_version}
use protocol_robustness_fram.Mailbox.Submission.{
  Submission, check, submission_hash, short_hash, signature_severity, hash_check, schema_checks,
  rrh_checks, signature_checks, submission_checks,
}

-- For every status of a runner, the check of a verified signature has the severity that the
-- identity registry gives the status, whether signatures are required or not.
pub signature_severity-status :
    (required : Bool) (s : Json)
    → signature_severity required (status_outcome s) ≡ some (severity s)
unfolding signature_severity status_outcome severity
signature_severity-status required s = ground arith

-- The checks of a submission whose signature does not fit the registry.
pub submission_checks-mismatch :
    (lib : Libraries) (rrh : String) (registry : Option IdentityRegistry) (s : Submission)
    {v : Verification}
    → is_truthy (str s.hash) ≡ true
    → s.hash ≡ self_hash lib hash_exclude_keys s.contents
    → get "runner-message/schema-version" s.contents ≡ str message_schema_version
    → get "runner-message/run-request-hash" s.contents ≡ str rrh
    → verify_message lib s.contents registry ≡ ok v
    → v.outcome ≡ registry_key_mismatch
    → submission_checks lib rrh registry true s
      ≡ ok (check pass (submission_hash (short_hash s.hash)) ∷ [])
unfolding submission_checks hash_check schema_checks rrh_checks signature_checks signature_severity
submission_checks-mismatch lib rrh registry s present right schema request verified o = ground (
  arith,
  present,
  right,
  schema,
  request,
  verified,
  o,
  eq_iff rrh rrh,
  eq_iff s.hash (self_hash lib hash_exclude_keys s.contents),
)
