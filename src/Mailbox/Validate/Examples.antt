-- ===== src/Mailbox/Validate/Examples.antt =====
-- Two signed submissions of one run request, and a signed certificate.
use mathlib.Core.List.{Memᴰ}
use text.Mathlib.Text.{◌==◌ as str_eq}
use protocol_robustness_fram.Prelude.{
  ◌≡◌, refl, inr, true, List, [], ◌∷◌, map, none, some, All, if◌then◌else◌,
}
use protocol_robustness_fram.Prelude.Result.{ok, err, ◌>>=◌}
use protocol_robustness_fram.Json.{str, obj, Fields, end, field, get}
use protocol_robustness_fram.Json.Keys.{word}
use protocol_robustness_fram.Json.Equality.{same_value}
use protocol_robustness_fram.Json.Dict.{put, set_default, update, without}
use protocol_robustness_fram.Identity.{
  pass, fail, hashable, find_entry, severity, public_key, lookup_by_key, status,
}
use protocol_robustness_fram.Mailbox.{
  deduplicate_submissions, group_messages, add_grouped, append_message, runner_of, is_blank,
  malformed_warnings, unique_messages, latest, choose, choose_all, equivocation_warnings,
}
use protocol_robustness_fram.Signatures.{
  Libraries, hash_exclude_keys, status_outcome, with_hash, signature_field, outcome_record,
  registry_outcome, sign_message, verify_message,
}
use protocol_robustness_fram.Signatures.Laws.{signed}
use protocol_robustness_fram.Signatures.Examples.{toy, toy_law, toy_text, alice, registry, print}
use protocol_robustness_fram.Mailbox.Messages.{make_message, get_or}
use protocol_robustness_fram.Mailbox.Messages.Signed.{make_message-verify_message}
use protocol_robustness_fram.Mailbox.Store.{
  self_hash, stored_object, write_object, read_object, object_exclude,
}
use protocol_robustness_fram.Mailbox.Store.RoundTrip.{write_object-read_object}
use protocol_robustness_fram.Mailbox.Outputs.{parsed, certificate_signature_checks, abs_path_check}
use protocol_robustness_fram.Mailbox.Outputs.Certificate.{certificate_signature-fails}
use protocol_robustness_fram.Mailbox.Submission.{
  CheckResult, check, Submission, claimed_key, signature_severity, certificate_signature,
  submission_hash, short_hash, submission_checks,
}
use protocol_robustness_fram.Mailbox.Submission.Severities.{signature_severity-status}
use protocol_robustness_fram.Mailbox.Submission.Forged.{
  submission_of as forged_submission, submission_checks-forged,
}
use protocol_robustness_fram.Mailbox.Validate.{
  Mailbox, exit_code, validate_mailbox, parse_submissions,
}
use protocol_robustness_fram.Mailbox.Validate.Sound.{Sound}
use protocol_robustness_fram.Mailbox.Validate.Report.{
  validate_mailbox-Sound, validate_mailbox-one_hash,
}

abbrev extra : Fields
extra = field "runner-message/run-request-hash" (str "rr") end

abbrev unsigned_message : Fields
unsigned_message = make_message toy "t" "result-submission" "alice" extra

abbrev submitted : Fields
submitted = signed toy "t" "k" "k" unsigned_message

abbrev mailbox : Mailbox
mailbox = record {
  metadata = parsed (obj end);
  run_dirs = some 1;
  request = parsed (obj (field "run-request/schema-version" (str "run-request.v1") end));
  submissions = ("a.json", some (obj submitted)) ∷ ("b.json", some (obj submitted)) ∷ [];
  consensus = none;
  objects = none;
}

make_message-verify_message_example :
    (sign_message toy "t" unsigned_message "k" ≡ ok submitted)
    × (verify_message toy submitted (some registry) ≡ (do
      o ←
          registry_outcome
            (some registry)
            (get "runner-message/runner-id" unsigned_message)
            (str "k")
      ok (outcome_record (get "runner-message/runner-id" unsigned_message) (str "k") o)))
make_message-verify_message_example =
    make_message-verify_message toy "t" "result-submission" "alice" extra (some registry) "t" "k"
      "k" refl (toy_law "k") refl (toy_text "k")

abbrev report : List CheckResult
report = elim (validate_mailbox toy (some "rr") (some registry) true true mailbox) [
  | ok checks ↦ checks
  | err e ↦ []
]

reported : validate_mailbox toy (some "rr") (some registry) true true mailbox ≡ ok report
unfolding validate_mailbox put with_hash set_default make_message update without verify_message
    signature_field public_key same_value lookup_by_key status get_or deduplicate_submissions
    group_messages add_grouped append_message runner_of is_blank malformed_warnings unique_messages
    latest choose choose_all equivocation_warnings
reported = refl

passed : exit_code report ≡ 0
unfolding exit_code validate_mailbox put with_hash set_default make_message update without
    verify_message signature_field public_key same_value lookup_by_key status get_or
    deduplicate_submissions group_messages add_grouped append_message runner_of is_blank
    malformed_warnings unique_messages latest choose choose_all equivocation_warnings
passed = refl

validate_mailbox-Sound_example :
    (ss : List Submission) × (map (λ s. some (obj s.contents)) ss
      ≡ map (λ f. f.1) mailbox.submissions)
    × All (Sound toy "rr" (some registry)) ss
validate_mailbox-Sound_example =
    validate_mailbox-Sound toy "rr" (some registry) mailbox refl reported passed

abbrev submission_of : Fields → Submission
submission_of fs = record {
  contents = fs;
  hash = self_hash toy hash_exclude_keys fs;
  timestamp = "t";
}

abbrev read : List Submission × List CheckResult
read = (submission_of submitted ∷ submission_of submitted ∷ [], [])

parsed_submissions : parse_submissions mailbox.submissions ≡ ok read
unfolding parse_submissions put make_message update without signature_field with_hash set_default
    self_hash
parsed_submissions = refl

validate_mailbox-one_hash_example : (submission_of submitted).hash ≡ (submission_of submitted).hash
unfolding claimed_key put make_message update without signature_field with_hash set_default hashable
validate_mailbox-one_hash_example =
    validate_mailbox-one_hash toy "rr" (some registry) mailbox refl reported passed
      parsed_submissions (submission_of submitted) (submission_of submitted) (word "k")
      (Memᴰ.head refl) (Memᴰ.tail (Memᴰ.head refl)) refl refl refl refl

-- A message in the name of alice, signed with another key.
abbrev claimed : Fields
claimed = make_message toy "t" "result-submission" "alice" extra

abbrev forged : Submission
forged = forged_submission toy "t" "q" "q" claimed "t"

submission_checks-forged_example :
    submission_checks toy "rr" (some registry) true forged
    ≡ ok (check pass (submission_hash (short_hash forged.hash)) ∷ [])
unfolding put make_message update without signature_field with_hash set_default self_hash find_entry
submission_checks-forged_example =
    submission_checks-forged toy "t" "q" "q" claimed "rr" registry "alice" "k" "t" {e = alice} refl
      (toy_law "q") refl (toy_text "q") (inr refl) refl refl refl refl refl refl refl refl refl

signature_severity-status_example :
    signature_severity true (status_outcome (str "suspended")) ≡ some (severity (str "suspended"))
signature_severity-status_example = signature_severity-status true (str "suspended")

abbrev certificate : Fields
certificate = field "consensus-certificate/hash" (str "h") (
    field "consensus-certificate/signature" (obj (field "runner-signature/value" (str "v") end))
      end)

certificate_signature-fails_example :
    certificate_signature_checks toy (some registry) certificate
    ≡ check fail certificate_signature ∷ abs_path_check toy certificate ∷ []
certificate_signature-fails_example =
    certificate_signature-fails toy (some registry) certificate refl refl refl

abbrev object : Fields
object = field "artifact/bundle-path" (str "b") end

-- A library that reads back the one stored text.
abbrev reading : Libraries
reading = record toy {
  loads = λ text.
      if str_eq text (print (stored_object toy [] object))
      then some (obj (stored_object toy [] object))
      else none;
}

write_object-read_object_example :
    (read_object reading "m"
        (write_object reading "m" [] object []).0
        (write_object reading "m" [] object []).1
      ≡ some (stored_object toy [] object))
    × (self_hash reading (object_exclude []) (stored_object reading [] object)
        ≡ (write_object reading "m" [] object []).0)
    × (get "object/hash" (stored_object reading [] object)
        ≡ str (write_object reading "m" [] object []).0)
unfolding stored_object without put set_default
write_object-read_object_example =
    write_object-read_object reading "m" [] object [] {back = stored_object toy [] object} refl refl
      refl
