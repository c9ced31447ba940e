-- ===== src/Mailbox/Submission.antt =====
-- scripts/forensic/mailbox.py: what `validate_mailbox` checks of every submission, and what it keeps
-- of it to find equivocation. The texts of the checks are not built. A submission whose hash or
-- timestamp is present and no text is outside the model, which ends with `not_text`.
pub mod Severities
pub mod Forged
pub mod Tracking
use text.Mathlib.Text.{◌==◌ as str_eq}
use protocol_robustness_fram.Prelude.{
  String, Bool, true, false, ◌&&◌, not, List, [], ◌∷◌, ◌++◌, Option, none, some, length, ltb,
  if◌then◌else◌,
}
use protocol_robustness_fram.Prelude.Result.{Result, ok, err, ◌>>=◌}
use protocol_robustness_fram.Json.{Json, null, bool, int, str, arr, obj, Fields, lookup, get, elem}
use protocol_robustness_fram.Json.Equality.{same_scalar, is_truthy}
use protocol_robustness_fram.Json.Keys.{Key, nothing, number, word, same_key}
use protocol_robustness_fram.Identity.{
  Failure, not_a_dict, not_text, hashable, IdentityRegistry, Severity, pass, warn, fail, info,
}
use protocol_robustness_fram.Signatures.{
  Libraries, hash_exclude_keys, Outcome, unsigned, malformed, hash_mismatch, invalid_signature,
  registry_key_mismatch, valid_trusted, valid_unknown, valid_inactive, valid_revoked,
  verify_message,
}
use protocol_robustness_fram.Mailbox.{Message, Warning}
use protocol_robustness_fram.Mailbox.Store.{self_hash, prefix}
use protocol_robustness_fram.Mailbox.Messages.{message_schema_version, get_or}

pub data CheckKey : Type 0 where
  mailbox_exists run_count run_request_exists run_request_valid submission_count : CheckKey
  submission_parse submission_hash submission_schema submission_rrh : String → CheckKey
  submission_signature : String → CheckKey
  submission_warning : Warning → CheckKey
  equivocation_runner : Key → CheckKey
  equivocation_crypto : String → CheckKey
  certificate_hash certificate_signature certificate_no_abs_paths certificate_parse : CheckKey
  disagreement_exists evidence_node_exists evidence_node_execution_id : CheckKey
  evidence_node_parse consensus_dir object_store object_count : CheckKey
  object_hash object_algorithm object_schema object_parse : String → CheckKey

pub record CheckResult : Type 0 where
  pub status : Severity
  pub key : CheckKey

abbrev pub check : Severity → CheckKey → CheckResult
check s k = record { status = s; key = k }

pub record Submission : Type 0 where
  pub contents : Fields
  pub hash : String
  pub timestamp : String

abbrev pub text_or_empty : Option Json → Result Failure String
text_or_empty none = ok ""
text_or_empty (some v) = elim v [ str s ↦ ok s | _ ↦ err not_text ]

unfoldable pub to_submission : Json → Result Failure Submission
to_submission (obj fs) = do
  h ← text_or_empty (lookup "runner-message/hash" fs)
  t ← text_or_empty (lookup "runner-message/timestamp" fs)
  ok (record { contents = fs; hash = h; timestamp = t })
to_submission _ = err not_a_dict

-- The message that `deduplicate_submissions` reads.
abbrev pub to_message : Submission → Message
to_message s = record {
  runner_id = get "runner-message/runner-id" s.contents;
  message_hash = s.hash;
  timestamp = s.timestamp;
  content = obj s.contents;
}

-- `h[:16] if h else "?"`
abbrev pub short_hash : String → String
short_hash h = if is_truthy (str h) then prefix 16 h else "?"

unfoldable pub hash_check : Libraries → Bool → Submission → CheckResult
unfolding self_hash
hash_check lib require_signatures s =
    if is_truthy (str s.hash)
    then check (if str_eq s.hash (self_hash lib hash_exclude_keys s.contents) then pass else fail)
        (submission_hash (short_hash s.hash))
    else check (if require_signatures then fail else warn) (submission_hash (short_hash s.hash))

-- `if value and value != expected: checks.append(...)`
abbrev pub unless_same : Json → String → CheckResult → List CheckResult
unless_same v expected c = if is_truthy v && not (same_scalar v (str expected)) then c ∷ [] else []

unfoldable pub schema_checks : Submission → List CheckResult
schema_checks s =
    unless_same (get "runner-message/schema-version" s.contents) message_schema_version
      (check warn (submission_schema (short_hash s.hash)))

unfoldable pub rrh_checks : String → Submission → List CheckResult
rrh_checks run_request_hash s =
    unless_same (get "runner-message/run-request-hash" s.contents) run_request_hash
      (check fail (submission_rrh (short_hash s.hash)))

-- The branches on the outcome of the signature; two outcomes have none.
unfoldable pub signature_severity : Bool → Outcome → Option Severity
signature_severity required unsigned = some (if required then fail else info)
signature_severity required valid_trusted = some pass
signature_severity required valid_unknown = some warn
signature_severity required valid_inactive = some fail
signature_severity required valid_revoked = some fail
signature_severity required invalid_signature = some fail
signature_severity required malformed = some fail
signature_severity required hash_mismatch = none
signature_severity required registry_key_mismatch = none

unfoldable pub signature_checks : Bool → Outcome → Submission → List CheckResult
unfolding signature_severity
signature_checks required o s = elim (signature_severity required o) [
  | none ↦ []
  | some grade ↦ check grade (submission_signature (short_hash s.hash)) ∷ []
]

unfoldable pub submission_checks :
    Libraries
    → String
    → Option IdentityRegistry
    → Bool
    → Submission
    → Result Failure (List CheckResult)
unfolding hash_check schema_checks rrh_checks signature_checks
submission_checks lib run_request_hash registry required s = do
  v ← verify_message lib s.contents registry
  ok (
      hash_check lib required s ∷ schema_checks s
      ++ rrh_checks run_request_hash s
      ++ signature_checks required v.outcome s)

abbrev pub Hashes : Type 0
Hashes = List (Key × List String)

-- `seen.setdefault(key, []).append(h)`
unfoldable pub note_hash : Key → String → Hashes → Hashes
note_hash k h [] = (k, h ∷ []) ∷ []
note_hash k h ((j, hs) ∷ seen) =
    let rest = note_hash k h seen in
    if same_key j k then (j, hs ++ h ∷ []) ∷ seen else (j, hs) ∷ rest

pub record Seen : Type 0 where
  pub runner_keys : Hashes
  pub crypto_keys : Hashes

-- The key that a message claims to be signed with.
unfoldable pub claimed_key : Fields → Json
claimed_key fs = elim (get "runner-message/signature" fs) [
  | obj sig ↦ get "runner-signature/public-key" sig
  | _ ↦ null
]

unfoldable pub note_crypto : Json → String → Hashes → Result Failure Hashes
unfolding note_hash hashable
note_crypto key h seen =
    if is_truthy key then (do k ← hashable key; ok (note_hash k h seen)) else ok seen

unfoldable pub track : Submission → Seen → Result Failure Seen
unfolding note_hash note_crypto claimed_key hashable
track s seen =
    if is_truthy (str s.hash)
    then (do
      rid ← hashable (get_or "runner-message/runner-id" (str "?") s.contents)
      keyed ← note_crypto (claimed_key s.contents) s.hash seen.crypto_keys
      ok (record { runner_keys = note_hash rid s.hash seen.runner_keys; crypto_keys = keyed }))
    else ok seen

-- The loop over the submissions: the checks, and what was seen.
unfoldable pub check_submissions :
    Libraries
    → String
    → Option IdentityRegistry
    → Bool
    → Seen
    → List Submission
    → Result Failure (List CheckResult × Seen)
unfolding submission_checks track
check_submissions lib run_request_hash registry required seen [] = ok ([], seen)
check_submissions lib run_request_hash registry required seen (s ∷ ss) = do
  checks ← submission_checks lib run_request_hash registry required s
  noted ← track s seen
  rest ← check_submissions lib run_request_hash registry required noted ss
  ok (checks ++ rest.0, rest.1)

-- `set(hashes)`
unfoldable pub unique_texts : List String → List String
unique_texts [] = []
unique_texts (h ∷ hs) = let rest = unique_texts hs in if elem h rest then rest else h ∷ rest

unfoldable pub runner_equivocations : Hashes → List CheckResult
unfolding unique_texts
runner_equivocations [] = []
runner_equivocations ((k, hs) ∷ seen) =
    let rest = runner_equivocations seen in
    if ltb 1 (length (unique_texts hs)) then check warn (equivocation_runner k) ∷ rest else rest

-- `pk[:16]`
abbrev pub short_key : Key → Result Failure String
short_key (word s) = ok (prefix 16 s)
short_key (number n) = err not_text
short_key nothing = err not_text

unfoldable pub crypto_equivocations : Hashes → Result Failure (List CheckResult)
unfolding unique_texts
crypto_equivocations [] = ok []
crypto_equivocations ((k, hs) ∷ seen) = do
  rest ← crypto_equivocations seen
  if ltb 1 (length (unique_texts hs))
      then (do short ← short_key k; ok (check fail (equivocation_crypto short) ∷ rest))
      else ok rest
