-- ===== src/Mailbox/Validate.antt =====
-- scripts/forensic/mailbox.py: `validate_mailbox` on a snapshot of the mailbox. The snapshot has the
-- files that the validation of one run request reads, the submissions in the order of their names.
pub mod Clean
pub mod Sound
pub mod Loop
pub mod Report
mod Examples
use protocol_robustness_fram.Prelude.{
  ℕ, suc, length, ◌==◌, String, Bool, true, false, List, [], ◌∷◌, ◌++◌, map, Option, none, some,
  is_empty, not, if◌then◌else◌,
}
use protocol_robustness_fram.Prelude.Result.{Result, ok, err, ◌>>=◌}
use protocol_robustness_fram.Json.{Json, str, obj, get}
use protocol_robustness_fram.Json.Equality.{same_scalar, is_truthy}
use protocol_robustness_fram.Identity.{
  Failure, not_a_dict, IdentityRegistry, Severity, pass, warn, fail, info,
}
use protocol_robustness_fram.Signatures.{Libraries}
use protocol_robustness_fram.Mailbox.{Warning, deduplicate_submissions}
use protocol_robustness_fram.Mailbox.Submission.{
  CheckKey, CheckResult, check, Submission, to_submission, to_message, Seen, check_submissions,
  runner_equivocations, crypto_equivocations, mailbox_exists, run_count, run_request_exists,
  run_request_valid, submission_parse, submission_warning, submission_count,
}
use protocol_robustness_fram.Mailbox.Store.{prefix}
use protocol_robustness_fram.Mailbox.Outputs.{
  File, absent, unparsable, parsed, Consensus, consensus_checks, store_checks,
}

pub record Mailbox : Type 0 where
  pub metadata : File
  pub run_dirs : Option ℕ
  pub request : File
  pub submissions : List (String × Option Json)
  pub consensus : Option Consensus
  pub objects : Option (List (String × Option Json))

-- `_apply_strict`
abbrev pub upgrade : Severity → Severity
upgrade warn = fail
upgrade s = s

abbrev pub upgrade_check : CheckResult → CheckResult
upgrade_check c = check (upgrade c.status) c.key

unfoldable pub apply_strict : Bool → List CheckResult → List CheckResult
apply_strict strict checks = if strict then map upgrade_check checks else checks

-- A request that is no dict makes the `try` block raise.
unfoldable pub request_check : File → CheckResult
request_check absent = check fail run_request_valid
request_check unparsable = check fail run_request_valid
request_check (parsed v) = elim v [
  | obj rr ↦
      check
        (if same_scalar (get "run-request/schema-version" rr) (str "run-request.v1")
          then pass
          else warn)
        run_request_valid
  | _ ↦ check fail run_request_valid
]

-- The submissions that are JSON, and a failed check for each other file.
unfoldable pub parse_submissions :
    List (String × Option Json) → Result Failure (List Submission × List CheckResult)
unfolding to_submission
parse_submissions [] = ok ([], [])
parse_submissions ((name, none) ∷ files) = do
  rest ← parse_submissions files
  ok (rest.0, check fail (submission_parse (prefix 20 name)) ∷ rest.1)
parse_submissions ((name, some v) ∷ files) = do
  s ← to_submission v
  rest ← parse_submissions files
  ok (s ∷ rest.0, rest.1)

abbrev pub warning_checks : List Warning → List CheckResult
warning_checks ws = map (λ w. check warn (submission_warning w)) ws

abbrev pub count_check : Bool → CheckResult
count_check some_valid = check (if some_valid then pass else info) submission_count

-- From the request that was found to the end.
unfoldable pub validate_run :
    Libraries
    → String
    → Option IdentityRegistry
    → Bool
    → Mailbox
    → Result Failure (List CheckResult)
unfolding parse_submissions check_submissions runner_equivocations crypto_equivocations
    request_check consensus_checks store_checks
validate_run lib rrh registry required m = do
  read ← parse_submissions m.submissions
  let kept = deduplicate_submissions (map to_message read.0)
  checked ←
      check_submissions lib rrh registry required (record { runner_keys = []; crypto_keys = [] })
        read.0
  crypto ← crypto_equivocations checked.1.crypto_keys
  ok (
      request_check m.request ∷ read.1
      ++ warning_checks kept.1
      ++ count_check (not (is_empty kept.0)) ∷ []
      ++ checked.0
      ++ runner_equivocations checked.1.runner_keys
      ++ crypto
      ++ consensus_checks lib registry m.consensus
      ++ store_checks m.objects)

abbrev pub run_count_checks : Option ℕ → List CheckResult
run_count_checks none = []
run_count_checks (some n) = check info run_count ∷ []

-- The checks where the file of the request is the given one.
unfoldable pub validate_request :
    File
    → Libraries
    → String
    → Option IdentityRegistry
    → Bool
    → Bool
    → Mailbox
    → Result Failure (List CheckResult)
unfolding validate_run apply_strict
validate_request absent lib rrh registry strict required m =
    ok (apply_strict strict (check pass mailbox_exists ∷ check fail run_request_exists ∷ []))
validate_request _ lib rrh registry strict required m = do
  rest ← validate_run lib rrh registry required m
  ok (apply_strict strict (check pass mailbox_exists ∷ check pass run_request_exists ∷ rest))

-- The checks of a mailbox that has its metadata.
unfoldable pub validate_runs :
    Libraries
    → Option String
    → Option IdentityRegistry
    → Bool
    → Bool
    → Mailbox
    → Result Failure (List CheckResult)
unfolding validate_request apply_strict
validate_runs lib none registry strict required m =
    ok (apply_strict strict (check pass mailbox_exists ∷ run_count_checks m.run_dirs))
validate_runs lib (some rrh) registry strict required m =
    validate_request m.request lib rrh registry strict required m

-- A run request hash that is empty counts as none.
abbrev pub given : Option String → Option String
given none = none
given (some s) = if is_truthy (str s) then some s else none

-- The checks where `mailbox.json` is the given file.
unfoldable pub validate_metadata :
    File
    → Libraries
    → Option String
    → Option IdentityRegistry
    → Bool
    → Bool
    → Mailbox
    → Result Failure (List CheckResult)
unfolding validate_runs
validate_metadata absent lib rrh registry strict required m = ok (check fail mailbox_exists ∷ [])
validate_metadata unparsable lib rrh registry strict required m =
    ok (check fail mailbox_exists ∷ [])
validate_metadata (parsed v) lib rrh registry strict required m =
    validate_runs lib rrh registry strict required m

unfoldable pub validate_mailbox :
    Libraries
    → Option String
    → Option IdentityRegistry
    → Bool
    → Bool
    → Mailbox
    → Result Failure (List CheckResult)
unfolding validate_metadata
validate_mailbox lib rrh registry strict required m =
    validate_metadata m.metadata lib (given rrh) registry strict required m

-- `sum(1 for c in checks if c.get("check/status") == status)`
abbrev pub same_severity : Severity → Severity → Bool
same_severity pass pass = true
same_severity warn warn = true
same_severity fail fail = true
same_severity info info = true
same_severity _ _ = false

abbrev pub count_status : Severity → List CheckResult → ℕ
count_status s [] = 0
count_status s (c ∷ checks) =
    let rest = count_status s checks in if same_severity c.status s then suc rest else rest

pub record Summary : Type 0 where
  pub total : ℕ
  pub passes : ℕ
  pub infos : ℕ
  pub warns : ℕ
  pub fails : ℕ

unfoldable pub summarize : List CheckResult → Summary
summarize checks = record {
  total = length checks;
  passes = count_status pass checks;
  infos = count_status info checks;
  warns = count_status warn checks;
  fails = count_status fail checks;
}

-- What `cmd_validate` returns.
unfoldable pub exit_code : List CheckResult → ℕ
unfolding summarize
exit_code checks = if (summarize checks).fails == 0 then 0 else 1
