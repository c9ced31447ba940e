-- ===== src/Mailbox/Validate/Report.antt =====
-- The whole report: what a strict validation without a failed check says.
use mathlib.Core.List.{Memᴰ}
use protocol_robustness_fram.Prelude.{
  ◌≡◌, sym, ap, subst, ◌∙◌, String, true, not, List, [], ◌∷◌, ◌++◌, map, Option, some, All, arith,
  is_empty,
}
use protocol_robustness_fram.Prelude.Result.{ok, ◌>>=◌, >>=-eq-ok, ok_inj}
use protocol_robustness_fram.Prelude.Filter.{All-Mem}
use protocol_robustness_fram.Json.{str, obj}
use protocol_robustness_fram.Json.Equality.{is_truthy}
use protocol_robustness_fram.Json.Keys.{Key}
use protocol_robustness_fram.Identity.{hashable, IdentityRegistry, pass}
use protocol_robustness_fram.Signatures.{Libraries}
use protocol_robustness_fram.Mailbox.{deduplicate_submissions}
use protocol_robustness_fram.Mailbox.Outputs.{
  absent, unparsable, parsed, File, consensus_checks, store_checks,
}
use protocol_robustness_fram.Mailbox.Submission.{
  CheckResult, check, Submission, to_message, Seen, claimed_key, check_submissions,
  crypto_equivocations, runner_equivocations, mailbox_exists, run_request_exists,
}
use protocol_robustness_fram.Mailbox.Submission.Tracking.{hashes_of, unique_texts-one}
use protocol_robustness_fram.Mailbox.Validate.{
  Mailbox, apply_strict, request_check, parse_submissions, warning_checks, count_check,
  validate_run, validate_request, validate_runs, validate_metadata, exit_code, given,
  validate_mailbox,
}
use protocol_robustness_fram.Mailbox.Validate.Clean.{
  clean, no_failure, clean-append, clean-apply_strict, exit_code-no_failure,
}
use protocol_robustness_fram.Mailbox.Validate.Sound.{Sound}
use protocol_robustness_fram.Mailbox.Validate.Loop.{
  nothing_seen, parse_submissions-Parsed, check_submissions-Sound, check_submissions-notes,
  crypto_equivocations-clean,
}

module _ (lib : Libraries) (rrh : String) (registry : Option IdentityRegistry) (m : Mailbox) where
  -- The parts of a clean report on a run request.
  record CleanRun : Type 0 where
    read : List Submission × List CheckResult
    checked : List CheckResult × Seen
    crypto : List CheckResult
    parsing : parse_submissions m.submissions ≡ ok read
    checking : check_submissions lib rrh registry true nothing_seen read.0 ≡ ok checked
    looking : crypto_equivocations checked.1.crypto_keys ≡ ok crypto
    all_read : clean read.1 ≡ true
    all_checked : clean checked.0 ≡ true
    no_crypto : clean crypto ≡ true

  validate_run-CleanRun :
      {checks : List CheckResult}
      → validate_run lib rrh registry true m ≡ ok checks
      → clean checks ≡ true
      → CleanRun
  unfolding validate_run
  validate_run-CleanRun e h =
      let (read, er, e1) = >>=-eq-ok (parse_submissions m.submissions) _ e in
      let kept = deduplicate_submissions (map to_message read.0) in
      let (checked, ec, e2) =
        >>=-eq-ok (check_submissions lib rrh registry true nothing_seen read.0) _ e1 in
      let (crypto, ex, e3) = >>=-eq-ok (crypto_equivocations checked.1.crypto_keys) _ e2 in
      let upto_read = request_check m.request ∷ read.1 in
      let upto_warnings = upto_read ++ warning_checks kept.1 in
      let upto_count = upto_warnings ++ count_check (not (is_empty kept.0)) ∷ [] in
      let upto_checked = upto_count ++ checked.0 in
      let upto_runners = upto_checked ++ runner_equivocations checked.1.runner_keys in
      let upto_crypto = upto_runners ++ crypto in
      let upto_consensus = upto_crypto ++ consensus_checks lib registry m.consensus in
      let (h1, s1) =
        clean-append upto_consensus (store_checks m.objects) (ap clean (ok_inj e3) ∙ h) in
      let (h2, s2) = clean-append upto_crypto (consensus_checks lib registry m.consensus) h1 in
      let (h3, s3) = clean-append upto_runners crypto h2 in
      let (h4, s4) = clean-append upto_checked (runner_equivocations checked.1.runner_keys) h3 in
      let (h5, s5) = clean-append upto_count checked.0 h4 in
      let (h6, s6) = clean-append upto_warnings (count_check (not (is_empty kept.0)) ∷ []) h5 in
      let (h7, s7) = clean-append upto_read (warning_checks kept.1) h6 in
      let (h8, s8) = clean-append (request_check m.request ∷ []) read.1 h7 in
      record {
        read = read;
        checked = checked;
        crypto = crypto;
        parsing = er;
        checking = ec;
        looking = ex;
        all_read = s8;
        all_checked = s5;
        no_crypto = s3;
      }

  found-CleanRun :
      {checks : List CheckResult}
      → (do
        rest ← validate_run lib rrh registry true m
        ok (apply_strict true (check pass mailbox_exists ∷ check pass run_request_exists ∷ rest)))
        ≡ ok checks
      → no_failure checks ≡ true
      → CleanRun
  found-CleanRun e n =
      let (rest, er, e1) = >>=-eq-ok (validate_run lib rrh registry true m) _ e in
      let all_clean =
        clean-apply_strict (check pass mailbox_exists ∷ check pass run_request_exists ∷ rest)
          (ap no_failure (ok_inj e1) ∙ n) in
      validate_run-CleanRun er all_clean

  validate_request-CleanRun :
      (request : File) {checks : List CheckResult}
      → validate_request request lib rrh registry true true m ≡ ok checks
      → no_failure checks ≡ true
      → CleanRun
  unfolding validate_request apply_strict
  validate_request-CleanRun absent e n = absurd (let bad = ap no_failure (ok_inj e) ∙ n in cc)
  validate_request-CleanRun unparsable e n = found-CleanRun e n
  validate_request-CleanRun (parsed v) e n = found-CleanRun e n

  given-truthy : is_truthy (str rrh) ≡ true → given (some rrh) ≡ some rrh
  given-truthy t = ground (arith, t)

  validate_metadata-CleanRun :
      (metadata : File) {checks : List CheckResult}
      → validate_metadata metadata lib (some rrh) registry true true m ≡ ok checks
      → no_failure checks ≡ true
      → CleanRun
  unfolding validate_metadata validate_runs
  validate_metadata-CleanRun absent e n = absurd (let bad = ap no_failure (ok_inj e) ∙ n in cc)
  validate_metadata-CleanRun unparsable e n = absurd (let bad = ap no_failure (ok_inj e) ∙ n in cc)
  validate_metadata-CleanRun (parsed v) e n = validate_request-CleanRun m.request e n

  module _ {checks : List CheckResult} (named : is_truthy (str rrh) ≡ true)
      (reported : validate_mailbox lib (some rrh) registry true true m ≡ ok checks)
      (exits : exit_code checks ≡ 0) where
    validate_mailbox-CleanRun : CleanRun
    unfolding validate_mailbox
    validate_mailbox-CleanRun =
        validate_metadata-CleanRun m.metadata
          (ap (λ (r : Option String). validate_metadata m.metadata lib r registry true true m)
              (sym (given-truthy named))
            ∙ reported)
          (exit_code-no_failure checks exits)

    -- When a strict validation of a named run request that requires signatures exits with zero,
    -- its submission files are the contents of submissions each of which has a hash that is right,
    -- names this run request or none, and was judged valid and trusted or a registry key mismatch.
    pub validate_mailbox-Sound :
        (ss : List Submission) × (map (λ s. some (obj s.contents)) ss
          ≡ map (λ f. f.1) m.submissions)
        × All (Sound lib rrh registry) ss
    validate_mailbox-Sound =
        let run = validate_mailbox-CleanRun in
        let (all_parsed, made) = parse_submissions-Parsed m.submissions run.parsing run.all_read in
        (
          run.read.0,
          all_parsed,
          check_submissions-Sound lib rrh registry nothing_seen run.read.0 run.checking
              run.all_checked made,
        )

    -- In such a validation no two submissions that claim one key have different hashes.
    pub validate_mailbox-one_hash :
        {read : List Submission × List CheckResult}
        → parse_submissions m.submissions ≡ ok read
        → (s t : Submission) (k : Key) → Memᴰ s read.0
        → Memᴰ t read.0
        → is_truthy (claimed_key s.contents) ≡ true
        → is_truthy (claimed_key t.contents) ≡ true
        → hashable (claimed_key s.contents) ≡ ok k
        → hashable (claimed_key t.contents) ≡ ok k
        → s.hash ≡ t.hash
    validate_mailbox-one_hash {read} er s t k ms mt cs ct hs ht =
        let run = validate_mailbox-CleanRun in
        let same =
          ap (λ (r : List Submission × List CheckResult). r.0) (ok_inj (sym er ∙ run.parsing)) in
        let ms' = subst (Memᴰ s) same ms in
        let mt' = subst (Memᴰ t) same mt in
        let (all_parsed, made) = parse_submissions-Parsed m.submissions run.parsing run.all_read in
        let sound =
          check_submissions-Sound lib rrh registry nothing_seen run.read.0 run.checking
            run.all_checked made in
        let has = λ (x : Submission) (at : Memᴰ x run.read.0).
          (All-Mem (Sound lib rrh registry) run.read.0 sound at).has_hash in
        unique_texts-one s.hash t.hash (hashes_of k run.checked.1.crypto_keys)
          (crypto_equivocations-clean run.checked.1.crypto_keys k run.looking run.no_crypto)
          (check_submissions-notes lib rrh registry nothing_seen run.read.0 k run.checking ms'
            (has s ms') cs hs)
          (check_submissions-notes lib rrh registry nothing_seen run.read.0 k run.checking mt'
            (has t mt') ct ht)
