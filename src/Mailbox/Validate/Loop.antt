-- ===== src/Mailbox/Validate/Loop.antt =====
-- The loops of the validation: what a clean run of each says.
use mathlib.Core.List.{Memᴰ}
use mathlib.Core.List.Memᴰ
use protocol_robustness_fram.Prelude.{
  ◌≡◌, refl, sym, ap, subst, ◌∙◌, inl, inr, Bool-cases, String, true, false, List, [], ◌∷◌, map,
  Option, none, some, All, arith, length, ltb, if_true, if_false,
}
use protocol_robustness_fram.Prelude.Result.{ok, >>=-eq-ok, ok_inj}
use protocol_robustness_fram.Json.{Json, str, obj, elem}
use protocol_robustness_fram.Json.Equality.{is_truthy}
use protocol_robustness_fram.Json.Keys.{Key}
use protocol_robustness_fram.Identity.{hashable, IdentityRegistry}
use protocol_robustness_fram.Signatures.{Libraries}
use protocol_robustness_fram.Mailbox.Submission.{
  CheckResult, Submission, to_submission, submission_checks, Seen, Hashes, claimed_key, track,
  check_submissions, unique_texts, crypto_equivocations, short_key,
}
use protocol_robustness_fram.Mailbox.Submission.Tracking.{hashes_of, track-keeps, track-notes}
use protocol_robustness_fram.Mailbox.Validate.{parse_submissions}
use protocol_robustness_fram.Mailbox.Validate.Clean.{clean, clean-append}
use protocol_robustness_fram.Mailbox.Validate.Sound.{
  Sound, to_submission-hash, submission_checks-Sound,
}

abbrev pub Made : Submission → Type 0
Made s = to_submission (obj s.contents) ≡ ok s

abbrev pub Parsed : List (String × Option Json) → List Submission → Type 0
Parsed files ss =
    map (λ (s : Submission). some (obj s.contents)) ss
    ≡ map (λ (f : String × Option Json). f.1) files

pub parse_submissions-Parsed :
    (files : List (String × Option Json)) {read : List Submission × List CheckResult}
    → parse_submissions files ≡ ok read
    → clean read.1 ≡ true
    → Parsed files read.0 × All Made read.0
unfolding parse_submissions
parse_submissions-Parsed [] {read} e h =
    subst (λ (r : List Submission × List CheckResult). Parsed [] r.0 × All Made r.0) (ok_inj e)
      (refl, tt)
parse_submissions-Parsed ((name, none) ∷ files) {read} e h =
    let (rest, er, e1) = >>=-eq-ok (parse_submissions files) _ e in
    absurd
      (let bad = ap (λ (r : List Submission × List CheckResult). clean r.1) (ok_inj e1) ∙ h in cc)
parse_submissions-Parsed ((name, some v) ∷ files) {read} e h =
    let (s, es, e1) = >>=-eq-ok (to_submission v) _ e in
    let (rest, er, e2) = >>=-eq-ok (parse_submissions files) _ e1 in
    let (all_parsed, all_made) =
      parse_submissions-Parsed files er
        (ap (λ (r : List Submission × List CheckResult). clean r.1) (ok_inj e2) ∙ h) in
    let (dict, text) = to_submission-hash v es in
    subst
      (λ (r : List Submission × List CheckResult).
        Parsed ((name, some v) ∷ files) r.0 × All Made r.0)
      (ok_inj e2) (cc (dict, all_parsed), (ap to_submission (sym dict) ∙ es, all_made))

module _ (lib : Libraries) (rrh : String) (registry : Option IdentityRegistry) where
  pub check_submissions-Sound :
      (seen : Seen) (ss : List Submission) {out : List CheckResult × Seen}
      → check_submissions lib rrh registry true seen ss ≡ ok out
      → clean out.0 ≡ true
      → All Made ss
      → All (Sound lib rrh registry) ss
  unfolding check_submissions
  check_submissions-Sound seen [] e h made = tt
  check_submissions-Sound seen (s ∷ ss) e h (m, made) =
      let (checks, ec, e1) = >>=-eq-ok (submission_checks lib rrh registry true s) _ e in
      let (noted, et, e2) = >>=-eq-ok (track s seen) _ e1 in
      let (rest, er, e3) = >>=-eq-ok (check_submissions lib rrh registry true noted ss) _ e2 in
      let (first, later) =
        clean-append checks rest.0
          (ap (λ (o : List CheckResult × Seen). clean o.0) (ok_inj e3) ∙ h) in
      (
        submission_checks-Sound lib rrh registry s (obj s.contents) m ec first,
        check_submissions-Sound noted ss er later made,
      )

  check_submissions-keeps :
      (seen : Seen) (ss : List Submission) (g : String) (j : Key) {out : List CheckResult × Seen}
      → check_submissions lib rrh registry true seen ss ≡ ok out
      → elem g (hashes_of j seen.crypto_keys) ≡ true
      → elem g (hashes_of j out.1.crypto_keys) ≡ true
  unfolding check_submissions
  check_submissions-keeps seen [] g j e m =
      ap (λ (o : List CheckResult × Seen). elem g (hashes_of j o.1.crypto_keys)) (sym (ok_inj e))
      ∙ m
  check_submissions-keeps seen (s ∷ ss) g j e m =
      let (checks, ec, e1) = >>=-eq-ok (submission_checks lib rrh registry true s) _ e in
      let (noted, et, e2) = >>=-eq-ok (track s seen) _ e1 in
      let (rest, er, e3) = >>=-eq-ok (check_submissions lib rrh registry true noted ss) _ e2 in
      ap (λ (o : List CheckResult × Seen). elem g (hashes_of j o.1.crypto_keys)) (sym (ok_inj e3))
      ∙ check_submissions-keeps noted ss g j er (track-keeps s seen g j et m)

  pub check_submissions-notes :
      (seen : Seen) (ss : List Submission) {s : Submission} (k : Key)
      {out : List CheckResult × Seen}
      → check_submissions lib rrh registry true seen ss ≡ ok out
      → Memᴰ s ss
      → is_truthy (str s.hash) ≡ true
      → is_truthy (claimed_key s.contents) ≡ true
      → hashable (claimed_key s.contents) ≡ ok k
      → elem s.hash (hashes_of k out.1.crypto_keys) ≡ true
  unfolding check_submissions
  check_submissions-notes seen [] k e m present claimed hk = elim m [ ]
  check_submissions-notes seen (x ∷ ss) {s} k {out} e m present claimed hk =
      let (checks, ec, e1) = >>=-eq-ok (submission_checks lib rrh registry true x) _ e in
      let (noted, et, e2) = >>=-eq-ok (track x seen) _ e1 in
      let (rest, er, e3) = >>=-eq-ok (check_submissions lib rrh registry true noted ss) _ e2 in
      ap (λ (o : List CheckResult × Seen). elem s.hash (hashes_of k o.1.crypto_keys))
        (sym (ok_inj e3))
      ∙ elim (Memᴰ.cases_cons m) [
        | inl first ↦ check_submissions-keeps noted ss s.hash k er (
            track-notes s seen k (ap (λ (y : Submission). track y seen) first ∙ et) present claimed
              hk)
        | inr later ↦ check_submissions-notes noted ss k er later present claimed hk
      ]

pub crypto_equivocations-clean :
    (seen : Hashes) (k : Key) {checks : List CheckResult}
    → crypto_equivocations seen ≡ ok checks
    → clean checks ≡ true
    → ltb 1 (length (unique_texts (hashes_of k seen))) ≡ false
unfolding crypto_equivocations
crypto_equivocations-clean [] k e h = unfold unique_texts in refl
crypto_equivocations-clean ((j, hs) ∷ seen) k {checks} e h =
    let (rest, er, e1) = >>=-eq-ok (crypto_equivocations seen) _ e in
    elim (Bool-cases (ltb 1 (length (unique_texts hs)))) [
      | inl many ↦
          let (short, es, e2) = >>=-eq-ok (short_key j) _ (if_true _ _ _ many e1) in
          absurd (let bad = ap clean (ok_inj e2) ∙ h in cc)
      | inr one ↦
          let all_one =
            crypto_equivocations-clean seen k er
              (ap clean (ok_inj (if_false (ltb 1 (length (unique_texts hs))) _ _ one e1)) ∙ h) in
          ground (arith, one, all_one)
    ]

abbrev pub nothing_seen : Seen
nothing_seen = record { runner_keys = []; crypto_keys = [] }
