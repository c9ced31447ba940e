-- ===== src/Mailbox/Validate/Clean.antt =====
-- Reports without a failed check and without a warning.
use protocol_robustness_fram.Prelude.{
  ℕ, if◌then◌else◌, ◌≡◌, ◌+◌, refl, Bool, true, false, not, List, [], ◌∷◌, ◌++◌, all, arith, inl,
  inr, Bool-cases,
}
use protocol_robustness_fram.Identity.{Severity, pass, warn, fail, info}
use protocol_robustness_fram.Mailbox.Submission.{CheckResult}
use protocol_robustness_fram.Mailbox.Validate.{
  apply_strict, upgrade, same_severity, count_status, summarize, exit_code,
}

abbrev pub is_fail : Severity → Bool
is_fail fail = true
is_fail _ = false

abbrev pub is_clean : Severity → Bool
is_clean pass = true
is_clean info = true
is_clean _ = false

abbrev pub no_failure : List CheckResult → Bool
no_failure checks = all (λ c. not (is_fail c.status)) checks

abbrev pub clean : List CheckResult → Bool
clean checks = all (λ c. is_clean c.status) checks

pub clean-append :
    (xs ys : List CheckResult) → clean (xs ++ ys) ≡ true → (clean xs ≡ true) × (clean ys ≡ true)
clean-append [] ys h = (refl, h)
clean-append (x ∷ xs) ys h = elim (Bool-cases (is_clean x.status)) [
  | inl first ↦
      let (l, r) = clean-append xs ys (ground (arith, first, h)) in (ground (arith, first, l), r)
  | inr first ↦ ground (arith, first, h)
]

upgrade-is_clean : (s : Severity) → not (is_fail (upgrade s)) ≡ is_clean s
upgrade-is_clean pass = refl
upgrade-is_clean warn = refl
upgrade-is_clean fail = refl
upgrade-is_clean info = refl

-- A strict report without a failed check comes from one without a warning.
pub clean-apply_strict :
    (checks : List CheckResult) → no_failure (apply_strict true checks) ≡ true → clean checks ≡ true
unfolding apply_strict
clean-apply_strict [] h = refl
clean-apply_strict (c ∷ checks) h =
    ground (arith, h, upgrade-is_clean c.status, clean-apply_strict checks)

fail-same : (s : Severity) → same_severity s fail ≡ is_fail s
fail-same pass = refl
fail-same warn = refl
fail-same fail = refl
fail-same info = refl

-- An exit code of zero means that no check failed.
pub exit_code-no_failure :
    (checks : List CheckResult) → exit_code checks ≡ 0 → no_failure checks ≡ true
unfolding exit_code
exit_code-no_failure checks e = no_fails checks (ground (arith, e))
  where
    no_fails : (cs : List CheckResult) → count_status fail cs ≡ 0 → no_failure cs ≡ true
    no_fails [] h = refl
    no_fails (c ∷ cs) h = ground (arith, h, fail-same c.status, no_fails cs)

abbrev bit : Bool → ℕ
bit b = if b then 1 else 0

one_severity :
    (s : Severity)
    → bit (same_severity s pass)
        + bit (same_severity s info)
        + bit (same_severity s warn)
        + bit (same_severity s fail)
      ≡ 1
one_severity pass = refl
one_severity warn = refl
one_severity fail = refl
one_severity info = refl

-- The counts of the summary are those of all its checks.
pub summarize-total :
    (checks : List CheckResult)
    → let s = summarize checks in s.passes + s.infos + s.warns + s.fails ≡ s.total
unfolding summarize
summarize-total [] = refl
summarize-total (c ∷ checks) = ground (arith, one_severity c.status, summarize-total checks)
