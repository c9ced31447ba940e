-- ===== src/Reproduce/Verified.antt =====
-- When `compute_verdict` answers "verified".
use mathlib.Core.List.{Memᴰ}
use protocol_robustness_fram.Prelude.{
  ◌≡◌, ap, ◌∙◌, Bool, true, false, not, ◌&&◌, inl, inr, Bool-cases, Option-cases, List, some,
  filter, is_empty, arith,
}
use protocol_robustness_fram.Prelude.Filter.{
  Mem-filter, Mem-of-filter, length-filter-reject, is_empty-Mem, is_empty-none, filter-is_empty,
}
use protocol_robustness_fram.Reproduce.{
  Check, verified, is_core, differs, is_unknown, is_expected, is_legacy_mismatch, judge,
  judge_checks, compute_verdict,
}

judge-verified :
    (cores unknown expected legacy unexpected diag : List Check)
    → (judge cores unknown expected legacy unexpected diag).0 ≡ verified
    → (is_empty unknown ≡ true)
      × (is_empty expected ≡ true)
      × (is_empty legacy ≡ true)
      × (is_empty unexpected ≡ true)
      × (is_empty cores ≡ false)
unfolding judge
judge-verified cores unknown expected legacy unexpected diag h =
    (ground (arith, h), ground (arith, h), ground (arith, h), ground (arith, h), ground (arith, h))

verified-judge :
    (cores unknown expected legacy unexpected diag : List Check)
    → is_empty unknown ≡ true
    → is_empty expected ≡ true
    → is_empty legacy ≡ true
    → is_empty unexpected ≡ true
    → is_empty cores ≡ false
    → (judge cores unknown expected legacy unexpected diag).0 ≡ verified
unfolding judge
verified-judge cores unknown expected legacy unexpected diag a b c d e =
    ground (arith, a, b, c, d, e)

abbrev unexpected_only : Check → Bool
unexpected_only c = not (is_expected c) && not (is_legacy_mismatch c)

-- An element that a test accepts keeps the filtered list from being empty.
not_accepted :
    (p : Check → Bool) (cs : List Check) {c : Check}
    → is_empty (filter p cs) ≡ true
    → Memᴰ c cs
    → p c ≡ false
not_accepted p cs {c} h m = elim (Bool-cases (p c)) [
  | inl yes_p ↦ ground (arith, h, is_empty-Mem (filter p cs) (Mem-filter p cs m yes_p))
  | inr no_p ↦ no_p
]

-- What the three lists of mismatches leave for a core check of a verified reproduction.
matching : (c : Check) → is_unknown c ≡ false → differs c ≡ false → c.outcome ≡ some true
matching c u d = elim (Option-cases c.outcome) [
  | inl missing ↦ ground (arith, u, missing)
  | inr (b, e) ↦ elim (Bool-cases b) [
    | inl same ↦ e ∙ ap some same
    | inr other ↦ ground (arith, d, e, other)
  ]
]

no_mismatch :
    (cs : List Check) {c : Check}
    → is_empty (filter is_expected cs) ≡ true
    → is_empty (filter is_legacy_mismatch cs) ≡ true
    → is_empty (filter unexpected_only cs) ≡ true
    → ¬ (Memᴰ c cs)
no_mismatch cs e l x m = ground (
  arith,
  not_accepted is_expected cs e m,
  not_accepted is_legacy_mismatch cs l m,
  not_accepted unexpected_only cs x m,
)

judge_checks-verified :
    (checks : List Check)
    → (judge_checks checks).0 ≡ verified
    → (is_empty (filter is_core checks) ≡ false)
      × ((c : Check) → Memᴰ c checks → is_core c ≡ true → c.outcome ≡ some true)
unfolding judge_checks
judge_checks-verified checks h =
    let cores = filter is_core checks in
    let (u, e, l, x, some_core) = judge-verified cores _ _ _ _ _ h in
    (
      some_core,
      λ c m core_c.
          let at = Mem-filter is_core checks m core_c in
          let known = not_accepted is_unknown cores u at in
          elim (Bool-cases (differs c)) [
            | inl d ↦
                absurd (no_mismatch (filter differs cores) e l x (Mem-filter differs cores at d))
            | inr d ↦ matching c known d
          ],
    )

verified-judge_checks :
    (checks : List Check) {core_check : Check}
    → Memᴰ core_check checks
    → is_core core_check ≡ true
    → ((c : Check) → Memᴰ c checks → is_core c ≡ true → c.outcome ≡ some true)
    → (judge_checks checks).0 ≡ verified
unfolding judge_checks
verified-judge_checks checks m core_c all_match =
    let cores = filter is_core checks in
    let mismatch = filter differs cores in
    let none_differs : is_empty mismatch ≡ true = is_empty-none mismatch (λ c at.
      let (in_cores, d) = Mem-of-filter differs cores at in
      let (in_checks, k) = Mem-of-filter is_core checks in_cores in
      ground (arith, d, all_match c in_checks k)) in
    let nothing : (p : Check → Bool) → is_empty (filter p mismatch) ≡ true =
      λ p. filter-is_empty p mismatch none_differs in
    let known : is_empty (filter is_unknown cores) ≡ true = is_empty-none _ (λ c at.
      let (in_cores, u) = Mem-of-filter is_unknown cores at in
      let (in_checks, k) = Mem-of-filter is_core checks in_cores in
      ground (arith, u, all_match c in_checks k)) in
    verified-judge cores _ _ _ _ _ known (nothing is_expected) (nothing is_legacy_mismatch)
      (nothing unexpected_only) (is_empty-Mem cores (Mem-filter is_core checks m core_c))

module _ (checks : List Check) (bundle_a_ok : Bool) where
  -- If the verdict is verified, the reproduced run has a bundle, some check is core, and every
  -- core check has matching values.
  pub verified-matches :
      (bundle_b_ok : Bool)
      → (compute_verdict checks bundle_a_ok bundle_b_ok).0 ≡ verified
      → (bundle_b_ok ≡ true)
        × (is_empty (filter is_core checks) ≡ false)
        × ((c : Check) → Memᴰ c checks → is_core c ≡ true → c.outcome ≡ some true)
  unfolding compute_verdict
  verified-matches bundle_b_ok h =
      let judged : (judge_checks checks).0 ≡ verified = ground (arith, h) in
      let (some_core, matches) = judge_checks-verified checks judged in
      (ground (arith, h), some_core, matches)

  -- If the reproduced run has a bundle, some check is core and every core check has matching
  -- values, the verdict is verified.
  pub matches-verified :
      {core_check : Check}
      → Memᴰ core_check checks
      → is_core core_check ≡ true
      → ((c : Check) → Memᴰ c checks → is_core c ≡ true → c.outcome ≡ some true)
      → (compute_verdict checks bundle_a_ok true).0 ≡ verified
  unfolding compute_verdict
  matches-verified {core_check} m core_c all_match =
      let known : is_unknown core_check ≡ false = ground (arith, all_match core_check m core_c) in
      ground (
        arith,
        length-filter-reject is_unknown checks m known,
        verified-judge_checks checks m core_c all_match,
      )
