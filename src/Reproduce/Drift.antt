-- ===== src/Reproduce/Drift.antt =====
-- When `compute_verdict` calls a divergence explained by the source tree.
use Prim.Native.String.{◌++◌ as join}
use text.Mathlib.TextEquality.{eq_iff}
use protocol_robustness_fram.Prelude.{
  ◌≡◌, ◌≢◌, refl, sym, subst, String, Bool, true, false, inl, inr, Bool-cases, List, [], ◌∷◌, ◌++◌,
  Option, some, arith, filter, is_empty, All,
}
use protocol_robustness_fram.Prelude.Filter.{filter-accept, filter-reject}
use protocol_robustness_fram.Prelude.Result.{ok, >>=-eq-ok, ok_inj}
use protocol_robustness_fram.Json.{Json, Fields, get}
use protocol_robustness_fram.Reproduce.{
  Check, SourceStatus, source_matches, text_of, is_absent, classify_source_precheck,
  classify_mismatch, classify_difference, is_core, is_expected, differs, judge, judge_checks,
  compute_verdict, reproduced_with_explained_drift,
}
use protocol_robustness_fram.Reproduce.Compare.{
  add_check, compare_keys, total_checks, hash_checks, provenance_checks, compare_bundle_fields,
  get_dict, get_or_empty,
}

-- The pre-check found that the source changed.
abbrev is_drift : Option SourceStatus → Bool
is_drift status = elim (source_matches status) [ some false ↦ true | _ ↦ false ]

-- No check is expected to differ.
abbrev NoneExpected : List Check → Type 0
NoneExpected cs = All (λ c. is_expected c ≡ false) cs

NoneExpected-append :
    (cs ds : List Check) → NoneExpected cs → NoneExpected ds → NoneExpected (cs ++ ds)
NoneExpected-append [] ds a b = b
NoneExpected-append (c ∷ cs) ds (h, a) b = (h, NoneExpected-append cs ds a b)

NoneExpected-filter :
    (p : Check → Bool) (cs : List Check) → NoneExpected cs → NoneExpected (filter p cs)
NoneExpected-filter p [] a = tt
NoneExpected-filter p (c ∷ cs) (h, a) = elim (Bool-cases (p c)) [
  | inl kept ↦ subst NoneExpected (sym (filter-accept p c cs kept)) (h, NoneExpected-filter p cs a)
  | inr dropped ↦
      subst NoneExpected (sym (filter-reject p c cs dropped)) (NoneExpected-filter p cs a)
]

NoneExpected-is_empty :
    (cs : List Check) → NoneExpected cs → is_empty (filter is_expected cs) ≡ true
NoneExpected-is_empty [] a = refl
NoneExpected-is_empty (c ∷ cs) (h, a) =
    rw (filter-reject is_expected c cs h) (NoneExpected-is_empty cs a)

module _ (status : Option SourceStatus) (kept : is_drift status ≡ false) where
  add_check-unexpected :
      (label : String) (v w : Json) → is_expected (add_check label v w status) ≡ false
  unfolding add_check classify_mismatch classify_difference
  add_check-unexpected label v w = ground (arith, kept)

  compare_keys-unexpected :
      (prefix : String) (ks : List String) (a b : Fields)
      → NoneExpected (compare_keys prefix ks a b status)
  compare_keys-unexpected prefix [] a b = tt
  compare_keys-unexpected prefix (k ∷ ks) a b = (
    add_check-unexpected (join prefix k) (get k a) (get k b),
    compare_keys-unexpected prefix ks a b,
  )

  later_checks-unexpected :
      (orig new ta tb ra rb pa pb : Fields)
      → NoneExpected (
          total_checks ta tb status
          ++ hash_checks "registry/snapshot/" ra rb status
          ++ hash_checks "protocol/state-hashes/" pa pb status
          ++ provenance_checks orig new status)
  later_checks-unexpected orig new ta tb ra rb pa pb =
      let totals = total_checks ta tb status in
      let snapshots = hash_checks "registry/snapshot/" ra rb status in
      let states = hash_checks "protocol/state-hashes/" pa pb status in
      let provenance = provenance_checks orig new status in
      NoneExpected-append (totals ++ snapshots ++ states) provenance
        (NoneExpected-append (totals ++ snapshots) states
          (NoneExpected-append totals snapshots (compare_keys-unexpected _ _ ta tb)
            (compare_keys-unexpected _ _ ra rb))
          (compare_keys-unexpected _ _ pa pb))
        (compare_keys-unexpected _ _ orig new)

  compare_bundle_fields-unexpected :
      (orig new : Fields) {checks : List Check}
      → compare_bundle_fields orig new status ≡ ok checks
      → NoneExpected checks
  unfolding compare_bundle_fields
  compare_bundle_fields-unexpected orig new {checks} h =
      let (sa, _, h₁) = >>=-eq-ok (get_dict "execution/summary" orig) _ h in
      let (sb, _, h₂) = >>=-eq-ok (get_dict "execution/summary" new) _ h₁ in
      let (ta, _, h₃) = >>=-eq-ok (get_or_empty "totals" sa) _ h₂ in
      let (tb, _, h₄) = >>=-eq-ok (get_or_empty "totals" sb) _ h₃ in
      let (ra, _, h₅) = >>=-eq-ok (get_or_empty "registry/snapshot" orig) _ h₄ in
      let (rb, _, h₆) = >>=-eq-ok (get_or_empty "registry/snapshot" new) _ h₅ in
      let (pa, _, h₇) = >>=-eq-ok (get_or_empty "protocol/state-hashes" orig) _ h₆ in
      let (pb, _, h₈) = >>=-eq-ok (get_or_empty "protocol/state-hashes" new) _ h₇ in
      subst NoneExpected (ok_inj h₈) (
        add_check-unexpected _ _ _,
        (
          add_check-unexpected _ _ _,
          (
            add_check-unexpected _ _ _,
            (add_check-unexpected _ _ _, later_checks-unexpected orig new ta tb ra rb pa pb),
          ),
        ),
      )

judge-explained :
    (cores unknown expected legacy unexpected diag : List Check)
    → (judge cores unknown expected legacy unexpected diag).0 ≡ reproduced_with_explained_drift
    → is_empty expected ≡ false
unfolding judge
judge-explained cores unknown expected legacy unexpected diag h = ground (arith, h)

unexpected-explained :
    (checks : List Check)
    → NoneExpected checks
    → (judge_checks checks).0 ≢ reproduced_with_explained_drift
unfolding judge_checks
unexpected-explained checks none_expected h =
    let mismatch = filter differs (filter is_core checks) in
    let some_expected =
      judge-explained (filter is_core checks) _ (filter is_expected mismatch) _ _ _ h in
    let no_expected =
      NoneExpected-is_empty mismatch
        (NoneExpected-filter differs _ (NoneExpected-filter is_core checks none_expected)) in
    ground (arith, some_expected, no_expected)

precheck-drift :
    (bundle_hash bundle_algorithm : Option String) (current_hash current_algorithm : String)
    → is_drift (
        some (classify_source_precheck bundle_hash bundle_algorithm current_hash current_algorithm))
      ≡ true
    → (is_absent bundle_hash ≡ false)
      × (text_of bundle_algorithm ≡ current_algorithm)
      × (current_hash ≢ text_of bundle_hash)
unfolding classify_source_precheck
precheck-drift h b c d e = (
  ground (arith, e),
  (eq_iff (text_of b) d).0 (ground (arith, e)),
  λ same. ground (arith, e, (eq_iff c (text_of h)).1 same),
)

-- If the compared bundle roots are judged to differ by explained drift, the original has a source
-- hash of the current algorithm and it differs from the current hash.
pub explained_drift-hashes :
    (orig new : Fields) (bundle_hash bundle_algorithm : Option String)
    (current_hash current_algorithm : String) {checks : List Check} (bundle_a_ok bundle_b_ok : Bool)
    → compare_bundle_fields orig new (
        some (classify_source_precheck bundle_hash bundle_algorithm current_hash current_algorithm))
      ≡ ok checks
    → (compute_verdict checks bundle_a_ok bundle_b_ok).0 ≡ reproduced_with_explained_drift
    → (is_absent bundle_hash ≡ false)
      × (text_of bundle_algorithm ≡ current_algorithm)
      × (current_hash ≢ text_of bundle_hash)
unfolding compute_verdict
explained_drift-hashes orig new bundle_hash bundle_algorithm current_hash current_algorithm {checks}
      a b compared h =
    let status =
      some (classify_source_precheck bundle_hash bundle_algorithm current_hash current_algorithm) in
    let judged : (judge_checks checks).0 ≡ reproduced_with_explained_drift = ground (arith, h) in
    elim (Bool-cases (is_drift status)) [
      | inl drift ↦ precheck-drift bundle_hash bundle_algorithm current_hash current_algorithm drift
      | inr kept ↦ absurd (
          unexpected-explained checks
            (compare_bundle_fields-unexpected status kept orig new compared) judged)
    ]
