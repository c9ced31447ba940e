-- ===== src/Consensus/Threshold.antt =====
-- What the agreement, the verdict and the agreed hash say of the submissions.
use text.Mathlib.Text.{◌==◌ as str_eq}
use text.Mathlib.TextEquality.{eq_iff}
use mathlib.Core.List.{Memᴰ}
use mathlib.Core.List.Memᴰ
use protocol_robustness_fram.Prelude.{
  ℕ, ◌+◌, ◌*◌, ◌≤◌, ◌<◌, ◌≡◌, ◌≢◌, refl, sym, ap, subst, ◌∙◌, String, false, not, ◌&&◌, List, [],
  ◌∷◌, Option, none, some, arith, inl, inr, any, length, Bool-cases, Option-cases,
}
use protocol_robustness_fram.Prelude.Int.{ℤ}
use protocol_robustness_fram.Prelude.Sorted.{sorted_set}
use protocol_robustness_fram.Json.{Json}
use protocol_robustness_fram.Counting.{tally, occurrences, most_common}
use protocol_robustness_fram.Counting.Greatest.{most_common-occurrences}
use protocol_robustness_fram.Consensus.{
  Submission, Agreement, threshold_of, all_fields, values_of, field_result, add_result,
  field_agreement, field_agreements, compute_agreement, consensus_confirmed, is_diverging,
  consensus_verdict, agreed_hash,
}

-- Two different texts do not occur more often than there are texts.
two_occurrences :
    (g h : String) (xs : List String)
    → g ≢ h
    → occurrences str_eq g xs + occurrences str_eq h xs ≤ length xs
two_occurrences g h [] differ = omega arith
two_occurrences g h (x ∷ xs) differ = elim (Bool-cases (str_eq x g)) [
  | inl first ↦ elim (Bool-cases (str_eq x h)) [
    | inl both ↦ absurd (differ (sym ((eq_iff x g).0 first) ∙ (eq_iff x h).0 both))
    | inr second ↦ ground (arith, first, second, two_occurrences g h xs differ)
  ]
  | inr other ↦ ground (arith, other, two_occurrences g h xs differ)
]

none_text : {s : String} → ◌≡◌ {A = Option String} none (some s) → ⊥
none_text e = cc

none-some : {a : Agreement} → ◌≡◌ {A = Option Agreement} none (some a) → ⊥
none-some e = cc

some_inj : {a b : Agreement} → ◌≡◌ {A = Option Agreement} (some a) (some b) → a ≡ b
some_inj e = cc

not_any :
    (agreement : List Agreement) {a : Agreement}
    → any is_diverging agreement ≡ false
    → Memᴰ a agreement
    → is_diverging a ≡ false
not_any [] h m = elim m [ ]
not_any (b ∷ agreement) h m = elim (Memᴰ.cases_cons m) [
  | inl first ↦ ap is_diverging first ∙ ground (arith, h)
  | inr later ↦ not_any agreement (ground (arith, h)) later
]

-- A confirmed verdict has no diverging field.
none_diverging :
    (agreement : List Agreement) (exit_codes : List ℤ) {a : Agreement}
    → consensus_verdict agreement exit_codes ≡ consensus_confirmed
    → Memᴰ a agreement
    → is_diverging a ≡ false
unfolding consensus_verdict
none_diverging [] exit_codes h m = elim m [ ]
none_diverging (b ∷ agreement) exit_codes h m = not_any (b ∷ agreement) (ground (arith, h)) m

-- The entry that the agreed hash comes from.
agreed_hash-entry :
    (agreement : List Agreement) {hash : String}
    → agreed_hash agreement ≡ some hash
    → (a : Agreement) × (Memᴰ a agreement)
      × (a.name ≡ "overview/hash")
      × (is_diverging a ≡ false)
      × (a.winner ≡ hash)
unfolding agreed_hash
agreed_hash-entry [] h = absurd (none_text h)
agreed_hash-entry (a ∷ agreement) {hash} h =
    elim (Bool-cases (str_eq a.name "overview/hash" && not (is_diverging a))) [
      | inl found ↦ (
        a,
        Memᴰ.head refl,
        (eq_iff a.name "overview/hash").0 (ground (arith, found)),
        ground (arith, found),
        cc (h, found),
      )
      | inr passed ↦
          let later : agreed_hash agreement ≡ some hash = ground (arith, h, passed) in
          let (b, m, named, sure, won) = agreed_hash-entry agreement later in
          (b, Memᴰ.tail m, named, sure, won)
    ]

module _ (str_of : Json → String) where
  length-values_of :
      (name : String) (submissions : List Submission)
      → length (values_of str_of name submissions) ≤ length submissions
  unfolding values_of
  length-values_of name [] = omega arith
  length-values_of name (s ∷ ss) = ground (arith, length-values_of name ss)

  -- What an entry of the agreement says of the texts of its field.
  abbrev pub Counted : List Submission → ℕ → Agreement → Type 0
  Counted submissions threshold a =
      (a.agreement_count ≡ occurrences str_eq a.winner (values_of str_of a.name submissions))
      × (is_diverging a ≡ false → threshold ≤ a.agreement_count)

  field_agreement-Counted :
      (name : String) (submissions : List Submission) (threshold : ℕ) {a : Agreement}
      → field_agreement str_of name submissions threshold ≡ some a
      → Counted submissions threshold a
  unfolding field_agreement field_result
  field_agreement-Counted name submissions threshold {a} h =
      elim (Option-cases (most_common (tally str_eq (values_of str_of name submissions)))) [
        | inl nothing ↦ absurd (none-some (sym (ap (field_result name threshold) nothing) ∙ h))
        | inr ((value, count), found) ↦
            let e = some_inj (sym (ap (field_result name threshold) found) ∙ h) in
            let (occurs, _) =
              most_common-occurrences str_eq eq_iff (values_of str_of name submissions) found in
            subst (Counted submissions threshold) e (occurs, λ s. ground (arith, s))
      ]

  field_agreements-Counted :
      (names : List String) (submissions : List Submission) (threshold : ℕ) {a : Agreement}
      → Memᴰ a (field_agreements str_of names submissions threshold)
      → Counted submissions threshold a
  unfolding field_agreements
  field_agreements-Counted [] submissions threshold m = elim m [ ]
  field_agreements-Counted (name ∷ names) submissions threshold {a} m =
      elim (Option-cases (field_agreement str_of name submissions threshold)) [
        | inl nothing ↦ field_agreements-Counted names submissions threshold (
            subst (Memᴰ a)
              (ap (λ r. add_result r (field_agreements str_of names submissions threshold)) nothing)
              m)
        | inr (b, found) ↦
            elim (Memᴰ.cases_cons (
              subst (Memᴰ a)
                (ap (λ r. add_result r (field_agreements str_of names submissions threshold)) found)
                m)) [
                  | inl first ↦
                      subst (Counted submissions threshold) (sym first)
                        (field_agreement-Counted name submissions threshold found)
                  | inr later ↦ field_agreements-Counted names submissions threshold later
                ]
      ]

  compute_agreement-Counted :
      (submissions : List Submission) (threshold : Option ℕ) {a : Agreement}
      → Memᴰ a (compute_agreement str_of submissions threshold)
      → Counted submissions (threshold_of threshold (length submissions)) a
  unfolding compute_agreement
  compute_agreement-Counted [] threshold m = elim m [ ]
  compute_agreement-Counted (s ∷ ss) threshold m =
      field_agreements-Counted (sorted_set (all_fields (s ∷ ss))) (s ∷ ss) _ m

  -- If the verdict is confirmed, for every entry of the agreement at least a threshold of
  -- submissions has the winning text of its field.
  pub confirmed-threshold :
      (submissions : List Submission) (threshold : Option ℕ) (exit_codes : List ℤ) {a : Agreement}
      → consensus_verdict (compute_agreement str_of submissions threshold) exit_codes
        ≡ consensus_confirmed
      → Memᴰ a (compute_agreement str_of submissions threshold)
      → threshold_of threshold (length submissions)
        ≤ occurrences str_eq a.winner (values_of str_of a.name submissions)
  confirmed-threshold submissions threshold exit_codes {a} h m =
      let (count, reached) = compute_agreement-Counted submissions threshold m in
      let sure = none_diverging (compute_agreement str_of submissions threshold) exit_codes h m in
      subst (λ n. threshold_of threshold (length submissions) ≤ n) count (reached sure)

  -- If there is an agreed hash and twice the threshold exceeds the number of submissions, every
  -- other overview hash is held by fewer submissions than the agreed one.
  pub agreed_hash-majority :
      (submissions : List Submission) (threshold : Option ℕ) {agreed_on other : String}
      → agreed_hash (compute_agreement str_of submissions threshold) ≡ some agreed_on
      → length submissions < 2 * threshold_of threshold (length submissions)
      → other ≢ agreed_on
      → occurrences str_eq other (values_of str_of "overview/hash" submissions)
        < occurrences str_eq agreed_on (values_of str_of "overview/hash" submissions)
  agreed_hash-majority submissions threshold {agreed_on} {other} h most differ =
      let (a, m, named, sure, won) =
        agreed_hash-entry (compute_agreement str_of submissions threshold) h in
      let (count, reached) = compute_agreement-Counted submissions threshold m in
      let held : a.agreement_count
          ≡ occurrences str_eq agreed_on (values_of str_of "overview/hash" submissions) =
        count ∙ cc (named, won) in
      let votes = values_of str_of "overview/hash" submissions in
      omega (
        arith,
        held,
        reached sure,
        two_occurrences other agreed_on votes differ,
        length-values_of "overview/hash" submissions,
        most,
      )
