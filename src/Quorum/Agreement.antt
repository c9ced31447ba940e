-- ===== src/Quorum/Agreement.antt =====
-- What a field's agreement and a confirmed quorum say of the runs.
use mathlib.Core.List.{Memᴰ}
use protocol_robustness_fram.Prelude.{
  ℕ, ◌≤◌, ◌≡◌, ◌≢◌, refl, sym, ap, subst, ◌∙◌, ◌↔◌, ◌⊎◌, inl, inr, String, Bool, true, false, List,
  [], ◌∷◌, ◌++◌, Option, none, some, arith, all, filter, is_empty, is_some, length, ltb, leb,
  Bool-cases, Option-cases,
}
use protocol_robustness_fram.Prelude.Filter.{length-filter-reject}
use protocol_robustness_fram.Prelude.Result.{ok, >>=-eq-ok, ok_inj}
use protocol_robustness_fram.Prelude.Sorted.{sorted_set}
use protocol_robustness_fram.Json.{Fields}
use protocol_robustness_fram.Counting.{tally, most_common}
use protocol_robustness_fram.Counting.Greatest.{most_common-only}
use protocol_robustness_fram.Json.Keys.{Key, same_key, same_key_iff}
use protocol_robustness_fram.Quorum.{
  hash_keys, present_values, FieldAgreement, confirmed, insufficient_data, field_status, agree_on,
  compute_field_agreement, quorum_fields, all_snapshot_fields, agreements, is_confirmed,
  QuorumStatus, quorum_confirmed, quorum_status, quorum,
}

no_data : insufficient_data ≢ confirmed
no_data e = cc

module _ (field : String) (runs threshold : ℕ) (ks : List Key) where
  agree_on-found :
      {k : Key} {n : ℕ}
      → most_common (tally same_key ks) ≡ some (k, n)
      → agree_on field runs threshold ks ≡ record {
        name = field;
        status = field_status n threshold ks;
        winner = some k;
        agreement_count = n;
        total_runs = runs;
      }
  unfolding agree_on
  agree_on-found h = cc

  agree_on-none :
      most_common (tally same_key ks) ≡ none
      → ((agree_on field runs threshold ks).winner ≡ none)
        × ((agree_on field runs threshold ks).status ≡ insufficient_data)
  unfolding agree_on
  agree_on-none h = (cc, cc)

  -- The branch for a single different value is never decisive.
  field_status-confirmed :
      {k : Key} {n : ℕ}
      → most_common (tally same_key ks) ≡ some (k, n)
      → (field_status n threshold ks ≡ confirmed) ↔ ((threshold ≤ n) ⊎ (n ≡ length ks))
  unfolding field_status
  field_status-confirmed {k} {n} h =
      let only : length (tally same_key ks) ≡ 1 → n ≡ length ks =
        λ one. most_common-only same_key same_key_iff ks one h in
      (
        λ s. elim (Bool-cases (leb threshold n)) [
          | inl reached ↦ inl (ground (arith, reached))
          | inr below ↦ inr (ground (arith, s, below, only))
        ],
        λ p. elim p [
          | inl reached ↦ ground (arith, reached)
          | inr everyone ↦ ground (arith, everyone)
        ],
      )

  ConfirmedBy : FieldAgreement → Type 0
  ConfirmedBy a =
      (k : Key) × (a.winner ≡ some k)
      × ((threshold ≤ a.agreement_count) ⊎ (a.agreement_count ≡ length ks))

  agree_on-ConfirmedBy :
      ((agree_on field runs threshold ks).status ≡ confirmed)
      ↔ ConfirmedBy (agree_on field runs threshold ks)
  unfolding ConfirmedBy
  agree_on-ConfirmedBy = elim (Option-cases (most_common (tally same_key ks))) [
    | inl nothing_won ↦
        let (w, st) = agree_on-none nothing_won in
        (λ s. absurd (no_data (sym st ∙ s)), λ (k, won, p). cc (won, w))
    | inr ((j, n), found) ↦
        let status = field_status-confirmed found in
        subst (λ a. (a.status ≡ confirmed) ↔ ConfirmedBy a) (sym (agree_on-found found))
          (λ s. (j, refl, status.0 s), λ (k, won, p). status.1 p)
  ]

module _ (bundles : List (Option Fields)) (field : String) (threshold : ℕ) {ks : List Key}
    {a : FieldAgreement} (hashed : hash_keys (present_values bundles field) ≡ ok ks)
    (computed : compute_field_agreement bundles field threshold ≡ ok a) where
  reported : agree_on field (length bundles) threshold ks ≡ a
  unfolding compute_field_agreement
  reported =
      let (k', hashed', h) = >>=-eq-ok (hash_keys (present_values bundles field)) _ computed in
      let same : k' ≡ ks = ok_inj (sym hashed' ∙ hashed) in
      subst (λ k. agree_on field (length bundles) threshold k ≡ a) same (ok_inj h)

  -- A field is confirmed exactly if it has a winner that reaches the threshold or is the only
  -- value among those present.
  pub field_agreement-confirmed : (a.status ≡ confirmed) ↔ (
      (k : Key) × (a.winner ≡ some k)
      × ((threshold ≤ a.agreement_count) ⊎ (a.agreement_count ≡ length ks)))
  unfolding ConfirmedBy
  field_agreement-confirmed =
      subst (λ x. (x.status ≡ confirmed) ↔ ConfirmedBy field (length bundles) threshold ks x)
        reported (agree_on-ConfirmedBy field (length bundles) threshold ks)

-- In a list whose elements all pass a test as often as it is long, every element passes.
all_accepted :
    (p : FieldAgreement → Bool) (results : List FieldAgreement) {a : FieldAgreement}
    → length (filter p results) ≡ length results
    → Memᴰ a results
    → p a ≡ true
all_accepted p results {a} h m = elim (Bool-cases (p a)) [
  | inl yes_p ↦ yes_p
  | inr no_p ↦ ground (arith, h, length-filter-reject p results m no_p)
]

quorum_status-confirmed :
    (all_executed : Bool) (results : List FieldAgreement)
    → quorum_status all_executed results ≡ quorum_confirmed
    → (all_executed ≡ true)
      × (ltb 0 (length results) ≡ true)
      × (length (filter is_confirmed results) ≡ length results)
unfolding quorum_status
quorum_status-confirmed all_executed results h =
    (ground (arith, h), ground (arith, h), ground (arith, h))

not_empty :
    (results : List FieldAgreement) → ltb 0 (length results) ≡ true → is_empty results ≡ false
not_empty [] h = cc
not_empty (a ∷ results) h = refl

confirmed_of : (a : FieldAgreement) → is_confirmed a ≡ true → a.status ≡ confirmed
confirmed_of a h = ground (arith, h)

-- If the quorum is confirmed, every run left a bundle, at least one field was compared and every
-- compared field is confirmed.
pub quorum-confirmed :
    (bundles : List (Option Fields)) (threshold : ℕ) {results : List FieldAgreement}
    → quorum bundles threshold ≡ ok (quorum_confirmed, results)
    → (all is_some bundles ≡ true)
      × (is_empty results ≡ false)
      × ((a : FieldAgreement) → Memᴰ a results → a.status ≡ confirmed)
unfolding quorum
quorum-confirmed bundles threshold {results} h =
    let (fields, _, h₁) = >>=-eq-ok (all_snapshot_fields bundles) _ h in
    let (found, _, h₂) =
      >>=-eq-ok (agreements bundles threshold (quorum_fields ++ sorted_set fields)) _ h₁ in
    let e : ◌≡◌ {A = QuorumStatus × List FieldAgreement}
        (quorum_status (all is_some bundles) found, found) (quorum_confirmed, results) =
      ok_inj h₂ in
    let listed : found ≡ results = ap (λ r. r.1) e in
    let judged : quorum_status (all is_some bundles) results ≡ quorum_confirmed =
      ap (quorum_status (all is_some bundles)) (sym listed) ∙ ap (λ r. r.0) e in
    let (executed, some_field, every) =
      quorum_status-confirmed (all is_some bundles) results judged in
    (
      executed,
      not_empty results some_field,
      λ a m. confirmed_of a (all_accepted is_confirmed results every m),
    )
