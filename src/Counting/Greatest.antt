-- ===== src/Counting/Greatest.antt =====
-- The counts of a tally are the numbers of occurrences, and `most_common` finds a greatest one.
use protocol_robustness_fram.Prelude.{
  ℕ, suc, ◌+◌, ◌≤◌, length, ◌≡◌, refl, sym, ap, ◌∙◌, ◌↔◌, Bool, true, false, not, ◌&&◌, ◌||◌, List,
  [], ◌∷◌, Option, none, some, arith, inl, inr, Bool-cases, Option-cases, ltb, if◌then◌else◌,
}
use protocol_robustness_fram.Counting.{bump, tally_from, tally, count_in, occurrences, most_common}

module _ {K : Type 0} (same : K → K → Bool)
    (same_iff : (a b : K) → (same a b ≡ true) ↔ (a ≡ b)) where
  abbrev has_key : K → List (K × ℕ) → Bool
  has_key k [] = false
  has_key k ((j, n) ∷ counts) = same j k || has_key k counts

  abbrev distinct_keys : List (K × ℕ) → Bool
  distinct_keys [] = true
  distinct_keys ((j, n) ∷ counts) = not (has_key j counts) && distinct_keys counts

  -- The tests of two keys against a third agree if they are the same.
  same_trans : (j x k : K) → same j x ≡ true → same j k ≡ same x k
  same_trans j x k h = ap (λ z. same z k) ((same_iff j x).0 h)

  same_apart : (j x k : K) → same j x ≡ false → same j k ≡ true → same x k ≡ false
  same_apart j x k h here = elim (Bool-cases (same x k)) [
    | inl there ↦
        ground (arith, h, (same_iff j x).1 ((same_iff j k).0 here ∙ sym ((same_iff x k).0 there)))
    | inr other ↦ other
  ]

  same_sym : (j x : K) → same j x ≡ false → same x j ≡ false
  same_sym j x h = same_apart j x j h ((same_iff j j).1 refl)

  count_in-bump :
      (k x : K) (counts : List (K × ℕ))
      → count_in same k (bump same x counts) ≡ (if same x k then 1 else 0) + count_in same k counts
  unfolding bump
  count_in-bump k x [] = ground arith
  count_in-bump k x ((j, n) ∷ counts) = elim (Bool-cases (same j x)) [
    | inl here ↦ ground (arith, here, same_trans j x k here)
    | inr other ↦ ground (arith, other, count_in-bump k x counts, same_apart j x k other)
  ]

  has_key-bump :
      (k x : K) (counts : List (K × ℕ))
      → has_key k (bump same x counts) ≡ (same x k || has_key k counts)
  unfolding bump
  has_key-bump k x [] = ground arith
  has_key-bump k x ((j, n) ∷ counts) = elim (Bool-cases (same j x)) [
    | inl here ↦ ground (arith, here, same_trans j x k here)
    | inr other ↦ ground (arith, other, has_key-bump k x counts)
  ]

  distinct_keys-bump :
      (x : K) (counts : List (K × ℕ))
      → distinct_keys counts ≡ true
      → distinct_keys (bump same x counts) ≡ true
  unfolding bump
  distinct_keys-bump x [] h = refl
  distinct_keys-bump x ((j, n) ∷ counts) h = elim (Bool-cases (same j x)) [
    | inl here ↦ ground (arith, here, h)
    | inr other ↦
        ground (
          arith,
          other,
          h,
          has_key-bump j x counts,
          same_sym j x other,
          distinct_keys-bump x counts,
        )
  ]

  count_in-tally_from :
      (k : K) (counts : List (K × ℕ)) (ks : List K)
      → count_in same k (tally_from same counts ks) ≡ occurrences same k ks + count_in same k counts
  unfolding tally_from
  count_in-tally_from k counts [] = omega arith
  count_in-tally_from k counts (x ∷ ks) =
      omega (arith, count_in-tally_from k (bump same x counts) ks, count_in-bump k x counts)

  distinct_keys-tally_from :
      (counts : List (K × ℕ)) (ks : List K)
      → distinct_keys counts ≡ true
      → distinct_keys (tally_from same counts ks) ≡ true
  unfolding tally_from
  distinct_keys-tally_from counts [] h = h
  distinct_keys-tally_from counts (x ∷ ks) h =
      distinct_keys-tally_from (bump same x counts) ks (distinct_keys-bump x counts h)

  -- With no most common key there is no key.
  most_common-none :
      (counts : List (K × ℕ)) → most_common counts ≡ none → (k : K) → count_in same k counts ≡ 0
  unfolding most_common
  most_common-none [] h k = refl
  most_common-none ((j, n) ∷ counts) h k = ground (arith, h)

  most_common-greatest :
      (counts : List (K × ℕ)) {k : K} {n : ℕ}
      → distinct_keys counts ≡ true
      → most_common counts ≡ some (k, n)
      → (n ≡ count_in same k counts)
        × (has_key k counts ≡ true)
        × ((j : K) → count_in same j counts ≤ n)
  unfolding most_common
  most_common-greatest [] d h = cc
  most_common-greatest ((a, m) ∷ counts) {k} {n} d h = elim (Option-cases (most_common counts)) [
    | inl nothing ↦
        let e : ◌≡◌ {A = Option (K × ℕ)} (some (a, m)) (some (k, n)) = cc (h, nothing) in
        let key_eq : a ≡ k = cc e in
        let count_eq : m ≡ n = cc e in
        (
          ground (arith, count_eq, (same_iff a k).1 key_eq),
          ground (arith, (same_iff a k).1 key_eq),
          λ j. ground (arith, count_eq, most_common-none counts nothing j),
        )
    | inr ((b, l), found) ↦
        let (count, held, greatest) =
          most_common-greatest counts {k = b} {n = l} (ground (arith, d)) found in
        let fresh : has_key a counts ≡ false = ground (arith, d) in
        let apart : same a b ≡ false = elim (Bool-cases (same a b)) [
          | inl both ↦
              ground (arith, fresh, held, ap (λ x. has_key x counts) ((same_iff a b).0 both))
          | inr other ↦ other
        ] in
        elim (Bool-cases (ltb m l)) [
          | inl less ↦
              let e : ◌≡◌ {A = Option (K × ℕ)} (some (b, l)) (some (k, n)) = cc (h, found, less) in
              let key_eq : b ≡ k = cc e in
              let count_eq : l ≡ n = cc e in
              let away : same a k ≡ false = ap (same a) (sym key_eq) ∙ apart in
              (
                ground (arith, away, count_eq, count, ap (λ x. count_in same x counts) key_eq),
                ground (arith, held, ap (λ x. has_key x counts) key_eq),
                λ j. ground (arith, count_eq, less, greatest j),
              )
          | inr more ↦
              let e : ◌≡◌ {A = Option (K × ℕ)} (some (a, m)) (some (k, n)) = cc (h, found, more) in
              let key_eq : a ≡ k = cc e in
              let count_eq : m ≡ n = cc e in
              (
                ground (arith, count_eq, (same_iff a k).1 key_eq),
                ground (arith, (same_iff a k).1 key_eq),
                λ j. ground (arith, count_eq, more, greatest j),
              )
        ]
  ]

  -- The winner of a tally occurs as often as counted, and no key occurs more often.
  pub most_common-occurrences :
      (ks : List K) {k : K} {n : ℕ}
      → most_common (tally same ks) ≡ some (k, n)
      → (n ≡ occurrences same k ks) × ((j : K) → occurrences same j ks ≤ n)
  unfolding tally
  most_common-occurrences ks {k} {n} h =
      let (count, _, greatest) =
        most_common-greatest (tally_from same [] ks) (distinct_keys-tally_from [] ks refl) h in
      (
        omega (arith, count, count_in-tally_from k [] ks),
        λ j. omega (arith, greatest j, count_in-tally_from j [] ks),
      )

  total : List (K × ℕ) → ℕ
  total [] = 0
  total ((k, n) ∷ counts) = n + total counts

  total-bump : (k : K) (counts : List (K × ℕ)) → total (bump same k counts) ≡ suc (total counts)
  unfolding bump total
  total-bump k [] = omega arith
  total-bump k ((j, n) ∷ counts) = elim (Bool-cases (same j k)) [
    | inl here ↦ ground (arith, here)
    | inr other ↦ ground (arith, other, total-bump k counts)
  ]

  total-tally_from :
      (counts : List (K × ℕ)) (ks : List K)
      → total (tally_from same counts ks) ≡ total counts + length ks
  unfolding tally_from
  total-tally_from counts [] = omega arith
  total-tally_from counts (k ∷ ks) =
      omega (arith, total-tally_from (bump same k counts) ks, total-bump k counts)

  only_key :
      (counts : List (K × ℕ)) {k : K} {n : ℕ}
      → length counts ≡ 1
      → most_common counts ≡ some (k, n)
      → n ≡ total counts
  unfolding most_common total
  only_key [] one h = cc
  only_key ((j, m) ∷ []) one h = ground (arith, h)
  only_key ((j, m) ∷ (i, l) ∷ counts) one h = omega (arith, one)

  -- If only one key was counted, it is every element of the list.
  pub most_common-only :
      (ks : List K) {k : K} {n : ℕ}
      → length (tally same ks) ≡ 1
      → most_common (tally same ks) ≡ some (k, n)
      → n ≡ length ks
  unfolding tally total
  most_common-only ks one h =
      omega (arith, only_key (tally_from same [] ks) one h, total-tally_from [] ks)
