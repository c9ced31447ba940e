-- ===== src/Counting.antt =====
-- `collections.Counter` and its `most_common(1)`, as the forensic scripts use them: the counts in
-- the order in which the keys first occur.
pub mod Greatest
use protocol_robustness_fram.Prelude.{
  ℕ, suc, ◌+◌, ◌≤◌, ◌≡◌, refl, sym, ap, ◌∙◌, ◌↔◌, Bool, true, false, not, ◌&&◌, ◌||◌, List, [], ◌∷◌,
  Option, none, some, arith, inl, inr, Bool-cases, Option-cases, ltb, if◌then◌else◌,
}

module _ {K : Type 0} (same : K → K → Bool) where
  -- `counter[k] += 1`
  unfoldable pub bump : K → List (K × ℕ) → List (K × ℕ)
  bump k [] = (k, 1) ∷ []
  bump k ((j, n) ∷ counts) =
      let rest = bump k counts in if same j k then (j, suc n) ∷ counts else (j, n) ∷ rest

  unfoldable pub tally_from : List (K × ℕ) → List K → List (K × ℕ)
  unfolding bump
  tally_from counts [] = counts
  tally_from counts (k ∷ ks) = tally_from (bump k counts) ks

  -- `Counter(ks)`
  unfoldable pub tally : List K → List (K × ℕ)
  unfolding tally_from
  tally ks = tally_from [] ks

  -- `counter[k]`
  abbrev pub count_in : K → List (K × ℕ) → ℕ
  count_in k [] = 0
  count_in k ((j, n) ∷ counts) = if same j k then n else count_in k counts

  -- How often a key occurs in a list.
  abbrev pub occurrences : K → List K → ℕ
  occurrences k [] = 0
  occurrences k (j ∷ js) = (if same j k then 1 else 0) + occurrences k js

-- `counter.most_common(1)`: the first key with the greatest count.
unfoldable pub most_common : {K : Type 0} → List (K × ℕ) → Option (K × ℕ)
most_common [] = none
most_common ((k, n) ∷ counts) = elim (most_common counts) [
  | none ↦ some (k, n)
  | some (j, m) ↦ (if ltb n m then some (j, m) else some (k, n))
]
