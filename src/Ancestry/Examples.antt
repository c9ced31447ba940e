-- ===== src/Ancestry/Examples.antt =====
-- A node with a parent, and a node that is its own parent.
use mathlib.Core.List.{Memᴰ}
use mathlib.Core.List.Memᴰ
use text.Mathlib.Text.{◌==◌ as str_eq}
use protocol_robustness_fram.Prelude.{
  ℕ, ◌<◌, ◌≡◌, refl, subst, ap, String, Bool, true, List, [], ◌∷◌, none, some, arith, All, inl, inr,
  Bool-cases, if◌then◌else◌,
}
use protocol_robustness_fram.Ancestry.{parents_of, visit_each, append_visited, visit, ancestor_path}
use protocol_robustness_fram.Ancestry.Order.{
  covered, Ordered, ancestor_path-Ordered, ancestor_path-own_parent,
}

abbrev edges : List (String × List String)
edges = ("b", "a" ∷ []) ∷ []

abbrev rank : String → ℕ
rank h = if str_eq "b" h then 1 else 0

path : ancestor_path edges 2 ("b" ∷ "a" ∷ []) ≡ some ("b" ∷ "a" ∷ [])
unfolding ancestor_path visit visit_each append_visited
path = refl

falls : (h p : String) → Memᴰ p (parents_of edges h) → rank p < rank h
falls h p m = elim (Bool-cases (str_eq "b" h)) [
  | inl b ↦
      elim (Memᴰ.cases_cons (subst (Memᴰ p) (ap (λ (t : Bool). if t then "a" ∷ [] else []) b) m)) [
        | inl first ↦ ground (arith, b, ap rank first)
        | inr later ↦ elim later [ ]
      ]
  | inr other ↦ elim (subst (Memᴰ p) (ap (λ (t : Bool). if t then "a" ∷ [] else []) other) m) [ ]
]

below : (h : String) → Memᴰ h ("b" ∷ "a" ∷ []) → rank h < 2
below h m = ground arith

ancestor_path-Ordered_example :
    (ordered : List String) × (ancestor_path edges 2 ("b" ∷ "a" ∷ []) ≡ some ordered)
    × Ordered edges ordered
    × All (λ h. covered ordered h ≡ true) ("b" ∷ "a" ∷ [])
ancestor_path-Ordered_example = ancestor_path-Ordered edges rank falls 2 ("b" ∷ "a" ∷ []) below

ancestor_path-own_parent_example : ancestor_path (("a", "a" ∷ []) ∷ []) 900 ("a" ∷ []) ≡ none
ancestor_path-own_parent_example = ancestor_path-own_parent (("a", "a" ∷ []) ∷ []) "a" refl refl 900
