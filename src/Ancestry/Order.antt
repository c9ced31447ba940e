-- ===== src/Ancestry/Order.antt =====
-- The order of `_ancestor_path` on acyclic parents, and what happens on a node that is its own parent.
use text.Mathlib.Text.{◌==◌ as str_eq}
use text.Mathlib.TextEquality.{eq_iff}
use mathlib.Core.List.{Memᴰ}
use protocol_robustness_fram.Prelude.{
  ℕ, zero, suc, ◌<◌, ◌≡◌, refl, ap, ◌∙◌, String, Bool, true, false, ◌||◌, List, [], ◌∷◌, Option,
  none, some, arith, inl, inr, Bool-cases, All,
}
use protocol_robustness_fram.Json.{elem}
use protocol_robustness_fram.Ancestry.{parents_of, visit_each, append_visited, visit, ancestor_path}

-- A hash that is empty or in the list.
abbrev pub covered : List String → String → Bool
covered ordered h = str_eq h "" || elem h ordered

-- Every listed node stands behind all its parents (the last element first).
abbrev pub Ordered : List (String × List String) → List String → Type 0
Ordered edges [] = Unit
Ordered edges (h ∷ ordered) =
    All (λ p. covered ordered p ≡ true) (parents_of edges h) × Ordered edges ordered

-- A larger list, in which the parents of every node are still behind it.
abbrev Extends : List (String × List String) → List String → List String → Type 0
Extends edges old new =
    Ordered edges new × ((k : String) → covered old k ≡ true → covered new k ≡ true)

-- What one visit ends with.
abbrev Visited : List (String × List String) → List String → String → Option (List String) → Type 0
Visited edges old h result =
    (new : List String) × (result ≡ some new) × Extends edges old new × (covered new h ≡ true)

All-covered :
    (old new hs : List String)
    → ((k : String) → covered old k ≡ true → covered new k ≡ true)
    → All (λ p. covered old p ≡ true) hs
    → All (λ p. covered new p ≡ true) hs
All-covered old new [] grow a = tt
All-covered old new (h ∷ hs) grow (c, a) = (grow h c, All-covered old new hs grow a)

visit_each-Visited :
    (edges : List (String × List String)) (step : String → List String → Option (List String))
    (hs old : List String)
    → Ordered edges old
    → ((h : String)
        → Memᴰ h hs
        → (ordered : List String) → Ordered edges ordered
        → Visited edges ordered h (step h ordered))
    → (new : List String) × (visit_each step hs old ≡ some new)
      × Extends edges old new
      × All (λ p. covered new p ≡ true) hs
unfolding visit_each
visit_each-Visited edges step [] old o h = (old, refl, (o, λ k c. c), tt)
visit_each-Visited edges step (x ∷ xs) old o h =
    let (mid, e, (o₁, grow₁), c₁) = h x (Memᴰ.head refl) old o in
    let (new, e', (o₂, grow₂), c₂) =
      visit_each-Visited edges step xs mid o₁ (λ y m. h y (Memᴰ.tail m)) in
    (
      new,
      ap
            (λ (r : Option (List String)). elim r [
              | none ↦ none
              | some next ↦ visit_each step xs next
            ])
            e
          ∙ e',
      (o₂, λ k c. grow₂ k (grow₁ k c)),
      (grow₂ x c₁, c₂),
    )

module _ (edges : List (String × List String)) (rank : String → ℕ)
    (falls : (h p : String) → Memᴰ p (parents_of edges h) → rank p < rank h) where
  visit-Visited :
      (depth : ℕ) (h : String) (ordered : List String)
      → rank h < depth
      → Ordered edges ordered
      → Visited edges ordered h (visit edges depth h ordered)
  unfolding visit append_visited
  visit-Visited zero h ordered below o = absurd (omega arith)
  visit-Visited (suc depth) h ordered below o = elim (Bool-cases (covered ordered h)) [
    | inl seen ↦ (
      ordered,
      ap
          (λ (b : Bool). elim b [
            | true ↦ some ordered
            | false ↦ append_visited h (visit_each (visit edges depth) (parents_of edges h) ordered)
          ])
          seen,
      (o, λ k c. c),
      seen,
    )
    | inr fresh ↦
        let (new, e, (o', grow), parents) =
          visit_each-Visited edges (visit edges depth) (parents_of edges h) ordered o
            (λ p m mid om. visit-Visited depth p mid (omega (arith, falls h p m)) om) in
        (
          h ∷ new,
          ap
                (λ (b : Bool). elim b [
                  | true ↦ some ordered
                  | false ↦
                      append_visited h (visit_each (visit edges depth) (parents_of edges h) ordered)
                ])
                fresh
              ∙ ap (append_visited h) e,
          ((parents, o'), λ k c. ground (arith, grow k c)),
          ground (arith, (eq_iff h h).1 refl),
        )
  ]

  -- If parents have a smaller rank than their children and the depth exceeds the ranks of the
  -- hashes, the search ends with a list in which every node stands after all its parents that are
  -- not empty, and that has every given hash that is not empty.
  pub ancestor_path-Ordered :
      (depth : ℕ) (node_hashes : List String)
      → ((h : String) → Memᴰ h node_hashes → rank h < depth)
      → (ordered : List String) × (ancestor_path edges depth node_hashes ≡ some ordered)
        × Ordered edges ordered
        × All (λ h. covered ordered h ≡ true) node_hashes
  unfolding ancestor_path
  ancestor_path-Ordered depth node_hashes below =
      let (ordered, e, (o, grow), all_covered) =
        visit_each-Visited edges (visit edges depth) node_hashes [] tt
          (λ h m mid om. visit-Visited depth h mid (below h m) om) in
      (ordered, e, o, all_covered)

module _ (edges : List (String × List String)) (h : String) (own : parents_of edges h ≡ h ∷ [])
    (named : str_eq h "" ≡ false) where
  visit-own_parent : (depth : ℕ) → visit edges depth h [] ≡ none
  unfolding visit visit_each append_visited
  visit-own_parent zero = refl
  visit-own_parent (suc depth) =
      let unseen : covered [] h ≡ false = ground (arith, named) in
      ap
        (λ (b : Bool). elim b [
          | true ↦ some []
          | false ↦ append_visited h (visit_each (visit edges depth) (parents_of edges h) [])
        ])
        unseen
      ∙ ap (λ ps. append_visited h (visit_each (visit edges depth) ps [])) own
      ∙ ap
          (λ (r : Option (List String)).
            append_visited h
              (elim r [ none ↦ none | some next ↦ visit_each (visit edges depth) [] next ]))
          (visit-own_parent depth)

  -- For a node that is not empty and its own only parent, no depth of recursion is enough.
  pub ancestor_path-own_parent : (depth : ℕ) → ancestor_path edges depth (h ∷ []) ≡ none
  unfolding ancestor_path visit_each
  ancestor_path-own_parent depth =
      ap
        (λ (r : Option (List String)). elim r [
          | none ↦ none
          | some next ↦ visit_each (visit edges depth) [] next
        ])
        (visit-own_parent depth)
