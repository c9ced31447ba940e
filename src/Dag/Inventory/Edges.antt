-- ===== src/Dag/Inventory/Edges.antt =====
-- The graph that the search for cycles builds has every listed edge between nodes.
use text.Mathlib.Text.{◌==◌ as str_eq}
use text.Mathlib.TextEquality.{eq_iff}
use mathlib.Core.List.{Memᴰ}
use mathlib.Core.List.Memᴰ
use protocol_robustness_fram.Prelude.{
  ◌≡◌, ◌⊎◌, refl, sym, ap, subst, ◌∙◌, String, Bool, true, false, ◌&&◌, ◌||◌, List, [], ◌∷◌, ◌++◌,
  Option, none, some, arith, inl, inr, Bool-cases, map, if_eq_true, if_eq_false,
}
use protocol_robustness_fram.Json.{Json, str, Fields, get, elem}
use protocol_robustness_fram.Dag.{
  Adjacency, append_child, edge_end, add_edge, add_edges, adjacency, children_of,
}
use protocol_robustness_fram.Dag.Inventory.{has_pair, same_pair, add_pair, edge_pairs, truthy_text}

abbrev has_key : String → Adjacency → Bool
has_key p [] = false
has_key p ((h, cs) ∷ adj) = str_eq h p || has_key p adj

Mem-snoc : (c : String) (cs : List String) → Memᴰ c (cs ++ c ∷ [])
Mem-snoc c [] = Memᴰ.head refl
Mem-snoc c (x ∷ cs) = Memᴰ.tail (Mem-snoc c cs)

Mem-append : {k : String} (cs ds : List String) → Memᴰ k cs → Memᴰ k (cs ++ ds)
Mem-append [] ds m = elim m [ ]
Mem-append (x ∷ cs) ds m = elim (Memᴰ.cases_cons m) [
  | inl here ↦ Memᴰ.head here
  | inr later ↦ Memᴰ.tail (Mem-append cs ds later)
]

-- A later adjacency has the same keys and no fewer children.
abbrev Extends : Adjacency → Adjacency → Type 0
Extends adj bdj =
    ((h : String) → has_key h adj ≡ has_key h bdj)
    × ((h k : String) → Memᴰ k (children_of adj h) → Memᴰ k (children_of bdj h))

Extends-cons :
    (h : String) (cs ds : List String) (adj bdj : Adjacency)
    → ((k : String) → Memᴰ k cs → Memᴰ k ds)
    → Extends adj bdj
    → Extends ((h, cs) ∷ adj) ((h, ds) ∷ bdj)
Extends-cons h cs ds adj bdj more (same, grows) = (
  λ i. ap (λ b. str_eq h i || b) (same i),
  λ i k m. elim (Bool-cases (str_eq h i)) [
    | inl here ↦
        subst (Memᴰ k) (sym (if_eq_true (str_eq h i) _ _ here))
          (more k (subst (Memᴰ k) (if_eq_true (str_eq h i) _ _ here) m))
    | inr other ↦
        subst (Memᴰ k) (sym (if_eq_false (str_eq h i) _ _ other))
          (grows i k (subst (Memᴰ k) (if_eq_false (str_eq h i) _ _ other) m))
  ],
)

append_child-Extends : (p c : String) (adj : Adjacency) → Extends adj (append_child p c adj)
append_child-Extends p c [] = (λ h. refl, λ h k m. m)
append_child-Extends p c ((h, cs) ∷ adj) = elim (Bool-cases (str_eq h p)) [
  | inl here ↦ subst (Extends ((h, cs) ∷ adj)) (sym (if_eq_true (str_eq h p) _ _ here)) (
      Extends-cons h cs (cs ++ c ∷ []) adj adj (λ k m. Mem-append cs (c ∷ []) m)
        (λ i. refl, λ i k m. m))
  | inr other ↦
      subst (Extends ((h, cs) ∷ adj)) (sym (if_eq_false (str_eq h p) _ _ other))
        (Extends-cons h cs cs adj (append_child p c adj) (λ k m. m) (append_child-Extends p c adj))
]

append_child-Mem :
    (p c : String) (adj : Adjacency)
    → has_key p adj ≡ true
    → Memᴰ c (children_of (append_child p c adj) p)
append_child-Mem p c [] e = cc
append_child-Mem p c ((h, cs) ∷ adj) e = elim (Bool-cases (str_eq h p)) [
  | inl here ↦
      subst (λ a. Memᴰ c (children_of a p)) (sym (if_eq_true (str_eq h p) _ _ here))
        (subst (Memᴰ c) (sym (if_eq_true (str_eq h p) _ _ here)) (Mem-snoc c cs))
  | inr other ↦
      subst (λ a. Memᴰ c (children_of a p)) (sym (if_eq_false (str_eq h p) _ _ other))
        (subst (Memᴰ c) (sym (if_eq_false (str_eq h p) _ _ other))
          (append_child-Mem p c adj (ground (arith, e, other))))
]

truthy-edge_end : (j : Json) (s : String) → truthy_text j ≡ some s → edge_end j ≡ some s
truthy-edge_end (str t) s e = elim (Bool-cases (str_eq t "")) [
  | inl empty ↦
      absurd
        (let bad : ◌≡◌ {A = Option String} none (some s) = ground (arith, e, empty) in cc (bad))
  | inr text ↦ ground (arith, e, text)
]
truthy-edge_end _ s e = cc

same_pair-eq :
    (p c q d : String)
    → same_pair p c (q, d) ≡ true
    → (◌≡◌ {A = Option String} (some q) (some p)) × (◌≡◌ {A = Option String} (some d) (some c))
same_pair-eq p c q d e =
    (ap some ((eq_iff q p).0 (ground (arith, e))), ap some ((eq_iff d c).0 (ground (arith, e))))

add_pair-cases :
    (p c : String) (a b : Option String) (pairs : List (String × String))
    → has_pair p c (add_pair a b pairs) ≡ true
    → ((a ≡ some p) × (b ≡ some c)) ⊎ (has_pair p c pairs ≡ true)
add_pair-cases p c none b pairs e = inr e
add_pair-cases p c (some q) none pairs e = inr e
add_pair-cases p c (some q) (some d) pairs e = elim (Bool-cases (has_pair q d pairs)) [
  | inl known ↦
      inr (subst (λ ps. has_pair p c ps ≡ true) (if_eq_true (has_pair q d pairs) _ _ known) e)
  | inr new ↦
      let e' = subst (λ ps. has_pair p c ps ≡ true) (if_eq_false (has_pair q d pairs) _ _ new) e in
      elim (Bool-cases (same_pair p c (q, d))) [
        | inl same ↦ inl (same_pair-eq p c q d same)
        | inr other ↦ inr (ground (arith, e', other))
      ]
]

module _ (nodes : List String) where
  add_edge-Extends : (p c : Option String) (adj : Adjacency) → Extends adj (add_edge nodes p c adj)
  add_edge-Extends none c adj = (λ h. refl, λ h k m. m)
  add_edge-Extends (some p) none adj = (λ h. refl, λ h k m. m)
  add_edge-Extends (some p) (some c) adj = elim (Bool-cases (elem p nodes && elem c nodes)) [
    | inl both ↦
        subst (Extends adj) (sym (if_eq_true (elem p nodes && elem c nodes) _ _ both))
          (append_child-Extends p c adj)
    | inr apart ↦
        subst (Extends adj) (sym (if_eq_false (elem p nodes && elem c nodes) _ _ apart))
          (λ h. refl, λ h k m. m)
  ]

  add_edges-grows :
      (edges : List Fields) (adj : Adjacency) (h k : String)
      → Memᴰ k (children_of adj h)
      → Memᴰ k (children_of (add_edges nodes edges adj) h)
  unfolding add_edges
  add_edges-grows [] adj h k m = m
  add_edges-grows (e ∷ edges) adj h k m =
      add_edges-grows edges _ h k
        ((add_edge-Extends (edge_end (get "parent" e)) (edge_end (get "child" e)) adj).1 h k m)

  module _ (p c : String) (both : elem p nodes && elem c nodes ≡ true) where
    add_edge-Mem :
        (adj : Adjacency)
        → has_key p adj ≡ true
        → Memᴰ c (children_of (add_edge nodes (some p) (some c) adj) p)
    add_edge-Mem adj e =
        subst (λ a. Memᴰ c (children_of a p))
          (sym (if_eq_true (elem p nodes && elem c nodes) _ _ both)) (append_child-Mem p c adj e)

    add_edges-Mem :
        (edges : List Fields) (adj : Adjacency)
        → has_key p adj ≡ true
        → has_pair p c (edge_pairs edges) ≡ true
        → Memᴰ c (children_of (add_edges nodes edges adj) p)
    unfolding add_edges edge_pairs
    add_edges-Mem [] adj key e = cc
    add_edges-Mem (d ∷ edges) adj key e =
        elim (add_pair-cases p c (truthy_text (get "parent" d)) (truthy_text (get "child" d))
          (edge_pairs edges) e) [
            | inl (is_p, is_c) ↦
                subst
                  (λ a. Memᴰ c (
                    children_of
                      (add_edges nodes edges (add_edge nodes a (edge_end (get "child" d)) adj)) p))
                  (sym (truthy-edge_end (get "parent" d) p is_p))
                  (subst
                    (λ b.
                      Memᴰ c
                        (children_of (add_edges nodes edges (add_edge nodes (some p) b adj)) p))
                    (sym (truthy-edge_end (get "child" d) c is_c))
                    (add_edges-grows edges _ p c (add_edge-Mem adj key)))
            | inr later ↦
                let grown =
                  add_edge-Extends (edge_end (get "parent" d)) (edge_end (get "child" d)) adj in
                add_edges-Mem edges _ (sym (grown.0 p) ∙ key) later
          ]

  no_children-key : (p : String) (hs : List String) → has_key p (map (λ h. (h, [])) hs) ≡ elem p hs
  no_children-key p [] = refl
  no_children-key p (h ∷ hs) = ap (λ b. str_eq h p || b) (no_children-key p hs)

  -- A listed edge between nodes is an edge of the graph.
  pub adjacency-Mem :
      (edges : List Fields) (p c : String)
      → elem p nodes ≡ true
      → elem c nodes ≡ true
      → has_pair p c (edge_pairs edges) ≡ true
      → Memᴰ c (children_of (adjacency edges nodes) p)
  unfolding adjacency
  adjacency-Mem edges p c in_p in_c e =
      add_edges-Mem p c (ground (arith, in_p, in_c)) edges _ (no_children-key p nodes ∙ in_p) e
