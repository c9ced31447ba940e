-- ===== src/Dag/Detected.antt =====
-- What the detection of cycles says of the edges of an evidence graph.
use text.Mathlib.Text.{◌==◌ as str_eq}
use text.Mathlib.TextEquality.{eq_iff}
use mathlib.Core.List.{Memᴰ}
use protocol_robustness_fram.Prelude.{
  ◌≡◌, sym, ap, subst, ◌∙◌, String, true, ◌&&◌, List, [], ◌∷◌, ◌++◌, Option, none, some, arith, inl,
  inr, Bool-cases, All, length, map, if_eq_true, if_eq_false,
}
use protocol_robustness_fram.Prelude.Filter.{All-Mem}
use protocol_robustness_fram.Json.{elem, Fields, get}
use protocol_robustness_fram.Dag.{
  Adjacency, append_child, edge_end, add_edge, add_edges, adjacency, children_of, Search,
  search_all, start, cycles_of, detect_dag_cycles,
}
use protocol_robustness_fram.Dag.Acyclic.{Ordered, search_all-Visited}

some_inj : {A : Type 0} {a b : A} → ◌≡◌ {A = Option A} (some a) (some b) → a ≡ b
some_inj e = cc

elem-Mem : (h : String) (hs : List String) → elem h hs ≡ true → Memᴰ h hs
elem-Mem h [] e = cc
elem-Mem h (x ∷ xs) e = elim (Bool-cases (str_eq x h)) [
  | inl same ↦ Memᴰ.head (sym ((eq_iff x h).0 same))
  | inr apart ↦ Memᴰ.tail (elem-Mem h xs (ground (arith, e, apart)))
]

abbrev Within : List String → Adjacency → Type 0
Within nodes [] = Unit
Within nodes ((h, cs) ∷ adj) = All (λ c. Memᴰ c nodes) cs × Within nodes adj

module _ (nodes : List String) where
  children-snoc :
      (c : String) (cs : List String)
      → Memᴰ c nodes
      → All (λ x. Memᴰ x nodes) cs
      → All (λ x. Memᴰ x nodes) (cs ++ c ∷ [])
  children-snoc c [] m a = (m, tt)
  children-snoc c (x ∷ xs) m (n, a) = (n, children-snoc c xs m a)

  append_child-Within :
      (p c : String) (adj : Adjacency)
      → Memᴰ c nodes
      → Within nodes adj
      → Within nodes (append_child p c adj)
  append_child-Within p c [] m w = tt
  append_child-Within p c ((h, cs) ∷ adj) m (a, w) = elim (Bool-cases (str_eq h p)) [
    | inl here ↦
        subst (Within nodes) (sym (if_eq_true (str_eq h p) _ _ here)) (children-snoc c cs m a, w)
    | inr other ↦
        subst (Within nodes) (sym (if_eq_false (str_eq h p) _ _ other))
          (a, append_child-Within p c adj m w)
  ]

  add_edge-Within :
      (p c : Option String) (adj : Adjacency)
      → Within nodes adj
      → Within nodes (add_edge nodes p c adj)
  add_edge-Within none c adj w = w
  add_edge-Within (some p) none adj w = w
  add_edge-Within (some p) (some c) adj w = elim (Bool-cases (elem p nodes && elem c nodes)) [
    | inl both ↦
        subst (Within nodes) (sym (if_eq_true (elem p nodes && elem c nodes) _ _ both))
          (append_child-Within p c adj (elem-Mem c nodes (ground (arith, both))) w)
    | inr apart ↦
        subst (Within nodes) (sym (if_eq_false (elem p nodes && elem c nodes) _ _ apart)) w
  ]

  add_edges-Within :
      (edges : List Fields) (adj : Adjacency)
      → Within nodes adj
      → Within nodes (add_edges nodes edges adj)
  unfolding add_edges
  add_edges-Within [] adj w = w
  add_edges-Within (e ∷ edges) adj w =
      add_edges-Within edges _
        (add_edge-Within (edge_end (get "parent" e)) (edge_end (get "child" e)) adj w)

  no_children-Within : (hs : List String) → Within nodes (map (λ h. (h, [])) hs)
  no_children-Within [] = tt
  no_children-Within (h ∷ hs) = (tt, no_children-Within hs)

  children_of-Within :
      (adj : Adjacency) (h c : String)
      → Within nodes adj
      → Memᴰ c (children_of adj h)
      → Memᴰ c nodes
  children_of-Within [] h c w m = elim m [ ]
  children_of-Within ((i, cs) ∷ adj) h c (a, w) m = elim (Bool-cases (str_eq i h)) [
    | inl here ↦
        All-Mem (λ x. Memᴰ x nodes) cs a (subst (Memᴰ c) (if_eq_true (str_eq i h) _ _ here) m)
    | inr other ↦
        children_of-Within adj h c w (subst (Memᴰ c) (if_eq_false (str_eq i h) _ _ other) m)
  ]

  module _ (edges : List Fields) where
    pub adjacency-within :
        (h c : String) → Memᴰ c (children_of (adjacency edges nodes) h) → Memᴰ c nodes
    unfolding adjacency
    adjacency-within h c =
        children_of-Within (adjacency edges nodes) h c
          (add_edges-Within edges _ (no_children-Within nodes))

    pub searched :
        (t : Search) × (search_all (adjacency edges nodes) (length nodes) nodes start ≡ some t)
        × (t.cycles ≡ [] → Ordered (adjacency edges nodes) t.blacks)
        × (t.cycles ≡ [] → All (λ h. elem h t.blacks ≡ true) nodes)
    searched =
        let (t, e, g, all_black) =
          search_all-Visited (adjacency edges nodes) nodes adjacency-within nodes start (λ h m. m)
            (λ k bad. bad) in
        (t, e, λ none_found. (g.3 none_found).1 tt, all_black)

    -- The search ends for every list of edges and nodes: its recursion is never deeper than the
    -- number of nodes.
    pub detect_dag_cycles-total :
        (cycles : List (List String)) × (detect_dag_cycles edges nodes ≡ some cycles)
    unfolding detect_dag_cycles
    detect_dag_cycles-total =
        let (t, e, ordered, all_black) = searched in (t.cycles, ap cycles_of e)

    -- If no cycle is reported, all nodes can be listed so that every node stands before all its
    -- children, which are listed too.
    pub detect_dag_cycles-Ordered :
        detect_dag_cycles edges nodes ≡ some []
        → (order : List String) × Ordered (adjacency edges nodes) order
          × All (λ h. elem h order ≡ true) nodes
    unfolding detect_dag_cycles
    detect_dag_cycles-Ordered none_found =
        let (t, e, ordered, all_black) = searched in
        let empty : t.cycles ≡ [] = some_inj (sym (ap cycles_of e) ∙ none_found) in
        (t.blacks, ordered empty, all_black empty)
