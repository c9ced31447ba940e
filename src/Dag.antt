-- ===== src/Dag.antt =====
-- scripts/forensic/verify.py: `_detect_dag_cycles`, the depth-first search for cycles among the nodes
-- of an evidence graph. The set of node hashes is a list in the order of its iteration. The colors
-- are two lists of the nodes that became gray and black; a node in both is black. An edge whose ends
-- are not both texts of the set is left out, as in the source for every value that can be hashed.
pub mod Acyclic
pub mod Paths
pub mod Exact
pub mod Detected
pub mod Inventory
pub mod Examples
use text.Mathlib.Text.{◌==◌ as str_eq}
use protocol_robustness_fram.Prelude.{
  ℕ, zero, suc, String, Bool, true, false, ◌&&◌, List, [], ◌∷◌, ◌++◌, Option, none, some, length,
  map, if◌then◌else◌,
}
use protocol_robustness_fram.Json.{Json, str, Fields, get, elem}

abbrev pub Adjacency : Type 0
Adjacency = List (String × List String)

-- `adj[p].append(c)`
abbrev pub append_child : String → String → Adjacency → Adjacency
append_child p c [] = []
append_child p c ((h, cs) ∷ adj) =
    let rest = append_child p c adj in
    if str_eq h p then (h, cs ++ c ∷ []) ∷ adj else (h, cs) ∷ rest

-- An end of an edge that can be a node.
abbrev pub edge_end : Json → Option String
edge_end (str s) = some s
edge_end _ = none

-- An edge of which both ends are nodes.
abbrev pub add_edge : List String → Option String → Option String → Adjacency → Adjacency
add_edge nodes none c adj = adj
add_edge nodes (some p) none adj = adj
add_edge nodes (some p) (some c) adj =
    if elem p nodes && elem c nodes then append_child p c adj else adj

unfoldable pub add_edges : List String → List Fields → Adjacency → Adjacency
add_edges nodes [] adj = adj
add_edges nodes (e ∷ edges) adj =
    add_edges nodes edges
      (add_edge nodes (edge_end (get "parent" e)) (edge_end (get "child" e)) adj)

unfoldable pub adjacency : List Fields → List String → Adjacency
unfolding add_edges
adjacency edges nodes = add_edges nodes edges (map (λ h. (h, [])) nodes)

-- `adj.get(u, [])`
abbrev pub children_of : Adjacency → String → List String
children_of [] u = []
children_of ((h, cs) ∷ adj) u = if str_eq h u then cs else children_of adj u

pub data Color : Type 0 where
  white gray black : Color

pub record Search : Type 0 where
  pub grays : List String
  pub blacks : List String
  pub parent : List (String × String)
  pub cycles : List (List String)

abbrev pub color_of : Search → String → Color
color_of s v = if elem v s.blacks then black else if elem v s.grays then gray else white

abbrev pub parent_of : List (String × String) → String → Option String
parent_of [] v = none
parent_of ((w, u) ∷ parents) v = if str_eq w v then some u else parent_of parents v

-- The loop that walks from a node to the start of the cycle. A node has one parent, that was gray
-- before it, so there are no more steps than entries.
unfoldable pub walk_back : ℕ → List (String × String) → String → String → List String
walk_back zero parents v cur = []
walk_back (suc n) parents v cur = elim (str_eq cur v) [
  | true ↦ []
  | false ↦ elim (parent_of parents cur) [ none ↦ [] | some p ↦ p ∷ walk_back n parents v p ]
]

abbrev pub reverse_onto : List String → List String → List String
reverse_onto [] done = done
reverse_onto (x ∷ xs) done = reverse_onto xs (x ∷ done)

abbrev pub ends_with : String → List String → Bool
ends_with v [] = false
ends_with v (x ∷ xs) = elim xs [ [] ↦ str_eq x v | y ∷ ys ↦ ends_with v xs ]

abbrev pub without_last : List String → List String
without_last [] = []
without_last (x ∷ xs) = elim xs [ [] ↦ [] | y ∷ ys ↦ x ∷ without_last xs ]

-- The cycle that is closed by the edge from `u` to the gray node `v`.
unfoldable pub cycle_from : List (String × String) → String → String → List String
unfolding walk_back
cycle_from parents u v =
    let cycle = v ∷ u ∷ walk_back (length parents) parents v u in
    if ends_with v cycle then reverse_onto (without_last cycle) [] else reverse_onto cycle []

abbrev pub open_node : String → Search → Search
open_node u s = record s { grays = u ∷ s.grays }

abbrev pub close_node : String → Option Search → Option Search
close_node u none = none
close_node u (some s) = some (record s { blacks = u ∷ s.blacks })

unfoldable pub add_cycle : String → String → Search → Search
unfolding cycle_from
add_cycle u v s = record s { cycles = s.cycles ++ cycle_from s.parent u v ∷ [] }

abbrev pub set_parent : String → String → Search → Search
set_parent v u s = record s { parent = (v, u) ∷ s.parent }

-- The loop over the children of a node. All children are nodes, so that none is without a color.
unfoldable pub search_children :
    (String → Search → Option Search) → String → List String → Search → Option Search
unfolding add_cycle
search_children visit u [] s = some s
search_children visit u (v ∷ vs) s = elim (color_of s v) [
  | black ↦ search_children visit u vs s
  | gray ↦ search_children visit u vs (add_cycle u v s)
  | white ↦ elim (visit v (set_parent v u s)) [
    | none ↦ none
    | some t ↦ search_children visit u vs t
  ]
]

-- `dfs`, on a bound for the depth of its recursion; `none` is a recursion that goes deeper.
unfoldable pub search : Adjacency → ℕ → String → Search → Option Search
unfolding search_children
search adj zero u s = none
search adj (suc depth) u s =
    close_node u (search_children (search adj depth) u (children_of adj u) (open_node u s))

-- The loop over the nodes.
unfoldable pub search_all : Adjacency → ℕ → List String → Search → Option Search
unfolding search
search_all adj depth [] s = some s
search_all adj depth (h ∷ hs) s = elim (color_of s h) [
  | white ↦ elim (search adj depth h s) [ none ↦ none | some t ↦ search_all adj depth hs t ]
  | _ ↦ search_all adj depth hs s
]

abbrev pub start : Search
start = record { grays = []; blacks = []; parent = []; cycles = [] }

abbrev pub cycles_of : Option Search → Option (List (List String))
cycles_of none = none
cycles_of (some s) = some s.cycles

-- Every nested call opens another node, so the number of nodes bounds the depth.
unfoldable pub detect_dag_cycles : List Fields → List String → Option (List (List String))
unfolding search_all adjacency
detect_dag_cycles edges nodes =
    cycles_of (search_all (adjacency edges nodes) (length nodes) nodes start)
