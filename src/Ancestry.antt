-- ===== src/Ancestry.antt =====
-- scripts/forensic/mechanism_persistence.py: `_ancestor_path`, the depth-first order of evidence nodes.
-- The list `ordered`, whose elements are also the set `seen`, is kept with its last element first.
pub mod Order
mod Examples
use text.Mathlib.Text.{◌==◌ as str_eq}
use protocol_robustness_fram.Prelude.{
  ℕ, zero, suc, String, Bool, true, false, ◌||◌, List, [], ◌∷◌, Option, none, some, if◌then◌else◌,
}
use protocol_robustness_fram.Json.{elem}

-- `parents_by_child.get(h, [])`
abbrev pub parents_of : List (String × List String) → String → List String
parents_of [] h = []
parents_of ((child, parents) ∷ edges) h = if str_eq child h then parents else parents_of edges h

-- A loop that visits every hash of a list.
unfoldable pub visit_each :
    (String → List String → Option (List String)) → List String → List String → Option (List String)
visit_each visit [] ordered = some ordered
visit_each visit (h ∷ hs) ordered = elim (visit h ordered) [
  | none ↦ none
  | some next ↦ visit_each visit hs next
]

-- `seen.add(h)` and `ordered.append(h)`, once the parents are visited.
unfoldable pub append_visited : String → Option (List String) → Option (List String)
append_visited h none = none
append_visited h (some ordered) = some (h ∷ ordered)

-- `visit`, on a bound for the depth of its recursion; `none` is a recursion that goes deeper.
unfoldable pub visit : List (String × List String) → ℕ → String → List String → Option (List String)
unfolding visit_each append_visited
visit edges zero h ordered = none
visit edges (suc depth) h ordered = elim (str_eq h "" || elem h ordered) [
  | true ↦ some ordered
  | false ↦ append_visited h (visit_each (visit edges depth) (parents_of edges h) ordered)
]

unfoldable pub ancestor_path : List (String × List String) → ℕ → List String → Option (List String)
ancestor_path edges depth node_hashes = visit_each (visit edges depth) node_hashes []
